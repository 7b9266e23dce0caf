-- ===== src/Ent/AuditEvents.antt =====
-- internal/ent/auditevent, internal/ent/auditevent_create.go and the AuditEvent part of
-- internal/ent/mutation.go: the columns of the table, what the generated code says of them, and a
-- block of predicates and of methods for each.
use shareserver.Base.{ℕ, ℤ, List, [], ◌∷◌, Text, codes}
use shareserver.Ent.{text, int, Kind, string_kind, int_kind, Schema}
use shareserver.Ent.Mutation.{Mutation, FieldMethods, field_methods}
use shareserver.Ent.Predicate.{OrderPredicates, TextPredicates, order_predicates, text_predicates}

pub data AuditEventColumn : Type 0 where
  field_id field_actor field_ip field_action field_target field_meta field_created_at :
      AuditEventColumn

abbrev pub column_index : AuditEventColumn → ℕ
column_index field_id = 0
column_index field_actor = 1
column_index field_ip = 2
column_index field_action = 3
column_index field_target = 4
column_index field_meta = 5
column_index field_created_at = 6

abbrev pub column_name : AuditEventColumn → Text
column_name field_id = codes "id"
column_name field_actor = codes "actor"
column_name field_ip = codes "ip"
column_name field_action = codes "action"
column_name field_target = codes "target"
column_name field_meta = codes "meta"
column_name field_created_at = codes "created_at"

abbrev pub columns : List AuditEventColumn
columns =
    field_id ∷ field_actor ∷ field_ip ∷ field_action ∷ field_target ∷ field_meta ∷ field_created_at
    ∷ []

-- `Fields`, in its order.
abbrev pub field_columns : List AuditEventColumn
field_columns =
    field_actor ∷ field_ip ∷ field_action ∷ field_target ∷ field_meta ∷ field_created_at ∷ []

-- What `SetField` asserts; `id` is no field.
abbrev pub field_kind : AuditEventColumn → Kind
field_kind field_id = int_kind
field_kind field_actor = string_kind
field_kind field_ip = string_kind
field_kind field_action = string_kind
field_kind field_target = string_kind
field_kind field_meta = string_kind
field_kind field_created_at = string_kind

abbrev pub required_columns : List AuditEventColumn
required_columns =
    field_actor ∷ field_ip ∷ field_action ∷ field_target ∷ field_meta ∷ field_created_at ∷ []

abbrev pub schema : Schema AuditEventColumn
schema = record {
  columns = columns;
  index = column_index;
  name = column_name;
  fields = field_columns;
  kind = field_kind;
  nullable = [];
  required = required_columns;
  defaults = [];
}

abbrev pub AuditEventMutation : Type 0
AuditEventMutation = Mutation AuditEventColumn

abbrev pub id_predicates : OrderPredicates AuditEventColumn ℤ
id_predicates = order_predicates field_id int

abbrev pub actor_predicates : TextPredicates AuditEventColumn
actor_predicates = text_predicates field_actor

abbrev pub ip_predicates : TextPredicates AuditEventColumn
ip_predicates = text_predicates field_ip

abbrev pub action_predicates : TextPredicates AuditEventColumn
action_predicates = text_predicates field_action

abbrev pub target_predicates : TextPredicates AuditEventColumn
target_predicates = text_predicates field_target

abbrev pub meta_predicates : TextPredicates AuditEventColumn
meta_predicates = text_predicates field_meta

abbrev pub created_at_predicates : TextPredicates AuditEventColumn
created_at_predicates = text_predicates field_created_at

abbrev pub actor_methods : FieldMethods AuditEventColumn Text
actor_methods = field_methods schema field_actor text

abbrev pub ip_methods : FieldMethods AuditEventColumn Text
ip_methods = field_methods schema field_ip text

abbrev pub action_methods : FieldMethods AuditEventColumn Text
action_methods = field_methods schema field_action text

abbrev pub target_methods : FieldMethods AuditEventColumn Text
target_methods = field_methods schema field_target text

abbrev pub meta_methods : FieldMethods AuditEventColumn Text
meta_methods = field_methods schema field_meta text

abbrev pub created_at_methods : FieldMethods AuditEventColumn Text
created_at_methods = field_methods schema field_created_at text
