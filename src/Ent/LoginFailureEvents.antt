-- ===== src/Ent/LoginFailureEvents.antt =====
-- internal/ent/loginfailureevent, internal/ent/loginfailureevent_create.go and the LoginFailureEvent part of
-- internal/ent/mutation.go: the columns of the table, what the generated code says of them, and a
-- block of predicates and of methods for each.
use shareserver.Base.{ℕ, ℤ, List, [], ◌∷◌, Text, codes}
use shareserver.Ent.{text, int, Kind, string_kind, int_kind, Schema}
use shareserver.Ent.Mutation.{Mutation, FieldMethods, field_methods}
use shareserver.Ent.Predicate.{OrderPredicates, TextPredicates, order_predicates, text_predicates}

pub data LoginFailureEventColumn : Type 0 where
  field_id field_ip field_happened_at : LoginFailureEventColumn

abbrev pub column_index : LoginFailureEventColumn → ℕ
column_index field_id = 0
column_index field_ip = 1
column_index field_happened_at = 2

abbrev pub column_name : LoginFailureEventColumn → Text
column_name field_id = codes "id"
column_name field_ip = codes "ip"
column_name field_happened_at = codes "happened_at"

abbrev pub columns : List LoginFailureEventColumn
columns = field_id ∷ field_ip ∷ field_happened_at ∷ []

-- `Fields`, in its order.
abbrev pub field_columns : List LoginFailureEventColumn
field_columns = field_ip ∷ field_happened_at ∷ []

-- What `SetField` asserts; `id` is no field.
abbrev pub field_kind : LoginFailureEventColumn → Kind
field_kind field_id = int_kind
field_kind field_ip = string_kind
field_kind field_happened_at = string_kind

abbrev pub required_columns : List LoginFailureEventColumn
required_columns = field_ip ∷ field_happened_at ∷ []

abbrev pub schema : Schema LoginFailureEventColumn
schema = record {
  columns = columns;
  index = column_index;
  name = column_name;
  fields = field_columns;
  kind = field_kind;
  nullable = [];
  required = required_columns;
  defaults = [];
}

abbrev pub LoginFailureEventMutation : Type 0
LoginFailureEventMutation = Mutation LoginFailureEventColumn

abbrev pub id_predicates : OrderPredicates LoginFailureEventColumn ℤ
id_predicates = order_predicates field_id int

abbrev pub ip_predicates : TextPredicates LoginFailureEventColumn
ip_predicates = text_predicates field_ip

abbrev pub happened_at_predicates : TextPredicates LoginFailureEventColumn
happened_at_predicates = text_predicates field_happened_at

abbrev pub ip_methods : FieldMethods LoginFailureEventColumn Text
ip_methods = field_methods schema field_ip text

abbrev pub happened_at_methods : FieldMethods LoginFailureEventColumn Text
happened_at_methods = field_methods schema field_happened_at text
