-- ===== src/Ent/Admins.antt =====
-- internal/ent/admin, internal/ent/admin_create.go and the Admin part of internal/ent/mutation.go:
-- the columns of the table, what the generated code says of them, and a block of predicates and of
-- methods for each.
use shareserver.Base.{ℕ, ℤ, List, [], ◌∷◌, Text, codes}
use shareserver.Ent.{text, int, Kind, string_kind, int_kind, Schema}
use shareserver.Ent.Mutation.{Mutation, FieldMethods, field_methods}
use shareserver.Ent.Predicate.{OrderPredicates, TextPredicates, order_predicates, text_predicates}

pub data AdminColumn : Type 0 where
  field_id field_username field_password_hash field_created_at : AdminColumn

abbrev pub column_index : AdminColumn → ℕ
column_index field_id = 0
column_index field_username = 1
column_index field_password_hash = 2
column_index field_created_at = 3

abbrev pub column_name : AdminColumn → Text
column_name field_id = codes "id"
column_name field_username = codes "username"
column_name field_password_hash = codes "password_hash"
column_name field_created_at = codes "created_at"

abbrev pub columns : List AdminColumn
columns = field_id ∷ field_username ∷ field_password_hash ∷ field_created_at ∷ []

-- `Fields`, in its order.
abbrev pub field_columns : List AdminColumn
field_columns = field_username ∷ field_password_hash ∷ field_created_at ∷ []

-- What `SetField` asserts; `id` is no field.
abbrev pub field_kind : AdminColumn → Kind
field_kind field_id = int_kind
field_kind field_username = string_kind
field_kind field_password_hash = string_kind
field_kind field_created_at = string_kind

abbrev pub required_columns : List AdminColumn
required_columns = field_username ∷ field_password_hash ∷ field_created_at ∷ []

abbrev pub schema : Schema AdminColumn
schema = record {
  columns = columns;
  index = column_index;
  name = column_name;
  fields = field_columns;
  kind = field_kind;
  nullable = [];
  required = required_columns;
  defaults = [];
}

abbrev pub AdminMutation : Type 0
AdminMutation = Mutation AdminColumn

abbrev pub id_predicates : OrderPredicates AdminColumn ℤ
id_predicates = order_predicates field_id int

abbrev pub username_predicates : TextPredicates AdminColumn
username_predicates = text_predicates field_username

abbrev pub password_hash_predicates : TextPredicates AdminColumn
password_hash_predicates = text_predicates field_password_hash

abbrev pub created_at_predicates : TextPredicates AdminColumn
created_at_predicates = text_predicates field_created_at

abbrev pub username_methods : FieldMethods AdminColumn Text
username_methods = field_methods schema field_username text

abbrev pub password_hash_methods : FieldMethods AdminColumn Text
password_hash_methods = field_methods schema field_password_hash text

abbrev pub created_at_methods : FieldMethods AdminColumn Text
created_at_methods = field_methods schema field_created_at text
