-- ===== src/Ent/Sessions.antt =====
-- internal/ent/session, internal/ent/session_create.go and the Session part of internal/ent/mutation.go:
-- the columns of the table, what the generated code says of them, and a block of predicates and of
-- methods for each.
use shareserver.Base.{ℕ, ℤ, List, [], ◌∷◌, Text, codes}
use shareserver.Ent.{Value, text, int, Kind, string_kind, int_kind, Schema}
use shareserver.Ent.Mutation.{
  Mutation, FieldMethods, NullableMethods, NumberMethods, field_methods, nullable_methods,
  number_methods,
}
use shareserver.Ent.Predicate.{
  OrderPredicates, TextPredicates, IdPredicates, NullablePredicates, order_predicates,
  text_predicates, text_id_predicates, nullable_predicates,
}

pub data SessionColumn : Type 0 where
  field_id field_admin_id field_csrf field_language field_created_at field_expires_at :
      SessionColumn

abbrev pub column_index : SessionColumn → ℕ
column_index field_id = 0
column_index field_admin_id = 1
column_index field_csrf = 2
column_index field_language = 3
column_index field_created_at = 4
column_index field_expires_at = 5

abbrev pub column_name : SessionColumn → Text
column_name field_id = codes "id"
column_name field_admin_id = codes "admin_id"
column_name field_csrf = codes "csrf"
column_name field_language = codes "language"
column_name field_created_at = codes "created_at"
column_name field_expires_at = codes "expires_at"

abbrev pub columns : List SessionColumn
columns =
    field_id ∷ field_admin_id ∷ field_csrf ∷ field_language ∷ field_created_at ∷ field_expires_at
    ∷ []

-- `Fields`, in its order.
abbrev pub field_columns : List SessionColumn
field_columns =
    field_admin_id ∷ field_csrf ∷ field_language ∷ field_created_at ∷ field_expires_at ∷ []

-- What `SetField` asserts; `id` is no field.
abbrev pub field_kind : SessionColumn → Kind
field_kind field_id = string_kind
field_kind field_admin_id = int_kind
field_kind field_csrf = string_kind
field_kind field_language = string_kind
field_kind field_created_at = string_kind
field_kind field_expires_at = string_kind

abbrev pub nullable_columns : List SessionColumn
nullable_columns = field_admin_id ∷ []

abbrev pub required_columns : List SessionColumn
required_columns = field_csrf ∷ field_language ∷ field_created_at ∷ field_expires_at ∷ []

abbrev pub default_values : List (SessionColumn × Value)
default_values = (field_language, text (codes "en")) ∷ []

abbrev pub schema : Schema SessionColumn
schema = record {
  columns = columns;
  index = column_index;
  name = column_name;
  fields = field_columns;
  kind = field_kind;
  nullable = nullable_columns;
  required = required_columns;
  defaults = default_values;
}

abbrev pub SessionMutation : Type 0
SessionMutation = Mutation SessionColumn

abbrev pub id_predicates : IdPredicates SessionColumn
id_predicates = text_id_predicates field_id

abbrev pub admin_id_predicates : NullablePredicates SessionColumn (OrderPredicates SessionColumn ℤ)
admin_id_predicates = nullable_predicates field_admin_id (order_predicates field_admin_id int)

abbrev pub csrf_predicates : TextPredicates SessionColumn
csrf_predicates = text_predicates field_csrf

abbrev pub language_predicates : TextPredicates SessionColumn
language_predicates = text_predicates field_language

abbrev pub created_at_predicates : TextPredicates SessionColumn
created_at_predicates = text_predicates field_created_at

abbrev pub expires_at_predicates : TextPredicates SessionColumn
expires_at_predicates = text_predicates field_expires_at

abbrev pub admin_id_methods : NullableMethods SessionColumn (NumberMethods SessionColumn)
admin_id_methods = nullable_methods schema field_admin_id (number_methods schema field_admin_id)

abbrev pub csrf_methods : FieldMethods SessionColumn Text
csrf_methods = field_methods schema field_csrf text

abbrev pub language_methods : FieldMethods SessionColumn Text
language_methods = field_methods schema field_language text

abbrev pub created_at_methods : FieldMethods SessionColumn Text
created_at_methods = field_methods schema field_created_at text

abbrev pub expires_at_methods : FieldMethods SessionColumn Text
expires_at_methods = field_methods schema field_expires_at text
