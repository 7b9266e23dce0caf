-- ===== src/Ent/IpBans.antt =====
-- internal/ent/ipban, internal/ent/ipban_create.go and the IpBan part of internal/ent/mutation.go:
-- the columns of the table, what the generated code says of them, and a block of predicates and of
-- methods for each.
use shareserver.Base.{ℕ, List, [], ◌∷◌, Text, codes}
use shareserver.Ent.{text, Kind, string_kind, Schema}
use shareserver.Ent.Mutation.{Mutation, FieldMethods, field_methods}
use shareserver.Ent.Predicate.{TextPredicates, IdPredicates, text_predicates, text_id_predicates}

pub data IpBanColumn : Type 0 where
  field_ip field_banned_until : IpBanColumn

abbrev pub column_index : IpBanColumn → ℕ
column_index field_ip = 0
column_index field_banned_until = 1

abbrev pub column_name : IpBanColumn → Text
column_name field_ip = codes "ip"
column_name field_banned_until = codes "banned_until"

abbrev pub columns : List IpBanColumn
columns = field_ip ∷ field_banned_until ∷ []

-- `Fields`, in its order.
abbrev pub field_columns : List IpBanColumn
field_columns = field_banned_until ∷ []

-- What `SetField` asserts; `id` is no field.
abbrev pub field_kind : IpBanColumn → Kind
field_kind field_ip = string_kind
field_kind field_banned_until = string_kind

abbrev pub required_columns : List IpBanColumn
required_columns = field_banned_until ∷ []

abbrev pub schema : Schema IpBanColumn
schema = record {
  columns = columns;
  index = column_index;
  name = column_name;
  fields = field_columns;
  kind = field_kind;
  nullable = [];
  required = required_columns;
  defaults = [];
}

abbrev pub IpBanMutation : Type 0
IpBanMutation = Mutation IpBanColumn

abbrev pub ip_predicates : IdPredicates IpBanColumn
ip_predicates = text_id_predicates field_ip

abbrev pub banned_until_predicates : TextPredicates IpBanColumn
banned_until_predicates = text_predicates field_banned_until

abbrev pub banned_until_methods : FieldMethods IpBanColumn Text
banned_until_methods = field_methods schema field_banned_until text
