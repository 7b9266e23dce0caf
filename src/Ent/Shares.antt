-- ===== src/Ent/Shares.antt =====
-- internal/ent/share, internal/ent/share_create.go and the Share part of internal/ent/mutation.go:
-- the columns of the table and what the generated code says of them.
pub mod Fields
use shareserver.Base.{ℕ, ℤ, Bool, true, false, List, [], ◌∷◌, Text, codes}
use shareserver.Ent.{Value, text, bool, int, Kind, string_kind, bool_kind, int_kind, Schema}
use shareserver.Ent.Mutation.{
  Mutation, FieldMethods, NullableMethods, NumberMethods, field_methods, nullable_methods,
  number_methods,
}
use shareserver.Ent.Predicate.{
  OrderPredicates, TextPredicates, IdPredicates, BoolPredicates, NullablePredicates,
  order_predicates, text_predicates, text_id_predicates, bool_predicates, nullable_predicates,
}

pub data ShareColumn : Type 0 where
  field_id field_title field_visibility field_private_key_hash field_download_password_hash
        field_encrypted field_cipher_meta field_zip_manifest field_security_warning
        field_admin_message field_size field_blob_path field_blob_sha256 field_uploader_ip
        field_expires_at field_created_at field_purged_at :
      ShareColumn

abbrev pub column_index : ShareColumn → ℕ
column_index field_id = 0
column_index field_title = 1
column_index field_visibility = 2
column_index field_private_key_hash = 3
column_index field_download_password_hash = 4
column_index field_encrypted = 5
column_index field_cipher_meta = 6
column_index field_zip_manifest = 7
column_index field_security_warning = 8
column_index field_admin_message = 9
column_index field_size = 10
column_index field_blob_path = 11
column_index field_blob_sha256 = 12
column_index field_uploader_ip = 13
column_index field_expires_at = 14
column_index field_created_at = 15
column_index field_purged_at = 16

abbrev pub column_name : ShareColumn → Text
column_name field_id = codes "id"
column_name field_title = codes "title"
column_name field_visibility = codes "visibility"
column_name field_private_key_hash = codes "private_key_hash"
column_name field_download_password_hash = codes "download_password_hash"
column_name field_encrypted = codes "encrypted"
column_name field_cipher_meta = codes "cipher_meta"
column_name field_zip_manifest = codes "zip_manifest"
column_name field_security_warning = codes "security_warning"
column_name field_admin_message = codes "admin_message"
column_name field_size = codes "size"
column_name field_blob_path = codes "blob_path"
column_name field_blob_sha256 = codes "blob_sha256"
column_name field_uploader_ip = codes "uploader_ip"
column_name field_expires_at = codes "expires_at"
column_name field_created_at = codes "created_at"
column_name field_purged_at = codes "purged_at"

abbrev pub columns : List ShareColumn
columns =
    field_id ∷ field_title ∷ field_visibility ∷ field_private_key_hash
    ∷ field_download_password_hash ∷ field_encrypted ∷ field_cipher_meta ∷ field_zip_manifest
    ∷ field_security_warning ∷ field_admin_message ∷ field_size ∷ field_blob_path
    ∷ field_blob_sha256 ∷ field_uploader_ip ∷ field_expires_at ∷ field_created_at ∷ field_purged_at
    ∷ []

-- `Fields`, in its order.
abbrev pub field_columns : List ShareColumn
field_columns =
    field_title ∷ field_visibility ∷ field_private_key_hash ∷ field_download_password_hash
    ∷ field_encrypted ∷ field_cipher_meta ∷ field_zip_manifest ∷ field_security_warning
    ∷ field_admin_message ∷ field_size ∷ field_blob_path ∷ field_blob_sha256 ∷ field_uploader_ip
    ∷ field_expires_at ∷ field_created_at ∷ field_purged_at ∷ []

-- What `SetField` asserts; `id` is no field.
abbrev pub field_kind : ShareColumn → Kind
field_kind field_id = string_kind
field_kind field_title = string_kind
field_kind field_visibility = string_kind
field_kind field_private_key_hash = string_kind
field_kind field_download_password_hash = string_kind
field_kind field_encrypted = bool_kind
field_kind field_cipher_meta = string_kind
field_kind field_zip_manifest = string_kind
field_kind field_security_warning = bool_kind
field_kind field_admin_message = string_kind
field_kind field_size = int_kind
field_kind field_blob_path = string_kind
field_kind field_blob_sha256 = string_kind
field_kind field_uploader_ip = string_kind
field_kind field_expires_at = string_kind
field_kind field_created_at = string_kind
field_kind field_purged_at = string_kind

abbrev pub nullable_columns : List ShareColumn
nullable_columns =
    field_private_key_hash ∷ field_download_password_hash ∷ field_cipher_meta ∷ field_zip_manifest
    ∷ field_expires_at ∷ field_purged_at ∷ []

abbrev pub required_columns : List ShareColumn
required_columns =
    field_title ∷ field_visibility ∷ field_encrypted ∷ field_security_warning ∷ field_admin_message
    ∷ field_size ∷ field_blob_path ∷ field_blob_sha256 ∷ field_uploader_ip ∷ field_created_at ∷ []

abbrev pub default_values : List (ShareColumn × Value)
default_values = (field_security_warning, bool false) ∷ (field_admin_message, text []) ∷ []

abbrev pub schema : Schema ShareColumn
schema = record {
  columns = columns;
  index = column_index;
  name = column_name;
  fields = field_columns;
  kind = field_kind;
  nullable = nullable_columns;
  required = required_columns;
  defaults = default_values;
}

abbrev pub ShareMutation : Type 0
ShareMutation = Mutation ShareColumn
