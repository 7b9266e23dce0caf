-- ===== src/Ent/Shares/Fields.antt =====
-- internal/ent/share/where.go and the field methods of internal/ent/mutation.go, a block for each column.
use shareserver.Base.{ℤ, Bool, Text}
use shareserver.Ent.{text, bool, int}
use shareserver.Ent.Mutation.{
  FieldMethods, NullableMethods, NumberMethods, field_methods, nullable_methods, number_methods,
}
use shareserver.Ent.Predicate.{
  OrderPredicates, TextPredicates, IdPredicates, BoolPredicates, NullablePredicates,
  order_predicates, text_predicates, text_id_predicates, bool_predicates, nullable_predicates,
}
use shareserver.Ent.Shares.{
  ShareColumn, schema, field_id, field_title, field_visibility, field_private_key_hash,
  field_download_password_hash, field_encrypted, field_cipher_meta, field_zip_manifest,
  field_security_warning, field_admin_message, field_size, field_blob_path, field_blob_sha256,
  field_uploader_ip, field_expires_at, field_created_at, field_purged_at,
}

abbrev pub id_predicates : IdPredicates ShareColumn
id_predicates = text_id_predicates field_id

abbrev pub title_predicates : TextPredicates ShareColumn
title_predicates = text_predicates field_title

abbrev pub visibility_predicates : TextPredicates ShareColumn
visibility_predicates = text_predicates field_visibility

abbrev pub private_key_hash_predicates : NullablePredicates ShareColumn (TextPredicates ShareColumn)
private_key_hash_predicates =
    nullable_predicates field_private_key_hash (text_predicates field_private_key_hash)

abbrev pub download_password_hash_predicates :
    NullablePredicates ShareColumn (TextPredicates ShareColumn)
download_password_hash_predicates =
    nullable_predicates field_download_password_hash (text_predicates field_download_password_hash)

abbrev pub encrypted_predicates : BoolPredicates ShareColumn
encrypted_predicates = bool_predicates field_encrypted

abbrev pub cipher_meta_predicates : NullablePredicates ShareColumn (TextPredicates ShareColumn)
cipher_meta_predicates = nullable_predicates field_cipher_meta (text_predicates field_cipher_meta)

abbrev pub zip_manifest_predicates : NullablePredicates ShareColumn (TextPredicates ShareColumn)
zip_manifest_predicates =
    nullable_predicates field_zip_manifest (text_predicates field_zip_manifest)

abbrev pub security_warning_predicates : BoolPredicates ShareColumn
security_warning_predicates = bool_predicates field_security_warning

abbrev pub admin_message_predicates : TextPredicates ShareColumn
admin_message_predicates = text_predicates field_admin_message

abbrev pub size_predicates : OrderPredicates ShareColumn ℤ
size_predicates = order_predicates field_size int

abbrev pub blob_path_predicates : TextPredicates ShareColumn
blob_path_predicates = text_predicates field_blob_path

abbrev pub blob_sha256_predicates : TextPredicates ShareColumn
blob_sha256_predicates = text_predicates field_blob_sha256

abbrev pub uploader_ip_predicates : TextPredicates ShareColumn
uploader_ip_predicates = text_predicates field_uploader_ip

abbrev pub expires_at_predicates : NullablePredicates ShareColumn (TextPredicates ShareColumn)
expires_at_predicates = nullable_predicates field_expires_at (text_predicates field_expires_at)

abbrev pub created_at_predicates : TextPredicates ShareColumn
created_at_predicates = text_predicates field_created_at

abbrev pub purged_at_predicates : NullablePredicates ShareColumn (TextPredicates ShareColumn)
purged_at_predicates = nullable_predicates field_purged_at (text_predicates field_purged_at)

abbrev pub title_methods : FieldMethods ShareColumn Text
title_methods = field_methods schema field_title text

abbrev pub visibility_methods : FieldMethods ShareColumn Text
visibility_methods = field_methods schema field_visibility text

abbrev pub private_key_hash_methods : NullableMethods ShareColumn (FieldMethods ShareColumn Text)
private_key_hash_methods =
    nullable_methods schema field_private_key_hash
      (field_methods schema field_private_key_hash text)

abbrev pub download_password_hash_methods :
    NullableMethods ShareColumn (FieldMethods ShareColumn Text)
download_password_hash_methods =
    nullable_methods schema field_download_password_hash
      (field_methods schema field_download_password_hash text)

abbrev pub encrypted_methods : FieldMethods ShareColumn Bool
encrypted_methods = field_methods schema field_encrypted bool

abbrev pub cipher_meta_methods : NullableMethods ShareColumn (FieldMethods ShareColumn Text)
cipher_meta_methods =
    nullable_methods schema field_cipher_meta (field_methods schema field_cipher_meta text)

abbrev pub zip_manifest_methods : NullableMethods ShareColumn (FieldMethods ShareColumn Text)
zip_manifest_methods =
    nullable_methods schema field_zip_manifest (field_methods schema field_zip_manifest text)

abbrev pub security_warning_methods : FieldMethods ShareColumn Bool
security_warning_methods = field_methods schema field_security_warning bool

abbrev pub admin_message_methods : FieldMethods ShareColumn Text
admin_message_methods = field_methods schema field_admin_message text

abbrev pub size_methods : NumberMethods ShareColumn
size_methods = number_methods schema field_size

abbrev pub blob_path_methods : FieldMethods ShareColumn Text
blob_path_methods = field_methods schema field_blob_path text

abbrev pub blob_sha256_methods : FieldMethods ShareColumn Text
blob_sha256_methods = field_methods schema field_blob_sha256 text

abbrev pub uploader_ip_methods : FieldMethods ShareColumn Text
uploader_ip_methods = field_methods schema field_uploader_ip text

abbrev pub expires_at_methods : NullableMethods ShareColumn (FieldMethods ShareColumn Text)
expires_at_methods =
    nullable_methods schema field_expires_at (field_methods schema field_expires_at text)

abbrev pub created_at_methods : FieldMethods ShareColumn Text
created_at_methods = field_methods schema field_created_at text

abbrev pub purged_at_methods : NullableMethods ShareColumn (FieldMethods ShareColumn Text)
purged_at_methods =
    nullable_methods schema field_purged_at (field_methods schema field_purged_at text)
