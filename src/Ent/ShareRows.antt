-- ===== src/Ent/ShareRows.antt =====
-- internal/ent/share.go and the calls of internal/share/store.go on the client: the rows of the shares
-- table and the predicates and the builder that the store puts together.
use shareserver.Base.{true, false, Option, none, some, List, [], ◌∷◌, Text, codes}
use shareserver.World.{ShareRow}
use shareserver.Share.{Share, ActiveRule}
use shareserver.Share.Store.{non_empty_string, null_string_ptr}
use shareserver.Ent.{Value, null, text, bool, int, Result, ok, ◌>>=◌, Row}
use shareserver.Ent.Mutation.{create, new_mutation, set_id}
use shareserver.Ent.Create.{set_nillable}
use shareserver.Ent.Scan.{Scanned, text_pointer, text_field, bool_field, int_field}
use shareserver.Ent.Predicate.{Predicate, and_predicates, or_predicates, also, no_more}
use shareserver.Ent.Shares.{
  ShareColumn, ShareMutation, schema, field_id, field_title, field_visibility,
  field_private_key_hash, field_download_password_hash, field_encrypted, field_cipher_meta,
  field_zip_manifest, field_security_warning, field_admin_message, field_size, field_blob_path,
  field_blob_sha256, field_uploader_ip, field_expires_at, field_created_at, field_purged_at,
}
use shareserver.Ent.Shares.Fields.{
  visibility_predicates, private_key_hash_predicates, download_password_hash_predicates,
  encrypted_predicates, expires_at_predicates, purged_at_predicates, title_methods,
  visibility_methods, encrypted_methods, cipher_meta_methods, zip_manifest_methods,
  security_warning_methods, admin_message_methods, size_methods, blob_path_methods,
  blob_sha256_methods, uploader_ip_methods, created_at_methods,
}

abbrev pub or_null : Option Text → Value
or_null none = null
or_null (some t) = text t

-- The columns of a row.
unfoldable pub share_values : ShareRow → Row ShareColumn
share_values r field_id = text r.id
share_values r field_title = text r.title
share_values r field_visibility = text r.visibility
share_values r field_private_key_hash = or_null r.private_key_hash
share_values r field_download_password_hash = or_null r.download_password_hash
share_values r field_encrypted = bool r.encrypted
share_values r field_cipher_meta = text r.cipher_meta
share_values r field_zip_manifest = text r.zip_manifest
share_values r field_security_warning = bool r.security_warning
share_values r field_admin_message = text r.admin_message
share_values r field_size = int r.size
share_values r field_blob_path = text r.blob_path
share_values r field_blob_sha256 = text r.blob_sha256
share_values r field_uploader_ip = text r.uploader_ip
share_values r field_expires_at = or_null r.expires_at
share_values r field_created_at = text r.created_at
share_values r field_purged_at = or_null r.purged_at

-- `assignValues` of a Share
unfoldable pub assign_share : (ShareColumn → Scanned) → Result ShareRow
assign_share v = do
  id ← text_field schema v field_id
  title ← text_field schema v field_title
  visibility ← text_field schema v field_visibility
  private_key_hash ← text_pointer schema v field_private_key_hash
  download_password_hash ← text_pointer schema v field_download_password_hash
  encrypted ← bool_field schema v field_encrypted
  cipher_meta ← text_field schema v field_cipher_meta
  zip_manifest ← text_field schema v field_zip_manifest
  security_warning ← bool_field schema v field_security_warning
  admin_message ← text_field schema v field_admin_message
  size ← int_field schema v field_size
  blob_path ← text_field schema v field_blob_path
  blob_sha256 ← text_field schema v field_blob_sha256
  uploader_ip ← text_field schema v field_uploader_ip
  expires_at ← text_pointer schema v field_expires_at
  created_at ← text_field schema v field_created_at
  purged_at ← text_pointer schema v field_purged_at
  ok (record {
    id = id;
    title = title;
    visibility = visibility;
    private_key_hash = private_key_hash;
    download_password_hash = download_password_hash;
    encrypted = encrypted;
    cipher_meta = cipher_meta;
    zip_manifest = zip_manifest;
    security_warning = security_warning;
    admin_message = admin_message;
    size = size;
    blob_path = blob_path;
    blob_sha256 = blob_sha256;
    uploader_ip = uploader_ip;
    expires_at = expires_at;
    created_at = created_at;
    purged_at = purged_at;
  })

-- The builder of `Store.Insert`.
unfoldable pub insert_builder : Text → Share → ShareMutation
insert_builder created sh =
    let m0 : ShareMutation = set_id (text sh.id) (new_mutation create) in
    let m1 = title_methods.set sh.title m0 in
    let m2 = visibility_methods.set sh.visibility m1 in
    let m3 =
      set_nillable schema field_private_key_hash text (non_empty_string sh.private_key_hash) m2 in
    let m4 =
      set_nillable schema field_download_password_hash text
        (non_empty_string sh.download_password_hash) m3 in
    let m5 = encrypted_methods.set sh.encrypted m4 in
    let m6 = cipher_meta_methods.methods.set sh.cipher_meta m5 in
    let m7 = zip_manifest_methods.methods.set sh.zip_manifest m6 in
    let m8 = security_warning_methods.set sh.security_warning m7 in
    let m9 = admin_message_methods.set sh.admin_message m8 in
    let m10 = size_methods.methods.set sh.size m9 in
    let m11 = blob_path_methods.set sh.blob_path m10 in
    let m12 = blob_sha256_methods.set sh.blob_sha256 m11 in
    let m13 = uploader_ip_methods.set sh.uploader_ip m12 in
    let m14 = set_nillable schema field_expires_at text (null_string_ptr sh.expires_at) m13 in
    let m15 = created_at_methods.set created m14 in
    set_nillable schema field_purged_at text (null_string_ptr sh.purged_at) m15

module _ (r : ActiveRule) where
  -- `ActiveRule.Predicate` and `ActiveRule.ExpiredPredicate`
  abbrev pub active_query : Predicate ShareColumn
  active_query = and_predicates (
      also purged_at_predicates.is_nil (
        also
          (or_predicates (
            also expires_at_predicates.is_nil
              (also (expires_at_predicates.values.order.gt r.encoded_now) no_more)))
          no_more))

  abbrev pub expired_query : Predicate ShareColumn
  expired_query = and_predicates (
      also purged_at_predicates.is_nil
        (also (expires_at_predicates.values.order.lte r.encoded_now) no_more))

  -- The `Where` of the store's queries.
  abbrev pub public_query : List (Predicate ShareColumn)
  public_query =
      active_query
      ∷ visibility_predicates.order.eq (codes "public")
      ∷ encrypted_predicates.eq true
      ∷ download_password_hash_predicates.not_nil
      ∷ []

  abbrev pub key_query : Text → List (Predicate ShareColumn)
  key_query key_hash =
      active_query
      ∷ visibility_predicates.order.eq (codes "private")
      ∷ private_key_hash_predicates.values.order.eq key_hash
      ∷ encrypted_predicates.eq true
      ∷ download_password_hash_predicates.not_nil
      ∷ []

abbrev pub expiry_query : List (Predicate ShareColumn)
expiry_query = purged_at_predicates.is_nil ∷ expires_at_predicates.not_nil ∷ []

abbrev pub unprotected_query : List (Predicate ShareColumn)
unprotected_query =
    or_predicates
      (also (encrypted_predicates.eq false) (also download_password_hash_predicates.is_nil no_more))
    ∷ []

abbrev pub purged_query : List (Predicate ShareColumn)
purged_query = purged_at_predicates.not_nil ∷ []
