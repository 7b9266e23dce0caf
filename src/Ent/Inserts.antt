-- ===== src/Ent/Inserts.antt =====
-- internal/share/store.go over internal/ent: the row that an insert leaves, as a query reads it back.
use shareserver.Base.{
  true, false, sym, if◌then◌else◌, Option, none, some, Text, Bool, ◌≡◌, refl, arith,
}
use shareserver.World.{ShareRow}
use shareserver.Share.{Share}
use shareserver.Share.Store.{to_row, non_empty_string, null_string_ptr}
use shareserver.Ent.{same, Value, text, string_kind, Result, ok, ◌>>=◌, Row}
use shareserver.Ent.Mutation.{new_mutation, set_id, set_value, set_number, value_of}
use shareserver.Ent.Create
use shareserver.Ent.Create.{set_nillable, with_defaults, missing, create_spec, save}
use shareserver.Ent.Scan.{nullable_text, Scanning, IsScan, scan_values}
use shareserver.Ent.Shares.{
  ShareMutation, field_private_key_hash, field_download_password_hash, field_expires_at,
  field_purged_at, ShareColumn, schema,
}
use shareserver.Ent.ShareRows.{or_null, share_values, assign_share, insert_builder}

-- A query's row, scanned and assigned.
unfoldable pub load_share : Scanning → Row ShareColumn → Result ShareRow
load_share scan row = assign_share (scan_values schema scan row)

module _ (scan : Scanning) (h : IsScan scan) where
  scan-or_null : (o : Option Text) → scan string_kind (or_null o) ≡ nullable_text o
  scan-or_null none = h.null_text
  scan-or_null (some t) = h.some_text t

  -- A row of the table is read as it is.
  pub load_share-share_values : (r : ShareRow) → load_share scan (share_values r) ≡ ok r
  unfolding load_share assign_share scan_values share_values
  load_share-share_values r = ground (
    arith,
    h.some_text r.id,
    h.some_text r.title,
    h.some_text r.visibility,
    h.some_text r.cipher_meta,
    h.some_text r.zip_manifest,
    h.some_text r.admin_message,
    h.some_text r.blob_path,
    h.some_text r.blob_sha256,
    h.some_text r.uploader_ip,
    h.some_text r.created_at,
    scan-or_null r.private_key_hash,
    scan-or_null r.download_password_hash,
    scan-or_null r.expires_at,
    scan-or_null r.purged_at,
    h.some_bool r.encrypted,
    h.some_bool r.security_warning,
    h.some_int r.size,
  )

-- What a nillable setter leaves of a value.
abbrev over : Option Text → Option Value → Option Value
over none v = v
over (some t) v = some (text t)

if-same {ℓ} : {A : Type ℓ} (b : Bool) (a : A) → (if b then a else a) ≡ a
if-same true a = refl
if-same false a = refl

set_nillable_lem :
    (c : ShareColumn) (o : Option Text) (m : ShareMutation)
    → set_nillable schema c text o m
      ≡ record m { values = λ d. if same schema c d then over o (m.values d) else m.values d }
unfolding set_nillable set_value
set_nillable_lem c none m =
    λ i. record m { values = λ d. sym (if-same (same schema c d) (m.values d)) i }
set_nillable_lem c (some t) m = refl

module _ (scan : Scanning) (h : IsScan scan) where
  scan-over : (o : Option Text) → scan string_kind (Create.or_null (over o none)) ≡ nullable_text o
  scan-over none = h.null_text
  scan-over (some t) = h.some_text t

  -- Where Rows.Scan leaves NULL and a value of the field's own type in its variable, what the builder of
  -- `Store.Insert` gathers for a Share passes the checks of `Save`, and the row that the database is given,
  -- scanned and assigned, is `to_row` of the Share.
  pub insert_saved :
      (created : Text) (sh : Share)
      → (save schema (insert_builder created sh) >>= load_share scan) ≡ ok (to_row created sh)
  unfolding load_share assign_share scan_values save create_spec missing with_defaults
      insert_builder new_mutation set_id set_value set_number value_of to_row
  insert_saved created sh =
      rw
        (
          set_nillable_lem field_private_key_hash (non_empty_string sh.private_key_hash) _,
          set_nillable_lem field_download_password_hash (non_empty_string sh.download_password_hash)
              _,
          set_nillable_lem field_expires_at (null_string_ptr sh.expires_at) _,
          set_nillable_lem field_purged_at (null_string_ptr sh.purged_at) _,
        )
        (ground (
          arith,
          h.some_text sh.id,
          h.some_text sh.title,
          h.some_text sh.visibility,
          h.some_text sh.cipher_meta,
          h.some_text sh.zip_manifest,
          h.some_text sh.admin_message,
          h.some_text sh.blob_path,
          h.some_text sh.blob_sha256,
          h.some_text sh.uploader_ip,
          h.some_text created,
          scan-over (non_empty_string sh.private_key_hash),
          scan-over (non_empty_string sh.download_password_hash),
          scan-over (null_string_ptr sh.expires_at),
          scan-over (null_string_ptr sh.purged_at),
          h.some_bool sh.encrypted,
          h.some_bool sh.security_warning,
          h.some_int sh.size,
        ))
