-- ===== src/Witnesses/Uploads.antt =====
-- The theorems on whole uploads at concrete inputs.
use shareserver.Base.{
  ℕ, ◌+◌, ◌*◌, ltb, leb, find?, codes, ◌≡◌, refl, false, some, [], ◌∷◌, text_eq, has_prefix,
  trim_space, arith,
}
use shareserver.Base.Int.{pos, ◌+ℤ◌, ◌-ℤ◌}
use shareserver.Time.{parse, hour}
use shareserver.Codec.{decode64, encode64, atoi}
use shareserver.World.{World, ShareRow, fault}
use shareserver.World.Path.{absolute, clean, join_path, split, has_suffix}
use shareserver.World.Files as Files
use shareserver.World.Files.{lookup, total_blobs, is_under}
use shareserver.Share.{is_expired, active_at, is_active}
use shareserver.Share.Store.{from_ent, null_string}
use shareserver.World.Db as Db
use shareserver.Auth.{decode_password_hash, valid_password_hash, hmac_key, hash_password_hash}
use shareserver.Audit.{log}
use shareserver.Share as Shr
use shareserver.Share.Store as Store
use shareserver.Storage as Storage
use shareserver.Storage.{used_bytes, staged_path}
use shareserver.Storage.Integrity.{purge_unprotected, purge_all, purge, purge_each, remove_share}
use shareserver.Upload.{
  Request, Policy, accepted, validate, check_access, warning_flag, valid_cipher_meta, expiry_hours,
}
use shareserver.Upload.Capacity.{reserve_capacity, release_capacity, reserved, assign, forget}
use shareserver.Upload.Do.{
  Outcome, Receipt, done, refused, do_upload, run_policy, with_reservation, after_stage,
  measure_again, finish, admit, record_share, log_upload,
}
use shareserver.Upload.Pool.{Pool, Reach}
use shareserver.Upload.Interleaved.{IsWithinCap, Reach-IsWithinCap}
use shareserver.Upload.Runs.{do_upload-Reach}
use shareserver.Upload.Receipts.{IsStored}
use shareserver.Upload.Success.{do_upload-IsStored}
use shareserver.Storage.Purged.{is_due}
use shareserver.Upload.Lifetime.{do_upload-lifetime}
use shareserver.Fixtures as Fix

-- A body of sixteen bytes, which is enough.
abbrev request : Request
request = record Fix.upload_request { reader = record { bytes = Fix.blob; ending = Storage.eof } }

-- Another upload holds five bytes.
abbrev busy : World
busy = record Fix.world { reservations = (codes "data/blobs", pos 5) ∷ [] }

abbrev before : Pool
before = record { world = busy; held = 5 ∷ [] }

abbrev after : Pool
after = record {
  world = (do_upload Fix.crypto Fix.upload_config (some Fix.metadata) request Fix.draws busy).1;
  held = 5 ∷ [];
}

-- The run of the upload.
ran : Reach Fix.upload_config before after
unfolding absolute join_path clean split has_suffix has_prefix
ran =
    do_upload-Reach Fix.crypto Fix.upload_config (some Fix.metadata) request Fix.draws busy (5 ∷ [])
      refl

do_upload-Reach_example : Reach Fix.upload_config before after
unfolding absolute join_path clean split has_suffix has_prefix
do_upload-Reach_example =
    do_upload-Reach Fix.crypto Fix.upload_config (some Fix.metadata) request Fix.draws busy (5 ∷ [])
      refl

Reach-IsWithinCap_example : IsWithinCap Fix.upload_config after
unfolding reserved used_bytes Files.total_blobs Files.is_under absolute join_path clean split
    has_suffix has_prefix text_eq
Reach-IsWithinCap_example =
    Reach-IsWithinCap Fix.upload_config (omega arith) (omega arith)
      (record { ledger = refl; held_fits = omega arith; used_fits = omega arith }) ran

-- The receipt, if there is one.
abbrev receipt_of : Outcome → Receipt → Receipt
receipt_of (done r) other = r
receipt_of (refused e) other = other

abbrev no_receipt : Receipt
no_receipt = record {
  id = [];
  url = [];
  download_url = [];
  expires_at = [];
  cipher_meta = [];
  encryption = [];
  size = pos 0;
  security_warning = false;
  admin_message = [];
}

do_upload-IsStored_example :
    let u =
      do_upload Fix.crypto Fix.upload_config (some Fix.metadata) request Fix.draws Fix.world in
    (policy : Policy) × (validate Fix.crypto Fix.upload_config (some Fix.metadata) request
      ≡ accepted policy)
    × ((row : ShareRow) × IsStored Fix.crypto Fix.upload_config request Fix.draws policy
          (receipt_of u.0 no_receipt)
          Fix.world.cwd
          u.1
          row)
unfolding text_eq do_upload validate check_access warning_flag valid_cipher_meta valid_password_hash
    decode_password_hash decode64 encode64 hmac_key expiry_hours atoi trim_space Storage.hex
    run_policy purge_unprotected purge_all purge purge_each remove_share
    Store.without_download_protection Store.with_expiry Store.rows_or_none Db.query_shares fault
    from_ent null_string Store.string_value Shr.is_purgeable is_expired active_at parse
    reserve_capacity reserved assign forget used_bytes total_blobs is_under has_suffix has_prefix
    absolute join_path clean split ◌+ℤ◌ ◌-ℤ◌ with_reservation hash_password_hash Storage.stage
    Storage.copied after_stage measure_again finish admit record_share log_upload log
    Db.create_audit Storage.commit Files.rename Storage.remove_blob_best_effort Files.remove lookup
    Files.delete release_capacity Store.insert Db.create_share Store.to_row
do_upload-IsStored_example =
    do_upload-IsStored Fix.crypto Fix.upload_config (some Fix.metadata) request Fix.draws Fix.world
      (receipt_of
        (do_upload Fix.crypto Fix.upload_config (some Fix.metadata) request Fix.draws Fix.world).0
        no_receipt)
      refl refl

do_upload-lifetime_example :
    let u =
      do_upload Fix.crypto Fix.upload_config (some Fix.metadata) request Fix.draws Fix.world in
    let end = Fix.draws.now + expiry_hours request.admin request.expiry_hours * hour in
    (row : ShareRow) × (find? (λ s. text_eq s.id (receipt_of u.0 no_receipt).id) u.1.shares
      ≡ some row)
    × ((t : ℕ) → (is_active (active_at t) (from_ent row) ≡ ltb t end) × (is_due t row ≡ leb end t))
unfolding text_eq do_upload validate check_access warning_flag valid_cipher_meta valid_password_hash
    decode_password_hash decode64 encode64 hmac_key expiry_hours atoi trim_space Storage.hex
    run_policy purge_unprotected purge_all purge purge_each remove_share
    Store.without_download_protection Store.with_expiry Store.rows_or_none Db.query_shares fault
    from_ent null_string Store.string_value Shr.is_purgeable is_expired active_at parse
    reserve_capacity reserved assign forget used_bytes total_blobs is_under has_suffix has_prefix
    absolute join_path clean split ◌+ℤ◌ ◌-ℤ◌ with_reservation hash_password_hash Storage.stage
    Storage.copied after_stage measure_again finish admit record_share log_upload log
    Db.create_audit Storage.commit Files.rename Storage.remove_blob_best_effort Files.remove lookup
    Files.delete release_capacity Store.insert Db.create_share Store.to_row
do_upload-lifetime_example =
    do_upload-lifetime Fix.crypto Fix.upload_config (some Fix.metadata) request Fix.draws Fix.world
      (receipt_of
        (do_upload Fix.crypto Fix.upload_config (some Fix.metadata) request Fix.draws Fix.world).0
        no_receipt)
      refl (omega arith) refl
