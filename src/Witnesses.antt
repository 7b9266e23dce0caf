-- ===== src/Witnesses.antt =====
-- The theorems at concrete inputs.
mod Uploads
mod Repairs
mod Serving
mod Lifetimes
mod Clients
mod Handlers
use shareserver.Base.{
  ℕ, ◌+◌, ◌*◌, ◌≤◌, ◌<◌, ◌≡◌, ◌≢◌, ◌↔◌, ◌⊎◌, refl, Bool, true, false, not, none, some, [], ◌∷◌,
  Text, codes, text_eq, has_prefix, trim_space, all, find?, arith, length, All,
}
use shareserver.Base.Int.{pos, ◌≤ℤ◌, pos_part, neg_part, ◌+ℤ◌, ◌-ℤ◌}
use shareserver.Time.{second, format_nano, parse}
use shareserver.Codec.{decode64, encode64, atoi}
use shareserver.World.{World, ShareRow, SessionRow, AdminRow, ok, fault, pure, M}
use shareserver.World.Path.{clean, absolute, join_path, split, has_suffix}
use shareserver.World.Files.{lookup, lstat, is_under, total_blobs}
use shareserver.World.Db.{only_admin, get_ban, get_session, delete_session, create_session}
use shareserver.World.Db as Db
use shareserver.Auth.{
  IsSound, banned, admin_login, is_banned, check_password_hash, reset_failures, valid_password_hash,
  hash_password_hash, decode_password_hash, hmac_key,
}
use shareserver.Auth.Login.{admin_login-success}
use shareserver.Auth.Hashes.{valid_password_hash_iff, check-hash_password_hash}
use shareserver.Share.{NullString, Share, active_at, is_expired, is_active}
use shareserver.Share.Store.{
  predicate, expired_predicate, from_ent, to_row, list_by_key, null_string, null_string_ptr,
}
use shareserver.Share.Store as Store
use shareserver.Share.Rules.{is_expired_iff, predicate-late}
use shareserver.Share.Rows.{from_ent-to_row}
use shareserver.Share.Listing.{IsOfKey, list_by_key-IsOfKey}
use shareserver.Storage
use shareserver.Storage.{uuid, used_bytes}
use shareserver.Upload.{
  Policy, validate, check_access, expiry_hours, encryption_required, warning_flag,
  valid_cipher_meta,
}
use shareserver.Upload.Admission.{IsAdmitted, validate-IsAdmitted}
use shareserver.Upload.Expiry.{expiry_hours_bounds, most_hours}
use shareserver.Upload.Capacity.{reserve_capacity, release_capacity, reserved, assign, forget}
use shareserver.Upload.Ledger.{reserve_capacity_fits, release-reserve}
use shareserver.Http.{Response, http_error, see_other}
use shareserver.Http.Sessions.{
  Session, Tokens, no_session, get, rotate, end_session, session_from_row, supported_language,
  session_duration,
}
use shareserver.Http.SessionLaws.{get_live, end_session-get, rotate-binds}
use shareserver.Http.Middleware.{
  csrf, presented_token, require_admin, client_ip, clean_ip, trust_proxy_headers, secure_request,
  is_api_path, is_safe_method,
}
use shareserver.Http.Download.{wait_seconds}
use shareserver.Http.Shares.{valid_uuid}
use shareserver.Http.Ids.{valid_uuid-uuid}
use shareserver.Config.{
  Env, lookup_env, load_dot_env, load, settings, default_password, env_bool, env_int, env,
}
use shareserver.Config as Conf
use shareserver.Config.Load.{load_dot_env-keeps, load-production}
use shareserver.Config.Secret.{
  SecretFaults, IsHexDigit, persistent_app_secret, read_secret, persistent_app_secret-agree,
}
use shareserver.World.Files as Files
use shareserver.Share as Shr
use shareserver.Storage.Integrity.{purge_unprotected, purge_all, purge, purge_each, remove_share}
use shareserver.Upload.Do.{do_upload, run_policy, with_reservation, after_stage}
use shareserver.Upload.Stored.{do_upload-refused}
use shareserver.Http.Api.{api_download_post, opens}
use shareserver.Http.Body.{request_body_value}
use shareserver.Http.Download.{banned_until}
use shareserver.Http.Shares as Shares
use shareserver.Http.Released.{ban_read, given_hash, share_read, payload-authorized}
use shareserver.Storage.Removed.{remove_share-keeps}
use shareserver.World.Files.{find_node}
use shareserver.World.{BanRow, Failure, err, regular}
use shareserver.Http.Download.{record_failure}
use shareserver.Http.Isolation.{ban_of, record_failure-ban_of}
use shareserver.Fixtures as Fix

list_by_key-IsOfKey_example :
    All (IsOfKey (codes "6b")) (list_by_key (active_at Fix.now) (codes "6b") Fix.world).0
    × (length (list_by_key (active_at Fix.now) (codes "6b") Fix.world).0 ≤ 100)
list_by_key-IsOfKey_example = list_by_key-IsOfKey (active_at Fix.now) (codes "6b") Fix.world

valid_password_hash_iff_example : (valid_password_hash Fix.password_hash ≡ true) ↔ (
    (digest : Text) × All (λ b. b < 256) digest
    × (length digest ≡ 32)
    × (Fix.password_hash ≡ encode64 digest))
valid_password_hash_iff_example = valid_password_hash_iff Fix.password_hash

abbrev digest : Text
digest =
    0 ∷ 1 ∷ 2 ∷ 3 ∷ 4 ∷ 5 ∷ 6 ∷ 7 ∷ 8 ∷ 9 ∷ 10 ∷ 11 ∷ 12 ∷ 13 ∷ 14 ∷ 15 ∷ 16 ∷ 17 ∷ 18 ∷ 19 ∷ 20
    ∷ 21 ∷ 22 ∷ 23 ∷ 24 ∷ 25 ∷ 26 ∷ 27 ∷ 28 ∷ 29 ∷ 30 ∷ 31 ∷ []

crypto-IsSound : IsSound Fix.crypto
crypto-IsSound = record { accepts = λ salt d v h. refl; nonempty = λ salt d h. cc }

check-hash_password_hash_example :
    check_password_hash Fix.crypto (codes "verifier") (encode64 digest) ≡ true
unfolding hash_password_hash decode_password_hash decode64 encode64 text_eq
check-hash_password_hash_example =
    check-hash_password_hash Fix.crypto [] digest (codes "verifier") crypto-IsSound (omega arith)
      refl refl

admin_login-success_example :
    let w1 = (is_banned (codes "10.0.0.2") Fix.now Fix.world).1 in
    let w2 = (only_admin (codes "admin") w1).1 in
    let r =
      admin_login Fix.crypto
        (codes "10.0.0.2")
        (codes "admin")
        Fix.password_hash
        Fix.now
        0
        Fix.world in
    ((is_banned (codes "10.0.0.2") Fix.now Fix.world).0 ≡ false)
    × ((a : AdminRow) × ((only_admin (codes "admin") w1).0 ≡ ok a)
        × (check_password_hash Fix.crypto a.password_hash Fix.password_hash ≡ true)
        × (r.0.admin_id ≡ a.id)
        × (r.1 ≡ (reset_failures (codes "10.0.0.2") w2).1))
unfolding admin_login is_banned only_admin get_ban check_password_hash decode_password_hash decode64
    encode64 text_eq reset_failures fault Db.delete_failures
admin_login-success_example =
    admin_login-success Fix.crypto (codes "10.0.0.2") (codes "admin") Fix.password_hash Fix.now 0
      Fix.world refl

abbrev policy : Policy
policy = record {
  title = codes "untitled share";
  visibility = codes "private";
  key_hash = codes "6b";
  hours = 24;
  security_warning = false;
  admin_message = [];
}

validate-IsAdmitted_example :
    IsAdmitted Fix.crypto Fix.upload_config (some Fix.metadata) Fix.upload_request policy
unfolding validate check_access warning_flag text_eq valid_cipher_meta valid_password_hash
    decode_password_hash decode64 encode64 hmac_key expiry_hours atoi trim_space Storage.hex
validate-IsAdmitted_example =
    validate-IsAdmitted Fix.crypto Fix.upload_config (some Fix.metadata) Fix.upload_request policy
      refl

abbrev reserved_world : World
reserved_world = record Fix.world { reservations = (codes "data/blobs", pos 1000) ∷ [] }

reserve_capacity_fits_example :
    (pos 1 ≤ℤ pos 1000)
    × (pos 1000 ≤ℤ pos 1000)
    × (pos_part (reserved (codes "data/blobs") reserved_world.reservations)
          + used_bytes (codes "data/blobs") reserved_world
        ≤ pos_part (pos 2000)
          + neg_part (reserved (codes "data/blobs") reserved_world.reservations))
unfolding reserve_capacity reserved assign forget used_bytes total_blobs is_under has_suffix
    has_prefix absolute join_path clean text_eq ◌+ℤ◌ ◌-ℤ◌
reserve_capacity_fits_example =
    reserve_capacity_fits (codes "data/blobs") (pos 1000) (pos 2000) (pos 1000) Fix.world
      reserved_world (omega arith) (omega arith) (omega arith) (omega arith) refl

release-reserve_example :
    reserved
      (codes "data/blobs")
      (release_capacity (codes "data/blobs") (pos 1000) reserved_world).reservations
    ≡ reserved (codes "data/blobs") Fix.world.reservations
unfolding reserve_capacity reserved assign forget used_bytes total_blobs is_under has_suffix
    has_prefix absolute join_path clean text_eq ◌+ℤ◌ ◌-ℤ◌
release-reserve_example =
    release-reserve (codes "data/blobs") (pos 1000) (pos 2000) (pos 1000) Fix.world reserved_world
      (omega arith) (omega arith) (omega arith) (omega arith) (omega arith) refl

abbrev no_faults : SecretFaults
no_faults = record {
  look = false;
  prepare = false;
  link = false;
  sync = false;
  look_again = false;
  read = false;
  clean_up = false;
}

persistent_app_secret-agree_example :
    (Storage.hex digest ≡ Storage.hex digest)
    × All IsHexDigit (Storage.hex digest)
    × (length (Storage.hex digest) ≡ 64)
unfolding persistent_app_secret read_secret Storage.hex
persistent_app_secret-agree_example =
    persistent_app_secret-agree no_faults no_faults digest [] (Storage.hex digest)
      (Storage.hex digest) none none none refl refl

abbrev whole_second : ShareRow
whole_second = record Fix.row { expires_at = some (format_nano (63_931_297_373 * second)) }

predicate-late_example :
    (predicate (active_at (63_931_297_373 * second + 250_000_000)) whole_second ≡ true)
    × (expired_predicate (active_at (63_931_297_373 * second + 250_000_000)) whole_second ≡ false)
predicate-late_example =
    predicate-late 63_931_297_373 250_000_000 whole_second (omega arith) (omega arith) refl refl

-- Not the id of the upload.
abbrev is_other : ShareRow → Bool
is_other r = not (text_eq r.id Fix.draws.id)

do_upload-refused_example :
    all is_other
      (do_upload Fix.crypto Fix.upload_config
        (some Fix.metadata)
        Fix.upload_request
        Fix.draws
        Fix.world).1.shares
    ≡ true
unfolding text_eq do_upload validate check_access warning_flag valid_cipher_meta valid_password_hash
    decode_password_hash decode64 encode64 hmac_key expiry_hours atoi trim_space Storage.hex
    run_policy purge_unprotected purge_all purge purge_each remove_share
    Store.without_download_protection Store.with_expiry Store.rows_or_none Db.query_shares fault
    from_ent null_string Store.string_value Shr.is_purgeable is_expired active_at parse
    reserve_capacity reserved assign forget used_bytes total_blobs is_under has_suffix has_prefix
    absolute join_path clean ◌+ℤ◌ ◌-ℤ◌ with_reservation hash_password_hash Storage.stage
    Storage.copied after_stage Storage.remove_blob_best_effort Files.remove lookup Files.delete
    release_capacity
do_upload-refused_example =
    do_upload-refused is_other Fix.crypto Fix.upload_config (some Fix.metadata) Fix.upload_request
      Fix.draws Fix.world encryption_required refl refl

remove_share-keeps_example :
    let r = remove_share (from_ent Fix.row) Fix.world in
    ((e : Failure) × (r.0 ≡ err e) × (r.1.shares ≡ Fix.world.shares))
    ⊎ ((r.0 ≡ ok tt)
        × (find_node r.1 (clean (from_ent Fix.row).blob_path) ≢ some (regular Fix.blob)))
remove_share-keeps_example = remove_share-keeps (from_ent Fix.row) Fix.world Fix.blob
