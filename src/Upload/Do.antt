-- ===== src/Upload/Do.antt =====
-- internal/upload/upload.go: `Uploader.Do`, in the order of its calls. The deferred calls stand where
-- they run, the last deferred first.
use shareserver.Base.{
  ℕ, ◌+◌, ◌*◌, ℤ, Bool, true, false, Option, none, some, [], ◌∷◌, ◌++◌, Text, codes, if◌then◌else◌,
}
use shareserver.Base.Int.{pos, negsuc, ltb_ℤ, ◌+ℤ◌, ◌-ℤ◌}
use shareserver.Time.{hour, format_nano}
use shareserver.Codec.{decimal}
use shareserver.World.{World, Result, ok, err, M, pure, ◌>>=◌, ◌>>◌}
use shareserver.Auth.{Crypto, hash_password_hash}
use shareserver.Audit.{log}
use shareserver.Share.{Share}
use shareserver.Share.Store.{insert}
use shareserver.Storage.{
  Staged, StageError, StageResult, staged, stage_error, invalid_body, too_large, failed, used_bytes,
  stage, commit, remove_blob_best_effort,
}
use shareserver.Storage.Integrity.{purge, purge_unprotected}
use shareserver.Upload.{
  UploadError, Config, Request, CipherMetadata, Policy, rejected, accepted, validate,
}
use shareserver.Upload.Capacity.{reserve_capacity, release_capacity, reserved}

-- The clock's readings in the order of the calls, and what crypto/rand gives.
pub record Draws : Type 0 where
  pub now : ℕ
  pub purge_now : ℕ
  pub commit_now : ℕ
  pub created : ℕ
  pub id : Text
  pub salt : Text

-- `upload.Result`
pub record Receipt : Type 0 where
  pub id : Text
  pub url : Text
  pub download_url : Text
  pub expires_at : Text
  pub cipher_meta : Text
  pub encryption : Text
  pub size : ℤ
  pub security_warning : Bool
  pub admin_message : Text

pub data Outcome : Type 0 where
  done : Receipt → Outcome
  refused : UploadError → Outcome

abbrev show_ℤ : ℤ → Text
show_ℤ (pos n) = decimal n
show_ℤ (negsuc n) = b'-' ∷ decimal (n + 1)

abbrev pub bind_world : (World → World) → M (Unit {0})
bind_world f w = (tt, f w)

module _ (c : Crypto) (cfg : Config) (req : Request) (draws : Draws) (policy : Policy) where
  abbrev pub expires : Text
  expires = format_nano (draws.now + policy.hours * hour)

  -- The Share whose row `Do` inserts.
  abbrev pub new_share : Text → Staged → Text → Share
  new_share verifier blob path = record {
    id = draws.id;
    title = policy.title;
    visibility = policy.visibility;
    private_key_hash = policy.key_hash;
    download_password_hash = verifier;
    encrypted = true;
    cipher_meta = req.cipher_meta;
    zip_manifest = codes "[]";
    security_warning = policy.security_warning;
    admin_message = policy.admin_message;
    size = blob.size;
    blob_path = path;
    blob_sha256 = blob.sum;
    uploader_ip = req.uploader_ip;
    expires_at = record { valid = true; string = expires };
    created_at = [];
    purged_at = record { valid = false; string = [] };
  }

  abbrev pub receipt : Staged → Receipt
  receipt blob = record {
    id = draws.id;
    url = codes "/s/" ++ draws.id;
    download_url = codes "/api/v0/download/" ++ draws.id;
    expires_at = expires;
    cipher_meta = req.cipher_meta;
    encryption = codes "client";
    size = blob.size;
    security_warning = policy.security_warning;
    admin_message = policy.admin_message;
  }

  unfoldable pub log_upload : Staged → M (Unit {0})
  log_upload blob =
      log (codes "public") req.uploader_ip (codes "upload") draws.id
        (codes "size="
          ++ show_ℤ blob.size
          ++ codes " visibility="
          ++ policy.visibility
          ++ codes " encrypted=1 encryption=client")
        draws.created

  -- The rejection after staging, with the bytes used then.
  unfoldable pub log_over : ℕ → Staged → M (Unit {0})
  log_over used blob =
      log (codes "public") req.uploader_ip (codes "upload_cap_reject") draws.id
        (decimal used
          ++ codes " + "
          ++ show_ℤ blob.size
          ++ codes " > "
          ++ show_ℤ cfg.storage_cap_bytes)
        draws.commit_now

  -- The rejection where nothing can be reserved.
  unfoldable pub log_full : ℕ → M (Unit {0})
  log_full used =
      log (codes "public") req.uploader_ip (codes "upload_cap_reject") []
        (codes "used=" ++ decimal used ++ codes " cap=" ++ show_ℤ cfg.storage_cap_bytes)
        draws.purge_now

  abbrev pub inserted : Staged → Text → Result (Unit {0}) → M Outcome
  inserted blob path (err _) = do remove_blob_best_effort path; pure (refused UploadError.store)
  inserted blob path (ok _) = do log_upload blob; pure (done (receipt blob))

  -- Insert the metadata; the blob goes again if that fails.
  unfoldable pub record_share : Text → Staged → Text → M Outcome
  record_share verifier blob path = do
    r ← insert (format_nano draws.created) (new_share verifier blob path)
    inserted blob path r

  -- Whether the blob fits beside what is stored and what others have reserved.
  abbrev pub fits : ℤ → Staged → World → Bool
  fits reservation blob w =
      elim (ltb_ℤ cfg.storage_cap_bytes (
        pos (used_bytes cfg.blob_dir w)
        +ℤ blob.size
        +ℤ (reserved cfg.blob_dir w.reservations -ℤ reservation))) [ true ↦ false | false ↦ true ]

  abbrev pub committed : Text → Staged → Result Text → M Outcome
  committed verifier blob (err _) = pure (refused UploadError.store)
  committed verifier blob (ok path) = record_share verifier blob path

  unfoldable pub admit : Text → Staged → M Outcome
  admit verifier blob = do
    path ← commit blob.path cfg.blob_dir draws.id
    committed verifier blob path

  unfoldable pub turn_away : Staged → M Outcome
  turn_away blob w =
      (do log_over (used_bytes cfg.blob_dir w) blob; pure (refused UploadError.cap)) w

  -- Under `capMu` and the integrity lock.
  unfoldable pub finish : Text → ℤ → Staged → M Outcome
  finish verifier reservation blob w = elim (fits reservation blob w) [
    | true ↦ admit verifier blob w
    | false ↦ turn_away blob w
  ]

  abbrev pub stage_refusal : ℤ → StageError → UploadError
  stage_refusal reservation invalid_body = UploadError.invalid_body
  stage_refusal reservation too_large =
      if ltb_ℤ reservation cfg.max_upload_bytes then UploadError.cap else UploadError.too_large
  stage_refusal reservation failed = UploadError.store

  unfoldable pub measure_again : Text → ℤ → Staged → M Outcome
  measure_again verifier reservation blob = do
    purge_unprotected
    purge draws.commit_now
    finish verifier reservation blob

  -- With the blob staged: the staged file goes in the end, if it was not moved.
  unfoldable pub after_stage : Text → ℤ → Staged → M Outcome
  after_stage verifier reservation blob = do
    r ← elim (ltb_ℤ blob.size (pos 16)) [
      | true ↦ pure (refused UploadError.encryption_required)
      | false ↦ measure_again verifier reservation blob
    ]
    remove_blob_best_effort blob.path
    pure r

  abbrev pub received : Text → ℤ → StageResult → M Outcome
  received verifier reservation (stage_error e) = pure (refused (stage_refusal reservation e))
  received verifier reservation (staged blob) = after_stage verifier reservation blob

  -- With the capacity reserved.
  unfoldable pub with_reservation : ℤ → M Outcome
  with_reservation reservation = elim (hash_password_hash c draws.salt req.download_password_hash) [
    | none ↦ pure (refused UploadError.store)
    | some verifier ↦ do
      s ← stage c.sha256 cfg.blob_dir draws.id req.reader reservation
      received verifier reservation s
  ]

  abbrev pub reserving : Option ℤ → M Outcome
  reserving none w = (do log_full (used_bytes cfg.blob_dir w); pure (refused UploadError.cap)) w
  reserving (some n) w =
      (do r ← with_reservation n; bind_world (release_capacity cfg.blob_dir n); pure r) w

  -- From a request that passed to its outcome, the reservation released.
  unfoldable pub run_policy : M Outcome
  run_policy = do
    purge_unprotected
    purge draws.purge_now
    n ← reserve_capacity cfg.blob_dir cfg.max_upload_bytes cfg.storage_cap_bytes
    reserving n

unfoldable pub do_upload : Crypto → Config → Option CipherMetadata → Request → Draws → M Outcome
do_upload c cfg meta req draws = elim (validate c cfg meta req) [
  | rejected e ↦ pure (refused e)
  | accepted policy ↦ run_policy c cfg req draws policy
]
