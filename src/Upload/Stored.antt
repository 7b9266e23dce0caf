-- ===== src/Upload/Stored.antt =====
-- internal/upload/upload.go: no Share row is left behind by an upload that fails.
use shareserver.Base.{
  ℕ, ◌≡◌, refl, ℤ, Bool, true, Option, none, some, Text, arith, all, Bool-cases, inl, inr,
}
use shareserver.Base.Int.{pos, ltb_ℤ}
use shareserver.Time.{format_nano}
use shareserver.World.{World, ShareRow, Failure, Result, ok, err, fault}
use shareserver.World.Files.{rename, remove}
use shareserver.World.Db.{create_share, create_audit}
use shareserver.Auth.{Crypto, hash_password_hash}
use shareserver.Audit.{log}
use shareserver.Share.{Share}
use shareserver.Share.Store.{insert}
use shareserver.Storage.{
  Reader, used_bytes, Staged, StageResult, stage, commit, remove_blob_best_effort,
}
use shareserver.Storage.Integrity.{purge, purge_unprotected}
use shareserver.Storage.Removal.{purge-all, purge_unprotected-all}
use shareserver.Upload.{
  Config, Request, CipherMetadata, Policy, UploadError, Checked, rejected, accepted, validate,
}
use shareserver.Upload.Capacity.{reserve_capacity, release_capacity}
use shareserver.Upload.Do.{
  Draws, refused, do_upload, run_policy, with_reservation, after_stage, finish, fits, new_share,
  record_share, admit, turn_away, received, reserving, log_upload, log_over, log_full,
  measure_again,
}

stage-shares :
    (sha : Text → Text) (dir id : Text) (r : Reader) (limit : ℤ) (w : World)
    → (stage sha dir id r limit w).1.shares ≡ w.shares
unfolding stage fault remove
stage-shares sha dir id r limit w = ground arith

commit-shares : (s dir id : Text) (w : World) → (commit s dir id w).1.shares ≡ w.shares
unfolding commit rename fault
commit-shares s dir id w = ground arith

log-shares : (a b c d e : Text) (n : ℕ) (w : World) → (log a b c d e n w).1.shares ≡ w.shares
unfolding log create_audit fault
log-shares a b c d e n w = ground arith

remove_blob_best_effort-shares :
    (p : Text) (w : World) → (remove_blob_best_effort p w).1.shares ≡ w.shares
unfolding remove_blob_best_effort remove fault
remove_blob_best_effort-shares p w = ground arith

-- A row that could not be inserted is not there.
insert-err :
    (t : Text) (sh : Share) (w : World) (e : Failure)
    → (insert t sh w).0 ≡ err e
    → (insert t sh w).1.shares ≡ w.shares
unfolding insert create_share fault
insert-err t sh w e h = ground arith

reserve_capacity-shares :
    (dir : Text) (m k : ℤ) (w : World) → (reserve_capacity dir m k w).1.shares ≡ w.shares
unfolding reserve_capacity
reserve_capacity-shares dir m k w = ground arith

module _ (c : Crypto) (cfg : Config) (req : Request) (draws : Draws) (policy : Policy) where
  log_upload-shares :
      (blob : Staged) (w : World) → (log_upload c cfg req draws policy blob w).1.shares ≡ w.shares
  unfolding log_upload
  log_upload-shares blob w = log-shares _ _ _ _ _ _ w

  log_over-shares :
      (n : ℕ) (blob : Staged) (w : World)
      → (log_over c cfg req draws policy n blob w).1.shares ≡ w.shares
  unfolding log_over
  log_over-shares n blob w = log-shares _ _ _ _ _ _ w

  log_full-shares : (n : ℕ) (w : World) → (log_full c cfg req draws policy n w).1.shares ≡ w.shares
  unfolding log_full
  log_full-shares n w = log-shares _ _ _ _ _ _ w

  record_share-refused :
      (v : Text) (blob : Staged) (path : Text) (w : World) (e : UploadError)
      → (record_share c cfg req draws policy v blob path w).0 ≡ refused e
      → (record_share c cfg req draws policy v blob path w).1.shares ≡ w.shares
  unfolding record_share
  record_share-refused v blob path w e h =
      let sh = new_share c cfg req draws policy v blob path in
      let r = insert (format_nano draws.created) sh w in split r.0 refl
    where
      split :
          (x : Result (Unit {0}))
          → (insert (format_nano draws.created) (new_share c cfg req draws policy v blob path) w).0
            ≡ x
          → (record_share c cfg req draws policy v blob path w).1.shares ≡ w.shares
      split (ok _) p = absurd (ground arith)
      split (err f) p = ground (
        arith,
        insert-err (format_nano draws.created) (new_share c cfg req draws policy v blob path) w f p,
        remove_blob_best_effort-shares path
            (insert (format_nano draws.created) (new_share c cfg req draws policy v blob path) w).1,
      )

  admit-refused :
      (v : Text) (blob : Staged) (w : World) (e : UploadError)
      → (admit c cfg req draws policy v blob w).0 ≡ refused e
      → (admit c cfg req draws policy v blob w).1.shares ≡ w.shares
  unfolding admit
  admit-refused v blob w e h = split (commit blob.path cfg.blob_dir draws.id w).0 refl
    where
      split :
          (x : Result Text)
          → (commit blob.path cfg.blob_dir draws.id w).0 ≡ x
          → (admit c cfg req draws policy v blob w).1.shares ≡ w.shares
      split (err f) p = ground (arith, p, commit-shares blob.path cfg.blob_dir draws.id w)
      split (ok path) p = ground (
        arith,
        p,
        commit-shares blob.path cfg.blob_dir draws.id w,
        record_share-refused v blob path (commit blob.path cfg.blob_dir draws.id w).1 e,
      )

  finish-refused :
      (v : Text) (n : ℤ) (blob : Staged) (w : World) (e : UploadError)
      → (finish c cfg req draws policy v n blob w).0 ≡ refused e
      → (finish c cfg req draws policy v n blob w).1.shares ≡ w.shares
  unfolding finish turn_away
  finish-refused v n blob w e h = elim (Bool-cases (fits c cfg req draws policy n blob w)) [
    | inr over ↦ ground (arith, over, log_over-shares (used_bytes cfg.blob_dir w) blob w)
    | inl admitted ↦ ground (arith, admitted, admit-refused v blob w e)
  ]

release_capacity-shares :
    (dir : Text) (n : ℤ) (w : World) → (release_capacity dir n w).shares ≡ w.shares
unfolding release_capacity
release_capacity-shares dir n w = ground arith

-- Each later step, for one Boolean property of rows.
module _ (q : ShareRow → Bool) (c : Crypto) (cfg : Config) (req : Request) (draws : Draws)
    (policy : Policy) where
  measure_again-refused :
      (v : Text) (n : ℤ) (blob : Staged) (w : World) (e : UploadError)
      → all q w.shares ≡ true
      → (measure_again c cfg req draws policy v n blob w).0 ≡ refused e
      → all q (measure_again c cfg req draws policy v n blob w).1.shares ≡ true
  unfolding measure_again
  measure_again-refused v n blob w e a h =
      let w1 = (purge_unprotected w).1 in
      let w2 = (purge draws.commit_now w1).1 in
      rw (finish-refused c cfg req draws policy v n blob w2 e h)
        (purge-all q draws.commit_now w1 (purge_unprotected-all q w a))

  after_stage-refused :
      (v : Text) (n : ℤ) (blob : Staged) (w : World) (e : UploadError)
      → all q w.shares ≡ true
      → (after_stage c cfg req draws policy v n blob w).0 ≡ refused e
      → all q (after_stage c cfg req draws policy v n blob w).1.shares ≡ true
  unfolding after_stage
  after_stage-refused v n blob w e a h = elim (Bool-cases (ltb_ℤ blob.size (pos 16))) [
    | inl tiny ↦ ground (arith, tiny, remove_blob_best_effort-shares blob.path w)
    | inr enough ↦ ground (
      arith,
      enough,
      remove_blob_best_effort-shares blob.path (measure_again c cfg req draws policy v n blob w).1,
      measure_again-refused v n blob w e a,
    )
  ]

  received-refused :
      (v : Text) (n : ℤ) (s : StageResult) (w : World) (e : UploadError)
      → all q w.shares ≡ true
      → (received c cfg req draws policy v n s w).0 ≡ refused e
      → all q (received c cfg req draws policy v n s w).1.shares ≡ true
  received-refused v n (StageResult.stage_error f) w e a h = a
  received-refused v n (StageResult.staged blob) w e a h = after_stage-refused v n blob w e a h

  with_reservation-refused :
      (n : ℤ) (w : World) (e : UploadError)
      → all q w.shares ≡ true
      → (with_reservation c cfg req draws policy n w).0 ≡ refused e
      → all q (with_reservation c cfg req draws policy n w).1.shares ≡ true
  unfolding with_reservation
  with_reservation-refused n w e a h =
      split (hash_password_hash c draws.salt req.download_password_hash) refl
    where
      split :
          (x : Option Text)
          → hash_password_hash c draws.salt req.download_password_hash ≡ x
          → all q (with_reservation c cfg req draws policy n w).1.shares ≡ true
      split none p = ground (arith, p)
      split (some v) p =
          let r = stage c.sha256 cfg.blob_dir draws.id req.reader n w in
          ground (
            arith,
            p,
            stage-shares c.sha256 cfg.blob_dir draws.id req.reader n w,
            received-refused v n r.0 r.1 e,
          )

  reserving-refused :
      (n : Option ℤ) (w : World) (e : UploadError)
      → all q w.shares ≡ true
      → (reserving c cfg req draws policy n w).0 ≡ refused e
      → all q (reserving c cfg req draws policy n w).1.shares ≡ true
  reserving-refused none w e a h =
      rw (log_full-shares c cfg req draws policy (used_bytes cfg.blob_dir w) w) a
  reserving-refused (some n) w e a h =
      rw (release_capacity-shares cfg.blob_dir n (with_reservation c cfg req draws policy n w).1)
        (with_reservation-refused n w e a h)

  run_policy-refused :
      (w : World) (e : UploadError)
      → all q w.shares ≡ true
      → (run_policy c cfg req draws policy w).0 ≡ refused e
      → all q (run_policy c cfg req draws policy w).1.shares ≡ true
  unfolding run_policy
  run_policy-refused w e a h =
      let w1 = (purge_unprotected w).1 in
      let w2 = (purge draws.purge_now w1).1 in
      let r = reserve_capacity cfg.blob_dir cfg.max_upload_bytes cfg.storage_cap_bytes w2 in
      reserving-refused r.0 r.1 e
        (rw (reserve_capacity-shares cfg.blob_dir cfg.max_upload_bytes cfg.storage_cap_bytes w2)
          (purge-all q draws.purge_now w1 (purge_unprotected-all q w a)))
        h

-- An upload that fails, at whatever step and by whatever fault, leaves no Share row behind: every
-- Boolean property that all rows had before it, all rows have after it, that of not being the new
-- Share included.
pub do_upload-refused :
    (q : ShareRow → Bool) (c : Crypto) (cfg : Config) (meta : Option CipherMetadata) (req : Request)
    (draws : Draws) (w : World) (e : UploadError)
    → all q w.shares ≡ true
    → (do_upload c cfg meta req draws w).0 ≡ refused e
    → all q (do_upload c cfg meta req draws w).1.shares ≡ true
unfolding do_upload
do_upload-refused q c cfg meta req draws w e a h = split (validate c cfg meta req) refl
  where
    split :
        (x : Checked)
        → validate c cfg meta req ≡ x
        → all q (do_upload c cfg meta req draws w).1.shares ≡ true
    split (rejected f) p = ground (arith, p)
    split (accepted policy) p = ground (arith, p, run_policy-refused q c cfg req draws policy w e a)
