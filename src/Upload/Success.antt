-- ===== src/Upload/Success.antt =====
-- internal/upload/upload.go: what an upload that succeeds has stored.
use shareserver.Base.{
  ℕ, Bool, ◌≡◌, refl, ℤ, true, false, none, some, Option, Text, text_eq, arith, length,
}
use shareserver.Base.Int.{pos, negsuc, ltb_ℤ}
use shareserver.World.{World, ShareRow, regular, M, pure, ◌>>=◌}
use shareserver.World.Path.{absolute, clean}
use shareserver.World.Files.{find_node}
use shareserver.Auth.{Crypto, hash_password_hash}
use shareserver.Storage.{
  Staged, StageResult, staged, stage_error, stage, staged_path, blob_path, hex,
  remove_blob_best_effort,
}
use shareserver.Storage.Integrity.{purge, purge_unprotected}
use shareserver.Storage.Shrinks.{Shrinks-trans, purge-Shrinks, purge_unprotected-Shrinks}
use shareserver.Upload.{
  Config, Request, CipherMetadata, Policy, Checked, rejected, accepted, validate, UploadError,
}
use shareserver.Upload.Capacity.{reserve_capacity}
use shareserver.Upload.Do.{
  Draws, Outcome, Receipt, done, refused, do_upload, run_policy, reserving, with_reservation,
  received, after_stage, measure_again,
}
use shareserver.Upload.Ledger.{reserve_capacity-IsReserved}
use shareserver.Upload.Staging.{stage-staged}
use shareserver.Upload.Receipts.{
  IsStored, stage-cwd, stage-sum, reserve_capacity-cwd, release_capacity-IsStored,
}
use shareserver.Upload.Recorded.{measure_again-Stored, remove-IsStored}

module _ (c : Crypto) (cfg : Config) (req : Request) (draws : Draws) (policy : Policy) (home : Text)
    (apart : text_eq
        (absolute home (clean (staged_path cfg.blob_dir draws.id)))
        (absolute home (blob_path cfg.blob_dir draws.id))
      ≡ false) where
  abbrev Done : Receipt → World → Type 0
  Done r w = (row : ShareRow) × IsStored c cfg req draws policy r home w row

  after_stage-Done :
      (v : Text) (n : ℤ) (blob : Staged) (w : World) (r : Receipt)
      → w.cwd ≡ home
      → (after_stage c cfg req draws policy v n blob w).0 ≡ done r
      → blob.path ≡ staged_path cfg.blob_dir draws.id
      → find_node w blob.path ≡ some (regular req.reader.bytes)
      → blob.size ≡ pos (length req.reader.bytes)
      → blob.sum ≡ hex (c.sha256 req.reader.bytes)
      → Done r (after_stage c cfg req draws policy v n blob w).1
  unfolding after_stage
  after_stage-Done v n blob w r at_home h place held size sum = cleaned (ltb_ℤ blob.size (pos 16)) h
    where
      cleaned :
          (tiny : Bool)
          → let m = elim tiny as (λ _. M Outcome) [
            | true ↦ pure (refused UploadError.encryption_required)
            | false ↦ measure_again c cfg req draws policy v n blob
          ] in
            (m w).0 ≡ done r → Done r (remove_blob_best_effort blob.path (m w).1).1
      cleaned true d = absurd (ground arith)
      cleaned false d =
          let (row, i) =
            measure_again-Stored c cfg req draws policy home v n blob w r at_home d held size sum in
          (
            row,
            remove-IsStored c cfg req draws policy home blob.path
                (measure_again c cfg req draws policy v n blob w).1 r row (rw place apart) i,
          )

  received-Done :
      (v : Text) (n : ℤ) (s : StageResult) (w : World) (r : Receipt)
      → w.cwd ≡ home
      → (received c cfg req draws policy v n s w).0 ≡ done r
      → ((blob : Staged)
          → s ≡ staged blob
          → (blob.path ≡ staged_path cfg.blob_dir draws.id)
            × (find_node w blob.path ≡ some (regular req.reader.bytes))
            × (blob.size ≡ pos (length req.reader.bytes))
            × (blob.sum ≡ hex (c.sha256 req.reader.bytes)))
      → Done r (received c cfg req draws policy v n s w).1
  received-Done v n (stage_error e) w r at_home h f = absurd (ground arith)
  received-Done v n (staged blob) w r at_home h f =
      let (place, held, size, sum) = f blob refl in
      after_stage-Done v n blob w r at_home h place held size sum

  with_reservation-Done :
      (n : ℕ) (w : World) (r : Receipt)
      → w.cwd ≡ home
      → (with_reservation c cfg req draws policy (pos n) w).0 ≡ done r
      → Done r (with_reservation c cfg req draws policy (pos n) w).1
  unfolding with_reservation
  with_reservation-Done n w r at_home h =
      hashed (hash_password_hash c draws.salt req.download_password_hash) h
    where
      hashed :
          (o : Option Text)
          → let m = elim o as (λ _. M Outcome) [
            | none ↦ pure (refused UploadError.store)
            | some verifier ↦ do
              s ← stage c.sha256 cfg.blob_dir draws.id req.reader (pos n)
              received c cfg req draws policy verifier (pos n) s
          ] in
            (m w).0 ≡ done r → Done r (m w).1
      hashed none d = absurd (ground arith)
      hashed (some v) d =
          let s = stage c.sha256 cfg.blob_dir draws.id req.reader (pos n) w in
          let cwd = stage-cwd c.sha256 cfg.blob_dir draws.id req.reader (pos n) w in
          received-Done v (pos n) s.0 s.1 r (ground (arith, cwd)) d (λ blob e. ground (
            arith,
            stage-staged c.sha256 cfg.blob_dir draws.id req.reader w n blob e,
            stage-sum c.sha256 cfg.blob_dir draws.id req.reader (pos n) w blob e,
          ))

  reserving-Done :
      (o : Option ℤ) (w w' : World) (r : Receipt)
      → reserve_capacity cfg.blob_dir cfg.max_upload_bytes cfg.storage_cap_bytes w ≡ (o, w')
      → w'.cwd ≡ home
      → (reserving c cfg req draws policy o w').0 ≡ done r
      → Done r (reserving c cfg req draws policy o w').1
  reserving-Done none w w' r e at_home h = absurd (ground arith)
  reserving-Done (some (pos n)) w w' r e at_home h =
      let (row, i) = with_reservation-Done n w' r at_home h in
      (
        row,
        release_capacity-IsStored c cfg req draws policy home r row (pos n)
            (with_reservation c cfg req draws policy (pos n) w').1 i,
      )
  reserving-Done (some (negsuc n)) w w' r e at_home h =
      let v =
        reserve_capacity-IsReserved cfg.blob_dir cfg.max_upload_bytes cfg.storage_cap_bytes
          (negsuc n) w w' e in
      absurd (ground (arith, v.left, v.is_open, v.amount))

  run_policy-Done :
      (w : World) (r : Receipt)
      → w.cwd ≡ home
      → (run_policy c cfg req draws policy w).0 ≡ done r
      → Done r (run_policy c cfg req draws policy w).1
  unfolding run_policy
  run_policy-Done w r at_home h =
      let w1 = (purge_unprotected w).1 in
      let w2 = (purge draws.purge_now w1).1 in
      let s =
        Shrinks-trans cfg.blob_dir (purge_unprotected-Shrinks cfg.blob_dir w)
          (purge-Shrinks cfg.blob_dir draws.purge_now w1) in
      let o = reserve_capacity cfg.blob_dir cfg.max_upload_bytes cfg.storage_cap_bytes w2 in
      let cwd = reserve_capacity-cwd cfg.blob_dir cfg.max_upload_bytes cfg.storage_cap_bytes w2 in
      reserving-Done o.0 w2 o.1 r refl (ground (arith, s.cwd, cwd)) h

-- An upload that succeeds has stored what it says: under the id of its receipt there is a row with the
-- size, the digest, the title, the visibility and the notices that the policy admitted, and the file at
-- the row's blob path holds exactly the bytes of the body. The staging name is another file's.
pub do_upload-IsStored :
    (c : Crypto) (cfg : Config) (meta : Option CipherMetadata) (req : Request) (draws : Draws)
    (w : World) (r : Receipt)
    → text_eq
        (absolute w.cwd (clean (staged_path cfg.blob_dir draws.id)))
        (absolute w.cwd (blob_path cfg.blob_dir draws.id))
      ≡ false
    → (do_upload c cfg meta req draws w).0 ≡ done r
    → (policy : Policy) × (validate c cfg meta req ≡ accepted policy)
      × ((row : ShareRow) × IsStored c cfg req draws policy r w.cwd
            (do_upload c cfg meta req draws w).1
            row)
unfolding do_upload
do_upload-IsStored c cfg meta req draws w r apart h = checked (validate c cfg meta req) refl h
  where
    checked :
        (x : Checked)
        → validate c cfg meta req ≡ x
        → let m = elim x as (λ _. M Outcome) [
          | rejected e ↦ pure (refused e)
          | accepted policy ↦ run_policy c cfg req draws policy
        ] in
          (m w).0 ≡ done r
          → (policy : Policy) × (validate c cfg meta req ≡ accepted policy)
            × ((row : ShareRow) × IsStored c cfg req draws policy r w.cwd (m w).1 row)
    checked (rejected e) k d = absurd (ground arith)
    checked (accepted policy) k d =
        (policy, k, run_policy-Done c cfg req draws policy w.cwd apart w r refl d)
