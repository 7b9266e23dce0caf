-- ===== src/Upload/Runs.antt =====
-- internal/upload/upload.go: `Do` is a sequence of the steps of Upload/Pool.
use shareserver.Base.{
  Bool, ℕ, ◌≤◌, ◌≡◌, refl, ℤ, true, false, none, some, Option, List, [], ◌∷◌, Text, arith, length,
  Bool-cases, ◌⊎◌, inl, inr,
}
use shareserver.Base.Int.{negsuc, pos, ltb_ℤ}
use shareserver.World.{M, pure, ◌>>=◌, World, regular, fault}
use shareserver.World.Path.{absolute}
use shareserver.World.Files.{find_node, is_blob, rename}
use shareserver.Auth.{Crypto, hash_password_hash}
use shareserver.Storage.{
  Staged, StageResult, staged, stage_error, stage, used_bytes, staged_path, commit,
  remove_blob_best_effort,
}
use shareserver.Storage.Integrity.{purge, purge_unprotected}
use shareserver.Storage.Shrinks.{
  Shrinks-trans, purge-Shrinks, purge_unprotected-Shrinks, remove_blob-Shrinks,
}
use shareserver.Upload.{
  UploadError, Config, Request, CipherMetadata, Policy, Checked, rejected, accepted, validate,
}
use shareserver.Upload.Capacity.{reserve_capacity, release_capacity}
use shareserver.Upload.Ledger.{reserve_capacity-IsReserved}
use shareserver.Upload.Do.{
  Draws, Outcome, refused, do_upload, run_policy, reserving, with_reservation, received,
  after_stage, measure_again, finish, admit, fits, log_full,
}
use shareserver.Upload.Pool.{Pool, reserve, finishing, release, other, Reach, here, next}
use shareserver.Upload.Interleaved.{turn_away-used, log-used}
use shareserver.Upload.Staging.{IsNoFuller, Shrinks-IsNoFuller, stage-IsNoFuller, stage-staged}

-- A commit that finds its staged file gone moves nothing.
module _ (c : Crypto) (cfg : Config) (req : Request) (draws : Draws) (policy : Policy) where
  log_full-used :
      (used : ℕ) (w : World)
      → let w' = (log_full c cfg req draws policy used w).1 in
        (used_bytes cfg.blob_dir w' ≡ used_bytes cfg.blob_dir w)
        × (w'.reservations ≡ w.reservations)
  unfolding log_full
  log_full-used used w = log-used cfg.blob_dir _ _ _ _ _ _ w

  finish-gone :
      (v : Text) (n : ℤ) (blob : Staged) (w : World)
      → find_node w blob.path ≡ none
      → let w' = (finish c cfg req draws policy v n blob w).1 in
        (used_bytes cfg.blob_dir w' ≤ used_bytes cfg.blob_dir w)
        × (w'.reservations ≡ w.reservations)
  unfolding finish admit commit rename used_bytes fault
  finish-gone v n blob w h = elim (Bool-cases (fits c cfg req draws policy n blob w)) [
    | inl fitting ↦ ground (arith, fitting)
    | inr over ↦ ground (arith, over, turn_away-used c cfg req draws policy blob w)
  ]

reserve_capacity-none :
    (dir : Text) (m k : ℤ) (w w' : World) → reserve_capacity dir m k w ≡ (none, w') → w' ≡ w
unfolding reserve_capacity
reserve_capacity-none dir m k w w' h = ground arith

reserve_capacity-cwd :
    (dir : Text) (m k : ℤ) (o : Option ℤ) (w w' : World)
    → reserve_capacity dir m k w ≡ (o, w')
    → w'.cwd ≡ w.cwd
unfolding reserve_capacity
reserve_capacity-cwd dir m k o w w' h = ground arith

-- One upload, from the state `p` of the process.
module _ (c : Crypto) (cfg : Config) (req : Request) (draws : Draws) (policy : Policy)
    (p : Pool) where
  -- The pool with the world `w`.
  abbrev at : World → List ℕ → Pool
  at w held = record { world = w; held = held }

  quiet :
      (w w' : World) (held : List ℕ)
      → IsNoFuller cfg.blob_dir w w'
      → Reach cfg p (at w held)
      → Reach cfg p (at w' held)
  quiet w w' held s r = next r (other (at w held) w' s.reservations s.used)

  finish-Reach :
      (v bytes : Text) (n : ℕ) (held : List ℕ) (blob : Staged) (w : World)
      → (find_node w blob.path ≡ some (regular bytes)) ⊎ (find_node w blob.path ≡ none)
      → blob.size ≡ pos (length bytes)
      → length bytes ≤ n
      → Reach cfg p (at w (n ∷ held))
      → Reach cfg p (at (finish c cfg req draws policy v (pos n) blob w).1 (n ∷ held))
  finish-Reach v bytes n held blob w (inl h) size z r =
      next r (finishing (at w (n ∷ held)) [] held n bytes c req draws policy v blob refl h size z)
  finish-Reach v bytes n held blob w (inr h) size z r =
      let (u, s) = finish-gone c cfg req draws policy v (pos n) blob w h in
      next r (other (at w (n ∷ held)) (finish c cfg req draws policy v (pos n) blob w).1 s u)

  measure_again-Reach :
      (v bytes : Text) (n : ℕ) (held : List ℕ) (blob : Staged) (w : World)
      → find_node w blob.path ≡ some (regular bytes)
      → blob.size ≡ pos (length bytes)
      → length bytes ≤ n
      → Reach cfg p (at w (n ∷ held))
      → Reach cfg p (at (measure_again c cfg req draws policy v (pos n) blob w).1 (n ∷ held))
  unfolding measure_again
  measure_again-Reach v bytes n held blob w h size z r =
      let w1 = (purge_unprotected w).1 in
      let w2 = (purge draws.commit_now w1).1 in
      let s =
        Shrinks-trans cfg.blob_dir (purge_unprotected-Shrinks cfg.blob_dir w)
          (purge-Shrinks cfg.blob_dir draws.commit_now w1) in
      finish-Reach v bytes n held blob w2 (ground (arith, s.kept (absolute w.cwd blob.path), s.cwd))
        size z (quiet w w2 (n ∷ held) (Shrinks-IsNoFuller cfg.blob_dir s) r)

  after_stage-Reach :
      (v bytes : Text) (n : ℕ) (held : List ℕ) (blob : Staged) (w : World)
      → find_node w blob.path ≡ some (regular bytes)
      → blob.size ≡ pos (length bytes)
      → length bytes ≤ n
      → Reach cfg p (at w (n ∷ held))
      → Reach cfg p (at (after_stage c cfg req draws policy v (pos n) blob w).1 (n ∷ held))
  unfolding after_stage
  after_stage-Reach v bytes n held blob w h size z r = cleaned (ltb_ℤ blob.size (pos 16))
    where
      cleaned :
          (tiny : Bool)
          → let m = elim tiny as (λ _. M Outcome) [
            | true ↦ pure (refused UploadError.encryption_required)
            | false ↦ measure_again c cfg req draws policy v (pos n) blob
          ] in
            Reach cfg p (at (remove_blob_best_effort blob.path (m w).1).1 (n ∷ held))
      cleaned true =
          quiet w (remove_blob_best_effort blob.path w).1 (n ∷ held)
            (Shrinks-IsNoFuller cfg.blob_dir (remove_blob-Shrinks cfg.blob_dir blob.path w)) r
      cleaned false =
          let w1 = (measure_again c cfg req draws policy v (pos n) blob w).1 in
          quiet w1 (remove_blob_best_effort blob.path w1).1 (n ∷ held)
            (Shrinks-IsNoFuller cfg.blob_dir (remove_blob-Shrinks cfg.blob_dir blob.path w1))
            (measure_again-Reach v bytes n held blob w h size z r)

  received-Reach :
      (v bytes : Text) (n : ℕ) (held : List ℕ) (s : StageResult) (w : World)
      → ((blob : Staged)
          → s ≡ staged blob
          → (find_node w blob.path ≡ some (regular bytes))
            × (blob.size ≡ pos (length bytes))
            × (length bytes ≤ n))
      → Reach cfg p (at w (n ∷ held))
      → Reach cfg p (at (received c cfg req draws policy v (pos n) s w).1 (n ∷ held))
  received-Reach v bytes n held (stage_error e) w f r = r
  received-Reach v bytes n held (staged blob) w f r =
      let (h, size, z) = f blob refl in after_stage-Reach v bytes n held blob w h size z r

  with_reservation-Reach :
      (n : ℕ) (held : List ℕ) (w : World)
      → is_blob (absolute w.cwd (staged_path cfg.blob_dir draws.id)) ≡ false
      → Reach cfg p (at w (n ∷ held))
      → Reach cfg p (at (with_reservation c cfg req draws policy (pos n) w).1 (n ∷ held))
  unfolding with_reservation
  with_reservation-Reach n held w h r =
      hashed (hash_password_hash c draws.salt req.download_password_hash)
    where
      hashed :
          (o : Option Text)
          → let m = elim o as (λ _. M Outcome) [
            | none ↦ pure (refused UploadError.store)
            | some verifier ↦ do
              s ← stage c.sha256 cfg.blob_dir draws.id req.reader (pos n)
              received c cfg req draws policy verifier (pos n) s
          ] in
            Reach cfg p (at (m w).1 (n ∷ held))
      hashed none = r
      hashed (some v) =
          let s = stage c.sha256 cfg.blob_dir draws.id req.reader (pos n) w in
          received-Reach v req.reader.bytes n held s.0 s.1
            (λ blob e.
              ground (arith, stage-staged c.sha256 cfg.blob_dir draws.id req.reader w n blob e))
            (quiet w s.1 (n ∷ held)
              (stage-IsNoFuller c.sha256 cfg.blob_dir draws.id req.reader w (pos n) h) r)

  released-Reach :
      (n : ℕ) (held : List ℕ) (w : World)
      → Reach cfg p (at w (n ∷ held))
      → Reach cfg p (at (release_capacity cfg.blob_dir (pos n) w) held)
  released-Reach n held w r = next r (release (at w (n ∷ held)) [] held n refl)

  reserving-Reach :
      (o : Option ℤ) (held : List ℕ) (w w' : World)
      → reserve_capacity cfg.blob_dir cfg.max_upload_bytes cfg.storage_cap_bytes w ≡ (o, w')
      → is_blob (absolute w.cwd (staged_path cfg.blob_dir draws.id)) ≡ false
      → Reach cfg p (at w held)
      → Reach cfg p (at (reserving c cfg req draws policy o w').1 held)
  reserving-Reach none held w w' e h r =
      let same =
        reserve_capacity-none cfg.blob_dir cfg.max_upload_bytes cfg.storage_cap_bytes w w' e in
      let (u, s) = log_full-used c cfg req draws policy (used_bytes cfg.blob_dir w') w' in
      next r (
        other (at w held) (log_full c cfg req draws policy (used_bytes cfg.blob_dir w') w').1
          (ground (arith, s, same)) (ground (arith, u, same)))
  reserving-Reach (some (pos n)) held w w' e h r =
      let cwd : w'.cwd ≡ w.cwd =
        reserve_capacity-cwd cfg.blob_dir cfg.max_upload_bytes cfg.storage_cap_bytes (some (pos n))
          w w' e in
      released-Reach n held (with_reservation c cfg req draws policy (pos n) w').1
        (with_reservation-Reach n held w' (rw cwd h) (next r (reserve (at w held) n w' e)))
  reserving-Reach (some (negsuc n)) held w w' e h r =
      let v =
        reserve_capacity-IsReserved cfg.blob_dir cfg.max_upload_bytes cfg.storage_cap_bytes
          (negsuc n) w w' e in
      absurd (ground (arith, v.left, v.is_open, v.amount))

  run_policy-Reach :
      (held : List ℕ) (w : World)
      → is_blob (absolute w.cwd (staged_path cfg.blob_dir draws.id)) ≡ false
      → Reach cfg p (at w held)
      → Reach cfg p (at (run_policy c cfg req draws policy w).1 held)
  unfolding run_policy
  run_policy-Reach held w h r =
      let w1 = (purge_unprotected w).1 in
      let w2 = (purge draws.purge_now w1).1 in
      let s =
        Shrinks-trans cfg.blob_dir (purge_unprotected-Shrinks cfg.blob_dir w)
          (purge-Shrinks cfg.blob_dir draws.purge_now w1) in
      let o = reserve_capacity cfg.blob_dir cfg.max_upload_bytes cfg.storage_cap_bytes w2 in
      reserving-Reach o.0 held w2 o.1 refl (rw s.cwd h)
        (quiet w w2 held (Shrinks-IsNoFuller cfg.blob_dir s) r)

-- `Do` implements the steps: its whole effect on the process is a sequence of them, begun with any
-- reservations of other uploads and ended with the same, so its own is released whatever happens. Its
-- staging name is not that of a blob.
pub do_upload-Reach :
    (c : Crypto) (cfg : Config) (meta : Option CipherMetadata) (req : Request) (draws : Draws)
    (w : World) (held : List ℕ)
    → is_blob (absolute w.cwd (staged_path cfg.blob_dir draws.id)) ≡ false
    → Reach cfg
        (record { world = w; held = held })
        (record { world = (do_upload c cfg meta req draws w).1; held = held })
unfolding do_upload
do_upload-Reach c cfg meta req draws w held h = checked (validate c cfg meta req)
  where
    checked :
        (x : Checked)
        → let m = elim x as (λ _. M Outcome) [
          | rejected e ↦ pure (refused e)
          | accepted policy ↦ run_policy c cfg req draws policy
        ] in
          Reach cfg (record { world = w; held = held }) (record { world = (m w).1; held = held })
    checked (rejected e) = here
    checked (accepted policy) =
        run_policy-Reach c cfg req draws policy (record { world = w; held = held }) held w h here
