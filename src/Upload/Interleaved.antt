-- ===== src/Upload/Interleaved.antt =====
-- internal/upload/upload.go: no interleaving of uploads stores more than the cap.
use shareserver.Base.{
  ℕ, ◌+◌, ◌-◌, ◌≤◌, ◌<◌, ◌≡◌, refl, ℤ, false, some, List, [], ◌∷◌, ◌++◌, Text, arith, length, ◌⊎◌,
  Bool-cases, inl, inr,
}
use shareserver.Base.Int.{pos, pos_part, ◌+ℤ◌, ◌-ℤ◌, +ℤ_parts, -ℤ_parts, ltb_ℤ}
use shareserver.World.{World, regular, Failure, Result, ok, err, fault}
use shareserver.World.Files.{delete, find_node, total_blobs, rename, remove}
use shareserver.World.Path.{absolute, clean}
use shareserver.World.Db.{create_audit, create_share}
use shareserver.Audit.{log}
use shareserver.Auth.{Crypto}
use shareserver.Time.{format_nano}
use shareserver.Share.{Share}
use shareserver.Share.Store.{insert}
use shareserver.Storage.{blob_path, used_bytes, commit, remove_blob_best_effort, Staged}
use shareserver.Storage.Shrinks.{total-delete_le}
use shareserver.Upload.{Config, Request, Policy}
use shareserver.Upload.Capacity.{reserved, reserve_capacity, release_capacity}
use shareserver.Upload.Ledger.{
  small, IsSmall, parts_zero, reserve_capacity_fits, reserved-assign, reserved-forget,
  reserve_capacity-IsReserved,
}
use shareserver.Upload.Do.{
  Draws, finish, admit, turn_away, record_share, log_upload, log_over, fits, new_share,
}
use shareserver.Upload.Pool.{
  Pool, total, Step, reserve, finishing, release, other, Reach, here, next,
}

-- A commit adds at most the bytes of the staged file.
commit-used :
    (old dir id bytes : Text) (w : World)
    → find_node w old ≡ some (regular bytes)
    → (used_bytes dir (commit old dir id w).1 ≤ used_bytes dir w + length bytes)
      × ((commit old dir id w).1.reservations ≡ w.reservations)
unfolding commit rename used_bytes total_blobs fault
commit-used old dir id bytes w h =
    let from = absolute w.cwd old in
    let to = absolute w.cwd (blob_path dir id) in
    ground (
      arith,
      total-delete_le (absolute w.cwd dir) to (delete from w.files),
      total-delete_le (absolute w.cwd dir) from w.files,
    )

Result-cases : (r : Result (Unit {0})) → (r ≡ ok tt) ⊎ ((e : Failure) × (r ≡ err e))
Result-cases (ok tt) = inl refl
Result-cases (err e) = inr (e, refl)

commit-path :
    (old dir id : Text) (w : World)
    → ((commit old dir id w).0 ≡ ok (blob_path dir id))
      ⊎ ((e : Failure) × ((commit old dir id w).0 ≡ err e))
unfolding commit
commit-path old dir id w = elim (Result-cases (rename old (blob_path dir id) w).0) [
  | inl h ↦ inl (rw h refl)
  | inr (e, h) ↦ inr (e, rw h refl)
]

remove-used :
    (dir path : Text) (w : World)
    → (used_bytes dir (remove path w).1 ≤ used_bytes dir w)
      × ((remove path w).1.reservations ≡ w.reservations)
unfolding remove used_bytes fault
remove-used dir path w =
    ground (arith, total-delete_le (absolute w.cwd dir) (absolute w.cwd path) w.files)

remove_blob-used :
    (dir path : Text) (w : World)
    → (used_bytes dir (remove_blob_best_effort path w).1 ≤ used_bytes dir w)
      × ((remove_blob_best_effort path w).1.reservations ≡ w.reservations)
unfolding remove_blob_best_effort
remove_blob-used dir path w = remove-used dir (clean path) w

pub log-used :
    (dir a b c d e : Text) (n : ℕ) (w : World)
    → (used_bytes dir (log a b c d e n w).1 ≡ used_bytes dir w)
      × ((log a b c d e n w).1.reservations ≡ w.reservations)
unfolding log create_audit fault used_bytes
log-used dir a b c d e n w = ground arith

insert-used :
    (dir t : Text) (sh : Share) (w : World)
    → (used_bytes dir (insert t sh w).1 ≡ used_bytes dir w)
      × ((insert t sh w).1.reservations ≡ w.reservations)
unfolding insert create_share fault used_bytes
insert-used dir t sh w = ground arith

module _ (c : Crypto) (cfg : Config) (req : Request) (draws : Draws) (policy : Policy) where
  log_upload-used :
      (blob : Staged) (w : World)
      → let w' = (log_upload c cfg req draws policy blob w).1 in
        (used_bytes cfg.blob_dir w' ≡ used_bytes cfg.blob_dir w)
        × (w'.reservations ≡ w.reservations)
  unfolding log_upload
  log_upload-used blob w = log-used cfg.blob_dir _ _ _ _ _ _ w

  record_share-used :
      (v : Text) (blob : Staged) (path : Text) (w : World)
      → let w' = (record_share c cfg req draws policy v blob path w).1 in
        (used_bytes cfg.blob_dir w' ≤ used_bytes cfg.blob_dir w)
        × (w'.reservations ≡ w.reservations)
  unfolding record_share
  record_share-used v blob path w =
      let sh = new_share c cfg req draws policy v blob path in
      let r = insert (format_nano draws.created) sh w in
      ground (
        arith,
        insert-used cfg.blob_dir (format_nano draws.created) sh w,
        remove_blob-used cfg.blob_dir path r.1,
        log_upload-used blob r.1,
      )

  admit-used :
      (v bytes : Text) (blob : Staged) (w : World)
      → find_node w blob.path ≡ some (regular bytes)
      → let w' = (admit c cfg req draws policy v blob w).1 in
        (used_bytes cfg.blob_dir w' ≤ used_bytes cfg.blob_dir w + length bytes)
        × (w'.reservations ≡ w.reservations)
  unfolding admit
  admit-used v bytes blob w h =
      let r = commit blob.path cfg.blob_dir draws.id w in
      ground (
        arith,
        commit-used blob.path cfg.blob_dir draws.id bytes w h,
        record_share-used v blob (blob_path cfg.blob_dir draws.id) r.1,
        commit-path blob.path cfg.blob_dir draws.id w,
      )

  pub turn_away-used :
      (blob : Staged) (w : World)
      → let w' = (turn_away c cfg req draws policy blob w).1 in
        (used_bytes cfg.blob_dir w' ≡ used_bytes cfg.blob_dir w)
        × (w'.reservations ≡ w.reservations)
  unfolding turn_away log_over
  turn_away-used blob w = log-used cfg.blob_dir _ _ _ _ _ _ w

-- The test of the last measure, on what it reads.
fits_bound :
    (capacity : ℤ) (used size held n : ℕ)
    → pos_part capacity < small
    → used ≤ pos_part capacity
    → held ≤ pos_part capacity
    → n ≤ held
    → size ≤ n
    → ltb_ℤ capacity (pos used +ℤ pos size +ℤ (pos held -ℤ pos n)) ≡ false
    → used + size ≤ pos_part capacity
fits_bound capacity used size held n k u t m z h =
    let x = pos held -ℤ pos n in
    let y = pos used +ℤ pos size in
    let e1 = -ℤ_parts (pos held) (pos n) (omega arith) (omega arith) in
    let e2 = +ℤ_parts (pos used) (pos size) (omega arith) (omega arith) in
    let e3 =
      +ℤ_parts y x (omega (arith, parts_zero x, parts_zero y))
        (omega (arith, parts_zero x, parts_zero y)) in
    ground (arith, parts_zero (y +ℤ x), parts_zero x, parts_zero y)

add_pos : (a b : ℕ) → a < small → b < small → pos a +ℤ pos b ≡ pos (a + b)
add_pos a b h k =
    let e = +ℤ_parts (pos a) (pos b) (omega arith) (omega arith) in
    ground (arith, parts_zero (pos a +ℤ pos b))

sub_pos : (a b : ℕ) → a < small → b ≤ a → pos a -ℤ pos b ≡ pos (a - b)
sub_pos a b h k =
    let e = -ℤ_parts (pos a) (pos b) (omega arith) (omega arith) in
    ground (arith, parts_zero (pos a -ℤ pos b))

total-append : (xs ys : List ℕ) → total (xs ++ ys) ≡ total xs + total ys
total-append [] ys = omega arith
total-append (x ∷ xs) ys = omega (arith, total-append xs ys)

-- The ledger is what the uploads in flight hold, and neither it nor the stored blobs pass the cap.
pub record IsWithinCap (cfg : Config) (p : Pool) : Type 0 where
  pub ledger : reserved cfg.blob_dir p.world.reservations ≡ pos (total p.held)
  pub held_fits : total p.held ≤ pos_part cfg.storage_cap_bytes
  pub used_fits : used_bytes cfg.blob_dir p.world ≤ pos_part cfg.storage_cap_bytes

module _ (cfg : Config) (m : IsSmall cfg.max_upload_bytes) (k : IsSmall cfg.storage_cap_bytes) where
  finish-used :
      (c : Crypto) (req : Request) (draws : Draws) (policy : Policy) (v bytes : Text) (n : ℕ)
      (blob : Staged) (p : Pool)
      → IsWithinCap cfg p
      → n ≤ total p.held
      → find_node p.world blob.path ≡ some (regular bytes)
      → blob.size ≡ pos (length bytes)
      → length bytes ≤ n
      → let w' = (finish c cfg req draws policy v (pos n) blob p.world).1 in
        (used_bytes cfg.blob_dir w' ≤ pos_part cfg.storage_cap_bytes)
        × (w'.reservations ≡ p.world.reservations)
  unfolding finish
  finish-used c req draws policy v bytes n blob p i less h size z =
      elim (Bool-cases (fits c cfg req draws policy (pos n) blob p.world)) [
        | inl fitting ↦
            let used = used_bytes cfg.blob_dir p.world in
            let within : ltb_ℤ cfg.storage_cap_bytes
                  (pos used +ℤ pos (length bytes) +ℤ (pos (total p.held) -ℤ pos n))
                ≡ false =
              ground (arith, fitting) in
            let bound =
              fits_bound cfg.storage_cap_bytes used (length bytes) (total p.held) n k.0 i.used_fits
                i.held_fits less z within in
            ground (arith, fitting, admit-used c cfg req draws policy v bytes blob p.world h)
        | inr over ↦ ground (arith, over, turn_away-used c cfg req draws policy blob p.world)
      ]

  reserve-IsWithinCap :
      (p : Pool) (n : ℕ) (w' : World)
      → reserve_capacity cfg.blob_dir cfg.max_upload_bytes cfg.storage_cap_bytes p.world
        ≡ (some (pos n), w')
      → IsWithinCap cfg p
      → IsWithinCap cfg (record { world = w'; held = n ∷ p.held })
  reserve-IsWithinCap p n w' h i =
      let small_ledger : IsSmall (reserved cfg.blob_dir p.world.reservations) =
        rw (i.ledger) (omega (arith, i.held_fits), omega arith) in
      let v =
        reserve_capacity-IsReserved cfg.blob_dir cfg.max_upload_bytes cfg.storage_cap_bytes (pos n)
          p.world w' h in
      let (low, high, fit) =
        reserve_capacity_fits cfg.blob_dir cfg.max_upload_bytes cfg.storage_cap_bytes (pos n)
          p.world w' m k (omega (arith, i.used_fits)) small_ledger h in
      let sum = add_pos (total p.held) n (omega (arith, i.held_fits)) (omega arith) in
      let ledger : reserved cfg.blob_dir w'.reservations ≡ pos (n + total p.held) =
        ground (arith, v.ledger, sum, i.ledger) in
      record { ledger = ledger; held_fits = ground arith; used_fits = rw v.used i.used_fits }

  release-IsWithinCap :
      (p : Pool) (before after : List ℕ) (n : ℕ)
      → p.held ≡ before ++ n ∷ after
      → IsWithinCap cfg p
      → IsWithinCap cfg
          (record { world = release_capacity cfg.blob_dir (pos n) p.world; held = before ++ after })
  unfolding release_capacity used_bytes
  release-IsWithinCap p before after n e i =
      let whole : total p.held ≡ total before + (n + total after) =
        rw e (total-append before (n ∷ after)) in
      let rest = total-append before after in
      let left = sub_pos (total p.held) n (omega (arith, i.held_fits)) (omega arith) in
      ground (
        arith,
        reserved-forget cfg.blob_dir p.world.reservations,
        reserved-assign cfg.blob_dir (reserved cfg.blob_dir p.world.reservations -ℤ pos n)
            p.world.reservations,
      )

  Step-IsWithinCap : {p q : Pool} → Step cfg p q → IsWithinCap cfg p → IsWithinCap cfg q
  Step-IsWithinCap (reserve p n w' h) i = reserve-IsWithinCap p n w' h i
  Step-IsWithinCap (finishing p before after n bytes c req draws policy v blob e h size z) i =
      let whole : total p.held ≡ total before + (n + total after) =
        rw e (total-append before (n ∷ after)) in
      ground (arith, finish-used c req draws policy v bytes n blob p i (omega arith) h size z)
  Step-IsWithinCap (release p before after n e) i = release-IsWithinCap p before after n e i
  Step-IsWithinCap (other p w' r u) i = ground (arith, i.ledger)

  -- From a state within the cap, no interleaving of uploads, purges and removals leads to stored blobs
  -- or to reservations beyond the cap, and the ledger is always what the uploads in flight hold.
  pub Reach-IsWithinCap : {p q : Pool} → IsWithinCap cfg p → Reach cfg p q → IsWithinCap cfg q
  Reach-IsWithinCap i here = i
  Reach-IsWithinCap i (next r s) = Step-IsWithinCap s (Reach-IsWithinCap i r)
