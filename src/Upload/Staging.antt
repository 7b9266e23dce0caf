-- ===== src/Upload/Staging.antt =====
-- internal/upload/upload.go: staging adds no stored byte.
use shareserver.Base.{
  Bool, ℕ, ◌≤◌, ◌≡◌, refl, ℤ, true, false, none, some, Option, [], Text, text_eq_refl, arith,
  length,
}
use shareserver.Base.Int.{pos}
use shareserver.World.{World, Node, regular, fault}
use shareserver.World.Path.{absolute}
use shareserver.World.Files.{lookup, find_node, is_blob, total_blobs, remove}
use shareserver.Storage.{
  write_file, drop_staged, closed, filled, fill, create_new, open_new, StageError, failed, Reader,
  Staged, staged, stage, copied, used_bytes, staged_path,
}
use shareserver.Storage.Shrinks.{remove-Shrinks, Shrinks, total-delete_le}

-- No reservation changes, and no stored byte is added.
pub record IsNoFuller (dir : Text) (w w' : World) : Type 0 where
  pub cwd : w'.cwd ≡ w.cwd
  pub reservations : w'.reservations ≡ w.reservations
  pub used : used_bytes dir w' ≤ used_bytes dir w

module _ (dir : Text) where
  IsNoFuller-trans : {u v w : World} → IsNoFuller dir u v → IsNoFuller dir v w → IsNoFuller dir u w
  IsNoFuller-trans a b = ground (arith, a.cwd, b.cwd, a.reservations, b.reservations)

  IsNoFuller-refl : (w : World) → IsNoFuller dir w w
  IsNoFuller-refl w = record { cwd = refl; reservations = refl; used = omega arith }

  pub Shrinks-IsNoFuller : {w w' : World} → Shrinks dir w w' → IsNoFuller dir w w'
  Shrinks-IsNoFuller s = record { cwd = s.cwd; reservations = s.reservations; used = s.used }

  fault-IsNoFuller : (w : World) → IsNoFuller dir w (fault w).1
  unfolding fault used_bytes
  fault-IsNoFuller w = ground arith

  write_file-IsNoFuller :
      (path bytes : Text) (w : World)
      → is_blob (absolute w.cwd path) ≡ false
      → IsNoFuller dir w (write_file path bytes w).1
  unfolding used_bytes total_blobs
  write_file-IsNoFuller path bytes w h =
      ground (arith, total-delete_le (absolute w.cwd dir) (absolute w.cwd path) w.files)

  drop_staged-IsNoFuller :
      (path : Text) (e : StageError) (w : World) → IsNoFuller dir w (drop_staged path e w).1
  drop_staged-IsNoFuller path e w = Shrinks-IsNoFuller (remove-Shrinks dir path w)

module _ (sha : Text → Text) (dir path bytes : Text) where
  closed-IsNoFuller :
      (b : Bool) (w : World)
      → is_blob (absolute w.cwd path) ≡ false
      → IsNoFuller dir w (closed sha path bytes b w).1
  closed-IsNoFuller true w h = drop_staged-IsNoFuller dir path failed w
  closed-IsNoFuller false w h =
      IsNoFuller-trans dir (write_file-IsNoFuller dir path bytes w h)
        (fault-IsNoFuller dir (write_file path bytes w).1)

  filled-IsNoFuller :
      (b : Bool) (e : Option StageError) (w : World)
      → is_blob (absolute w.cwd path) ≡ false
      → IsNoFuller dir w (filled sha path bytes b e w).1
  filled-IsNoFuller true e w h = drop_staged-IsNoFuller dir path failed w
  filled-IsNoFuller false (some e) w h = drop_staged-IsNoFuller dir path e w
  filled-IsNoFuller false none w h =
      let s = fault-IsNoFuller dir w in
      IsNoFuller-trans dir s (closed-IsNoFuller (fault w).0 (fault w).1 (rw s.cwd h))

module _ (sha : Text → Text) (dir path : Text) (limit : ℤ) (r : Reader) where
  fill-IsNoFuller :
      (w : World)
      → is_blob (absolute w.cwd path) ≡ false
      → IsNoFuller dir w (fill sha path limit r w).1
  fill-IsNoFuller w h =
      let s = fault-IsNoFuller dir w in
      IsNoFuller-trans dir s (
        filled-IsNoFuller sha dir path r.bytes (fault w).0 (copied limit r) (fault w).1
          (rw s.cwd h))

  create_new-IsNoFuller :
      (o : Option Node) (w : World)
      → is_blob (absolute w.cwd path) ≡ false
      → IsNoFuller dir w (create_new sha path limit r o w).1
  create_new-IsNoFuller (some n) w h = IsNoFuller-refl dir w
  create_new-IsNoFuller none w h =
      IsNoFuller-trans dir (write_file-IsNoFuller dir path [] w h)
        (fill-IsNoFuller (write_file path [] w).1 h)

  open_new-IsNoFuller :
      (b : Bool) (w : World)
      → is_blob (absolute w.cwd path) ≡ false
      → IsNoFuller dir w (open_new sha path limit r b w).1
  open_new-IsNoFuller true w h = IsNoFuller-refl dir w
  open_new-IsNoFuller false w h = create_new-IsNoFuller (find_node w path) w h

-- Staging writes one file, which is not measured as a blob.
module _ (sha : Text → Text) (dir id : Text) (r : Reader) (w : World) where
  pub stage-IsNoFuller :
      (limit : ℤ)
      → is_blob (absolute w.cwd (staged_path dir id)) ≡ false
      → IsNoFuller dir w (stage sha dir id r limit w).1
  unfolding stage
  stage-IsNoFuller limit h =
      let s = fault-IsNoFuller dir w in
      IsNoFuller-trans dir s (
        open_new-IsNoFuller sha dir (staged_path dir id) limit r (fault w).0 (fault w).1
          (rw s.cwd h))

  pub stage-staged :
      (n : ℕ) (blob : Staged)
      → (stage sha dir id r (pos n) w).0 ≡ staged blob
      → (blob.path ≡ staged_path dir id)
        × (blob.size ≡ pos (length r.bytes))
        × (length r.bytes ≤ n)
        × (find_node (stage sha dir id r (pos n) w).1 (staged_path dir id) ≡ some (regular r.bytes))
  unfolding stage copied remove fault lookup
  stage-staged n blob h = ground (arith, text_eq_refl (absolute w.cwd (staged_path dir id)))
