-- ===== src/Storage.antt =====
-- internal/storage/blobstore.go: blob names, staging, commit and the measure of used bytes.
pub mod Integrity
pub mod Removal
pub mod Removed
pub mod Shrinks
pub mod Purged
pub mod RepairedRows
pub mod Swept
pub mod Reconciled
pub mod Fit
use shareserver.Base.{
  ℕ, ◌+◌, ◌-◌, ◌*◌, ◌/◌, ◌%◌, ℤ, Bool, true, false, ◌&&◌, ◌||◌, not, Option, none, some, List, [],
  ◌∷◌, ◌++◌, Text, codes, ltb, ◌==◌, if◌then◌else◌, length, take,
}
use shareserver.Base.Int.{pos, ltb_ℤ, pos_part}
use shareserver.World.{World, Node, regular, Result, ok, err, io, M, pure, ◌>>=◌, ◌>>◌, fault}
use shareserver.World.Path.{absolute, clean, join_path}
use shareserver.World.Files.{find_node, lookup, delete, remove, rename, total_blobs}

abbrev pub hex_digit : ℕ → ℕ
hex_digit n = if ltb n 10 then b'0' + n else b'a' + n - 10

-- `%x`, and `hex.EncodeToString`.
unfoldable pub hex : Text → Text
hex [] = []
hex (b ∷ s) = hex_digit (b / 16 % 16) ∷ hex_digit (b % 16) ∷ hex s

-- The four bytes of a group of the name, and so on.
abbrev pub set_version : ℕ → ℕ
set_version b = b % 16 + 0x40

abbrev pub set_variant : ℕ → ℕ
set_variant b = b % 64 + 0x80

-- `UUID`, of the sixteen bytes that crypto/rand gives.
unfoldable pub uuid : ℕ → ℕ → ℕ → ℕ → ℕ → ℕ → ℕ → ℕ → ℕ → ℕ → ℕ → ℕ → ℕ → ℕ → ℕ → ℕ → Text
uuid b0 b1 b2 b3 b4 b5 b6 b7 b8 b9 b10 b11 b12 b13 b14 b15 =
    hex (b0 ∷ b1 ∷ b2 ∷ b3 ∷ [])
    ++ b'-' ∷ hex (b4 ∷ b5 ∷ [])
    ++ b'-' ∷ hex (set_version b6 ∷ b7 ∷ [])
    ++ b'-' ∷ hex (set_variant b8 ∷ b9 ∷ [])
    ++ b'-' ∷ hex (b10 ∷ b11 ∷ b12 ∷ b13 ∷ b14 ∷ b15 ∷ [])

-- How the blob's reader ends after its bytes: at the end of the body, or by an error. The ending
-- comes in a read of its own.
pub data Ending : Type 0 where
  eof too_big bad_body broken : Ending

pub record Reader : Type 0 where
  pub bytes : Text
  pub ending : Ending

-- The errors that the caller of `Stage` tells apart.
pub data StageError : Type 0 where
  invalid_body too_large failed : StageError

pub record Staged : Type 0 where
  pub path : Text
  pub sum : Text
  pub size : ℤ

pub data StageResult : Type 0 where
  staged : Staged → StageResult
  stage_error : StageError → StageResult

abbrev pub staging_dir : Text → Text
staging_dir dir = join_path dir (codes ".staging")

abbrev pub staged_path : Text → Text → Text
staged_path dir id = join_path (staging_dir dir) (id ++ codes ".tmp")

abbrev pub blob_path : Text → Text → Text
blob_path dir id = join_path dir (id ++ codes ".blob")

-- What `io.Copy` from a reader limited to `limit + 1` bytes gives: an error, or the bytes.
unfoldable pub copied : ℤ → Reader → Option StageError
copied limit r = if ltb_ℤ limit (pos (length r.bytes)) then some too_large else elim r.ending [
  | eof ↦ none
  | too_big ↦ some too_large
  | bad_body ↦ some invalid_body
  | broken ↦ some failed
]

abbrev pub write_file : Text → Text → M (Unit {0})
write_file path s w = (
  tt,
  record w { files = (absolute w.cwd path, regular s) ∷ delete (absolute w.cwd path) w.files },
)

-- The deferred clean-up of a file that was not committed; it may itself fail.
abbrev pub drop_staged : Text → StageError → M StageResult
drop_staged path e = do remove path; pure (stage_error e)

-- After the close. The deferred close of the directory handle comes last, and its error is returned
-- though the file stays.
abbrev pub closed : (Text → Text) → Text → Text → Bool → M StageResult
closed sha256 path bytes true = drop_staged path failed
closed sha256 path bytes false = do
  write_file path bytes
  root_failed ← fault
  pure (
      if root_failed
      then stage_error failed
      else staged (record { path = path; sum = hex (sha256 bytes); size = pos (length bytes) }))

-- The copy, with its possible write error.
abbrev pub filled : (Text → Text) → Text → Text → Bool → Option StageError → M StageResult
filled sha256 path bytes true e = drop_staged path failed
filled sha256 path bytes false (some e) = drop_staged path e
filled sha256 path bytes false none = do close_failed ← fault; closed sha256 path bytes close_failed

abbrev pub fill : (Text → Text) → Text → ℤ → Reader → M StageResult
fill sha256 path limit r = do
  write_failed ← fault
  filled sha256 path r.bytes write_failed (copied limit r)

-- `O_CREATE|O_EXCL`: an existing name is an error.
abbrev pub create_new : (Text → Text) → Text → ℤ → Reader → Option Node → M StageResult
create_new sha256 path limit r (some _) = pure (stage_error failed)
create_new sha256 path limit r none = do write_file path []; fill sha256 path limit r

abbrev pub open_new : (Text → Text) → Text → ℤ → Reader → Bool → M StageResult
open_new sha256 path limit r true w = (stage_error failed, w)
open_new sha256 path limit r false w = create_new sha256 path limit r (find_node w path) w

unfoldable pub stage : (Text → Text) → Text → Text → Reader → ℤ → M StageResult
stage sha256 dir id r limit = do
  open_failed ← fault
  open_new sha256 (staged_path dir id) limit r open_failed

abbrev final_path : Text → Text → Result (Unit {0}) → Result Text
final_path dir id (ok _) = ok (blob_path dir id)
final_path dir id (err e) = err e

unfoldable pub commit : Text → Text → Text → M (Result Text)
commit source dir id = do r ← rename source (blob_path dir id); pure (final_path dir id r)

-- `UsedBytes`, where listing and `Info` succeed.
unfoldable pub used_bytes : Text → World → ℕ
used_bytes dir w = total_blobs (absolute w.cwd dir) w.files

unfoldable pub remove_blob_best_effort : Text → M (Unit {0})
remove_blob_best_effort path = do remove (clean path); pure tt
