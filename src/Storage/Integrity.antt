-- ===== src/Storage/Integrity.antt =====
-- internal/storage/integrity.go: the operations that keep Share rows and blobs together. Each holds
-- the module's lock throughout, so it is one step of the state.
use shareserver.Base.{
  ℕ, ◌+◌, Bool, true, false, ◌&&◌, ◌||◌, not, List, [], ◌∷◌, Text, codes, text_eq, has_prefix,
  if◌then◌else◌, keep, discard, any, length, drop,
}
use shareserver.World.{
  Node, regular, directory, irregular, Result, ok, err, not_found, io, M, pure, ◌>>=◌, fault,
}
use shareserver.World.Path.{absolute, clean, split, dir_prefix}
use shareserver.World.Files.{lstat, remove, is_under, is_regular}
use shareserver.Share.{Share, active_at, is_purgeable}
use shareserver.Share.Store.{all_shares, with_expiry, without_download_protection, delete_row}
use shareserver.Storage.{staging_dir}

-- `ClearStaging`: `os.RemoveAll` of the staging directory.
unfoldable pub clear_staging : Text → M (Result (Unit {0}))
clear_staging dir = do
  broken ← fault
  λ w. if broken then (err io, w) else (
    ok tt,
    record w { files = discard (λ e. is_under (absolute w.cwd (staging_dir dir)) e.0) w.files },
  )

-- After `Lstat`: only a regular file has to be removed first, and an error other than a missing
-- file keeps the row.
abbrev pub remove_seen : Share → Result Node → M (Result (Unit {0}))
remove_seen sh (err not_found) = delete_row sh.id
remove_seen sh (err e) = pure (err e)
remove_seen sh (ok n) =
    if is_regular n
    then (do
      r ← remove (clean sh.blob_path)
      elim r [ err e ↦ pure (err e) | ok _ ↦ delete_row sh.id ])
    else delete_row sh.id

-- `Integrity.remove`, and `Integrity.Remove` under the lock.
unfoldable pub remove_share : Share → M (Result (Unit {0}))
remove_share sh = do seen ← lstat (clean sh.blob_path); remove_seen sh seen

abbrev pub counted : Result (Unit {0}) → ℕ → ℕ
counted (ok _) n = n + 1
counted (err _) n = n

-- The loop of `Purge`, over the Shares that the query gave.
unfoldable pub purge_each : ℕ → List Share → ℕ → M ℕ
purge_each now [] n = pure n
purge_each now (sh ∷ rest) n = elim (is_purgeable (active_at now) sh.expires_at) [
  | false ↦ purge_each now rest n
  | true ↦ do r ← remove_share sh; purge_each now rest (counted r n)
]

unfoldable pub purge : ℕ → M ℕ
purge now = do shares ← with_expiry; purge_each now shares 0

unfoldable pub purge_all : List Share → ℕ → M ℕ
purge_all [] n = pure n
purge_all (sh ∷ rest) n = do r ← remove_share sh; purge_all rest (counted r n)

unfoldable pub purge_unprotected : M ℕ
purge_unprotected = do shares ← without_download_protection; purge_all shares 0

pub record ReconcileResult : Type 0 where
  pub missing_files : ℕ
  pub orphan_files : ℕ

-- One row: kept with its blob's absolute path, or removed where the blob is not a regular file.
abbrev pub reconcile_seen : Share → Result Node → List Text → ℕ → M (List Text × ℕ)
reconcile_seen sh (ok n) known missing =
    if is_regular n
    then (λ w. ((absolute w.cwd (clean sh.blob_path) ∷ known, missing), w))
    else (do r ← remove_share sh; pure (known, counted r missing))
reconcile_seen sh (err not_found) known missing = do
  r ← remove_share sh
  pure (known, counted r missing)
reconcile_seen sh (err _) known missing = pure (known, missing)

unfoldable pub reconcile_rows : List Share → List Text → ℕ → M (List Text × ℕ)
reconcile_rows [] known missing = pure (known, missing)
reconcile_rows (sh ∷ rest) known missing = do
  seen ← lstat (clean sh.blob_path)
  s ← reconcile_seen sh seen known missing
  reconcile_rows rest s.0 s.1

abbrev pub parents_any : (Text → Bool) → List Text → Bool
parents_any p [] = false
parents_any p (part ∷ parts) = elim parts [ [] ↦ false | _ ∷ _ ↦ p part || parents_any p parts ]

abbrev pub is_directory : Node → Bool
is_directory directory = true
is_directory (regular _) = false
is_directory (irregular _) = false

-- Whether the walk from a directory reaches an entry as a file: it lies below, in no directory
-- named `.staging`.
unfoldable pub is_walked : Text → Text × Node → Bool
is_walked dir (path, n) =
    has_prefix (dir_prefix dir) path
    && not (is_directory n)
    && not (
        parents_any (λ part. text_eq part (codes ".staging"))
          (split b'/' (drop (length (dir_prefix dir)) path)))

-- The walk's callback at each file; a removal that fails leaves the file.
unfoldable pub sweep : List (Text × Node) → List Text → ℕ → M ℕ
sweep [] known n = pure n
sweep ((path, _) ∷ rest) known n = elim (any (text_eq path) known) [
  | true ↦ sweep rest known n
  | false ↦ do r ← remove path; sweep rest known (counted r n)
]

-- `Reconcile`
unfoldable pub reconcile : Text → M ReconcileResult
reconcile dir = do
  shares ← all_shares
  s ← reconcile_rows shares [] 0
  broken ← fault
  elim broken [
    | true ↦ pure (record { missing_files = s.1; orphan_files = 0 })
    | false ↦ λ w.
        let r = sweep (keep (is_walked (absolute w.cwd dir)) w.files) s.0 0 w in
        (record { missing_files = s.1; orphan_files = r.0 }, r.1)
  ]
