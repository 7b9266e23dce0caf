-- ===== src/Witnesses/Repairs.antt =====
-- The theorems on purges and repairs at concrete inputs.
use shareserver.Base.{
  ◌≡◌, refl, ◌+◌, ◌*◌, ◌&&◌, [], ◌∷◌, codes, text_eq, has_prefix, keep, discard, any, length, all,
  true, none, some,
}
use shareserver.Time.{hour}
use shareserver.World.{World, regular}
use shareserver.World.Files.{lookup}
use shareserver.World.Path.{absolute, clean, join_path, split}
use shareserver.Storage.Integrity.{is_walked, purge, reconcile}
use shareserver.Storage.Purged.{is_due, purge-exact}
use shareserver.Storage.Reconciled.{is_lost, is_orphan, reconcile-exact}
use shareserver.Http.Cleanup.{start_cleanup, nightly_cleanup}
use shareserver.Http.Upkeep.{is_fit, cleanup-IsFit}
use shareserver.Fixtures as Fix

purge-exact_example :
    ((purge (Fix.now + 100 * hour) Fix.world).0
      ≡ length (keep (is_due (Fix.now + 100 * hour)) Fix.world.shares))
    × ((purge (Fix.now + 100 * hour) Fix.world).1.shares
        ≡ discard
            (λ s. any (λ d. is_due (Fix.now + 100 * hour) d && text_eq s.id d.id) Fix.world.shares)
            Fix.world.shares)
purge-exact_example = purge-exact (Fix.now + 100 * hour) Fix.world refl

-- A row without its blob, and a blob without a row.
abbrev torn : World
torn = record Fix.world {
  shares =
      record Fix.row { id = codes "lost"; blob_path = codes "data/blobs/lost.blob" }
      ∷ Fix.world.shares;
  files = (codes "/srv/data/blobs/stray.blob", regular []) ∷ Fix.world.files;
}

reconcile-exact_example :
    ((reconcile (codes "data/blobs") torn).1 ≡ record torn {
      shares =
          discard (λ s. any (λ d. is_lost torn d && text_eq s.id d.id) torn.shares) torn.shares;
      files =
          discard
            (λ e. any (λ o. is_orphan (codes "data/blobs") torn o && text_eq e.0 o.0) torn.files)
            torn.files;
    })
    × ((reconcile (codes "data/blobs") torn).0.missing_files
        ≡ length (keep (is_lost torn) torn.shares))
unfolding absolute clean join_path split
reconcile-exact_example = reconcile-exact (codes "data/blobs") torn refl (refl, (refl, tt))

-- What that comes to: both go.
reconcile_repairs : (reconcile (codes "data/blobs") torn).1 ≡ Fix.world
unfolding absolute clean join_path split lookup is_walked text_eq has_prefix
reconcile_repairs = (reconcile-exact (codes "data/blobs") torn refl (refl, (refl, tt))).0

-- An open row, and a row that is due.
abbrev worn : World
worn = record Fix.world {
  shares =
      record Fix.row { id = codes "open"; download_password_hash = none }
      ∷ record Fix.row { id = codes "due"; expires_at = some (codes "2026-11-25T00:00:00Z") }
      ∷ Fix.world.shares;
}

cleanup-IsFit_example :
    (all (is_fit Fix.now) (start_cleanup (codes "data/blobs") Fix.now worn).1.shares ≡ true)
    × (all (is_fit Fix.now) (nightly_cleanup (codes "data/blobs") Fix.now Fix.now worn).1.shares
        ≡ true)
cleanup-IsFit_example = cleanup-IsFit (codes "data/blobs") Fix.now Fix.now worn refl
