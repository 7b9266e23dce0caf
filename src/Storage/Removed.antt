-- ===== src/Storage/Removed.antt =====
-- internal/storage/integrity.go: what is left at the blob path of a removed Share.
use shareserver.Base.{◌≡◌, ◌≢◌, ◌⊎◌, inl, inr, refl, none, some, List, [], ◌∷◌, Text, arith}
use shareserver.World.{World, Node, regular, Failure, Result, ok, err, fault}
use shareserver.World.Path.{clean, absolute}
use shareserver.World.Files.{lookup, delete, find_node, lstat, remove}
use shareserver.World.Db.{delete_shares}
use shareserver.Share.{Share}
use shareserver.Share.Store.{delete_row}
use shareserver.Storage.Integrity.{remove_share}

lookup-delete : (path : Text) (files : List (Text × Node)) → lookup path (delete path files) ≡ none
unfolding lookup delete
lookup-delete path [] = refl
lookup-delete path ((p, n) ∷ files) = ground (arith, lookup-delete path files)

Result-cases : (r : Result (Unit {0})) → ((e : Failure) × (r ≡ err e)) ⊎ (r ≡ ok tt)
Result-cases (err e) = inl (e, refl)
Result-cases (ok tt) = inr refl

remove_share-ok :
    (sh : Share) (w : World) (bytes : Text)
    → (remove_share sh w).0 ≡ ok tt
    → find_node (remove_share sh w).1 (clean sh.blob_path) ≢ some (regular bytes)
unfolding remove_share remove delete_row delete_shares fault lstat
remove_share-ok sh w bytes h held =
    absurd (ground (arith, lookup-delete (absolute w.cwd (clean sh.blob_path)) w.files))

remove_share-err :
    (sh : Share) (w : World) (e : Failure)
    → (remove_share sh w).0 ≡ err e
    → (remove_share sh w).1.shares ≡ w.shares
unfolding remove_share remove delete_row delete_shares fault lstat
remove_share-err sh w e h = ground arith

-- The removal of a Share either fails and keeps every row, or succeeds and leaves no regular file,
-- of whatever bytes, at the blob path.
pub remove_share-keeps :
    (sh : Share) (w : World) (bytes : Text)
    → ((e : Failure) × ((remove_share sh w).0 ≡ err e) × ((remove_share sh w).1.shares ≡ w.shares))
      ⊎ (((remove_share sh w).0 ≡ ok tt)
          × (find_node (remove_share sh w).1 (clean sh.blob_path) ≢ some (regular bytes)))
remove_share-keeps sh w bytes = elim (Result-cases (remove_share sh w).0) [
  | inl (e, h) ↦ inl (e, h, remove_share-err sh w e h)
  | inr h ↦ inr (h, remove_share-ok sh w bytes h)
]
