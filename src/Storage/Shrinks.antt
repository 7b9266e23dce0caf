-- ===== src/Storage/Shrinks.antt =====
-- internal/storage/integrity.go: what a removal, a purge or a repair can do to the files.
use shareserver.Base.{
  ℕ, ◌≤◌, ◌≡◌, refl, true, false, ◌⊎◌, inl, inr, List, [], ◌∷◌, none, Text, text_eq, text_eq_iff,
  arith, Bool-cases,
}
use shareserver.World.{
  World, M, pure, Node, regular, directory, irregular, not_found, not_singular, constraint, io,
  Result, ok, err, fault,
}
use shareserver.World.Path.{absolute, clean}
use shareserver.World.Files.{lookup, delete, total_blobs, lstat, remove}
use shareserver.World.Db.{delete_shares, query_shares}
use shareserver.Share.{Share, active_at, is_purgeable}
use shareserver.Share.Store.{delete_row, with_expiry, without_download_protection}
use shareserver.Storage.{used_bytes, remove_blob_best_effort}
use shareserver.Storage.Integrity.{
  remove_share, remove_seen, purge_each, purge, purge_all, purge_unprotected, counted,
}

-- Files may go, and nothing else of the stored state changes.
pub record Shrinks (dir : Text) (w w' : World) : Type 0 where
  pub cwd : w'.cwd ≡ w.cwd
  pub reservations : w'.reservations ≡ w.reservations
  pub used : used_bytes dir w' ≤ used_bytes dir w
  pub kept :
      (path : Text) → (lookup path w'.files ≡ lookup path w.files) ⊎ (lookup path w'.files ≡ none)

pub total-delete_le :
    (dir path : Text) (files : List (Text × Node))
    → total_blobs dir (delete path files) ≤ total_blobs dir files
unfolding total_blobs delete
total-delete_le dir path [] = omega arith
total-delete_le dir path ((p, n) ∷ files) = ground (arith, total-delete_le dir path files)

pub lookup-delete_ne :
    (path gone : Text) (files : List (Text × Node))
    → text_eq gone path ≡ false
    → lookup path (delete gone files) ≡ lookup path files
unfolding lookup delete
lookup-delete_ne path gone [] h = refl
lookup-delete_ne path gone ((p, n) ∷ files) h =
    ground (arith, lookup-delete_ne path gone files, text_eq_iff p gone, h)

pub lookup-delete_self :
    (path gone : Text) (files : List (Text × Node))
    → text_eq gone path ≡ true
    → lookup path (delete gone files) ≡ none
unfolding lookup delete
lookup-delete_self path gone [] h = refl
lookup-delete_self path gone ((p, n) ∷ files) h =
    ground (arith, lookup-delete_self path gone files, text_eq_iff gone path, h)

module _ (dir : Text) where
  pub Shrinks-same :
      (w w' : World)
      → w'.cwd ≡ w.cwd
      → w'.reservations ≡ w.reservations
      → w'.files ≡ w.files
      → Shrinks dir w w'
  unfolding used_bytes
  Shrinks-same w w' c r f = record {
    cwd = c;
    reservations = r;
    used = rw (c, f) (omega arith);
    kept = λ path. inl (rw f refl);
  }

  pub Shrinks-trans : {u v w : World} → Shrinks dir u v → Shrinks dir v w → Shrinks dir u w
  Shrinks-trans {u} {v} {w} a b = record {
    cwd = ground (arith, a.cwd, b.cwd);
    reservations = ground (arith, a.reservations, b.reservations);
    used = omega (arith, a.used, b.used);
    kept = λ path. ground (arith, a.kept path, b.kept path);
  }

  remove-kept :
      (path q : Text) (w : World)
      → (lookup q (remove path w).1.files ≡ lookup q w.files)
        ⊎ (lookup q (remove path w).1.files ≡ none)
  unfolding remove fault
  remove-kept path q w = elim (Bool-cases (text_eq (absolute w.cwd path) q)) [
    | inl same ↦ ground (arith, lookup-delete_self q (absolute w.cwd path) w.files same)
    | inr apart ↦ ground (arith, lookup-delete_ne q (absolute w.cwd path) w.files apart)
  ]

  remove-rest :
      (path : Text) (w : World)
      → ((remove path w).1.cwd ≡ w.cwd)
        × ((remove path w).1.reservations ≡ w.reservations)
        × (used_bytes dir (remove path w).1 ≤ used_bytes dir w)
  unfolding remove fault used_bytes
  remove-rest path w =
      ground (arith, total-delete_le (absolute w.cwd dir) (absolute w.cwd path) w.files)

  pub remove-Shrinks : (path : Text) (w : World) → Shrinks dir w (remove path w).1
  remove-Shrinks path w = record {
    cwd = (remove-rest path w).0;
    reservations = (remove-rest path w).1;
    used = (remove-rest path w).2;
    kept = λ q. remove-kept path q w;
  }

  lstat-Shrinks : (path : Text) (w : World) → Shrinks dir w (lstat path w).1
  unfolding lstat fault
  lstat-Shrinks path w =
      Shrinks-same w (lstat path w).1 (ground arith) (ground arith) (ground arith)

  delete_row-Shrinks : (id : Text) (w : World) → Shrinks dir w (delete_row id w).1
  unfolding delete_row delete_shares fault
  delete_row-Shrinks id w =
      Shrinks-same w (delete_row id w).1 (ground arith) (ground arith) (ground arith)

  with_expiry-Shrinks : (w : World) → Shrinks dir w (with_expiry w).1
  unfolding with_expiry query_shares fault
  with_expiry-Shrinks w =
      Shrinks-same w (with_expiry w).1 (ground arith) (ground arith) (ground arith)

  without_download_protection-Shrinks :
      (w : World) → Shrinks dir w (without_download_protection w).1
  unfolding without_download_protection query_shares fault
  without_download_protection-Shrinks w =
      Shrinks-same w (without_download_protection w).1 (ground arith) (ground arith) (ground arith)

  -- The removal of a regular file, and then of its row.
  remove_then-Shrinks :
      (sh : Share) (r : Result (Unit {0})) (w : World)
      → Shrinks dir w
          ((elim r as (λ _. M (Result (Unit {0}))) [
            | ok _ ↦ delete_row sh.id
            | err e ↦ pure (err e)
          ])
            w).1
  remove_then-Shrinks sh (err e) w = Shrinks-same w w refl refl refl
  remove_then-Shrinks sh (ok _) w = delete_row-Shrinks sh.id w

  remove_seen-Shrinks :
      (sh : Share) (r : Result Node) (w : World) → Shrinks dir w (remove_seen sh r w).1
  remove_seen-Shrinks sh (err not_found) w = delete_row-Shrinks sh.id w
  remove_seen-Shrinks sh (err not_singular) w = Shrinks-same w w refl refl refl
  remove_seen-Shrinks sh (err constraint) w = Shrinks-same w w refl refl refl
  remove_seen-Shrinks sh (err io) w = Shrinks-same w w refl refl refl
  remove_seen-Shrinks sh (ok directory) w = delete_row-Shrinks sh.id w
  remove_seen-Shrinks sh (ok (irregular n)) w = delete_row-Shrinks sh.id w
  remove_seen-Shrinks sh (ok (regular s)) w =
      let r = remove (clean sh.blob_path) w in
      Shrinks-trans (remove-Shrinks (clean sh.blob_path) w) (remove_then-Shrinks sh r.0 r.1)

  pub remove_share-Shrinks : (sh : Share) (w : World) → Shrinks dir w (remove_share sh w).1
  unfolding remove_share
  remove_share-Shrinks sh w =
      let seen = lstat (clean sh.blob_path) w in
      Shrinks-trans (lstat-Shrinks (clean sh.blob_path) w) (remove_seen-Shrinks sh seen.0 seen.1)

  purge_each-Shrinks :
      (now : ℕ) (l : List Share) (n : ℕ) (w : World) → Shrinks dir w (purge_each now l n w).1
  unfolding purge_each
  purge_each-Shrinks now [] n w = Shrinks-same w w refl refl refl
  purge_each-Shrinks now (sh ∷ l) n w =
      elim (Bool-cases (is_purgeable (active_at now) sh.expires_at)) [
        | inl due ↦
            let r = remove_share sh w in
            rw (due, purge_each)
              (Shrinks-trans (remove_share-Shrinks sh w)
                (purge_each-Shrinks now l (counted r.0 n) r.1))
        | inr alive ↦ rw (alive, purge_each) (purge_each-Shrinks now l n w)
      ]

  pub purge-Shrinks : (now : ℕ) (w : World) → Shrinks dir w (purge now w).1
  unfolding purge
  purge-Shrinks now w =
      let r = with_expiry w in
      Shrinks-trans (with_expiry-Shrinks w) (purge_each-Shrinks now r.0 0 r.1)

  purge_all-Shrinks : (l : List Share) (n : ℕ) (w : World) → Shrinks dir w (purge_all l n w).1
  unfolding purge_all
  purge_all-Shrinks [] n w = Shrinks-same w w refl refl refl
  purge_all-Shrinks (sh ∷ l) n w =
      let r = remove_share sh w in
      Shrinks-trans (remove_share-Shrinks sh w) (purge_all-Shrinks l (counted r.0 n) r.1)

  pub purge_unprotected-Shrinks : (w : World) → Shrinks dir w (purge_unprotected w).1
  unfolding purge_unprotected
  purge_unprotected-Shrinks w =
      let r = without_download_protection w in
      Shrinks-trans (without_download_protection-Shrinks w) (purge_all-Shrinks r.0 0 r.1)

  pub remove_blob-Shrinks :
      (path : Text) (w : World) → Shrinks dir w (remove_blob_best_effort path w).1
  unfolding remove_blob_best_effort
  remove_blob-Shrinks path w = remove-Shrinks (clean path) w
