-- ===== src/Storage/Removal.antt =====
-- internal/storage/integrity.go: removing Shares adds no row, whatever fails.
use shareserver.Base.{
  ℕ, ◌≡◌, refl, Bool, true, List, [], ◌∷◌, Text, text_eq, arith, all, discard, Bool-cases, inl, inr,
}
use shareserver.World.{World, ShareRow, Node, Result, fault}
use shareserver.World.Path.{clean}
use shareserver.World.Files.{lstat, remove}
use shareserver.World.Db.{delete_shares, query_shares}
use shareserver.Share.{Share, active_at, is_purgeable}
use shareserver.Share.Store.{delete_row, with_expiry, without_download_protection}
use shareserver.Storage.Integrity.{
  remove_share, remove_seen, purge_each, purge, purge_all, purge_unprotected, counted,
}

pub fault-shares : (w : World) → (fault w).1.shares ≡ w.shares
unfolding fault
fault-shares w = ground arith

pub lstat-shares : (p : Text) (w : World) → (lstat p w).1.shares ≡ w.shares
unfolding lstat fault
lstat-shares p w = ground arith

pub remove-shares : (p : Text) (w : World) → (remove p w).1.shares ≡ w.shares
unfolding remove fault
remove-shares p w = ground arith

pub with_expiry-shares : (w : World) → (with_expiry w).1.shares ≡ w.shares
unfolding with_expiry query_shares fault
with_expiry-shares w = ground arith

pub without_download_protection-shares :
    (w : World) → (without_download_protection w).1.shares ≡ w.shares
unfolding without_download_protection query_shares fault
without_download_protection-shares w = ground arith

module _ (q : ShareRow → Bool) where
  all-discard :
      (p : ShareRow → Bool) (l : List ShareRow) → all q l ≡ true → all q (discard p l) ≡ true
  all-discard p [] h = refl
  all-discard p (r ∷ l) h = ground (arith, all-discard p l)

  pub delete_row-all :
      (id : Text) (w : World) → all q w.shares ≡ true → all q (delete_row id w).1.shares ≡ true
  unfolding delete_row delete_shares fault
  delete_row-all id w h = ground (arith, all-discard (λ s. text_eq s.id id) w.shares h)

  remove_seen-all :
      (sh : Share) (r : Result Node) (w : World)
      → all q w.shares ≡ true
      → all q (remove_seen sh r w).1.shares ≡ true
  remove_seen-all sh r w h = ground (
    arith,
    delete_row-all sh.id w h,
    remove-shares (clean sh.blob_path) w,
    delete_row-all sh.id (remove (clean sh.blob_path) w).1,
  )

  pub remove_share-all :
      (sh : Share) (w : World) → all q w.shares ≡ true → all q (remove_share sh w).1.shares ≡ true
  unfolding remove_share
  remove_share-all sh w h =
      remove_seen-all sh (lstat (clean sh.blob_path) w).0 (lstat (clean sh.blob_path) w).1
        (rw (lstat-shares (clean sh.blob_path) w) h)

  purge_each-all :
      (now : ℕ) (l : List Share) (n : ℕ) (w : World)
      → all q w.shares ≡ true
      → all q (purge_each now l n w).1.shares ≡ true
  unfolding purge_each
  purge_each-all now [] n w h = h
  purge_each-all now (sh ∷ l) n w h =
      elim (Bool-cases (is_purgeable (active_at now) sh.expires_at)) [
        | inl due ↦ ground (
          arith,
          due,
          purge_each-all now l (counted (remove_share sh w).0 n) (remove_share sh w).1
              (remove_share-all sh w h),
        )
        | inr kept ↦ ground (arith, kept, purge_each-all now l n w h)
      ]

  pub purge-all :
      (now : ℕ) (w : World) → all q w.shares ≡ true → all q (purge now w).1.shares ≡ true
  unfolding purge
  purge-all now w h =
      purge_each-all now (with_expiry w).0 0 (with_expiry w).1 (rw (with_expiry-shares w) h)

  purge_all-all :
      (l : List Share) (n : ℕ) (w : World)
      → all q w.shares ≡ true
      → all q (purge_all l n w).1.shares ≡ true
  unfolding purge_all
  purge_all-all [] n w h = h
  purge_all-all (sh ∷ l) n w h = purge_all-all l _ _ (remove_share-all sh w h)

  pub purge_unprotected-all :
      (w : World) → all q w.shares ≡ true → all q (purge_unprotected w).1.shares ≡ true
  unfolding purge_unprotected
  purge_unprotected-all w h =
      purge_all-all (without_download_protection w).0 0 (without_download_protection w).1
        (rw (without_download_protection-shares w) h)
