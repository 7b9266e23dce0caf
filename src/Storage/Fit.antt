-- ===== src/Storage/Fit.antt =====
-- internal/storage/integrity.go: the rows that purges and repairs without faults leave.
use shareserver.Base.{
  ℕ, ◌≡◌, refl, sym, ◌∙◌, Bool, true, ◌&&◌, ◌||◌, not, List, [], ◌∷◌, map, Text, text_eq,
  text_eq_refl, arith, keep, discard, any, all, All, Bool-cases, inl, inr,
}
use shareserver.World.{World, ShareRow, Node, Result, fault}
use shareserver.World.Files.{lstat, remove}
use shareserver.World.Db.{query_shares}
use shareserver.World.Path.{clean, absolute}
use shareserver.Share.{Share, active_at, is_purgeable}
use shareserver.Share.Store.{
  without_download_protection, from_ent, is_nil, rows_or_none, all_shares, with_expiry,
}
use shareserver.Storage.Integrity.{
  remove_share, purge_all, purge_unprotected, purge, purge_each, reconcile, reconcile_rows,
  reconcile_seen, sweep, counted, is_walked,
}
use shareserver.Storage.Removal.{remove_share-all}
use shareserver.Storage.Purged.{
  discard-discard, discard-ext, discard_none, any-map-keep, remove_share-exact,
}

-- A row that `PurgeUnprotected` takes.
abbrev pub is_open : ShareRow → Bool
is_open row = not row.encrypted || is_nil row.download_password_hash

purge_all-exact :
    (l : List Share) (n : ℕ) (w : World)
    → w.faults ≡ []
    → ((purge_all l n w).1.shares ≡ discard (λ s. any (λ sh. text_eq s.id sh.id) l) w.shares)
      × ((purge_all l n w).1.faults ≡ [])
unfolding purge_all
purge_all-exact [] n w f = (sym (discard_none w.shares), f)
purge_all-exact (sh ∷ l) n w f =
    let e = remove_share-exact sh w f in
    let ih = purge_all-exact l (counted (remove_share sh w).0 n) (remove_share sh w).1 e.2 in
    let both =
      discard-discard (λ s. any (λ x. text_eq s.id x.id) l) (λ s. text_eq s.id sh.id) w.shares in
    (ground (arith, ih.0, e.1, both), ih.1)

without_download_protection-exact :
    (w : World)
    → w.faults ≡ []
    → without_download_protection w ≡ (map from_ent (keep is_open w.shares), w)
unfolding without_download_protection query_shares fault rows_or_none
without_download_protection-exact w f = ground arith

pub purge_unprotected-exact :
    (w : World)
    → w.faults ≡ []
    → ((purge_unprotected w).1.shares
        ≡ discard (λ s. any (λ d. is_open d && text_eq s.id d.id) w.shares) w.shares)
      × ((purge_unprotected w).1.faults ≡ [])
unfolding purge_unprotected from_ent
purge_unprotected-exact w f =
    let l = map from_ent (keep is_open w.shares) in
    let e = purge_all-exact l 0 w f in
    let same =
      discard-ext (λ s. any (λ sh. text_eq s.id sh.id) l)
        (λ s. any (λ d. is_open d && text_eq s.id d.id) w.shares)
        (λ s. any-map-keep (λ sh. text_eq s.id sh.id) from_ent is_open w.shares) w.shares in
    rw (without_download_protection-exact w f) (e.0 ∙ same, e.1)

-- Rows that are discarded by the ids of those among them with a property leave none that has it.
module _ (p : ShareRow → Bool) where
  -- Each row with the property is found in the list by its id.
  abbrev Found : List ShareRow → List ShareRow → Type 0
  Found rows = All (λ r. p r ≡ true → any (λ d. p d && text_eq r.id d.id) rows ≡ true)

  Found-weaken : (x : ShareRow) (l rows : List ShareRow) → Found rows l → Found (x ∷ rows) l
  Found-weaken x [] rows h = tt
  Found-weaken x (r ∷ l) rows h = (λ e. ground (arith, h.0 e), Found-weaken x l rows h.1)

  Found-self : (l : List ShareRow) → Found l l
  Found-self [] = tt
  Found-self (x ∷ l) =
      (λ e. ground (arith, e, text_eq_refl x.id), Found-weaken x l l (Found-self l))

  all-discard_found :
      (l rows : List ShareRow)
      → Found rows l
      → all (λ r. not (p r)) (discard (λ s. any (λ d. p d && text_eq s.id d.id) rows) l) ≡ true
  all-discard_found [] rows h = refl
  all-discard_found (x ∷ l) rows h =
      ground (arith, h.0, all-discard_found l rows h.1, Bool-cases (p x))

  pub all-discard_own :
      (l : List ShareRow)
      → all (λ r. not (p r)) (discard (λ s. any (λ d. p d && text_eq s.id d.id) l) l) ≡ true
  all-discard_own l = all-discard_found l l (Found-self l)

pub remove_share-quiet :
    (sh : Share) (w : World) → w.faults ≡ [] → (remove_share sh w).1.faults ≡ []
remove_share-quiet sh w f = (remove_share-exact sh w f).2

-- A repair adds no row, whatever fails, and uses up no fault.
module _ (q : ShareRow → Bool) where
  -- The rows all have a property, and no call is to fail.
  abbrev pub Holds : World → Type 0
  Holds w = (all q w.shares ≡ true) × (w.faults ≡ [])

  lstat-Holds : (p : Text) (w : World) → Holds w → Holds (lstat p w).1
  unfolding lstat fault
  lstat-Holds p w h = ground (arith, h)

  remove-Holds : (p : Text) (w : World) → Holds w → Holds (remove p w).1
  unfolding remove fault
  remove-Holds p w h = ground (arith, h)

  remove_share-Holds : (sh : Share) (w : World) → Holds w → Holds (remove_share sh w).1
  remove_share-Holds sh w h = (remove_share-all q sh w h.0, remove_share-quiet sh w h.1)

  reconcile_seen-Holds :
      (sh : Share) (r : Result Node) (known : List Text) (n : ℕ) (w : World)
      → Holds w
      → Holds (reconcile_seen sh r known n w).1
  reconcile_seen-Holds sh r known n w h = ground (arith, h, remove_share-Holds sh w h)

  reconcile_rows-Holds :
      (l : List Share) (known : List Text) (n : ℕ) (w : World)
      → Holds w
      → Holds (reconcile_rows l known n w).1
  unfolding reconcile_rows
  reconcile_rows-Holds [] known n w h = h
  reconcile_rows-Holds (sh ∷ l) known n w h =
      let seen = lstat (clean sh.blob_path) w in
      reconcile_rows-Holds l _ _ _
        (reconcile_seen-Holds sh seen.0 known n seen.1 (lstat-Holds (clean sh.blob_path) w h))

  sweep-Holds :
      (l : List (Text × Node)) (known : List Text) (n : ℕ) (w : World)
      → Holds w
      → Holds (sweep l known n w).1
  unfolding sweep
  sweep-Holds [] known n w h = h
  sweep-Holds ((p, node) ∷ l) known n w h = elim (Bool-cases (any (text_eq p) known)) [
    | inl listed ↦ ground (arith, listed, sweep-Holds l known n w h)
    | inr lost ↦ ground (
      arith,
      lost,
      sweep-Holds l known (counted (remove p w).0 n) (remove p w).1 (remove-Holds p w h),
    )
  ]

  all_shares-Holds : (w : World) → Holds w → Holds (all_shares w).1
  unfolding all_shares query_shares fault
  all_shares-Holds w h = ground (arith, h)

  pub reconcile-Holds : (dir : Text) (w : World) → Holds w → Holds (reconcile dir w).1
  unfolding reconcile fault
  reconcile-Holds dir w h =
      let a = all_shares w in
      let s = reconcile_rows a.0 [] 0 a.1 in
      let hs = reconcile_rows-Holds a.0 [] 0 a.1 (all_shares-Holds w h) in
      let swept = sweep-Holds (keep (is_walked (absolute s.1.cwd dir)) s.1.files) s.0.0 0 s.1 hs in
      ground (arith, hs, swept)

purge_each-quiet :
    (now : ℕ) (l : List Share) (n : ℕ) (w : World)
    → w.faults ≡ []
    → (purge_each now l n w).1.faults ≡ []
unfolding purge_each
purge_each-quiet now [] n w f = f
purge_each-quiet now (sh ∷ l) n w f =
    elim (Bool-cases (is_purgeable (active_at now) sh.expires_at)) [
      | inl due ↦
          let r = remove_share sh w in
          ground
            (arith, due, purge_each-quiet now l (counted r.0 n) r.1 (remove_share-quiet sh w f))
      | inr alive ↦ ground (arith, alive, purge_each-quiet now l n w f)
    ]

with_expiry-quiet : (w : World) → w.faults ≡ [] → (with_expiry w).1.faults ≡ []
unfolding with_expiry query_shares fault
with_expiry-quiet w f = ground (arith, f)

pub purge-quiet : (now : ℕ) (w : World) → w.faults ≡ [] → (purge now w).1.faults ≡ []
unfolding purge
purge-quiet now w f =
    purge_each-quiet now (with_expiry w).0 0 (with_expiry w).1 (with_expiry-quiet w f)
