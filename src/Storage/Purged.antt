-- ===== src/Storage/Purged.antt =====
-- internal/storage/integrity.go: which rows a purge without faults takes away.
use shareserver.Base.{
  ℕ, ◌+◌, ◌≡◌, refl, sym, ap, ◌∙◌, Bool, false, ◌&&◌, ◌||◌, not, List, [], ◌∷◌, map, Text, text_eq,
  arith, keep, discard, any, length, Bool-cases, Option-cases, Option, none, some, leb, inl, inr,
}
use shareserver.Time.{parse}
use shareserver.World.{World, ShareRow, ok, fault}
use shareserver.World.Files.{lstat, remove}
use shareserver.World.Db.{delete_shares, query_shares}
use shareserver.Share.{Share, active_at, is_purgeable, is_expired}
use shareserver.Share.Store.{delete_row, with_expiry, from_ent, null_string, is_nil, rows_or_none}
use shareserver.Storage.Integrity.{remove_share, purge_each, purge}

module _ {ℓ} {A : Type ℓ} where
  pub discard-discard :
      (p q : A → Bool) (l : List A) → discard p (discard q l) ≡ discard (λ s. q s || p s) l
  discard-discard p q [] = refl
  discard-discard p q (x ∷ l) = ground (arith, discard-discard p q l)

  pub discard-ext :
      (p q : A → Bool) → ((s : A) → p s ≡ q s) → (l : List A) → discard p l ≡ discard q l
  discard-ext p q h [] = refl
  discard-ext p q h (x ∷ l) = ground (arith, h x, discard-ext p q h l)

  pub keep-ext : (p q : A → Bool) → ((s : A) → p s ≡ q s) → (l : List A) → keep p l ≡ keep q l
  keep-ext p q h [] = refl
  keep-ext p q h (x ∷ l) = ground (arith, h x, keep-ext p q h l)

  pub any-ext : (p q : A → Bool) → ((s : A) → p s ≡ q s) → (l : List A) → any p l ≡ any q l
  any-ext p q h [] = refl
  any-ext p q h (x ∷ l) = ground (arith, h x, any-ext p q h l)

  pub any-map-keep {κ} :
      {B : Type κ} (f : B → Bool) (g : A → B) (p : A → Bool) (l : List A)
      → any f (map g (keep p l)) ≡ any (λ r. p r && f (g r)) l
  any-map-keep f g p [] = refl
  any-map-keep f g p (x ∷ l) = ground (arith, any-map-keep f g p l)

  pub length-keep-map-keep {κ} :
      {B : Type κ} (f : B → Bool) (g : A → B) (p : A → Bool) (l : List A)
      → length (keep f (map g (keep p l))) ≡ length (keep (λ r. p r && f (g r)) l)
  length-keep-map-keep f g p [] = refl
  length-keep-map-keep f g p (x ∷ l) = ground (arith, length-keep-map-keep f g p l)

-- Without faults the removal of a Share succeeds, and takes the rows of its id.
pub remove_share-exact :
    (sh : Share) (w : World)
    → w.faults ≡ []
    → ((remove_share sh w).0 ≡ ok tt)
      × ((remove_share sh w).1.shares ≡ discard (λ s. text_eq s.id sh.id) w.shares)
      × ((remove_share sh w).1.faults ≡ [])
unfolding remove_share remove delete_row delete_shares fault lstat
remove_share-exact sh w h = ground arith

-- Whether a Share that the query gave is purged.
abbrev gone : ℕ → List Share → ShareRow → Bool
gone now l s = any (λ sh. is_purgeable (active_at now) sh.expires_at && text_eq s.id sh.id) l

pub discard_none : (l : List ShareRow) → discard (λ _. false) l ≡ l
discard_none [] = refl
discard_none (x ∷ l) = ground (arith, discard_none l)

purge_each-exact :
    (now : ℕ) (l : List Share) (n : ℕ) (w : World)
    → w.faults ≡ []
    → ((purge_each now l n w).0
        ≡ n + length (keep (λ sh. is_purgeable (active_at now) sh.expires_at) l))
      × ((purge_each now l n w).1.shares ≡ discard (gone now l) w.shares)
unfolding purge_each
purge_each-exact now [] n w h = (omega arith, sym (discard_none w.shares))
purge_each-exact now (sh ∷ l) n w h =
    elim (Bool-cases (is_purgeable (active_at now) sh.expires_at)) [
      | inl due ↦
          let r = remove_share sh w in
          let e = remove_share-exact sh w h in
          let ih = purge_each-exact now l (n + 1) r.1 e.2 in
          let both = discard-discard (gone now l) (λ s. text_eq s.id sh.id) w.shares in
          let same =
            discard-ext (λ s. text_eq s.id sh.id || gone now l s) (gone now (sh ∷ l))
              (λ s. rw due refl) w.shares in
          ground (arith, due, e, ih, both, same)
      | inr alive ↦
          let ih = purge_each-exact now l n w h in
          let same = discard-ext (gone now l) (gone now (sh ∷ l)) (λ s. rw alive refl) w.shares in
          ground (arith, alive, ih, same)
    ]

-- Whether a row, not purged yet, has an expiry that is a time at or before `now`.
abbrev pub is_due : ℕ → ShareRow → Bool
is_due now row = is_nil row.purged_at && (elim row.expires_at [
  | none ↦ false
  | some e ↦ elim (parse e) [ none ↦ false | some t ↦ leb t now ]
])

parse-nil : parse [] ≡ none
unfolding parse
parse-nil = refl

is_due-eq :
    (now : ℕ) (row : ShareRow)
    → (is_nil row.purged_at && not (is_nil row.expires_at))
        && is_purgeable (active_at now) (from_ent row).expires_at
      ≡ is_due now row
unfolding is_purgeable is_expired active_at from_ent null_string
is_due-eq now row = by_expiry row.expires_at
  where
    by_expiry :
        (x : Option Text)
        → (is_nil row.purged_at && not (is_nil x)) && is_purgeable (active_at now) (null_string x)
          ≡ (is_nil row.purged_at && (elim x as (λ _. Bool) [
            | none ↦ false
            | some e ↦ elim (parse e) [ none ↦ false | some t ↦ leb t now ]
          ]))
    by_expiry none = ground arith
    by_expiry (some []) = ground (arith, parse-nil)
    by_expiry (some (b ∷ e)) = elim (Option-cases (parse (b ∷ e))) [
      | inl bad ↦ ground (arith, bad)
      | inr (t, good) ↦ ground (arith, good)
    ]

with_expiry-exact :
    (w : World)
    → w.faults ≡ []
    → with_expiry w ≡ (
      map from_ent (keep (λ row. is_nil row.purged_at && not (is_nil row.expires_at)) w.shares),
      w,
    )
unfolding with_expiry query_shares fault rows_or_none
with_expiry-exact w h = ground arith

-- A purge without faults takes exactly the rows that are due, by their ids, and returns their number.
pub purge-exact :
    (now : ℕ) (w : World)
    → w.faults ≡ []
    → ((purge now w).0 ≡ length (keep (is_due now) w.shares))
      × ((purge now w).1.shares
          ≡ discard (λ s. any (λ d. is_due now d && text_eq s.id d.id) w.shares) w.shares)
unfolding purge from_ent
purge-exact now w h =
    let asked : ShareRow → Bool = λ row. is_nil row.purged_at && not (is_nil row.expires_at) in
    let late : Share → Bool = λ sh. is_purgeable (active_at now) sh.expires_at in
    let l = map from_ent (keep asked w.shares) in
    let e = purge_each-exact now l 0 w h in
    let n = length-keep-map-keep late from_ent asked w.shares in
    let n' =
      ap length
        (keep-ext (λ r. asked r && late (from_ent r)) (is_due now) (is_due-eq now) w.shares) in
    let same : (s : ShareRow)
        → gone now l s ≡ any (λ d. is_due now d && text_eq s.id d.id) w.shares =
      λ s.
        any-map-keep (λ sh. late sh && text_eq s.id sh.id) from_ent asked w.shares
        ∙ any-ext (λ r. asked r && (late (from_ent r) && text_eq s.id r.id))
            (λ d. is_due now d && text_eq s.id d.id) (λ r. ground (arith, is_due-eq now r))
            w.shares in
    let rows =
      discard-ext (gone now l) (λ s. any (λ d. is_due now d && text_eq s.id d.id) w.shares) same
        w.shares in
    rw (with_expiry-exact w h) (omega (arith, e.0, n, n'), e.1 ∙ rows)
