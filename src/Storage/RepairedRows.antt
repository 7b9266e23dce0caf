-- ===== src/Storage/RepairedRows.antt =====
-- internal/storage/integrity.go: the rows that a repair without faults keeps.
use mathlib.Core.Path.{subst}
use shareserver.Base.{
  ℕ, ◌+◌, ◌≡◌, refl, sym, ap, ◌∙◌, Bool, true, false, ◌&&◌, ◌||◌, not, List, [], ◌∷◌, Text, text_eq,
  arith, keep, discard, any, length, Bool-cases, none, some, inl, inr,
}
use shareserver.World.{World, ShareRow, Node, ok, fault}
use shareserver.World.Path.{clean, absolute}
use shareserver.World.Files.{lookup, lstat, remove, is_regular}
use shareserver.World.Db.{delete_shares}
use shareserver.Share.{Share}
use shareserver.Share.Store.{delete_row}
use shareserver.Storage.Integrity.{remove_share, reconcile_rows, reconcile_seen}
use shareserver.Storage.Purged.{discard-discard, discard-ext, discard_none}

-- Whether a blob path names a regular file.
abbrev pub is_held : Text → List (Text × Node) → Text → Bool
is_held cwd files path = elim (lookup (absolute cwd (clean path)) files) [
  | none ↦ false
  | some n ↦ is_regular n
]

remove_missing :
    (sh : Share) (w : World)
    → w.faults ≡ []
    → is_held w.cwd w.files sh.blob_path ≡ false
    → ((remove_share sh w).0 ≡ ok tt)
      × ((remove_share sh w).1 ≡ record w { shares = discard (λ s. text_eq s.id sh.id) w.shares })
unfolding remove_share remove delete_row delete_shares fault lstat
remove_missing sh w f h = ground arith

module _ (sh : Share) (known : List Text) (missing : ℕ) (w : World) (f : w.faults ≡ []) where
  -- One row of the loop.
  abbrev row : (List Text × ℕ) × World
  row = let seen = lstat (clean sh.blob_path) w in reconcile_seen sh seen.0 known missing seen.1

  row-held :
      is_held w.cwd w.files sh.blob_path ≡ true
      → row ≡ ((absolute w.cwd (clean sh.blob_path) ∷ known, missing), w)
  unfolding lstat fault
  row-held h = ground arith

  row-missing :
      is_held w.cwd w.files sh.blob_path ≡ false
      → row
        ≡ ((known, missing + 1), record w { shares = discard (λ s. text_eq s.id sh.id) w.shares })
  unfolding lstat fault
  row-missing h = ground (arith, remove_missing sh w f h)

-- What the loop over the rows has done, for one path `p`.
pub record IsRowsDone (l : List Share) (known : List Text) (missing : ℕ) (p : Text) (w : World)
    (r : (List Text × ℕ) × World) : Type 0 where
  pub world : r.1 ≡ record w {
    shares =
        discard
          (λ s. any (λ sh. not (is_held w.cwd w.files sh.blob_path) && text_eq s.id sh.id) l)
          w.shares;
  }
  pub count : r.0.1 ≡ missing + length (keep (λ sh. not (is_held w.cwd w.files sh.blob_path)) l)
  pub seen : any (text_eq p) r.0.0 ≡ (
      any
        (λ sh.
          is_held w.cwd w.files sh.blob_path && text_eq p (absolute w.cwd (clean sh.blob_path)))
        l
      || any (text_eq p) known)

pub reconcile_rows-IsRowsDone :
    (l : List Share) (known : List Text) (missing : ℕ) (p : Text) (w : World)
    → w.faults ≡ []
    → IsRowsDone l known missing p w (reconcile_rows l known missing w)
unfolding reconcile_rows
reconcile_rows-IsRowsDone [] known missing p w f = record {
  world = ap (λ x. record w { shares = x }) (sym (discard_none w.shares));
  count = omega arith;
  seen = refl;
}
reconcile_rows-IsRowsDone (sh ∷ l) known missing p w f =
    let with_shares : List ShareRow → World = λ x. record w { shares = x } in
    let after : (List Text × ℕ) × World → Type 0 =
      λ x. IsRowsDone (sh ∷ l) known missing p w (reconcile_rows l x.0.0 x.0.1 x.1) in
    elim (Bool-cases (is_held w.cwd w.files sh.blob_path)) [
      | inl here ↦
          let i =
            reconcile_rows-IsRowsDone l (absolute w.cwd (clean sh.blob_path) ∷ known) missing p w
              f in
          let step = row-held sh known missing w f here in
          let same =
            discard-ext
              (λ s. any (λ x. not (is_held w.cwd w.files x.blob_path) && text_eq s.id x.id) l)
              (λ s.
                any (λ x. not (is_held w.cwd w.files x.blob_path) && text_eq s.id x.id) (sh ∷ l))
              (λ s. rw here refl) w.shares in
          subst after (sym step) (record {
            world = i.world ∙ ap with_shares same;
            count = ground (arith, i.count, here);
            seen = ground (arith, i.seen, here);
          })
      | inr lost ↦
          let w1 : World = record w { shares = discard (λ s. text_eq s.id sh.id) w.shares } in
          let i = reconcile_rows-IsRowsDone l known (missing + 1) p w1 f in
          let step = row-missing sh known missing w f lost in
          let both =
            discard-discard
              (λ s. any (λ x. not (is_held w.cwd w.files x.blob_path) && text_eq s.id x.id) l)
              (λ s. text_eq s.id sh.id) w.shares in
          let same =
            discard-ext
              (λ s.
                text_eq s.id sh.id
                || any (λ x. not (is_held w.cwd w.files x.blob_path) && text_eq s.id x.id) l)
              (λ s.
                any (λ x. not (is_held w.cwd w.files x.blob_path) && text_eq s.id x.id) (sh ∷ l))
              (λ s. rw lost refl) w.shares in
          subst after (sym step) (record {
            world = i.world ∙ ap with_shares (both ∙ same);
            count = ground (arith, i.count, lost);
            seen = ground (arith, i.seen, lost);
          })
    ]
