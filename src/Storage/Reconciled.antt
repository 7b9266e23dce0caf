-- ===== src/Storage/Reconciled.antt =====
-- internal/storage/integrity.go: what `Reconcile` leaves when no call fails.
use shareserver.Base.{
  ℕ, ◌≡◌, ap, ◌∙◌, Bool, false, ◌&&◌, not, List, [], map, Text, text_eq, arith, keep, discard, any,
  length, All,
}
use shareserver.World.{World, ShareRow, Node, fault}
use shareserver.World.Path.{clean, absolute}
use shareserver.World.Db.{query_shares}
use shareserver.Share.{Share}
use shareserver.Share.Store.{all_shares, from_ent, rows_or_none}
use shareserver.Storage.Integrity.{reconcile, reconcile_rows, sweep, is_walked}
use shareserver.Storage.Purged.{discard-ext}
use shareserver.Storage.RepairedRows.{is_held, reconcile_rows-IsRowsDone}
use shareserver.Storage.Swept.{any-map, length-keep-map, keep_all, swept-exact}

all_shares-exact : (w : World) → w.faults ≡ [] → all_shares w ≡ (map from_ent w.shares, w)
unfolding all_shares query_shares fault rows_or_none
all_shares-exact w f = ground (arith, keep_all w.shares)

fault_none : (w : World) → w.faults ≡ [] → fault w ≡ (false, w)
unfolding fault
fault_none w f = ground arith

reconcile-steps :
    (dir : Text) (l : List Share) (known : List Text) (m : ℕ) (w w1 : World)
    → all_shares w ≡ (l, w)
    → reconcile_rows l [] 0 w ≡ ((known, m), w1)
    → w1.faults ≡ []
    → reconcile dir w ≡ (
        let r = sweep (keep (is_walked (absolute w1.cwd dir)) w1.files) known 0 w1 in
        (record { missing_files = m; orphan_files = r.0 }, r.1))
unfolding reconcile
reconcile-steps dir l known m w w1 a b f =
    rw (a, reconcile) (rw (b, reconcile) (ground (arith, fault_none w1 f)))

-- A row whose blob path names no regular file.
abbrev pub is_lost : World → ShareRow → Bool
is_lost w r = not (is_held w.cwd w.files r.blob_path)

abbrev pub is_blob_of_row : World → Text → Bool
is_blob_of_row w path =
    any (λ r. not (is_lost w r) && text_eq path (absolute w.cwd (clean r.blob_path))) w.shares

abbrev pub is_orphan : Text → World → Text × Node → Bool
is_orphan dir w e = is_walked (absolute w.cwd dir) e && not (is_blob_of_row w e.0)

-- A repair in which no call fails is exact. Of the rows it takes those whose blob path names no
-- regular file, by their ids, and returns their number; of the files that its walk reaches it takes
-- those that are no remaining row's blob. Paths of files are absolute and clean.
pub reconcile-exact :
    (dir : Text) (w : World)
    → w.faults ≡ []
    → All (λ e. absolute w.cwd e.0 ≡ e.0) w.files
    → ((reconcile dir w).1 ≡ record w {
      shares = discard (λ s. any (λ d. is_lost w d && text_eq s.id d.id) w.shares) w.shares;
      files = discard (λ e. any (λ o. is_orphan dir w o && text_eq e.0 o.0) w.files) w.files;
    })
      × ((reconcile dir w).0.missing_files ≡ length (keep (is_lost w) w.shares))
unfolding reconcile all_shares query_shares fault rows_or_none from_ent
reconcile-exact dir w f h =
    let l = map from_ent w.shares in
    let r = reconcile_rows l [] 0 w in
    let d = reconcile_rows-IsRowsDone l [] 0 [] w f in
    let known : (p : Text) → any (text_eq p) r.0.0 ≡ is_blob_of_row w p = λ p. ground (
      arith,
      (reconcile_rows-IsRowsDone l [] 0 p w f).seen,
      any-map
          (λ sh.
            is_held w.cwd w.files sh.blob_path && text_eq p (absolute w.cwd (clean sh.blob_path)))
          from_ent w.shares,
    ) in
    let with_shares : List ShareRow → World = λ x. record w { shares = x } in
    let same : (s : ShareRow)
        → any (λ sh. not (is_held w.cwd w.files sh.blob_path) && text_eq s.id sh.id) l
          ≡ any (λ d. is_lost w d && text_eq s.id d.id) w.shares =
      λ s.
        any-map (λ sh. not (is_held w.cwd w.files sh.blob_path) && text_eq s.id sh.id) from_ent
          w.shares in
    let w1 =
      with_shares (discard (λ s. any (λ d. is_lost w d && text_eq s.id d.id) w.shares) w.shares) in
    let moved : r.1 ≡ w1 = d.world ∙ ap with_shares (discard-ext _ _ same w.shares) in
    let rows : r ≡ ((r.0.0, r.0.1), w1) = ap (λ (x : World). ((r.0.0, r.0.1), x)) moved in
    let steps = reconcile-steps dir l r.0.0 r.0.1 w w1 (all_shares-exact w f) rows f in
    let lost = length-keep-map (λ sh. not (is_held w.cwd w.files sh.blob_path)) from_ent w.shares in
    let swept = swept-exact dir r.0.0 w1 (is_blob_of_row w) f h known in
    (ap (λ x. x.1) steps ∙ swept, ap (λ x. x.0.missing_files) steps ∙ omega (arith, d.count, lost))
