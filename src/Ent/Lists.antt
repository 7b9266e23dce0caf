-- ===== src/Ent/Lists.antt =====
-- internal/share/store.go over internal/ent: the lists and counts of the store.
use shareserver.Base.{
  ℕ, Bool, true, false, ◌&&◌, ◌||◌, not, none, List, [], ◌∷◌, map, Text, text_lt, ◌≡◌, refl, sym,
  arith, keep, take, length,
}
use shareserver.World.{ShareRow}
use shareserver.Share.{ActiveRule}
use shareserver.Share.Store.{is_nil, predicate, expired_predicate, listed_public, listed_by_key}
use shareserver.Ent.{Result, ok, ◌>>=◌}
use shareserver.Ent.Predicate.{Comparing, IsBinary, Predicate, selects}
use shareserver.Ent.Scan.{Scanning, IsScan}
use shareserver.Ent.Query.{
  Query, new_query, Driver, where_, limited, ordered, prepare_query, all_rows, count,
}
use shareserver.Ent.Tables.{cut}
use shareserver.Ent.Shares.{ShareColumn, schema}
use shareserver.Ent.ShareRows.{
  share_values, active_query, expired_query, public_query, key_query, expiry_query,
  unprotected_query, purged_query,
}
use shareserver.Ent.Queries.{where_-WhereMatches}
use shareserver.Ent.Inserts.{load_share-share_values}
use shareserver.Ent.StoreQueries.{
  newest, list_public_query, list_by_key_query, list_all_query, all_query, with_expiry_query,
  without_protection_query, count_active_query, count_expired_query, count_purged_query,
  load_shares,
}

-- The same rows, in any order: of every property as many rows have it.
abbrev pub IsArranged : List ShareRow → List ShareRow → Type 0
IsArranged rows arranged = (p : ShareRow → Bool) → length (keep p arranged) ≡ length (keep p rows)

-- By descending `created_at`, rows of equal stamps in any order.
abbrev pub IsNewestFirst : List ShareRow → Type 0
IsNewestFirst [] = Unit
IsNewestFirst (_ ∷ []) = Unit
IsNewestFirst (r ∷ s ∷ rows) =
    (text_lt r.created_at s.created_at ≡ false) × IsNewestFirst (s ∷ rows)

-- What the database answers over the shares table. It may take the rows in any order that the
-- query leaves open, and another one each time.
pub record IsSharesTable (test : Comparing) (d : Driver ShareColumn) (shares : List ShareRow)
    : Type 0 where
  pub plain :
      (q : Query ShareColumn)
      → q.order ≡ []
      → q.offset ≡ none
      → (rows : List ShareRow) × IsArranged
          (keep (λ r. selects test (share_values r) q.predicates) shares)
          rows
        × (d.query_nodes q ≡ ok (map share_values (cut q.limit rows)))
  pub by_age :
      (q : Query ShareColumn)
      → q.order ≡ newest ∷ []
      → q.offset ≡ none
      → (rows : List ShareRow) × IsArranged
          (keep (λ r. selects test (share_values r) q.predicates) shares)
          rows
        × IsNewestFirst rows
        × (d.query_nodes q ≡ ok (map share_values (cut q.limit rows)))
  pub counts :
      (q : Query ShareColumn)
      → q.order ≡ []
      → q.offset ≡ none
      → q.limit ≡ none
      → d.count_nodes q
        ≡ ok (length (keep (λ r. selects test (share_values r) q.predicates) shares))

keep_eq :
    (p q : ShareRow → Bool)
    → ((r : ShareRow) → p r ≡ q r)
    → (rows : List ShareRow) → keep p rows ≡ keep q rows
keep_eq p q h [] = refl
keep_eq p q h (r ∷ rows) = ground (arith, h r, keep_eq p q h rows)

module _ (scan : Scanning) (h : IsScan scan) where
  load_shares-map : (rows : List ShareRow) → load_shares scan (map share_values rows) ≡ ok rows
  unfolding load_shares
  load_shares-map [] = refl
  load_shares-map (r ∷ rows) =
      ground (arith, load_share-share_values scan h r, load_shares-map rows)

-- The answer is the newest `n` rows of which `p` holds.
abbrev pub IsNewest : List ShareRow → (ShareRow → Bool) → ℕ → Result (List ShareRow) → Type 0
IsNewest shares p n answer =
    (rows : List ShareRow) × IsArranged (keep p shares) rows
    × IsNewestFirst rows
    × (answer ≡ ok (take n rows))

-- The answer is all rows of which `p` holds.
abbrev pub IsWhole : List ShareRow → (ShareRow → Bool) → Result (List ShareRow) → Type 0
IsWhole shares p answer =
    (rows : List ShareRow) × IsArranged (keep p shares) rows × (answer ≡ ok rows)

module _ (scan : Scanning) (h : IsScan scan) (test : Comparing) (d : Driver ShareColumn)
    (shares : List ShareRow) (table : IsSharesTable test d shares) where
  module _ (ps : List (Predicate ShareColumn)) (p : ShareRow → Bool)
      (matches : (r : ShareRow) → selects test (share_values r) ps ≡ p r) where
    abbrev kept : keep (λ r. selects test (share_values r) ps) shares ≡ keep p shares
    kept = keep_eq (λ r. selects test (share_values r) ps) p matches shares

    abbrev moved :
        (rows : List ShareRow)
        → IsArranged (keep (λ r. selects test (share_values r) ps) shares) rows
        → IsArranged (keep p shares) rows
    moved rows a f = rw (sym kept) (a f)

    newest_asked :
        (n : ℕ)
        → IsNewest shares p n (
            all_rows schema d (limited n (ordered (newest ∷ []) (where_ ps new_query)))
            >>= load_shares scan)
    unfolding all_rows prepare_query limited ordered where_
    newest_asked n =
        let (rows, same, sorted, answer) =
          table.by_age (limited n (ordered (newest ∷ []) (where_ ps new_query))) refl refl in
        (rows, moved rows same, sorted, rw (answer, load_shares-map scan h (take n rows)) refl)

    plain_asked : IsWhole shares p (all_rows schema d (where_ ps new_query) >>= load_shares scan)
    unfolding all_rows prepare_query where_
    plain_asked =
        let (rows, same, answer) = table.plain (where_ ps new_query) refl refl in
        (rows, moved rows same, rw (answer, load_shares-map scan h rows) refl)

    count_asked : count schema d (where_ ps new_query) ≡ ok (length (keep p shares))
    unfolding count prepare_query where_
    count_asked = rw (table.counts (where_ ps new_query) refl refl refl, kept) refl

-- What the queries of the store give through the client, in terms of the rows.
abbrev pub StoreMatches : Scanning → Driver ShareColumn → List ShareRow → ActiveRule → Text → Type 0
StoreMatches scan d shares r key_hash =
    let asked : Query ShareColumn → Result (List ShareRow) =
      λ q. (all_rows schema d q >>= load_shares scan) in
    IsNewest shares (listed_public r) 100 (asked (list_public_query r))
    × IsNewest shares (listed_by_key r key_hash) 100 (asked (list_by_key_query r key_hash))
    × IsNewest shares (λ _. true) 300 (asked list_all_query)
    × IsWhole shares (λ _. true) (asked all_query)
    × IsWhole shares (λ row. is_nil row.purged_at && not (is_nil row.expires_at))
        (asked with_expiry_query)
    × IsWhole shares (λ row. not row.encrypted || is_nil row.download_password_hash)
        (asked without_protection_query)
    × (count schema d (count_active_query r) ≡ ok (length (keep (predicate r) shares)))
    × (count schema d (count_expired_query r) ≡ ok (length (keep (expired_predicate r) shares)))
    × (count schema d count_purged_query
        ≡ ok (length (keep (λ row. not (is_nil row.purged_at)) shares)))

-- Where the database answers over the shares table, in any order that a query leaves open, with
-- texts compared bytewise and the columns scanned into the fields' types: the three lists for
-- pages are the newest 100 public Shares, the newest 100 of a key and the newest 300 of all; the
-- lists for the clean-ups are all rows, those with an expiry and not purged, and those without
-- protection, each in some order; and the three counts are those of the active, the expired and
-- the purged rows.
pub all_rows-StoreMatches :
    (scan : Scanning)
    → IsScan scan
    → (test : Comparing) → IsBinary test
    → (d : Driver ShareColumn) (shares : List ShareRow) → IsSharesTable test d shares
    → (r : ActiveRule) (key_hash : Text) → StoreMatches scan d shares r key_hash
unfolding list_public_query list_by_key_query list_all_query all_query with_expiry_query
    without_protection_query count_active_query count_expired_query count_purged_query limited
    ordered where_ selects
all_rows-StoreMatches scan h test b d shares table r k =
    let newest_of = newest_asked scan h test d shares table in
    let plain_of = plain_asked scan h test d shares table in
    let count_of = count_asked scan h test d shares table in
    let selected = where_-WhereMatches test b r k in
    (
      newest_of (public_query r) (listed_public r) (λ row. (selected row).2) 100,
      newest_of (key_query r k) (listed_by_key r k) (λ row. (selected row).3) 100,
      newest_of [] (λ _. true) (λ row. refl) 300,
      plain_of [] (λ _. true) (λ row. refl),
      plain_of expiry_query _ (λ row. (selected row).4),
      plain_of unprotected_query _ (λ row. (selected row).5),
      count_of (active_query r ∷ []) (predicate r) (λ row. (selected row).0),
      count_of (expired_query r ∷ []) (expired_predicate r) (λ row. (selected row).1),
      count_of purged_query _ (λ row. (selected row).6),
    )
