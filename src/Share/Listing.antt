-- ===== src/Share/Listing.antt =====
-- internal/share/store.go: what the lists may show.
use shareserver.Base.{
  ℕ, zero, suc, ◌≤◌, ◌≡◌, refl, Bool, true, false, List, [], ◌∷◌, map, Text, codes, text_eq_iff,
  arith, all, keep, take, length, All, length-take_le, Bool-cases, ◌⊎◌, inl, inr,
}
use shareserver.World.{World, ShareRow, ok, err, io, fault}
use shareserver.World.Db.{place, newest_first, query_newest}
use shareserver.Share.{Share, ActiveRule}
use shareserver.Share.Store.{
  listed_by_key, list_by_key, from_ent, rows_or_none, string_value, null_string, predicate,
}

module _ (q : ShareRow → Bool) where
  all-keep : (l : List ShareRow) → all q (keep q l) ≡ true
  all-keep [] = refl
  all-keep (r ∷ l) = ground (arith, all-keep l)

  all-place :
      (r : ShareRow) (l : List ShareRow) → q r ≡ true → all q l ≡ true → all q (place r l) ≡ true
  unfolding place
  all-place r [] p h = ground arith
  all-place r (s ∷ l) p h = ground (arith, all-place r l p)

  all-newest_first : (l : List ShareRow) → all q l ≡ true → all q (newest_first l) ≡ true
  unfolding newest_first
  all-newest_first [] h = refl
  all-newest_first (r ∷ l) h = ground (arith, all-newest_first l, all-place r (newest_first l))

  all-take : (n : ℕ) (l : List ShareRow) → all q l ≡ true → all q (take n l) ≡ true
  all-take zero l h = refl
  all-take (suc n) [] h = refl
  all-take (suc n) (r ∷ l) h = ground (arith, all-take n l)

length-map : (l : List ShareRow) → length (map from_ent l) ≡ length l
length-map [] = refl
length-map (r ∷ l) = ground (arith, length-map l)

-- A Share that a key's holder may see.
abbrev pub IsOfKey : Text → Share → Type 0
IsOfKey key_hash s =
    (s.visibility ≡ codes "private")
    × (s.private_key_hash ≡ key_hash)
    × (s.encrypted ≡ true)
    × (s.purged_at.valid ≡ false)

listed_by_key-IsOfKey :
    (r : ActiveRule) (k : Text) (row : ShareRow)
    → listed_by_key r k row ≡ true
    → IsOfKey k (from_ent row)
unfolding listed_by_key predicate from_ent string_value null_string
listed_by_key-IsOfKey r k row h = ground (
  arith,
  text_eq_iff row.visibility (codes "private"),
  text_eq_iff (string_value row.private_key_hash) k,
)

rows-IsOfKey :
    (r : ActiveRule) (k : Text) (l : List ShareRow)
    → all (listed_by_key r k) l ≡ true
    → All (IsOfKey k) (map from_ent l)
rows-IsOfKey r k [] h = tt
rows-IsOfKey r k (row ∷ l) h =
    (listed_by_key-IsOfKey r k row (ground arith), rows-IsOfKey r k l (ground arith))

query_newest-cases :
    (n : ℕ) (p : ShareRow → Bool) (w : World)
    → ((query_newest n p w).0 ≡ err io)
      ⊎ ((query_newest n p w).0 ≡ ok (take n (newest_first (keep p (fault w).1.shares))))
unfolding query_newest
query_newest-cases n p w = elim (Bool-cases (fault w).0) [
  | inl broken ↦ inl (ground arith)
  | inr fine ↦ inr (ground arith)
]

-- The list for a key holds at most 100 Shares, all of them private, of that key, encrypted and not
-- purged.
pub list_by_key-IsOfKey :
    (r : ActiveRule) (key_hash : Text) (w : World)
    → All (IsOfKey key_hash) (list_by_key r key_hash w).0
      × (length (list_by_key r key_hash w).0 ≤ 100)
unfolding list_by_key rows_or_none
list_by_key-IsOfKey r k w = elim (query_newest-cases 100 (listed_by_key r k) w) [
  | inl broken ↦ rw broken (tt, omega arith)
  | inr rows ↦
      let l = newest_first (keep (listed_by_key r k) (fault w).1.shares) in
      rw rows (
        rows-IsOfKey r k (take 100 l) (
            all-take (listed_by_key r k) 100 l (
              all-newest_first (listed_by_key r k) _
                (all-keep (listed_by_key r k) (fault w).1.shares))),
        omega (arith, length-map (take 100 l), length-take_le 100 l),
      )
]
