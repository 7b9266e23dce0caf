-- ===== src/Ent/Tables.antt =====
-- The query builders of internal/ent over a table of rows.
use shareserver.Base.{ℕ, Option, none, some, List, [], ◌∷◌, ◌≡◌, refl, sym, keep, take}
use shareserver.Ent.{ok, Schema, Row}
use shareserver.Ent.Predicate.{Comparing, Predicate, selects}
use shareserver.Ent.Query.{
  Query, new_query, Driver, where_, limited, prepare_query, all_rows, only, only_of, get,
}

abbrev pub cut {ℓ} : {A : Type ℓ} → Option ℕ → List A → List A
cut none xs = xs
cut (some n) xs = take n xs

only_of-take {ℓ} : {A : Type ℓ} (xs : List A) → only_of (ok (take 2 xs)) ≡ only_of (ok xs)
only_of-take [] = refl
only_of-take (x ∷ []) = refl
only_of-take (x ∷ y ∷ xs) = refl

module _ {C : Type 0} (s : Schema C) (test : Comparing) (id : C) where
  abbrev pub selected : List (Predicate C) → List (Row C) → List (Row C)
  selected ps rows = keep (λ row. selects test row ps) rows

  -- What the database answers over a table, in the queries without an order and an offset.
  pub record IsTable (d : Driver C) (rows : List (Row C)) : Type 0 where
    pub nodes :
        (q : Query C)
        → q.order ≡ []
        → q.offset ≡ none
        → d.query_nodes q ≡ ok (cut q.limit (selected q.predicates rows))

  module _ (d : Driver C) (rows : List (Row C)) (h : IsTable d rows) (ps : List (Predicate C)) where
    abbrev asked : Query C
    asked = where_ ps new_query

    only-asked : only s d asked ≡ only_of (ok (selected ps rows))
    unfolding only all_rows prepare_query where_ limited
    only-asked = rw (h.nodes (limited 2 asked) refl refl) (only_of-take (selected ps rows))

    pub get_lem : (p : Predicate C) → ps ≡ p ∷ [] → get s d p ≡ only_of (ok (selected ps rows))
    unfolding get
    get_lem p e = rw (sym e) only-asked
