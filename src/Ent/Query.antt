-- ===== src/Ent/Query.antt =====
-- internal/ent/share_query.go, client.go and share_delete.go: the query and delete builders, as for every
-- table. What the database answers is a parameter.
use shareserver.Base.{
  ℕ, zero, suc, Bool, true, false, Option, none, some, List, [], ◌∷◌, ◌++◌, Text, text_eq, any,
  find?, not, if◌then◌else◌,
}
use shareserver.Ent.{
  Value, Failure, not_found, not_singular, unknown_field, Result, ok, err, Schema, Row, id_name,
}
use shareserver.Ent.Predicate.{Predicate}

pub record Ordering (C : Type 0) : Type 0 where
  pub column : C
  pub descending : Bool

pub record Query (C : Type 0) : Type 0 where
  pub predicates : List (Predicate C)
  pub order : List (Ordering C)
  pub limit : Option ℕ
  pub offset : Option ℕ
  pub unique : Option Bool
  pub selected : List Text

-- `Query` of a client.
abbrev pub new_query : {C : Type 0} → Query C
new_query = record {
  predicates = [];
  order = [];
  limit = none;
  offset = none;
  unique = none;
  selected = [];
}

module _ {C : Type 0} where
  unfoldable pub where_ : List (Predicate C) → Query C → Query C
  where_ ps q = record q { predicates = q.predicates ++ ps }

  unfoldable pub limited : ℕ → Query C → Query C
  limited n q = record q { limit = some n }

  unfoldable pub from_offset : ℕ → Query C → Query C
  from_offset n q = record q { offset = some n }

  unfoldable pub is_unique : Bool → Query C → Query C
  is_unique b q = record q { unique = some b }

  unfoldable pub ordered : List (Ordering C) → Query C → Query C
  ordered o q = record q { order = q.order ++ o }

  unfoldable pub select_ : List Text → Query C → Query C
  select_ names q = record q { selected = q.selected ++ names }

-- What the driver answers to the SQL of a query.
pub record Driver (C : Type 0) : Type 0 where
  pub query_nodes : Query C → Result (List (Row C))
  -- `Scan` of the selected column of the id.
  pub scan_ids : Query C → Result (List Value)
  pub count_nodes : Query C → Result ℕ
  -- The number of rows deleted.
  pub delete_nodes : List (Predicate C) → Result ℕ

abbrev pub is_not_found : Failure → Bool
is_not_found not_found = true
is_not_found _ = false

abbrev pub first_of {ℓ} : {A : Type ℓ} → Result (List A) → Result A
first_of (err e) = err e
first_of (ok []) = err not_found
first_of (ok (a ∷ _)) = ok a

abbrev pub only_of {ℓ} : {A : Type ℓ} → Result (List A) → Result A
only_of (err e) = err e
only_of (ok []) = err not_found
only_of (ok (a ∷ [])) = ok a
only_of (ok (_ ∷ _ ∷ _)) = err not_singular

abbrev pub existing : Result Value → Result Bool
existing (ok _) = ok true
existing (err e) = if is_not_found e then ok false else err e

abbrev pub one_deleted : Result ℕ → Result (Unit {0})
one_deleted (err e) = err e
one_deleted (ok zero) = err not_found
one_deleted (ok (suc _)) = ok tt

module _ {C : Type 0} (s : Schema C) (d : Driver C) where
  -- `ValidColumn`
  unfoldable pub valid_column : Text → Bool
  valid_column name = any (λ c. text_eq (s.name c) name) s.columns

  -- `prepareQuery`: every selected name is a column.
  unfoldable pub prepare_query : Query C → Result (Unit {0})
  prepare_query q = elim (find? (λ name. not (valid_column name)) q.selected) [
    | none ↦ ok tt
    | some name ↦ err (unknown_field name)
  ]

  abbrev prepared : {A : Type 0} → Result (Unit {0}) → Result A → Result A
  prepared (err e) r = err e
  prepared (ok _) r = r

  unfoldable pub all_rows : Query C → Result (List (Row C))
  all_rows q = prepared (prepare_query q) (d.query_nodes q)

  unfoldable pub first : Query C → Result (Row C)
  first q = first_of (all_rows (limited 1 q))

  unfoldable pub only : Query C → Result (Row C)
  only q = only_of (all_rows (limited 2 q))

  -- `IDs`, `FirstID` and `OnlyID`; no query has a traversal path.
  unfoldable pub ids : Query C → Result (List Value)
  ids q = let q1 = select_ (id_name s ∷ []) q in prepared (prepare_query q1) (d.scan_ids q1)

  unfoldable pub first_id : Query C → Result Value
  first_id q = first_of (ids (limited 1 q))

  unfoldable pub only_id : Query C → Result Value
  only_id q = only_of (ids (limited 2 q))

  unfoldable pub count : Query C → Result ℕ
  count q = prepared (prepare_query q) (d.count_nodes q)

  unfoldable pub exist : Query C → Result Bool
  exist q = existing (first_id q)

  -- `Get` of a client, by the predicate on the id.
  unfoldable pub get : Predicate C → Result (Row C)
  get has_id = only (where_ (has_id ∷ []) new_query)

  -- `Exec` of a delete builder, and of one for a single row.
  unfoldable pub delete_exec : List (Predicate C) → Result ℕ
  delete_exec ps = d.delete_nodes ps

  unfoldable pub delete_one_exec : Predicate C → Result (Unit {0})
  delete_one_exec has_id = one_deleted (delete_exec (has_id ∷ []))
