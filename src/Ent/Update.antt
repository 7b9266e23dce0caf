-- ===== src/Ent/Update.antt =====
-- internal/ent/*_update.go: from a mutation to the changes that the database is given.
use shareserver.Base.{
  ℕ, ℤ, Bool, not, Option, none, some, List, [], ◌∷◌, Text, text_eq, map, any, discard, find?,
  if◌then◌else◌,
}
use shareserver.Ent.{Value, missing_id, unknown_field, Result, ok, err, Schema, Row, id_name}
use shareserver.Ent.Mutation.{
  Mutation, update_one, new_mutation, set_id, set_number, reset_value, value_of, added_number,
  is_cleared,
}
use shareserver.Ent.Predicate.{Predicate}

-- What UpdateNodes and UpdateNode are given; the id and the columns to read are those of one row.
pub record UpdateSpec (C : Type 0) : Type 0 where
  pub id : Option Value
  pub read : List Text
  pub predicates : List (Predicate C)
  pub sets : List (C × Value)
  pub adds : List (C × ℤ)
  pub clears : List C

pub record Updater (C : Type 0) : Type 0 where
  pub update_nodes : UpdateSpec C → Result ℕ
  pub update_node : UpdateSpec C → Result (Row C)

-- `UpdateOneID` of a client; the row before the change is not asked for.
unfoldable pub update_one_id : {C : Type 0} → Value → Mutation C
update_one_id id = set_id id (new_mutation update_one)

module _ {C : Type 0} (s : Schema C) where
  abbrev pub with_entry {ℓ} : {A : Type ℓ} → C → Option A → List (C × A) → List (C × A)
  with_entry c none rest = rest
  with_entry c (some v) rest = (c, v) ∷ rest

  -- The columns that have something, in order.
  abbrev pub entries {ℓ} : {A : Type ℓ} → (C → Option A) → List C → List (C × A)
  entries f [] = []
  entries f (c ∷ cs) = with_entry c (f c) (entries f cs)

  abbrev pub clear_entries : List C → Mutation C → List C
  clear_entries [] m = []
  clear_entries (c ∷ cs) m =
      let rest = clear_entries cs m in if is_cleared s c m then c ∷ rest else rest

  -- `sqlSave` of an Update builder up to UpdateNodes.
  unfoldable pub update_spec : Mutation C → UpdateSpec C
  update_spec m = record {
    id = none;
    read = map s.name s.columns;
    predicates = m.predicates;
    sets = entries (λ c. value_of s c m) s.fields;
    adds = entries (λ c. added_number s c m) s.fields;
    clears = clear_entries s.nullable m;
  }

  abbrev pub is_column : Text → Bool
  is_column name = any (λ c. text_eq (s.name c) name) s.columns

  -- The columns that `Select` has named are read after the id; without any, all of them are.
  abbrev pub read_columns : List Text → List Text
  read_columns [] = map s.name s.columns
  read_columns (name ∷ names) = id_name s ∷ discard (text_eq (id_name s)) (name ∷ names)

  -- `sqlSave` of an UpdateOne builder up to UpdateNode.
  unfoldable pub update_one_spec : List Text → Mutation C → Result (UpdateSpec C)
  update_one_spec names m = elim m.id [
    | none ↦ err missing_id
    | some id ↦ elim (find? (λ name. not (is_column name)) names) [
      | some name ↦ err (unknown_field name)
      | none ↦ ok (record (update_spec m) { id = some id; read = read_columns names })
    ]
  ]

  -- `Save` of the two builders; an UpdateOne that fails its checks asks nothing of the database.
  unfoldable pub save_update : Updater C → Mutation C → Result ℕ
  save_update d m = d.update_nodes (update_spec m)

  unfoldable pub save_update_one : Updater C → List Text → Mutation C → Result (Row C)
  save_update_one d names m = elim (update_one_spec names m) [
    | err e ↦ err e
    | ok spec ↦ d.update_node spec
  ]

  -- `SetSize` of an update builder forgets what was added, and with it any clearing.
  unfoldable pub renew_number : C → ℤ → Mutation C → Mutation C
  renew_number c n m = set_number s c n (reset_value s c m)
