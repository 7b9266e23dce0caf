-- ===== src/Ent/Updates.antt =====
-- internal/ent/*_update.go: what an update sends of the changes gathered.
use shareserver.Base.{
  ◌⊎◌, Option-cases, find?, not, Text, Bool, ◌&&◌, Option, none, some, List, [], ◌∷◌, any, ◌≡◌,
  refl, ap, arith, Bool-cases, inl, inr, if◌then◌else◌,
}
use shareserver.Ent.{Value, missing_id, unknown_field, ok, err, Schema, same}
use shareserver.Ent.Mutation.{Mutation, value_of, added_number, is_cleared}
use shareserver.Ent.Update.{
  UpdateSpec, update_one_spec, read_columns, is_column, entries, clear_entries, update_spec,
}
use shareserver.Ent.Checks.{IsKeyed}

module _ {C : Type 0} (s : Schema C) where
  abbrev pub is_in : List C → C → Bool
  is_in cs c = any (λ d. same s d c) cs

  -- The first entry of a column.
  abbrev pub entry_of {ℓ} : {A : Type ℓ} → List (C × A) → C → Option A
  entry_of [] c = none
  entry_of ((d, a) ∷ rest) c = if same s d c then some a else entry_of rest c

  entry_of-entries {ℓ} :
      {A : Type ℓ}
      → IsKeyed s
      → (f : C → Option A) (cs : List C) (c : C)
      → entry_of (entries s f cs) c ≡ (if is_in cs c then f c else none)
  entry_of-entries keyed f [] c = refl
  entry_of-entries keyed f (d ∷ cs) c = elim (Bool-cases (same s d c)) [
    | inl is_same ↦ ground (arith, entry_of-entries keyed f cs c, ap f (keyed d c is_same))
    | inr other ↦ ground (arith, entry_of-entries keyed f cs c)
  ]

  is_in-clear_entries :
      IsKeyed s
      → (cs : List C) (m : Mutation C) (c : C)
      → is_in (clear_entries s cs m) c ≡ (is_in cs c && m.cleared c)
  unfolding is_cleared
  is_in-clear_entries keyed [] m c = refl
  is_in-clear_entries keyed (d ∷ cs) m c = elim (Bool-cases (same s d c)) [
    | inl is_same ↦
        ground (arith, is_in-clear_entries keyed cs m c, ap m.cleared (keyed d c is_same))
    | inr other ↦ ground (arith, is_in-clear_entries keyed cs m c)
  ]

  -- A column is set to the value that was set and increased by what was added, if it is a field, and set to
  -- NULL if it can be NULL and was cleared.
  abbrev pub Sends : Mutation C → UpdateSpec C → C → Type 0
  Sends m spec c =
      (entry_of spec.sets c ≡ (if is_in s.fields c then m.values c else none))
      × (entry_of spec.adds c ≡ (if is_in s.fields c then m.added c else none))
      × (is_in spec.clears c ≡ (is_in s.nullable c && m.cleared c))

  update_spec-Sends : IsKeyed s → (m : Mutation C) (c : C) → Sends m (update_spec s m) c
  unfolding update_spec value_of added_number
  update_spec-Sends keyed m c = (
    entry_of-entries keyed m.values s.fields c,
    entry_of-entries keyed m.added s.fields c,
    is_in-clear_entries keyed s.nullable m c,
  )

  sent_predicates : (m : Mutation C) → (update_spec s m).predicates ≡ m.predicates
  unfolding update_spec
  sent_predicates m = refl

  -- The name that `Select` has given and that is no column.
  abbrev pub IsUnknown : List Text → Text → Type 0
  IsUnknown names name = find? (λ n. not (is_column s n)) names ≡ some name

  -- Where a number is the number of one column: an UpdateOne without an id is refused, and so is one that
  -- is to read a name that is no column. Else, for every column, what is sent to the database for the row
  -- of the id is what was set, added and cleared, under the predicates of the builder.
  pub update_one_spec-cases :
      IsKeyed s
      → (names : List Text) (m : Mutation C)
      → ((m.id ≡ none) × (update_one_spec s names m ≡ err missing_id))
        ⊎ ((id : Value) × (m.id ≡ some id)
            × (((name : Text) × IsUnknown names name
                  × (update_one_spec s names m ≡ err (unknown_field name)))
                ⊎ ((spec : UpdateSpec C) × (update_one_spec s names m ≡ ok spec)
                    × (spec.id ≡ some id)
                    × (spec.predicates ≡ m.predicates)
                    × ((c : C) → Sends m spec c))))
  unfolding update_one_spec
  update_one_spec-cases keyed names m = elim (Option-cases m.id) [
    | inl n ↦ inl (n, rw (n, update_one_spec) refl)
    | inr (id, e) ↦ inr (
      id,
      e,
      elim (Option-cases (find? (λ n. not (is_column s n)) names)) [
        | inr (name, u) ↦ inl (name, u, rw (e, u, update_one_spec) refl)
        | inl known ↦ inr (
          record (update_spec s m) { id = some id; read = read_columns s names },
          cc,
          refl,
          sent_predicates m,
          update_spec-Sends keyed m,
        )
      ],
    )
  ]
