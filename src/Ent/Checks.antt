-- ===== src/Ent/Checks.antt =====
-- internal/ent/*_create.go: what `defaults` fills in and what `check` refuses.
use shareserver.Base.{
  true, Option, none, some, List, [], ◌∷◌, ◌++◌, ◌≡◌, refl, ap, arith, All, ◌⊎◌, inl, inr,
  Option-cases, Bool-cases, if◌then◌else◌,
}
use shareserver.Ent.{Value, missing_required, ok, err, Schema, same}
use shareserver.Ent.Mutation.{Mutation, set_value, value_of}
use shareserver.Ent.Create.{with_defaults, missing, create_spec, save}

module _ {C : Type 0} (s : Schema C) where
  abbrev pub HasValue : Mutation C → C → Type 0
  HasValue m c = (v : Value) × (value_of s c m ≡ some v)

  -- The first of the columns that has no value.
  abbrev pub IsFirstMissing : List C → Mutation C → C → Type 0
  IsFirstMissing cs m c =
      (before : List C) × (after : List C) × (cs ≡ before ++ c ∷ after)
      × All (HasValue m) before
      × (value_of s c m ≡ none)

  missing-cases :
      (cs : List C) (m : Mutation C)
      → (All (HasValue m) cs × (missing s cs m ≡ none))
        ⊎ ((c : C) × IsFirstMissing cs m c × (missing s cs m ≡ some c))
  unfolding missing
  missing-cases [] m = inl (tt, refl)
  missing-cases (c ∷ cs) m = elim (Option-cases (value_of s c m)) [
    | inl no_value ↦ inr (c, ([], cs, refl, tt, no_value), rw (no_value, missing) refl)
    | inr (v, value) ↦ elim (missing-cases cs m) [
      | inl (full, fine) ↦ inl (((v, value), full), rw (value, missing) fine)
      | inr (d, (before, after, split, full, lacks), found) ↦ inr (
        d,
        (c ∷ before, after, ap (λ l. c ∷ l) split, ((v, value), full), lacks),
        rw (value, missing) found,
      )
    ]
  ]

  -- Either every required field has a value, its default included, and `Save` hands over the row of them,
  -- or `Save` is refused for the first required field that has none.
  pub save-cases :
      (m : Mutation C)
      → (All (HasValue (with_defaults s s.defaults m)) s.required
          × (save s m ≡ ok (create_spec s (with_defaults s s.defaults m))))
        ⊎ ((c : C) × IsFirstMissing s.required (with_defaults s s.defaults m) c
            × (save s m ≡ err (missing_required (s.name c))))
  unfolding save
  save-cases m = elim (missing-cases s.required (with_defaults s s.defaults m)) [
    | inl (full, fine) ↦ inl (full, rw (fine, save) refl)
    | inr (c, first, found) ↦ inr (c, first, rw (found, save) refl)
  ]

  -- Two columns of one number are one column.
  abbrev pub IsKeyed : Type 0
  IsKeyed = (c d : C) → same s c d ≡ true → c ≡ d

  abbrev pub or_else : Option Value → Option Value → Option Value
  or_else none o = o
  or_else (some v) _ = some v

  -- The first default for a column.
  abbrev pub default_of : List (C × Value) → C → Option Value
  default_of [] c = none
  default_of ((d, v) ∷ rest) c = if same s d c then some v else default_of rest c

  -- A value that is set stays; a field without one has its default, if there is one.
  pub value_of-with_defaults :
      IsKeyed
      → (ds : List (C × Value)) (m : Mutation C) (c : C)
      → value_of s c (with_defaults s ds m) ≡ or_else (value_of s c m) (default_of ds c)
  unfolding value_of with_defaults set_value
  value_of-with_defaults keyed [] m c = elim (Option-cases (m.values c)) [
    | inl n ↦ rw n refl
    | inr (v, e) ↦ rw e refl
  ]
  value_of-with_defaults keyed ((d, v) ∷ rest) m c = elim (Bool-cases (same s d c)) [
    | inl is_same ↦ ground (
      arith,
      value_of-with_defaults keyed rest m c,
      value_of-with_defaults keyed rest (set_value s d v m) c,
      ap m.values (keyed d c is_same),
    )
    | inr other ↦ ground (
      arith,
      value_of-with_defaults keyed rest m c,
      value_of-with_defaults keyed rest (set_value s d v m) c,
    )
  ]
