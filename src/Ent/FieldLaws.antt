-- ===== src/Ent/FieldLaws.antt =====
-- internal/ent/mutation.go: fields set, cleared and reset by their names.
use shareserver.Base.{
  true, false, none, some, List, Text, ◌≡◌, refl, arith, ◌⊎◌, inl, inr, Option-cases, Bool-cases,
}
use shareserver.Ent.{
  Value, null, text, bool, int, has_kind, unknown_field, unexpected_type, Result, ok, err, Schema,
  same,
}
use shareserver.Ent.Mutation.{
  Mutation, named, field_value, set_field, clear_field, reset_field, set_value, set_number,
  clear_value, reset_value, assign,
}

module _ {C : Type 0} (s : Schema C) where
  -- Only the fields of one column differ.
  abbrev pub IsElsewhere : C → Mutation C → Mutation C → Type 0
  IsElsewhere c m m1 =
      ((d : C)
        → same s c d ≡ false
        → (m1.values d ≡ m.values d) × (m1.added d ≡ m.added d) × (m1.cleared d ≡ m.cleared d))
      × (m1.id ≡ m.id)
      × (m1.op ≡ m.op)

  assign-IsElsewhere : (c : C) (v : Value) (m : Mutation C) → IsElsewhere c m (assign s c v m)
  unfolding set_value set_number
  assign-IsElsewhere c null m = (λ d h. rw h (refl, refl, refl), refl, refl)
  assign-IsElsewhere c (text t) m = (λ d h. rw h (refl, refl, refl), refl, refl)
  assign-IsElsewhere c (bool b) m = (λ d h. rw h (refl, refl, refl), refl, refl)
  assign-IsElsewhere c (int n) m = (λ d h. rw h (refl, refl, refl), refl, refl)

  same_self : (c : C) → same s c c ≡ true
  same_self c = ground arith

  assign_value : (c : C) (v : Value) (m : Mutation C) → (assign s c v m).values c ≡ some v
  unfolding set_value set_number
  assign_value c null m = rw (same_self c) refl
  assign_value c (text t) m = rw (same_self c) refl
  assign_value c (bool b) m = rw (same_self c) refl
  assign_value c (int n) m = rw (same_self c) refl

  abbrev pub IsAssigned : Text → C → Value → Mutation C → Mutation C → Type 0
  IsAssigned name c v m m1 =
      (set_field s name v m ≡ ok m1) × (field_value s name m1 ≡ some v) × IsElsewhere c m m1

  -- SetField refuses a name that is no field, and a value that is not of the field's type. Else it gives a
  -- mutation whose Field reads the value back, and the values, additions and clearings of every other
  -- column, the id and the operation are as before.
  pub set_field-cases :
      (name : Text) (v : Value) (m : Mutation C)
      → ((named s s.fields name ≡ none) × (set_field s name v m ≡ err (unknown_field name)))
        ⊎ ((c : C) × (named s s.fields name ≡ some c)
            × (((has_kind (s.kind c) v ≡ false)
                  × (set_field s name v m ≡ err (unexpected_type name)))
                ⊎ ((m1 : Mutation C) × (has_kind (s.kind c) v ≡ true) × IsAssigned name c v m m1)))
  unfolding set_field field_value
  set_field-cases name v m = elim (Option-cases (named s s.fields name)) [
    | inl n ↦ inl (n, rw (n, set_field) refl)
    | inr (c, e) ↦ inr (
      c,
      e,
      elim (Bool-cases (has_kind (s.kind c) v)) [
        | inr wrong ↦ inl (wrong, rw (e, set_field, wrong) refl)
        | inl right ↦ inr (
          assign s c v m,
          right,
          (
            rw (e, set_field, right) refl,
            rw (e, field_value) (assign_value c v m),
            assign-IsElsewhere c v m,
          ),
        )
      ],
    )
  ]

  abbrev pub IsCleared : C → Mutation C → Mutation C → Type 0
  IsCleared c m m1 =
      (m1.values c ≡ none) × (m1.added c ≡ none) × (m1.cleared c ≡ true) × IsElsewhere c m m1

  abbrev pub IsReset : C → Mutation C → Mutation C → Type 0
  IsReset c m m1 =
      (m1.values c ≡ none) × (m1.added c ≡ none) × (m1.cleared c ≡ false) × IsElsewhere c m m1

  clear_value-IsCleared : (c : C) (m : Mutation C) → IsCleared c m (clear_value s c m)
  unfolding clear_value
  clear_value-IsCleared c m = (
    rw (same_self c) refl,
    rw (same_self c) refl,
    rw (same_self c) refl,
    (λ d h. rw h (refl, refl, refl), refl, refl),
  )

  reset_value-IsReset : (c : C) (m : Mutation C) → IsReset c m (reset_value s c m)
  unfolding reset_value
  reset_value-IsReset c m = (
    rw (same_self c) refl,
    rw (same_self c) refl,
    rw (same_self c) refl,
    (λ d h. rw h (refl, refl, refl), refl, refl),
  )

  abbrev pub ClearsOrRefuses :
      List C
      → (C → Mutation C → Mutation C → Type 0)
      → (Text → Mutation C → Result (Mutation C))
      → Text
      → Mutation C
      → Type 0
  ClearsOrRefuses cs Done op name m =
      ((named s cs name ≡ none) × (op name m ≡ err (unknown_field name)))
      ⊎ ((c : C) × (m1 : Mutation C) × (named s cs name ≡ some c)
          × (op name m ≡ ok m1)
          × Done c m m1)

  -- A name that is not one of a nullable field is refused by ClearField, one that is no field by
  -- ResetField. Else a cleared field has no value and is in the set of the cleared, a reset one has no value
  -- and is not, and the other columns, the id and the operation are as before.
  pub clear_field-cases :
      (name : Text) (m : Mutation C)
      → ClearsOrRefuses s.nullable IsCleared (clear_field s) name m
        × ClearsOrRefuses s.fields IsReset (reset_field s) name m
  unfolding clear_field reset_field
  clear_field-cases name m = (
    elim (Option-cases (named s s.nullable name)) [
      | inl n ↦ inl (n, rw (n, clear_field) refl)
      | inr (c, e) ↦
          inr (c, clear_value s c m, e, rw (e, clear_field) refl, clear_value-IsCleared c m)
    ],
    elim (Option-cases (named s s.fields name)) [
      | inl n ↦ inl (n, rw (n, reset_field) refl)
      | inr (c, e) ↦
          inr (c, reset_value s c m, e, rw (e, reset_field) refl, reset_value-IsReset c m)
    ],
  )
