-- ===== src/Ent/Create.antt =====
-- internal/ent/*_create.go: from a mutation to the row that the database is given.
use shareserver.Base.{Option, none, some, List, [], ◌∷◌, ◌==◌, if◌then◌else◌}
use shareserver.Ent.{Value, null, missing_required, Result, ok, err, Schema, Row}
use shareserver.Ent.Mutation.{Mutation, set_value, value_of}

abbrev pub or_null : Option Value → Value
or_null none = null
or_null (some v) = v

module _ {C : Type 0} (s : Schema C) where
  -- `SetNillablePurgedAt` and its siblings.
  unfoldable pub set_nillable : {A : Type 0} → C → (A → Value) → Option A → Mutation C → Mutation C
  set_nillable c value none m = m
  set_nillable c value (some v) m = set_value s c (value v) m

  -- `defaults`: a field without a value is given its default.
  unfoldable pub with_defaults : List (C × Value) → Mutation C → Mutation C
  with_defaults [] m = m
  with_defaults ((c, v) ∷ rest) m = elim (value_of s c m) [
    | none ↦ with_defaults rest (set_value s c v m)
    | some _ ↦ with_defaults rest m
  ]

  -- `check`: the first required field that has no value.
  unfoldable pub missing : List C → Mutation C → Option C
  missing [] m = none
  missing (c ∷ cs) m = elim (value_of s c m) [ none ↦ some c | some _ ↦ missing cs m ]

  -- `createSpec`: the id and the fields that have values; the database puts NULL in the rest.
  unfoldable pub create_spec : Mutation C → Row C
  create_spec m c = if s.index c == 0 then or_null m.id else or_null (m.values c)

  -- `Save` up to the driver's CreateNode.
  unfoldable pub save : Mutation C → Result (Row C)
  save m =
      let full = with_defaults s.defaults m in
      elim (missing s.required full) [
        | some c ↦ err (missing_required (s.name c))
        | none ↦ ok (create_spec full)
      ]
