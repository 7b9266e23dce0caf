-- ===== src/Ent/Mutation.antt =====
-- internal/ent/mutation.go: the changes that a builder has gathered.
use shareserver.Base.{
  ℤ, Bool, true, false, Option, none, some, List, [], ◌++◌, map, ◌&&◌, Text, text_eq, keep, find?,
  if◌then◌else◌,
}
use shareserver.Base.Int.{pos, ◌+ℤ◌}
use shareserver.Ent.{
  Value, null, text, bool, int, has_kind, unknown_field, unexpected_type, not_allowed, missing_id,
  Result, ok, err, Schema, same, Row,
}
use shareserver.Ent.Predicate.{Predicate}

pub data Op : Type 0 where
  create update update_one delete delete_one : Op

abbrev is_update_one : Op → Bool
is_update_one update_one = true
is_update_one _ = false

-- The pointers of the fields, the pending additions and the set of cleared columns as functions of the
-- column; `old_value` is the answer of the query for the row before the change.
pub record Mutation (C : Type 0) : Type 0 where
  pub op : Op
  pub id : Option Value
  pub values : C → Option Value
  pub added : C → Option ℤ
  pub cleared : C → Bool
  pub done : Bool
  pub old_value : Option (Result (Row C))
  pub predicates : List (Predicate C)

-- `newShareMutation` without options, and its siblings.
unfoldable pub new_mutation : {C : Type 0} → Op → Mutation C
new_mutation op = record {
  op = op;
  id = none;
  values = λ c. none;
  added = λ c. none;
  cleared = λ c. false;
  done = false;
  old_value = none;
  predicates = [];
}

module _ {C : Type 0} where
  unfoldable pub set_id : Value → Mutation C → Mutation C
  set_id v m = record m { id = some v }

  unfoldable pub where_ : List (Predicate C) → Mutation C → Mutation C
  where_ ps m = record m { predicates = m.predicates ++ ps }

module _ {C : Type 0} (s : Schema C) where
  abbrev put : {A : Type 0} → C → A → (C → A) → C → A
  put c a f d = if same s c d then a else f d

  -- `SetTitle` and its siblings. A clearing from before stays in the set.
  unfoldable pub set_value : C → Value → Mutation C → Mutation C
  set_value c v m = record m { values = put c (some v) m.values }

  -- `Title`: the value and whether there is one.
  unfoldable pub value_of : C → Mutation C → Option Value
  value_of c m = m.values c

  -- `ClearExpiresAt` and its siblings. Only a number has an addition to forget.
  unfoldable pub clear_value : C → Mutation C → Mutation C
  clear_value c m = record m {
    values = put c none m.values;
    added = put c none m.added;
    cleared = put c true m.cleared;
  }

  unfoldable pub is_cleared : C → Mutation C → Bool
  is_cleared c m = m.cleared c

  -- `ResetExpiresAt` and its siblings. Only a column that can be NULL is ever in the set, and only a
  -- number has an addition.
  unfoldable pub reset_value : C → Mutation C → Mutation C
  reset_value c m = record m {
    values = put c none m.values;
    added = put c none m.added;
    cleared = put c false m.cleared;
  }

  -- `SetSize` and `AddSize`.
  unfoldable pub set_number : C → ℤ → Mutation C → Mutation C
  set_number c n m = record (set_value c (int n) m) { added = put c none m.added }

  abbrev plus : ℤ → Option ℤ → ℤ
  plus n none = n
  plus n (some k) = k +ℤ n

  unfoldable pub add_number : C → ℤ → Mutation C → Mutation C
  add_number c n m = record m { added = put c (some (plus n (m.added c))) m.added }

  unfoldable pub added_number : C → Mutation C → Option ℤ
  added_number c m = m.added c

  abbrev old_of : C → Option Value → Option (Result (Row C)) → Result Value
  old_of c (some _) (some (ok row)) = ok (row c)
  old_of c (some _) (some (err e)) = err e
  old_of c (some _) none = err missing_id
  old_of c none _ = err missing_id

  -- `OldTitle` and its siblings.
  unfoldable pub old_value_of : C → Mutation C → Result Value
  old_value_of c m = if is_update_one m.op then old_of c m.id m.old_value else err not_allowed

  abbrev pub is_set {ℓ} : {A : Type ℓ} → Option A → Bool
  is_set none = false
  is_set (some _) = true

  -- `Fields` and `ClearedFields`, in the order of the schema.
  unfoldable pub fields : Mutation C → List Text
  fields m = map s.name (keep (λ c. is_set (m.values c)) s.fields)

  unfoldable pub cleared_fields : Mutation C → List Text
  cleared_fields m = map s.name (keep m.cleared s.nullable)

  -- The column of a name.
  unfoldable pub named : List C → Text → Option C
  named cs name = find? (λ c. text_eq (s.name c) name) cs

  -- `Field`
  unfoldable pub field_value : Text → Mutation C → Option Value
  field_value name m = elim (named s.fields name) [ none ↦ none | some c ↦ m.values c ]

  -- `OldField`
  unfoldable pub old_field : Text → Mutation C → Result Value
  old_field name m = elim (named s.fields name) [
    | none ↦ err (unknown_field name)
    | some c ↦ old_value_of c m
  ]

  -- A number's setter forgets what was added to it.
  abbrev pub assign : C → Value → Mutation C → Mutation C
  assign c (int n) m = set_number c n m
  assign c (text t) m = set_value c (text t) m
  assign c (bool b) m = set_value c (bool b) m
  assign c null m = set_value c null m

  -- `SetField`
  unfoldable pub set_field : Text → Value → Mutation C → Result (Mutation C)
  set_field name v m = elim (named s.fields name) [
    | none ↦ err (unknown_field name)
    | some c ↦ if has_kind (s.kind c) v then ok (assign c v m) else err (unexpected_type name)
  ]

  abbrev is_number : C → Bool
  is_number c = has_kind (s.kind c) (int (pos 0))

  -- `AddedFields`, `AddedField` and `AddField`, for the columns that are numbers.
  unfoldable pub added_fields : Mutation C → List Text
  added_fields m = map s.name (keep (λ c. is_number c && is_set (m.added c)) s.fields)

  unfoldable pub added_field : Text → Mutation C → Option ℤ
  added_field name m = elim (named (keep is_number s.fields) name) [
    | none ↦ none
    | some c ↦ m.added c
  ]

  abbrev add_value : C → Text → Value → Mutation C → Result (Mutation C)
  add_value c name (int n) m = ok (add_number c n m)
  add_value c name _ m = err (unexpected_type name)

  unfoldable pub add_field : Text → Value → Mutation C → Result (Mutation C)
  add_field name v m = elim (named (keep is_number s.fields) name) [
    | none ↦ err (unknown_field name)
    | some c ↦ add_value c name v m
  ]

  -- `FieldCleared`, `ClearField` and `ResetField`
  unfoldable pub field_cleared : Text → Mutation C → Bool
  field_cleared name m = elim (named s.fields name) [ none ↦ false | some c ↦ m.cleared c ]

  unfoldable pub clear_field : Text → Mutation C → Result (Mutation C)
  clear_field name m = elim (named s.nullable name) [
    | none ↦ err (unknown_field name)
    | some c ↦ ok (clear_value c m)
  ]

  unfoldable pub reset_field : Text → Mutation C → Result (Mutation C)
  reset_field name m = elim (named s.fields name) [
    | none ↦ err (unknown_field name)
    | some c ↦ ok (reset_value c m)
  ]

-- The methods that mutation.go has for a field, for one that can be NULL and for a number.
pub record FieldMethods (C A : Type 0) : Type 0 where
  pub set : A → Mutation C → Mutation C
  pub get : Mutation C → Option Value
  pub old : Mutation C → Result Value
  pub reset : Mutation C → Mutation C

pub record NullableMethods (C B : Type 0) : Type 0 where
  pub methods : B
  pub clear : Mutation C → Mutation C
  pub was_cleared : Mutation C → Bool

pub record NumberMethods (C : Type 0) : Type 0 where
  pub methods : FieldMethods C ℤ
  pub add : ℤ → Mutation C → Mutation C
  pub get_added : Mutation C → Option ℤ

module _ {C : Type 0} (s : Schema C) (c : C) where
  abbrev pub field_methods : {A : Type 0} → (A → Value) → FieldMethods C A
  field_methods value = record {
    set = λ v. set_value s c (value v);
    get = value_of s c;
    old = old_value_of s c;
    reset = reset_value s c;
  }

  abbrev pub nullable_methods : {B : Type 0} → B → NullableMethods C B
  nullable_methods methods = record {
    methods = methods;
    clear = clear_value s c;
    was_cleared = is_cleared s c;
  }

  abbrev pub number_methods : NumberMethods C
  number_methods = record {
    methods = record {
      set = set_number s c;
      get = value_of s c;
      old = old_value_of s c;
      reset = reset_value s c;
    };
    add = add_number s c;
    get_added = added_number s c;
  }
