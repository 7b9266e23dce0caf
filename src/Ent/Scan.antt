-- ===== src/Ent/Scan.antt =====
-- scanValues and assignValues of internal/ent/*.go: from what the database answers to a field.
use shareserver.Base.{ℤ, Bool, false, Option, none, some, [], Text, ◌≡◌}
use shareserver.Base.Int.{pos}
use shareserver.Ent.{
  Value, null, text, bool, int, Kind, string_kind, bool_kind, int_kind, unexpected_type, Result, ok,
  err, Schema, Row,
}

-- `sql.NullString`, `sql.NullBool` and `sql.NullInt64`
pub data Scanned : Type 0 where
  nullable_text : Option Text → Scanned
  nullable_bool : Option Bool → Scanned
  nullable_int : Option ℤ → Scanned

-- What Rows.Scan leaves in a variable of the kind.
abbrev pub Scanning : Type 0
Scanning = Kind → Value → Scanned

-- What the rows of the program rely on: NULL and a value of the variable's own type.
pub record IsScan (scan : Scanning) : Type 0 where
  pub null_text : scan string_kind null ≡ nullable_text none
  pub some_text : (t : Text) → scan string_kind (text t) ≡ nullable_text (some t)
  pub some_bool : (b : Bool) → scan bool_kind (bool b) ≡ nullable_bool (some b)
  pub null_int : scan int_kind null ≡ nullable_int none
  pub some_int : (n : ℤ) → scan int_kind (int n) ≡ nullable_int (some n)

-- The variables that `scanValues` sets up and Rows.Scan fills.
unfoldable pub scan_values : {C : Type 0} → Schema C → Scanning → Row C → C → Scanned
scan_values s scan row c = scan (s.kind c) (row c)

abbrev pub or_zero {ℓ} : {A : Type ℓ} → A → Option A → A
or_zero zero none = zero
or_zero zero (some a) = a

module _ {C : Type 0} (s : Schema C) (values : C → Scanned) (c : C) where
  -- The cases of `assignValues`: a pointer, and a plain field that NULL leaves at its zero value.
  abbrev pub text_pointer : Result (Option Text)
  text_pointer = elim (values c) [ nullable_text t ↦ ok t | _ ↦ err (unexpected_type (s.name c)) ]

  abbrev pub int_pointer : Result (Option ℤ)
  int_pointer = elim (values c) [ nullable_int n ↦ ok n | _ ↦ err (unexpected_type (s.name c)) ]

  abbrev pub text_field : Result Text
  text_field = elim (values c) [
    | nullable_text t ↦ ok (or_zero [] t)
    | _ ↦ err (unexpected_type (s.name c))
  ]

  abbrev pub bool_field : Result Bool
  bool_field = elim (values c) [
    | nullable_bool b ↦ ok (or_zero false b)
    | _ ↦ err (unexpected_type (s.name c))
  ]

  abbrev pub int_field : Result ℤ
  int_field = elim (values c) [
    | nullable_int n ↦ ok (or_zero (pos 0) n)
    | _ ↦ err (unexpected_type (s.name c))
  ]
