-- ===== src/Ent.antt =====
-- internal/ent: the generated database client. The code of the six tables is the same but for their
-- columns, so it stands here once, over a type of columns; a module for each table has its columns and
-- what the generated code says of them. The SQL builder entgo.io/ent/dialect/sql and the database are
-- parameters.
pub mod Predicate
pub mod Mutation
pub mod Create
pub mod Update
pub mod Query
pub mod Scan
pub mod Shares
pub mod Admins
pub mod AuditEvents
pub mod IpBans
pub mod LoginFailureEvents
pub mod Sessions
pub mod ShareRows
pub mod Queries
pub mod Queriers
pub mod Inserts
pub mod Checks
pub mod FieldLaws
pub mod Updates
pub mod Keyed
pub mod Tables
pub mod Gets
pub mod StoreQueries
pub mod Lists
pub mod Builders
pub mod Saves
use shareserver.Base.{ℕ, ℤ, Bool, true, false, Option, none, some, List, [], ◌∷◌, Text, ◌==◌}

-- What a column of a row holds, and what a field is set to.
pub data Value : Type 0 where
  null : Value
  text : Text → Value
  bool : Bool → Value
  int : ℤ → Value

-- The Go type that `SetField` asserts of a value.
pub data Kind : Type 0 where
  string_kind bool_kind int_kind : Kind

abbrev pub has_kind : Kind → Value → Bool
has_kind string_kind (text _) = true
has_kind bool_kind (bool _) = true
has_kind int_kind (int _) = true
has_kind _ _ = false

-- A Go operation's error.
pub data Failure : Type 0 where
  unknown_field : Text → Failure
  unexpected_type : Text → Failure
  missing_required : Text → Failure
  not_allowed : Failure
  missing_id : Failure
  not_found : Failure
  not_singular : Failure
  constraint : Failure
  driver : Failure

pub data Result {ℓ} (A : Type ℓ) : Type ℓ where
  ok : A → Result A
  err : Failure → Result A

infixl 5 ◌>>=◌
abbrev pub ◌>>=◌ : {A B : Type 0} → Result A → (A → Result B) → Result B
ok a >>= k = k a
err e >>= k = err e

-- What the generator has made of one table: its columns in order with their numbers and names, the
-- fields, which are the columns but `id`, their types, and which of them are nullable, required by
-- `check` and filled in by `defaults`.
pub record Schema (C : Type 0) : Type 0 where
  pub columns : List C
  pub index : C → ℕ
  pub name : C → Text
  pub fields : List C
  pub kind : C → Kind
  pub nullable : List C
  pub required : List C
  pub defaults : List (C × Value)

-- Two columns are the same when their numbers are.
abbrev pub same : {C : Type 0} → Schema C → C → C → Bool
same s c d = s.index c == s.index d

-- `FieldID`, the first column.
abbrev pub id_name : {C : Type 0} → Schema C → Text
id_name s = elim s.columns [ [] ↦ [] | c ∷ _ ↦ s.name c ]

-- A row, as the values of its columns.
abbrev pub Row : Type 0 → Type 0
Row C = C → Value
