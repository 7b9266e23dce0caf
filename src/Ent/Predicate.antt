-- ===== src/Ent/Predicate.antt =====
-- internal/ent/*/where.go: the predicates of a query, and what they select under SQL.
use shareserver.Base.{Bool, true, false, not, List, [], ◌∷◌, map, Text, ◌≡◌, text_eq, text_lt}
use shareserver.Ent.{Value, null, text, bool, int, Row}

-- The comparisons of dialect/sql.
pub data Comparison : Type 0 where
  eq neq gt gte lt lte contains has_prefix has_suffix equal_fold contains_fold : Comparison

mutual
  pub data Predicate (C : Type 0) : Type 0 where
    field : Comparison → C → Value → Predicate C
    field_in field_not_in : C → List Value → Predicate C
    field_is_null field_not_null : C → Predicate C
    and_predicates or_predicates : Predicates C → Predicate C
    not_predicates : Predicate C → Predicate C

  pub data Predicates (C : Type 0) : Type 0 where
    no_more : Predicates C
    also : Predicate C → Predicates C → Predicates C

-- The three values of an SQL condition.
pub data Truth : Type 0 where
  yes no unknown : Truth

abbrev pub truth : Bool → Truth
truth true = yes
truth false = no

abbrev pub both : Truth → Truth → Truth
both no _ = no
both yes t = t
both unknown no = no
both unknown _ = unknown

abbrev pub either : Truth → Truth → Truth
either yes _ = yes
either no t = t
either unknown yes = yes
either unknown _ = unknown

abbrev pub negated : Truth → Truth
negated yes = no
negated no = yes
negated unknown = unknown

-- A row is selected where the condition is neither false nor unknown.
abbrev pub is_yes : Truth → Bool
is_yes yes = true
is_yes no = false
is_yes unknown = false

-- How the database compares two values that are not NULL.
abbrev pub Comparing : Type 0
Comparing = Comparison → Value → Value → Bool

-- What the queries of the program rely on: SQLite's equality and the order of its BINARY collation.
pub record IsBinary (test : Comparing) : Type 0 where
  pub eq_text : (s t : Text) → test eq (text s) (text t) ≡ text_eq s t
  pub eq_true : (b : Bool) → test eq (bool b) (bool true) ≡ b
  pub eq_false : (b : Bool) → test eq (bool b) (bool false) ≡ not b
  pub gt_text : (s t : Text) → test gt (text s) (text t) ≡ text_lt t s
  pub lte_text : (s t : Text) → test lte (text s) (text t) ≡ not (text_lt t s)

-- A comparison with NULL is unknown.
abbrev pub compared : Comparing → Comparison → Value → Value → Truth
compared test op null _ = unknown
compared test op (text s) v = truth (test op (text s) v)
compared test op (bool b) v = truth (test op (bool b) v)
compared test op (int n) v = truth (test op (int n) v)

abbrev pub is_null : Value → Bool
is_null null = true
is_null (text _) = false
is_null (bool _) = false
is_null (int _) = false

abbrev pub one_of : Comparing → Value → List Value → Truth
one_of test v [] = no
one_of test v (x ∷ xs) = either (compared test eq v x) (one_of test v xs)

module _ {C : Type 0} (test : Comparing) (row : Row C) where
  unfoldable mutual
    pub evaluate : Predicate C → Truth
    evaluate (field op c v) = compared test op (row c) v
    evaluate (field_in c vs) = one_of test (row c) vs
    evaluate (field_not_in c vs) = negated (one_of test (row c) vs)
    evaluate (field_is_null c) = truth (is_null (row c))
    evaluate (field_not_null c) = truth (not (is_null (row c)))
    evaluate (and_predicates ps) = evaluate_and ps
    evaluate (or_predicates ps) = evaluate_or ps
    evaluate (not_predicates p) = negated (evaluate p)

    pub evaluate_and : Predicates C → Truth
    evaluate_and no_more = yes
    evaluate_and (also p ps) = both (evaluate p) (evaluate_and ps)

    pub evaluate_or : Predicates C → Truth
    evaluate_or no_more = no
    evaluate_or (also p ps) = either (evaluate p) (evaluate_or ps)

  -- The predicates of one `Where` are joined by AND.
  unfoldable pub selects : List (Predicate C) → Bool
  selects [] = true
  selects (p ∷ ps) = elim (is_yes (evaluate p)) [ true ↦ selects ps | false ↦ false ]

-- The blocks of predicates that where.go has for a column: ordered ones, those of texts, and those of
-- columns that can be NULL.
pub record OrderPredicates (C A : Type 0) : Type 0 where
  pub eq : A → Predicate C
  pub neq : A → Predicate C
  pub is_in : List A → Predicate C
  pub not_in : List A → Predicate C
  pub gt : A → Predicate C
  pub gte : A → Predicate C
  pub lt : A → Predicate C
  pub lte : A → Predicate C

pub record TextPredicates (C : Type 0) : Type 0 where
  pub order : OrderPredicates C Text
  pub contains : Text → Predicate C
  pub has_prefix : Text → Predicate C
  pub has_suffix : Text → Predicate C
  pub equal_fold : Text → Predicate C
  pub contains_fold : Text → Predicate C

pub record NullablePredicates (C B : Type 0) : Type 0 where
  pub values : B
  pub is_nil : Predicate C
  pub not_nil : Predicate C

pub record BoolPredicates (C : Type 0) : Type 0 where
  pub eq : Bool → Predicate C
  pub neq : Bool → Predicate C

-- The block of an `id` column that is a text has no substring tests.
pub record IdPredicates (C : Type 0) : Type 0 where
  pub order : OrderPredicates C Text
  pub equal_fold : Text → Predicate C
  pub contains_fold : Text → Predicate C

module _ {C : Type 0} (c : C) where
  abbrev pub order_predicates : {A : Type 0} → (A → Value) → OrderPredicates C A
  order_predicates value = record {
    eq = λ v. field eq c (value v);
    neq = λ v. field neq c (value v);
    is_in = λ vs. field_in c (map value vs);
    not_in = λ vs. field_not_in c (map value vs);
    gt = λ v. field gt c (value v);
    gte = λ v. field gte c (value v);
    lt = λ v. field lt c (value v);
    lte = λ v. field lte c (value v);
  }

  abbrev pub text_predicates : TextPredicates C
  text_predicates = record {
    order = order_predicates text;
    contains = λ v. field contains c (text v);
    has_prefix = λ v. field has_prefix c (text v);
    has_suffix = λ v. field has_suffix c (text v);
    equal_fold = λ v. field equal_fold c (text v);
    contains_fold = λ v. field contains_fold c (text v);
  }

  abbrev pub text_id_predicates : IdPredicates C
  text_id_predicates = record {
    order = order_predicates text;
    equal_fold = λ v. field equal_fold c (text v);
    contains_fold = λ v. field contains_fold c (text v);
  }

  abbrev pub bool_predicates : BoolPredicates C
  bool_predicates = record { eq = λ b. field eq c (bool b); neq = λ b. field neq c (bool b) }

  abbrev pub nullable_predicates : {B : Type 0} → B → NullablePredicates C B
  nullable_predicates values = record {
    values = values;
    is_nil = field_is_null c;
    not_nil = field_not_null c;
  }
