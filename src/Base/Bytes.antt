-- ===== src/Base/Bytes.antt =====
-- Go strings: lists of bytes, compared whole, by prefix, and in the byte order of SQLite.
use Prim.Native.Char.{code}
use Prim.Native.String.{String}
use Prim.Native.Nat.{ℕ, ◌+◌}
use mathlib.Core.Path.{◌≡◌, refl}
use mathlib.Core.Logic.{◌↔◌, ◌⊎◌}
use mathlib.Core.Bool.{Bool, true, false, ◌&&◌, ◌||◌}
use mathlib.Core.List.{List, [], ◌∷◌, reverse}
use mathlib.Core.Option.{Option, none, some}
use native.Mathlib.Omega.{arith}
use shareserver.Base.Tests.{ltb, leb, ◌==◌, if◌then◌else◌}

abbrev pub Text : Type 0
Text = List ℕ

-- The bytes of an ASCII literal.
abbrev pub codes : String → Text
codes String.[] = []
codes (String.◌∷◌ c s) = code c ∷ codes s

unfoldable pub text_eq : Text → Text → Bool
text_eq [] [] = true
text_eq [] (_ ∷ _) = false
text_eq (_ ∷ _) [] = false
text_eq (a ∷ s) (b ∷ t) = a == b && text_eq s t

pub text_eq_iff : (s t : Text) → (text_eq s t ≡ true) ↔ (s ≡ t)
unfolding text_eq
text_eq_iff [] [] = ground arith
text_eq_iff [] (_ ∷ _) = ground arith
text_eq_iff (_ ∷ _) [] = ground arith
text_eq_iff (a ∷ s) (b ∷ t) = ground (arith, text_eq_iff s t)

pub text_eq_refl : (s : Text) → text_eq s s ≡ true
text_eq_refl s = (text_eq_iff s s).1 refl

-- The order of `memcmp`, which SQLite's BINARY collation gives to TEXT columns.
unfoldable pub text_lt : Text → Text → Bool
text_lt [] [] = false
text_lt [] (_ ∷ _) = true
text_lt (_ ∷ _) [] = false
text_lt (a ∷ s) (b ∷ t) = ltb a b || (a == b && text_lt s t)

-- `strings.HasPrefix(t, s)`, the prefix first.
unfoldable pub has_prefix : Text → Text → Bool
has_prefix [] t = true
has_prefix (_ ∷ _) [] = false
has_prefix (a ∷ s) (b ∷ t) = a == b && has_prefix s t

abbrev pub is_empty : Text → Bool
is_empty [] = true
is_empty (_ ∷ _) = false

-- `strings.ToLower`, on the ASCII letters.
abbrev pub lower_byte : ℕ → ℕ
lower_byte c = if leb b'A' c && leb c b'Z' then c + 32 else c

unfoldable pub to_lower : Text → Text
to_lower [] = []
to_lower (c ∷ s) = lower_byte c ∷ to_lower s

unfoldable pub trim_left : (ℕ → Bool) → Text → Text
trim_left p [] = []
trim_left p (c ∷ s) = if p c then trim_left p s else c ∷ s

unfoldable pub trim : (ℕ → Bool) → Text → Text
unfolding trim_left
trim p s = reverse (trim_left p (reverse (trim_left p s)))

-- The white space of `strings.TrimSpace` by the length of its UTF-8 encoding.
abbrev is_space_1 : ℕ → Bool
is_space_1 a = a == b' ' || (leb 9 a && leb a 13)

-- U+0085 and U+00A0.
abbrev is_space_2 : ℕ → ℕ → Bool
is_space_2 a b = a == 0xc2 && (b == 0x85 || b == 0xa0)

-- U+1680, U+2000 to U+200A, U+2028, U+2029, U+202F, U+205F and U+3000.
abbrev is_space_3 : ℕ → ℕ → ℕ → Bool
is_space_3 a b c =
    (a == 0xe1 && b == 0x9a && c == 0x80)
    || (a == 0xe2 && b == 0x80 && (leb 0x80 c && leb c 0x8a || c == 0xa8 || c == 0xa9 || c == 0xaf))
    || (a == 0xe2 && b == 0x81 && c == 0x9f)
    || (a == 0xe3 && b == 0x80 && c == 0x80)

-- Without the white space at the start, of a text or, where `back`, of a text read backwards.
unfoldable trim_start : Bool → Text → Text
trim_start back [] = []
trim_start back (a ∷ []) = if is_space_1 a then [] else a ∷ []
trim_start back (a ∷ b ∷ []) = elim (is_space_1 a) [
  | true ↦ trim_start back (b ∷ [])
  | false ↦ if (if back then is_space_2 b a else is_space_2 a b) then [] else a ∷ b ∷ []
]
trim_start back (a ∷ b ∷ c ∷ s) = elim (is_space_1 a) [
  | true ↦ trim_start back (b ∷ c ∷ s)
  | false ↦ elim (if back then is_space_2 b a else is_space_2 a b) [
    | true ↦ trim_start back (c ∷ s)
    | false ↦ elim (if back then is_space_3 c b a else is_space_3 a b c) [
      | true ↦ trim_start back s
      | false ↦ a ∷ b ∷ c ∷ s
    ]
  ]
]

unfoldable pub trim_space : Text → Text
unfolding trim_start
trim_space s = reverse (trim_start true (reverse (trim_start false s)))

-- `strings.Cut(s, sep)` at one byte: what stands before it and after it.
unfoldable pub cut : ℕ → Text → Option (Text × Text)
cut sep [] = none
cut sep (c ∷ s) =
    if c == sep
    then some ([], s)
    else elim (cut sep s) [ none ↦ none | some (a, b) ↦ some (c ∷ a, b) ]

text_lt-trichotomy : (s t : Text) → (text_lt s t ≡ true) ⊎ (s ≡ t) ⊎ (text_lt t s ≡ true)
unfolding text_lt
text_lt-trichotomy [] [] = ground arith
text_lt-trichotomy [] (_ ∷ _) = ground arith
text_lt-trichotomy (_ ∷ _) [] = ground arith
text_lt-trichotomy (a ∷ s) (b ∷ t) = ground (arith, text_lt-trichotomy s t)
