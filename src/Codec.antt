-- ===== src/Codec.antt =====
-- The encodings of Go's standard library that the program calls: base64.StdEncoding, strconv.Atoi and
-- decimal printing.
pub mod Base64
mod Tests
use shareserver.Base.{
  ℕ, zero, suc, ◌+◌, ◌-◌, ◌*◌, ◌/◌, ◌%◌, ◌^◌, ℤ, Bool, true, false, ◌&&◌, ◌||◌, not, Option, none,
  some, List, [], ◌∷◌, ◌++◌, Text, ltb, leb, ◌==◌, if◌then◌else◌, all,
}
use shareserver.Base.Int.{pos, negsuc}

abbrev pub encode_sextet : ℕ → ℕ
encode_sextet n =
    if ltb n 26
    then b'A' + n
    else if ltb n 52
    then b'a' + (n - 26)
    else if ltb n 62
    then b'0' + (n - 52)
    else if n == 62
    then b'+'
    else b'/'

abbrev pub decode_sextet : ℕ → Option ℕ
decode_sextet c =
    if leb b'A' c && leb c b'Z'
    then some (c - b'A')
    else if leb b'a' c && leb c b'z'
    then some (c - b'a' + 26)
    else if leb b'0' c && leb c b'9'
    then some (c - b'0' + 52)
    else if c == b'+'
    then some 62
    else if c == b'/'
    then some 63
    else none

-- `base64.StdEncoding.EncodeToString`
unfoldable pub encode64 : Text → Text
encode64 [] = []
encode64 (a ∷ []) = encode_sextet (a / 4) ∷ encode_sextet (a % 4 * 16) ∷ b'=' ∷ b'=' ∷ []
encode64 (a ∷ b ∷ []) =
    encode_sextet (a / 4)
    ∷ encode_sextet (a % 4 * 16 + b / 16)
    ∷ encode_sextet (b % 16 * 4)
    ∷ b'='
    ∷ []
encode64 (a ∷ b ∷ c ∷ s) =
    encode_sextet (a / 4)
    ∷ encode_sextet (a % 4 * 16 + b / 16)
    ∷ encode_sextet (b % 16 * 4 + c / 64)
    ∷ encode_sextet (c % 64)
    ∷ encode64 s

infixl 5 ◌>>=◌
abbrev pub ◌>>=◌ {ℓ κ} : {A : Type ℓ} {B : Type κ} → Option A → (A → Option B) → Option B
none >>= f = none
some a >>= f = f a

-- Four characters, and whether they are the last: padding stands only there, and stray low bits
-- are dropped.
abbrev pub decode_quad : ℕ → ℕ → ℕ → ℕ → Bool → Option Text
decode_quad p q r s is_last = do
  a ← decode_sextet p
  b ← decode_sextet q
  elim (r == b'=' && s == b'=' && is_last) [
    | true ↦ some ((a * 4 + b / 16) ∷ [])
    | false ↦ do
      c ← decode_sextet r
      elim (s == b'=' && is_last) [
        | true ↦ some ((a * 4 + b / 16) ∷ (b % 16 * 16 + c / 4) ∷ [])
        | false ↦ do
          d ← decode_sextet s
          some ((a * 4 + b / 16) ∷ (b % 16 * 16 + c / 4) ∷ (c % 4 * 64 + d) ∷ [])
      ]
  ]

abbrev pub is_nil : Text → Bool
is_nil [] = true
is_nil (_ ∷ _) = false

unfoldable pub decode_quads : Text → Option Text
decode_quads [] = some []
decode_quads (p ∷ q ∷ r ∷ s ∷ rest) = do
  bytes ← decode_quad p q r s (is_nil rest)
  more ← decode_quads rest
  some (bytes ++ more)
decode_quads _ = none

unfoldable pub drop_newlines : Text → Text
drop_newlines [] = []
drop_newlines (c ∷ s) = if c == 10 || c == 13 then drop_newlines s else c ∷ drop_newlines s

-- `base64.StdEncoding.DecodeString`
unfoldable pub decode64 : Text → Option Text
unfolding decode_quads drop_newlines
decode64 s = decode_quads (drop_newlines s)

digits_value : ℕ → Text → ℕ
digits_value n [] = n
digits_value n (c ∷ s) = digits_value (10 * n + (c - b'0')) s

abbrev all_digits : Text → Bool
all_digits [] = false
all_digits (c ∷ s) = all (λ d. leb b'0' d && leb d b'9') (c ∷ s)

-- A sign-free decimal, held within int64, and whether it was in range.
abbrev positive : Text → ℤ × Bool
positive s =
    let n = digits_value 0 s in
    if not (all_digits s)
    then (pos 0, false)
    else if ltb n (2 ^ 63)
    then (pos n, true)
    else (pos (2 ^ 63 - 1), false)

abbrev negative : Text → ℤ × Bool
negative s =
    let n = digits_value 0 s in
    if not (all_digits s)
    then (pos 0, false)
    else if n == 0
    then (pos 0, true)
    else if leb n (2 ^ 63)
    then (negsuc (n - 1), true)
    else (negsuc (2 ^ 63 - 1), false)

-- `strconv.Atoi`: the number, and whether there was no error. On a range error the number is the
-- nearest int, on a syntax error 0.
unfoldable pub atoi : Text → ℤ × Bool
unfolding digits_value
atoi [] = (pos 0, false)
atoi (c ∷ s) = if c == b'-' then negative s else if c == b'+' then positive s else positive (c ∷ s)

-- Digits from the lowest up, in front of `acc`; one round for each digit.
decimal_from : ℕ → ℕ → Text → Text
decimal_from zero n acc = acc
decimal_from (suc fuel) n acc =
    let longer = decimal_from fuel (n / 10) ((b'0' + n % 10) ∷ acc) in
    if ltb n 10 then (b'0' + n % 10) ∷ acc else longer

-- `strconv.FormatInt` of a number that is not negative.
unfoldable pub decimal : ℕ → Text
unfolding decimal_from
decimal n = decimal_from (n + 1) n []
