-- ===== src/Codec/Base64.antt =====
-- Decoding gives back what was encoded.
use shareserver.Base.{
  Option, none, ◌&&◌, Bool-cases, Option-cases, inl, inr, ◌++◌, ℕ, ◌+◌, ◌*◌, ◌/◌, ◌%◌, ◌<◌, ◌≡◌,
  refl, Bool, true, false, ◌||◌, some, [], ◌∷◌, Text, arith, All, ◌==◌,
}
use shareserver.Codec.{
  encode64, decode64, encode_sextet, decode_sextet, decode_quad, decode_quads, drop_newlines,
  is_nil, ◌>>=◌,
}

decode-encode_sextet : (n : ℕ) → n < 64 → decode_sextet (encode_sextet n) ≡ some n
decode-encode_sextet n h = ground arith

encode_sextet-plain : (n : ℕ) → n < 64 → (encode_sextet n == b'=') ≡ false
encode_sextet-plain n h = ground arith

encode_sextet-kept : (n : ℕ) → n < 64 → (encode_sextet n == 10 || encode_sextet n == 13) ≡ false
encode_sextet-kept n h = ground arith

drop_newlines-encode64 : (s : Text) → All (λ b. b < 256) s → drop_newlines (encode64 s) ≡ encode64 s
unfolding drop_newlines encode64
drop_newlines-encode64 [] h = refl
drop_newlines-encode64 (a ∷ []) h =
    rw (encode_sextet-kept (a / 4) (omega arith), encode_sextet-kept (a % 4 * 16) (omega arith))
      refl
drop_newlines-encode64 (a ∷ b ∷ []) h =
    rw
      (
        encode_sextet-kept (a / 4) (omega arith),
        encode_sextet-kept (a % 4 * 16 + b / 16) (omega arith),
        encode_sextet-kept (b % 16 * 4) (omega arith),
      )
      refl
drop_newlines-encode64 (a ∷ b ∷ c ∷ s) h =
    rw
      (
        encode_sextet-kept (a / 4) (omega arith),
        encode_sextet-kept (a % 4 * 16 + b / 16) (omega arith),
        encode_sextet-kept (b % 16 * 4 + c / 64) (omega arith),
        encode_sextet-kept (c % 64) (omega arith),
        drop_newlines-encode64 s h.1.1.1,
      )
      refl

decode_quad_full :
    (x y z t : ℕ) (is_last : Bool)
    → x < 64
    → y < 64
    → z < 64
    → t < 64
    → decode_quad (encode_sextet x) (encode_sextet y) (encode_sextet z) (encode_sextet t) is_last
      ≡ some ((x * 4 + y / 16) ∷ (y % 16 * 16 + z / 4) ∷ (z % 4 * 64 + t) ∷ [])
decode_quad_full x y z t l hx hy hz ht = rw (
  decode-encode_sextet x hx,
  decode-encode_sextet y hy,
  encode_sextet-plain z hz,
  decode-encode_sextet z hz,
  encode_sextet-plain t ht,
  decode-encode_sextet t ht,
)

decode_quad_two :
    (x y z : ℕ)
    → x < 64
    → y < 64
    → z < 64
    → decode_quad (encode_sextet x) (encode_sextet y) (encode_sextet z) b'=' true
      ≡ some ((x * 4 + y / 16) ∷ (y % 16 * 16 + z / 4) ∷ [])
decode_quad_two x y z hx hy hz = rw (
  decode-encode_sextet x hx,
  decode-encode_sextet y hy,
  encode_sextet-plain z hz,
  decode-encode_sextet z hz,
)

decode_quads-encode64 : (s : Text) → All (λ b. b < 256) s → decode_quads (encode64 s) ≡ some s
unfolding decode_quads encode64
decode_quads-encode64 [] h = refl
decode_quads-encode64 (a ∷ []) h =
    rw (decode-encode_sextet (a / 4) (omega arith), decode-encode_sextet (a % 4 * 16) (omega arith))
      (ground arith)
decode_quads-encode64 (a ∷ b ∷ []) h =
    rw
      (decode_quad_two (a / 4) (a % 4 * 16 + b / 16) (b % 16 * 4) (omega arith) (omega arith)
        (omega arith))
      (ground arith)
decode_quads-encode64 (a ∷ b ∷ c ∷ s) h =
    rw
      (
        decode_quad_full (a / 4) (a % 4 * 16 + b / 16) (b % 16 * 4 + c / 64) (c % 64) _
            (omega arith) (omega arith) (omega arith) (omega arith),
        decode_quads-encode64 s h.1.1.1,
      )
      (ground arith)

pub decode64-encode64 : (s : Text) → All (λ b. b < 256) s → decode64 (encode64 s) ≡ some s
unfolding decode64
decode64-encode64 s h = rw (drop_newlines-encode64 s h) (decode_quads-encode64 s h)

abbrev pub AreBytes : Text → Type 0
AreBytes s = All (λ b. b < 256) s

decode_sextet-lt : (c n : ℕ) → decode_sextet c ≡ some n → n < 64
decode_sextet-lt c n h = ground (arith, h)

AreBytes-append : (s t : Text) → AreBytes s → AreBytes t → AreBytes (s ++ t)
AreBytes-append [] t a b = b
AreBytes-append (c ∷ s) t a b = (a.0, AreBytes-append s t a.1 b)

-- Of an answer, where there is one.
abbrev pub AnswersBytes : Option Text → Type 0
AnswersBytes none = Unit
AnswersBytes (some s) = AreBytes s

decode_quad-AnswersBytes : (p q r s : ℕ) (last : Bool) → AnswersBytes (decode_quad p q r s last)
decode_quad-AnswersBytes p q r s last = elim (Option-cases (decode_sextet p)) [
  | inl n ↦ rw n tt
  | inr (a, ea) ↦ elim (Option-cases (decode_sextet q)) [
    | inl n ↦ rw (ea, n) tt
    | inr (b, eb) ↦ elim (Bool-cases (r == b'=' && s == b'=' && last)) [
      | inl short ↦
          rw (ea, eb, short) (omega (arith, decode_sextet-lt p a ea, decode_sextet-lt q b eb), tt)
      | inr long ↦ elim (Option-cases (decode_sextet r)) [
        | inl n ↦ rw (ea, eb, long, n) tt
        | inr (c, ec) ↦ elim (Bool-cases (s == b'=' && last)) [
          | inl two ↦
              rw (ea, eb, long, ec, two)
                (
                  omega (arith, decode_sextet-lt p a ea, decode_sextet-lt q b eb),
                  (omega (arith, decode_sextet-lt q b eb, decode_sextet-lt r c ec), tt),
                )
          | inr full ↦ elim (Option-cases (decode_sextet s)) [
            | inl n ↦ rw (ea, eb, long, ec, full, n) tt
            | inr (d, ed) ↦
                rw (ea, eb, long, ec, full, ed)
                  (
                    omega (arith, decode_sextet-lt p a ea, decode_sextet-lt q b eb),
                    (
                      omega (arith, decode_sextet-lt q b eb, decode_sextet-lt r c ec),
                      (omega (arith, decode_sextet-lt r c ec, decode_sextet-lt s d ed), tt),
                    ),
                  )
          ]
        ]
      ]
    ]
  ]
]

decode_quads-AnswersBytes : (s : Text) → AnswersBytes (decode_quads s)
unfolding decode_quads
decode_quads-AnswersBytes [] = tt
decode_quads-AnswersBytes (_ ∷ []) = tt
decode_quads-AnswersBytes (_ ∷ _ ∷ []) = tt
decode_quads-AnswersBytes (_ ∷ _ ∷ _ ∷ []) = tt
decode_quads-AnswersBytes (p ∷ q ∷ r ∷ s ∷ rest) =
    joined (decode_quad p q r s (is_nil rest)) (decode_quads rest)
      (decode_quad-AnswersBytes p q r s (is_nil rest)) (decode_quads-AnswersBytes rest)
  where
    joined :
        (o more : Option Text)
        → AnswersBytes o
        → AnswersBytes more
        → AnswersBytes (o >>= λ bytes. more >>= λ m. some (bytes ++ m))
    joined none more a b = tt
    joined (some bytes) none a b = tt
    joined (some bytes) (some m) a b = AreBytes-append bytes m a b

-- Only bytes are decoded.
pub decode64-AnswersBytes : (s : Text) → AnswersBytes (decode64 s)
unfolding decode64
decode64-AnswersBytes s = decode_quads-AnswersBytes (drop_newlines s)
