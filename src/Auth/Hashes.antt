-- ===== src/Auth/Hashes.antt =====
-- internal/auth/auth.go: the one accepted spelling of a password hash.
use shareserver.Base.{
  ◌<◌, ◌≡◌, ◌↔◌, inl, inr, true, some, Text, text_eq_iff, text_eq_refl, arith, length, All,
  Option-cases,
}
use mathlib.Core.Path.{subst}
use shareserver.Codec.{encode64, decode64}
use shareserver.Auth.{
  Crypto, IsSound, decode_password_hash, valid_password_hash, hash_password_hash,
  check_password_hash,
}
use shareserver.Codec.Base64.{AnswersBytes, decode64-encode64, decode64-AnswersBytes}

-- A text is accepted exactly if it is the standard Base64 encoding of 32 bytes: padding, stray low bits
-- and line ends in any other form are refused.
pub valid_password_hash_iff :
    (s : Text)
    → (valid_password_hash s ≡ true)
      ↔ ((digest : Text) × All (λ b. b < 256) digest × (length digest ≡ 32) × (s ≡ encode64 digest))
unfolding valid_password_hash decode_password_hash
valid_password_hash_iff s = (forth, back)
  where
    forth :
        valid_password_hash s ≡ true
        → (digest : Text) × All (λ b. b < 256) digest × (length digest ≡ 32) × (s ≡ encode64 digest)
    forth h = elim (Option-cases (decode64 s)) [
      | inl bad ↦ absurd (ground (arith, bad))
      | inr (d, good) ↦ (
        d,
        subst AnswersBytes good (decode64-AnswersBytes s),
        ground (arith, good),
        ground (arith, good, text_eq_iff (encode64 d) s),
      )
    ]

    back :
        (digest : Text) × All (λ b. b < 256) digest × (length digest ≡ 32) × (s ≡ encode64 digest)
        → valid_password_hash s ≡ true
    back (d, bytes, size, e) =
        rw e (ground (arith, size, decode64-encode64 d bytes, text_eq_refl (encode64 d)))

-- A hash that was stored for a password opens it again, with any salt, whatever the digest bytes.
pub check-hash_password_hash :
    (c : Crypto) (salt digest verifier : Text)
    → IsSound c
    → All (λ b. b < 256) digest
    → length digest ≡ 32
    → hash_password_hash c salt (encode64 digest) ≡ some verifier
    → check_password_hash c verifier (encode64 digest) ≡ true
unfolding hash_password_hash check_password_hash decode_password_hash
check-hash_password_hash c salt digest verifier sound bytes size h = ground (
  arith,
  decode64-encode64 digest bytes,
  text_eq_refl (encode64 digest),
  sound.accepts salt digest verifier,
)
