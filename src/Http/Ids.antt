-- ===== src/Http/Ids.antt =====
-- internal/storage/blobstore.go against internal/http/router.go: every generated name is accepted as
-- a route parameter.
use shareserver.Base.{ℕ, ◌%◌, ◌≡◌, true, arith}
use shareserver.Storage.{hex, hex_digit, uuid}
use shareserver.Http.Shares.{valid_uuid, hex_run, is_hex_byte}

hex_digit-IsHex : (n : ℕ) → is_hex_byte (hex_digit (n % 16)) ≡ true
hex_digit-IsHex n = ground arith

-- Every name that `UUID` makes, of whatever random bytes, is a valid id of a route, so a stored
-- Share can be reached under its own URL.
pub valid_uuid-uuid :
    (b0 b1 b2 b3 b4 b5 b6 b7 b8 b9 b10 b11 b12 b13 b14 b15 : ℕ)
    → valid_uuid (uuid b0 b1 b2 b3 b4 b5 b6 b7 b8 b9 b10 b11 b12 b13 b14 b15) ≡ true
unfolding valid_uuid uuid hex hex_run
valid_uuid-uuid b0 b1 b2 b3 b4 b5 b6 b7 b8 b9 b10 b11 b12 b13 b14 b15 = simp hex_digit-IsHex
