-- ===== src/Codec/Tests.antt =====
-- Encodings at known inputs.
use shareserver.Base.{◌≡◌, refl, some, none, true, false, codes}
use shareserver.Base.Int.{pos, negsuc}
use shareserver.Codec.{encode64, decode64, atoi, decimal}

base64_tests :
    (encode64 (codes "Many h") ≡ codes "TWFueSBo")
    × (encode64 (codes "Man") ≡ codes "TWFu")
    × (encode64 (codes "Ma") ≡ codes "TWE=")
    × (decode64 (codes "TWE=") ≡ some (codes "Ma"))
    × (decode64 (codes "TWF=") ≡ some (codes "Ma"))
    × (decode64 (codes "TQ==TQ==") ≡ none)
    × (decode64 (codes "TWF") ≡ none)
unfolding encode64 decode64
base64_tests = (refl, refl, refl, refl, refl, refl, refl)

decimal_tests : (decimal 0 ≡ codes "0") × (decimal 90061 ≡ codes "90061")
unfolding decimal
decimal_tests = (refl, refl)

atoi_tests :
    (atoi (codes "-12") ≡ (negsuc 11, true))
    × (atoi (codes "+7") ≡ (pos 7, true))
    × (atoi (codes "7h") ≡ (pos 0, false))
    × (atoi (codes "99999999999999999999") ≡ (pos 9223372036854775807, false))
unfolding atoi
atoi_tests = (refl, refl, refl, refl)
