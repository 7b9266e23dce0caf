-- ===== src/Upload/Expiry.antt =====
-- internal/upload/upload.go: the lifetime that a request is given.
use shareserver.Base.{ℕ, ◌≤◌, ◌*◌, Bool, true, false, Text, arith, if◌then◌else◌}
use shareserver.Base.Int.{ℤ, pos, negsuc}
use shareserver.Codec.{atoi}
use shareserver.Upload.{expiry_hours, clamp_hours}

abbrev pub most_hours : Bool → ℕ
most_hours admin = if admin then 24 * 90 else 24

-- Whatever text a client sends, a Share lives at least one hour, and at most a day, or 90 days for
-- an administrator.
pub expiry_hours_bounds :
    (admin : Bool) (s : Text)
    → (1 ≤ expiry_hours admin s) × (expiry_hours admin s ≤ most_hours admin)
unfolding expiry_hours
expiry_hours_bounds admin s = clamp_bounds (atoi s).0 admin
  where
    clamp_bounds :
        (z : ℤ) (a : Bool)
        → (1 ≤ clamp_hours z (if a then 24 * 90 else 24))
          × (clamp_hours z (if a then 24 * 90 else 24) ≤ most_hours a)
    clamp_bounds (pos n) true = ground arith
    clamp_bounds (pos n) false = ground arith
    clamp_bounds (negsuc n) true = ground arith
    clamp_bounds (negsuc n) false = ground arith
