-- ===== src/Auth/Login.antt =====
-- internal/auth/auth.go: when an admin login is let through.
use shareserver.Base.{ℕ, ◌≡◌, inl, inr, true, false, some, Text, arith, Bool-cases, Option-cases}
use shareserver.World.{World, AdminRow, Result, ok, err, fault}
use shareserver.World.Db.{only_admin, get_ban}
use shareserver.Auth.{
  Crypto, success, admin_login, is_banned, check_password_hash, reset_failures, checked,
}

checked-row :
    (c : Crypto) (p : Text) (r : Result AdminRow) (a : AdminRow) → checked c p r ≡ some a → r ≡ ok a
checked-row c p (ok b) a h = ground arith
checked-row c p (err e) a h = cc

checked-hash :
    (c : Crypto) (p : Text) (r : Result AdminRow) (a : AdminRow)
    → checked c p r ≡ some a
    → check_password_hash c a.password_hash p ≡ true
checked-hash c p (ok b) a h = ground arith
checked-hash c p (err e) a h = cc

-- A login succeeds only for an address with no ban, for the one account of that name, and with a
-- password hash that its verifier accepts; it is then that account's login, and the failures of the
-- address are reset.
pub admin_login-success :
    (c : Crypto) (ip username password_hash : Text) (now jitter : ℕ) (w : World)
    → (admin_login c ip username password_hash now jitter w).0.status ≡ success
    → let w1 = (is_banned ip now w).1 in
      let w2 = (only_admin username w1).1 in
      ((is_banned ip now w).0 ≡ false)
      × ((a : AdminRow) × ((only_admin username w1).0 ≡ ok a)
          × (check_password_hash c a.password_hash password_hash ≡ true)
          × ((admin_login c ip username password_hash now jitter w).0.admin_id ≡ a.id)
          × ((admin_login c ip username password_hash now jitter w).1 ≡ (reset_failures ip w2).1))
unfolding admin_login
admin_login-success c ip u p now j w h = elim (Bool-cases (is_banned ip now w).0) [
  | inl out ↦ absurd (ground arith)
  | inr free ↦ elim (Option-cases (checked c p (only_admin u (is_banned ip now w).1).0)) [
    | inl bad ↦ absurd (ground arith)
    | inr (a, good) ↦ (
      free,
      (
        a,
        checked-row c p _ a good,
        checked-hash c p _ a good,
        ground (arith, free, good),
        ground (arith, free, good),
      ),
    )
  ]
]

-- A database error at the ban makes the login fail closed.
pub is_banned-fault :
    (ip : Text) (now : ℕ) (w : World) → (fault w).0 ≡ true → (is_banned ip now w).0 ≡ true
unfolding is_banned get_ban
is_banned-fault ip now w h = ground arith
