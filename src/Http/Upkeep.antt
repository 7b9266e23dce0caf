-- ===== src/Http/Upkeep.antt =====
-- internal/http/cleanup.go: what the clean-up at the start and at each midnight leaves.
use shareserver.Base.{ℕ, ◌≡◌, refl, Bool, true, ◌&&◌, not, List, [], ◌∷◌, Text, arith, all, ap, ◌∙◌}
use shareserver.World.{World, ShareRow, fault}
use shareserver.World.Db.{delete_sessions}
use shareserver.Storage.Integrity.{clear_staging, purge_unprotected, reconcile, purge}
use shareserver.Storage.Removal.{purge-all}
use shareserver.Storage.Purged.{is_due, purge-exact}
use shareserver.Storage.Fit.{
  is_open, Holds, purge_unprotected-exact, purge-quiet, reconcile-Holds, all-discard_own,
}
use shareserver.Http.Sessions.{clean_expired_sessions}
use shareserver.Http.Cleanup.{start_cleanup, nightly_cleanup}

-- A row that is encrypted, has a verifier, and is not due at `now`.
abbrev pub is_fit : ℕ → ShareRow → Bool
is_fit now row = not (is_open row) && not (is_due now row)

clear_staging-quiet : (dir : Text) (w : World) → w.faults ≡ [] → (clear_staging dir w).1.faults ≡ []
unfolding clear_staging fault
clear_staging-quiet dir w f = ground (arith, f)

all-and :
    (p q : ShareRow → Bool) (l : List ShareRow)
    → all p l ≡ true
    → all q l ≡ true
    → all (λ r. p r && q r) l ≡ true
all-and p q [] a b = refl
all-and p q (x ∷ l) a b = ground (arith, all-and p q l)

-- The three repairs in their order.
abbrev repaired : Text → ℕ → World → World
repaired dir now w = (purge now (reconcile dir (purge_unprotected w).1).1).1

-- No row is open or due, and no call is to fail.
abbrev IsRepaired : ℕ → World → Type 0
IsRepaired now w = (all (is_fit now) w.shares ≡ true) × (w.faults ≡ [])

repaired-IsRepaired :
    (dir : Text) (now : ℕ) (w : World) → w.faults ≡ [] → IsRepaired now (repaired dir now w)
repaired-IsRepaired dir now w f =
    let closed : ShareRow → Bool = λ r. not (is_open r) in
    let w1 = (purge_unprotected w).1 in
    let e = purge_unprotected-exact w f in
    let h1 : Holds closed w1 = (ap (all closed) e.0 ∙ all-discard_own is_open w.shares, e.1) in
    let w2 = (reconcile dir w1).1 in
    let h2 = reconcile-Holds closed dir w1 h1 in
    let late =
      ap (all (λ r. not (is_due now r))) (purge-exact now w2 h2.1).1
      ∙ all-discard_own (is_due now) w2.shares in
    let both =
      all-and closed (λ r. not (is_due now r)) (repaired dir now w).shares
        (purge-all closed now w2 h2.0) late in
    (both, purge-quiet now w2 h2.1)

clean_expired_sessions-shares :
    (now : ℕ) (w : World) → (clean_expired_sessions now w).1.shares ≡ w.shares
unfolding clean_expired_sessions delete_sessions fault
clean_expired_sessions-shares now w = ground arith

-- Without faults, the clean-up at the start and the one at midnight leave only rows that are encrypted,
-- have a download password and are not due at the clean-up's instant.
pub cleanup-IsFit :
    (dir : Text) (now session_now : ℕ) (w : World)
    → w.faults ≡ []
    → (all (is_fit now) (start_cleanup dir now w).1.shares ≡ true)
      × (all (is_fit now) (nightly_cleanup dir now session_now w).1.shares ≡ true)
unfolding start_cleanup nightly_cleanup
cleanup-IsFit dir now session_now w f =
    let w1 = (clear_staging dir w).1 in
    let first = repaired-IsRepaired dir now w1 (clear_staging-quiet dir w f) in
    let night = repaired-IsRepaired dir now w f in
    let s = clean_expired_sessions-shares session_now (repaired dir now w) in
    (first.0, ap (all (is_fit now)) s ∙ night.0)
