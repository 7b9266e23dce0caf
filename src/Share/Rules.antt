-- ===== src/Share/Rules.antt =====
-- internal/share/model.go: the three states of a Share at one instant.
use shareserver.Base.{
  ℕ, ◌+◌, ◌*◌, ◌≤◌, ◌<◌, ◌≡◌, ◌≢◌, ◌↔◌, refl, inl, inr, true, false, none, some, [], arith,
  Option-cases,
}
use shareserver.Time.{second, format_nano, parse}
use shareserver.Time.Fraction.{format_nano-inverts}
use shareserver.World.{ShareRow}
use shareserver.Share.{
  NullString, Share, ActiveRule, active, active_at, is_expired, is_active, status,
}
use shareserver.Share.Store.{predicate, expired_predicate}

-- A Share is visible exactly when its status is active.
pub is_active_iff_status :
    (r : ActiveRule) (s : Share) → (is_active r s ≡ true) ↔ (status r s ≡ active)
unfolding is_active status
is_active_iff_status r s = ground arith

-- An expiry counts exactly when it is set, is a time, and lies at or before the instant of the rule.
pub is_expired_iff :
    (now : ℕ) (exp : NullString)
    → (is_expired (active_at now) exp ≡ true) ↔ (
        (exp.valid ≡ true)
        × (exp.string ≢ [])
        × ((t : ℕ) × (parse exp.string ≡ some t) × (t ≤ now)))
unfolding is_expired active_at
is_expired_iff now exp = elim (Option-cases (parse exp.string)) [
  | inl bad ↦ (λ e. absurd (ground arith), λ h. absurd (ground (arith, h.2.1)))
  | inr (t, good) ↦ (
    λ e. (ground arith, ground arith, (t, good, ground arith)),
    λ h. ground (arith, h.0, h.1, h.2.1, h.2.2),
  )
]

-- Once expired, a Share stays expired at every later instant.
pub is_expired_mono :
    (now later : ℕ) (exp : NullString)
    → now ≤ later
    → is_expired (active_at now) exp ≡ true
    → is_expired (active_at later) exp ≡ true
unfolding is_expired active_at
is_expired_mono now later exp h e = elim (Option-cases (parse exp.string)) [
  | inl bad ↦ ground arith
  | inr (t, good) ↦ ground arith
]

-- The two store predicates miss the end of a lifetime at a whole second: for the rest of that second
-- they select the row as active and not as expired.
pub predicate-late :
    (s n : ℕ) (row : ShareRow)
    → 0 < n
    → n < second
    → row.purged_at ≡ none
    → row.expires_at ≡ some (format_nano (s * second))
    → (predicate (active_at (s * second + n)) row ≡ true)
      × (expired_predicate (active_at (s * second + n)) row ≡ false)
unfolding predicate expired_predicate active_at
predicate-late s n row p h kept due =
    let text = format_nano-inverts s n p h in rw (kept, due, text) (refl, refl)
