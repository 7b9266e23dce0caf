-- ===== src/World/Db.antt =====
-- The calls of the Ent client that the program makes (internal/ent/client.go and the query, create,
-- update and delete builders), by what their SQL does. Each may fail with no effect.
use shareserver.Base.{
  ℕ, Bool, Option, none, some, List, [], ◌∷◌, ◌++◌, Text, text_eq, text_lt, ◌==◌, if◌then◌else◌,
  keep, discard, find?, any, length, take, map,
}
use shareserver.World.{
  ShareRow, AdminRow, SessionRow, BanRow, FailureRow, AuditRow, Result, ok, err, not_found,
  not_singular, constraint, M, attempt,
}

abbrev pub first {ℓ} : {A : Type ℓ} → Option A → Result A
first none = err not_found
first (some a) = ok a

-- `Only` wants one row exactly.
abbrev pub only {ℓ} : {A : Type ℓ} → List A → Result A
only [] = err not_found
only (a ∷ []) = ok a
only (_ ∷ _ ∷ _) = err not_singular

-- `ORDER BY created_at DESC`. SQL leaves the order of equal stamps open; here they keep the table's.
unfoldable pub place : ShareRow → List ShareRow → List ShareRow
place r [] = r ∷ []
place r (s ∷ rows) = if text_lt r.created_at s.created_at then s ∷ place r rows else r ∷ s ∷ rows

unfoldable pub newest_first : List ShareRow → List ShareRow
newest_first [] = []
newest_first (r ∷ rows) = place r (newest_first rows)

unfoldable pub get_share : Text → M (Result ShareRow)
get_share id = attempt λ w. (first (find? (λ r. text_eq r.id id) w.shares), w)

-- Without an order, which SQL leaves open: here the table's.
unfoldable pub query_shares : (ShareRow → Bool) → M (Result (List ShareRow))
query_shares p = attempt λ w. (ok (keep p w.shares), w)

-- With the order and the limit.
unfoldable pub query_newest : ℕ → (ShareRow → Bool) → M (Result (List ShareRow))
query_newest n p = attempt λ w. (ok (take n (newest_first (keep p w.shares))), w)

unfoldable pub count_shares : (ShareRow → Bool) → M (Result ℕ)
count_shares p = attempt λ w. (ok (length (keep p w.shares)), w)

unfoldable pub create_share : ShareRow → M (Result (Unit {0}))
create_share r = attempt λ w.
    if any (λ s. text_eq s.id r.id) w.shares
    then (err constraint, w)
    else (ok tt, record w { shares = w.shares ++ r ∷ [] })

unfoldable pub delete_shares : Text → M (Result (Unit {0}))
delete_shares id =
    attempt λ w. (ok tt, record w { shares = discard (λ s. text_eq s.id id) w.shares })

unfoldable pub only_admin : Text → M (Result AdminRow)
only_admin username = attempt λ w. (only (keep (λ a. text_eq a.username username) w.admins), w)

unfoldable pub count_admins : M (Result ℕ)
count_admins = attempt λ w. (ok (length w.admins), w)

abbrev with_hash : Text → AdminRow → AdminRow
with_hash h a = record a { password_hash = h }

-- `UpdateOneID(id).SetPasswordHash(h)`
unfoldable pub update_admin : ℕ → Text → M (Result (Unit {0}))
update_admin id h = attempt λ w. elim (find? (λ a. a.id == id) w.admins) [
  | none ↦ (err not_found, w)
  | some _ ↦
      (ok tt, record w { admins = map (λ a. if a.id == id then with_hash h a else a) w.admins })
]

unfoldable pub create_admin : AdminRow → M (Result (Unit {0}))
create_admin a = attempt λ w.
    if any (λ b. text_eq b.username a.username) w.admins
    then (err constraint, w)
    else (ok tt, record w { admins = w.admins ++ a ∷ [] })

unfoldable pub get_session : Text → M (Result SessionRow)
get_session id = attempt λ w. (first (find? (λ r. text_eq r.id id) w.sessions), w)

unfoldable pub create_session : SessionRow → M (Result (Unit {0}))
create_session r = attempt λ w.
    if any (λ s. text_eq s.id r.id) w.sessions
    then (err constraint, w)
    else (ok tt, record w { sessions = w.sessions ++ r ∷ [] })

-- `DeleteOneID(id)`: NotFound where there is no row.
unfoldable pub delete_session : Text → M (Result (Unit {0}))
delete_session id = attempt λ w. (
  if any (λ s. text_eq s.id id) w.sessions then ok tt else err not_found,
  record w { sessions = discard (λ s. text_eq s.id id) w.sessions },
)

-- `Delete().Where(p)`, with the number of rows.
unfoldable pub delete_sessions : (SessionRow → Bool) → M (Result ℕ)
delete_sessions p =
    attempt λ w. (ok (length (keep p w.sessions)), record w { sessions = discard p w.sessions })

unfoldable pub get_ban : Text → M (Result BanRow)
get_ban id = attempt λ w. (first (find? (λ r. text_eq r.id id) w.bans), w)

unfoldable pub create_ban : BanRow → M (Result (Unit {0}))
create_ban r = attempt λ w.
    if any (λ b. text_eq b.id r.id) w.bans
    then (err constraint, w)
    else (ok tt, record w { bans = w.bans ++ r ∷ [] })

abbrev pub with_until : Text → BanRow → BanRow
with_until t b = record b { banned_until = t }

unfoldable pub update_ban : Text → Text → M (Result (Unit {0}))
update_ban id t = attempt λ w. elim (find? (λ b. text_eq b.id id) w.bans) [
  | none ↦ (err not_found, w)
  | some _ ↦
      (ok tt, record w { bans = map (λ b. if text_eq b.id id then with_until t b else b) w.bans })
]

unfoldable pub delete_ban : Text → M (Result (Unit {0}))
delete_ban id = attempt λ w. (
  if any (λ b. text_eq b.id id) w.bans then ok tt else err not_found,
  record w { bans = discard (λ b. text_eq b.id id) w.bans },
)

unfoldable pub create_failure : FailureRow → M (Result (Unit {0}))
create_failure r = attempt λ w. (ok tt, record w { failures = w.failures ++ r ∷ [] })

unfoldable pub delete_failures : (FailureRow → Bool) → M (Result ℕ)
delete_failures p =
    attempt λ w. (ok (length (keep p w.failures)), record w { failures = discard p w.failures })

unfoldable pub count_failures : (FailureRow → Bool) → M (Result ℕ)
count_failures p = attempt λ w. (ok (length (keep p w.failures)), w)

unfoldable pub create_audit : AuditRow → M (Result (Unit {0}))
create_audit r = attempt λ w. (ok tt, record w { audit = w.audit ++ r ∷ [] })
