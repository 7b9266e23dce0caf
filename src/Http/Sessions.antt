-- ===== src/Http/Sessions.antt =====
-- internal/http/sessions.go: browser sessions stored in the database, and the clean-up of
-- internal/http/cleanup.go.
use shareserver.Base.{
  ℕ, ◌+◌, ◌*◌, ℤ, Bool, true, false, not, Option, none, some, [], Text, codes, text_eq, text_lt,
  is_empty, ltb, if◌then◌else◌,
}
use shareserver.Base.Int.{pos}
use shareserver.Time.{format_nano, parse, hour}
use shareserver.World.{SessionRow, Result, ok, err, M, pure, ◌>>=◌, ◌>>◌}
use shareserver.World.Db.{get_session, create_session, delete_session, delete_sessions}

abbrev pub session_duration : ℕ
session_duration = 12 * hour

pub record Session : Type 0 where
  pub id : Text
  pub admin_id : ℤ
  pub csrf : Text
  pub language : Text
  pub expires_at : ℕ

-- `Session{}`
abbrev pub no_session : Session
no_session = record { id = []; admin_id = pos 0; csrf = []; language = []; expires_at = 0 }

unfoldable pub supported_language : Text → Text
supported_language code = if text_eq code (codes "ko") then codes "ko" else codes "en"

abbrev admin_or_zero : Option ℤ → ℤ
admin_or_zero none = pos 0
admin_or_zero (some n) = n

abbrev time_or_zero : Option ℕ → ℕ
time_or_zero none = 0
time_or_zero (some t) = t

unfoldable pub session_from_row : SessionRow → Session
session_from_row row = record {
  id = row.id;
  admin_id = admin_or_zero row.admin_id;
  csrf = row.csrf;
  language = supported_language row.language;
  expires_at = time_or_zero (parse row.expires_at);
}

abbrev live : ℕ → Result SessionRow → Option Session
live now (err _) = none
live now (ok row) =
    if ltb now (session_from_row row).expires_at then some (session_from_row row) else none

-- `DBSessions.Get`: none where the second result is false.
unfoldable pub get : Text → ℕ → M (Option Session)
get sid now = if is_empty sid then pure none else (do r ← get_session sid; pure (live now r))

-- The two values that crypto/rand gives a new session.
pub record Tokens : Type 0 where
  pub sid : Text
  pub csrf : Text

unfoldable pub create : Tokens → ℕ → Option ℤ → Text → M Session
create tokens now admin language =
    let s : Session = record {
      id = tokens.sid;
      admin_id = admin_or_zero admin;
      csrf = tokens.csrf;
      language = supported_language language;
      expires_at = now + session_duration;
    } in
    do
      create_session (record {
        id = s.id;
        admin_id = admin;
        csrf = s.csrf;
        language = s.language;
        created_at = format_nano now;
        expires_at = format_nano s.expires_at;
      })
      pure s

-- A row that was read but has expired is deleted.
abbrev pub drop_stale : Text → Result SessionRow → M (Unit {0})
drop_stale sid (err _) = pure tt
drop_stale sid (ok _) = do delete_session sid; pure tt

module _ (tokens : Tokens) (sid : Text) (now : ℕ) (language : Text) where
  -- With whether the session is new.
  abbrev pub fresh_session : M (Session × Bool)
  fresh_session = do s ← create tokens now none language; pure (s, true)

  abbrev pub after_get : Option Session → M (Session × Bool)
  after_get (some s) = pure (s, false)
  after_get none = do r ← get_session sid; drop_stale sid r; fresh_session

  abbrev pub by_sid : Bool → M (Session × Bool)
  by_sid true = fresh_session
  by_sid false = do old ← get sid now; after_get old

  unfoldable pub get_or_create : M (Session × Bool)
  get_or_create = by_sid (is_empty sid)

abbrev pub language_of : Result SessionRow → Text
language_of (ok row) = row.language
language_of (err _) = codes "en"

unfoldable pub rotate : Tokens → Text → ℕ → ℤ → M Session
rotate tokens old_sid now admin_id = do
  r ← get_session old_sid
  delete_session old_sid
  create tokens now (some admin_id) (language_of r)

-- `DBSessions.Delete`
unfoldable pub end_session : Text → M (Unit {0})
end_session sid = do delete_session sid; pure tt

abbrev number_or_zero : Result ℕ → ℕ
number_or_zero (ok n) = n
number_or_zero (err _) = 0

-- `CleanExpiredSessions`
unfoldable pub clean_expired_sessions : ℕ → M ℕ
clean_expired_sessions now = do
  r ← delete_sessions (λ row. not (text_lt (format_nano now) row.expires_at))
  pure (number_or_zero r)
