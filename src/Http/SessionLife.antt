-- ===== src/Http/SessionLife.antt =====
-- internal/http/sessions.go: how long a login lasts.
use shareserver.Base.{
  ℕ, ◌+◌, ◌<◌, ◌≡◌, ◌≢◌, refl, ℤ, none, some, [], Text, text_eq, arith, ltb, discard, find?,
  if◌then◌else◌,
}
use shareserver.Time.{format_nano}
use shareserver.Time.RoundTrip.{year_10000, parse-format_nano}
use shareserver.World.{World, SessionRow, fault}
use shareserver.World.Db.{get_session, create_session, delete_session}
use shareserver.Http.Sessions.{
  Session, Tokens, get, rotate, create, session_duration, supported_language, language_of,
  session_from_row,
}
use shareserver.Http.SessionLaws.{find-append_self, find-discard_absent, any-of_find_none}

supported-supported :
    (code : Text) → supported_language (supported_language code) ≡ supported_language code
unfolding supported_language text_eq
supported-supported code = ground arith

-- What a lookup gives for a row that is found.
get-found :
    (sid : Text) (t : ℕ) (w : World) (row : SessionRow)
    → w.faults ≡ []
    → sid ≢ []
    → find? (λ r. text_eq r.id sid) w.sessions ≡ some row
    → (get sid t w).0
      ≡ (if ltb t (session_from_row row).expires_at then some (session_from_row row) else none)
unfolding get get_session fault
get-found sid t w row f ne h = ground (arith, f, ne, h)

-- The row of a login, and the session that the login returns.
record IsLogin (tokens : Tokens) (now : ℕ) (r : Session × World) : Type 0 where
  row : SessionRow
  found : find? (λ s. text_eq s.id tokens.sid) r.1.sessions ≡ some row
  quiet : r.1.faults ≡ []
  same : session_from_row row ≡ r.0
  ends : r.0.expires_at ≡ now + session_duration

rotate-IsLogin :
    (tokens : Tokens) (old : Text) (now : ℕ) (admin : ℤ) (w : World)
    → w.faults ≡ []
    → find? (λ r. text_eq r.id tokens.sid) w.sessions ≡ none
    → now + session_duration < year_10000
    → IsLogin tokens now (rotate tokens old now admin w)
unfolding rotate create get_session fault delete_session create_session session_from_row
rotate-IsLogin tokens old now admin w f fresh early =
    let code = language_of (get_session old w).0 in
    let row : SessionRow = record {
      id = tokens.sid;
      admin_id = some admin;
      csrf = tokens.csrf;
      language = supported_language code;
      created_at = format_nano now;
      expires_at = format_nano (now + session_duration);
    } in
    let kept = discard (λ r. text_eq r.id old) w.sessions in
    let unused = find-discard_absent tokens.sid old w.sessions fresh in
    record {
      row = row;
      found = ground (
        arith,
        find-append_self tokens.sid kept row unused refl,
        any-of_find_none tokens.sid kept unused,
      );
      quiet = ground (arith, f);
      same =
          ground
            (arith, supported-supported code, parse-format_nano (now + session_duration) early);
      ends = refl;
    }

-- After a login without database errors whose new cookie is not empty and was not in use, the cookie
-- gives the session of the login at exactly the instants before its twelve hours end, which lie before
-- the year 10000.
pub rotate-get :
    (tokens : Tokens) (old : Text) (now : ℕ) (admin : ℤ) (w : World)
    → w.faults ≡ []
    → tokens.sid ≢ []
    → find? (λ r. text_eq r.id tokens.sid) w.sessions ≡ none
    → now + session_duration < year_10000
    → (t : ℕ)
    → (get tokens.sid t (rotate tokens old now admin w).1).0
      ≡ (if ltb t (now + session_duration) then some (rotate tokens old now admin w).0 else none)
rotate-get tokens old now admin w f ne fresh early t =
    let i = rotate-IsLogin tokens old now admin w f fresh early in
    ground (
      arith,
      get-found tokens.sid t (rotate tokens old now admin w).1 i.row i.quiet ne i.found,
      i.same,
      i.ends,
    )
