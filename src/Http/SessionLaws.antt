-- ===== src/Http/SessionLaws.antt =====
-- internal/http/sessions.go: what a session cookie is good for.
use shareserver.Base.{
  ℕ, ◌+◌, ◌<◌, ◌≡◌, ◌≢◌, refl, ℤ, false, none, some, List, [], ◌∷◌, ◌++◌, Text, text_eq,
  text_eq_iff, arith, discard, find?, any,
}
use shareserver.World.{World, SessionRow, fault}
use shareserver.Time.{format_nano}
use shareserver.World.Db.{get_session, create_session, delete_session}
use shareserver.Http.Sessions.{
  Session, Tokens, get, rotate, create, end_session, session_duration, supported_language,
  language_of,
}

pub find-discard_self :
    (id : Text) (l : List SessionRow)
    → find? (λ r. text_eq r.id id) (discard (λ r. text_eq r.id id) l) ≡ none
find-discard_self id [] = refl
find-discard_self id (r ∷ l) = ground (arith, find-discard_self id l)

pub find-append_self :
    (id : Text) (l : List SessionRow) (r : SessionRow)
    → find? (λ s. text_eq s.id id) l ≡ none
    → r.id ≡ id
    → find? (λ s. text_eq s.id id) (l ++ r ∷ []) ≡ some r
find-append_self id [] r n h = ground (arith, text_eq_iff r.id id)
find-append_self id (s ∷ l) r n h = ground (arith, find-append_self id l r)

find-append_ne :
    (id : Text) (l : List SessionRow) (r : SessionRow)
    → find? (λ s. text_eq s.id id) l ≡ none
    → r.id ≢ id
    → find? (λ s. text_eq s.id id) (l ++ r ∷ []) ≡ none
find-append_ne id [] r n h = ground (arith, text_eq_iff r.id id)
find-append_ne id (s ∷ l) r n h = ground (arith, find-append_ne id l r)

pub find-discard_absent :
    (id old : Text) (l : List SessionRow)
    → find? (λ s. text_eq s.id id) l ≡ none
    → find? (λ s. text_eq s.id id) (discard (λ s. text_eq s.id old) l) ≡ none
find-discard_absent id old [] h = refl
find-discard_absent id old (s ∷ l) h = ground (arith, find-discard_absent id old l)

pub any-of_find_none :
    (id : Text) (l : List SessionRow)
    → find? (λ s. text_eq s.id id) l ≡ none
    → any (λ s. text_eq s.id id) l ≡ false
any-of_find_none id [] h = refl
any-of_find_none id (s ∷ l) h = ground (arith, any-of_find_none id l)

-- A cookie gives a session only while its row has not expired, and only with a value.
pub get_live :
    (sid : Text) (now : ℕ) (w : World) (s : Session)
    → (get sid now w).0 ≡ some s
    → (sid ≢ []) × (now < s.expires_at) × ((get sid now w).1.sessions ≡ w.sessions)
unfolding get get_session fault
get_live sid now w s h = ground arith

-- After a logout with no database error the old cookie gives no session.
pub end_session-get :
    (sid : Text) (now : ℕ) (w : World)
    → w.faults ≡ []
    → (get sid now (end_session sid w).1).0 ≡ none
unfolding get get_session fault end_session delete_session
end_session-get sid now w h = ground (arith, find-discard_self sid w.sessions)

-- A login without database errors leaves no row under the cookie from before it, and binds the new
-- cookie, which was not in use, to the administrator for twelve hours.
pub rotate-binds :
    (tokens : Tokens) (old : Text) (now : ℕ) (admin : ℤ) (w : World)
    → w.faults ≡ []
    → tokens.sid ≢ old
    → find? (λ r. text_eq r.id tokens.sid) w.sessions ≡ none
    → let w' = (rotate tokens old now admin w).1 in
      (find? (λ r. text_eq r.id old) w'.sessions ≡ none)
      × ((row : SessionRow) × (find? (λ r. text_eq r.id tokens.sid) w'.sessions ≡ some row)
          × (row.admin_id ≡ some admin)
          × (row.csrf ≡ tokens.csrf)
          × (row.expires_at ≡ format_nano (now + session_duration)))
unfolding rotate create get_session fault delete_session create_session
rotate-binds tokens old now admin w f ne fresh =
    let row : SessionRow = record {
      id = tokens.sid;
      admin_id = some admin;
      csrf = tokens.csrf;
      language = supported_language (language_of (get_session old w).0);
      created_at = format_nano now;
      expires_at = format_nano (now + session_duration);
    } in
    let kept = discard (λ r. text_eq r.id old) w.sessions in
    let unused = find-discard_absent tokens.sid old w.sessions fresh in
    (
      ground (
        arith,
        find-append_ne old kept row (find-discard_self old w.sessions) ne,
        any-of_find_none tokens.sid kept unused,
      ),
      (
        row,
        ground (
          arith,
          find-append_self tokens.sid kept row unused refl,
          any-of_find_none tokens.sid kept unused,
        ),
        refl,
        refl,
        refl,
      ),
    )
