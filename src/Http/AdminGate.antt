-- ===== src/Http/AdminGate.antt =====
-- internal/http/router.go: the whole chain in front of the admin pages.
use shareserver.Base.{
  ℕ, ◌≡◌, refl, ◌⊎◌, inl, inr, Bool, true, false, Option, none, some, Text, is_empty, arith, codes,
  List, [], ◌∷◌, text_eq, if◌then◌else◌,
}
use shareserver.Base.Int.{ℤ, pos, ◌≤ℤ◌}
use shareserver.World.{World, M, Result, ok, err, fault, SessionRow}
use shareserver.World.Db.{get_session, create_session, delete_session}
use shareserver.Auth.{Crypto}
use shareserver.Http.{Request, Response, Net, Parsers, Settings}
use shareserver.Http.Sessions.{
  Session, Tokens, get, get_or_create, create, drop_stale, after_get, by_sid,
}
use shareserver.Http.Middleware.{
  security, with_session, csrf, require_admin, is_sessionless_path, session_or_none, session_of,
  sid_or_empty, cookie_if,
}
use shareserver.Http.Router.{
  answer_found, Route, dashboard, shares, bulk_delete, found, find_route, Input, handle, serve,
}

-- Nothing but the session table has changed.
abbrev pub OnlySessions : World → World → Type 0
OnlySessions w w' = record w' { sessions = w.sessions; faults = w.faults } ≡ w

get-OnlySessions : (sid : Text) (now : ℕ) (w : World) → OnlySessions w (get sid now w).1
unfolding get get_session fault
get-OnlySessions sid now w = ground arith

create-OnlySessions :
    (tokens : Tokens) (now : ℕ) (admin : Option ℤ) (language : Text) (w : World)
    → OnlySessions w (create tokens now admin language w).1
      × ((create tokens now none language w).0.admin_id ≡ pos 0)
unfolding create create_session fault
create-OnlySessions tokens now admin language w = ground arith

OnlySessions-trans : (u v w : World) → OnlySessions u v → OnlySessions v w → OnlySessions u w
OnlySessions-trans u v w a b = ground arith

get_session-OnlySessions : (sid : Text) (w : World) → OnlySessions w (get_session sid w).1
unfolding get_session fault
get_session-OnlySessions sid w = ground arith

drop_stale-OnlySessions :
    (sid : Text) (r : Result SessionRow) (w : World) → OnlySessions w (drop_stale sid r w).1
unfolding delete_session fault
drop_stale-OnlySessions sid (err e) w = refl
drop_stale-OnlySessions sid (ok row) w = ground arith

module _ (tokens : Tokens) (sid : Text) (now : ℕ) (language : Text) where
  -- The state is as it was but for sessions, and the session is that of the cookie, or a new one, which
  -- is no administrator's.
  abbrev Gives : World → Option Session → (Session × Bool) × World → Type 0
  Gives w old r = OnlySessions w r.1 × ((old ≡ some r.0.0) ⊎ (r.0.0.admin_id ≡ pos 0))

  after_get-Gives :
      (o : Option Session) (w : World) → Gives w o (after_get tokens sid now language o w)
  after_get-Gives (some s) w = (refl, inl refl)
  after_get-Gives none w =
      let s1 = get_session sid w in
      let w2 = (drop_stale sid s1.0 s1.1).1 in
      let to_w2 =
        OnlySessions-trans w s1.1 w2 (get_session-OnlySessions sid w)
          (drop_stale-OnlySessions sid s1.0 s1.1) in
      let c = create-OnlySessions tokens now none language w2 in
      (OnlySessions-trans w w2 (create tokens now none language w2).1 to_w2 c.0, inr c.1)

  by_sid-Gives :
      (b : Bool) (w : World) → Gives w (get sid now w).0 (by_sid tokens sid now language b w)
  by_sid-Gives true w = let c = create-OnlySessions tokens now none language w in (c.0, inr c.1)
  by_sid-Gives false w =
      let g = get sid now w in
      let a = after_get-Gives g.0 g.1 in
      (
        OnlySessions-trans w g.1 (after_get tokens sid now language g.0 g.1).1
            (get-OnlySessions sid now w) a.0,
        a.1,
      )

  get_or_create-Gives :
      (w : World) → Gives w (get sid now w).0 (get_or_create tokens sid now language w)
  unfolding get_or_create
  get_or_create-Gives w = by_sid-Gives (is_empty sid) w

-- The group that `requireAdmin` guards.
abbrev pub is_admin_route : Route → Bool
is_admin_route dashboard = true
is_admin_route shares = true
is_admin_route bulk_delete = true
is_admin_route _ = false

-- The target of a redirect.
unfoldable pub location : List (Text × Text) → Option Text
location [] = none
location ((name, value) ∷ rest) =
    if text_eq name (codes "Location") then some value else location rest

-- Redirected to the login page, or rejected by the CSRF check.
abbrev pub Refused : Response → Type 0
Refused res =
    ((res.status ≡ 303) × (location res.headers ≡ some (codes "/admin/login")))
    ⊎ ((res.status ≡ 403) × (res.message ≡ codes "csrf rejected"))

cookie_if-Refused :
    (b : Bool) (sid : Text) (res : Response) → Refused res → Refused (cookie_if b sid res)
cookie_if-Refused true sid res h = ground arith
cookie_if-Refused false sid res h = ground arith

module _ (c : Crypto) (net : Net) (p : Parsers) (cfg : Settings) (r : Request) (input : Input) where
  gated :
      (route : Route) (id : Text) (s : Session) (w : World)
      → is_admin_route route ≡ true
      → s.admin_id ≤ℤ pos 0
      → Refused (csrf r s (handle c net p cfg r input route id s) w).0
        × ((csrf r s (handle c net p cfg r input route id s) w).1 ≡ w)
  unfolding handle csrf require_admin location text_eq
  gated dashboard id s w h z = ground arith
  gated shares id s w h z = ground arith
  gated bulk_delete id s w h z = ground arith
  gated _ id s w h z = absurd (ground arith)

  module _ (matches : Text → Text → Option Text) (route : Route) (id : Text) (w : World)
      (here : find_route matches r.method r.path ≡ found route id)
      (grouped : is_admin_route route ≡ true)
      (outsider : (s : Session)
        → (get (sid_or_empty r.sid) r.clock w).0 ≡ some s
        → s.admin_id ≤ℤ pos 0) where
    -- The handler behind the CSRF check.
    abbrev next : Session → M Response
    next s = csrf r s (answer_found c net p cfg r input (find_route matches r.method r.path) s)

    next-gated :
        (s : Session) (v : World) → s.admin_id ≤ℤ pos 0 → Refused (next s v).0 × ((next s v).1 ≡ v)
    next-gated s v z = rw here (gated route id s v grouped z)

    session_of-gated :
        (b : Bool) → let x = session_of input.tokens r next b w in Refused x.0 × OnlySessions w x.1
    session_of-gated true =
        let g = get (sid_or_empty r.sid) r.clock w in
        let only = get-OnlySessions (sid_or_empty r.sid) r.clock w in
        let n = next-gated (session_or_none g.0) g.1 (read g.0 refl) in
        (n.0, ground (arith, n.1, only))
      where
        read :
            (o : Option Session)
            → (get (sid_or_empty r.sid) r.clock w).0 ≡ o
            → (session_or_none o).admin_id ≤ℤ pos 0
        read none e = omega arith
        read (some s) e = outsider s e
    session_of-gated false =
        let o = get_or_create input.tokens (sid_or_empty r.sid) r.clock (codes "en") w in
        let g = get_or_create-Gives input.tokens (sid_or_empty r.sid) r.clock (codes "en") w in
        let n = next-gated o.0.0 o.1 (nobody g.1) in
        (cookie_if-Refused o.0.1 o.0.0.id (next o.0.0 o.1).0 n.0, ground (arith, n.1, g.0))
      where
        nobody :
            {s : Session}
            → ((get (sid_or_empty r.sid) r.clock w).0 ≡ some s) ⊎ (s.admin_id ≡ pos 0)
            → s.admin_id ≤ℤ pos 0
        nobody (inl e) = outsider _ e
        nobody (inr e) = ground arith

    -- A request for a page of the administrators, whose cookie gives no administrator's session, is
    -- redirected to /admin/login or rejected by the CSRF check, and nothing but the session table has
    -- changed: no Share is removed, nothing is audited, no file is touched.
    pub serve-gated :
        Refused (serve c net p cfg r input matches w).0
        × OnlySessions w (serve c net p cfg r input matches w).1
    unfolding serve security with_session location text_eq
    serve-gated = session_of-gated (is_sessionless_path r.path)
