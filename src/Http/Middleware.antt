-- ===== src/Http/Middleware.antt =====
-- internal/http/middleware.go: sessions, the CSRF check, proxy trust and the admin gate.
use shareserver.Base.{
  ℕ, ℤ, Bool, true, false, ◌&&◌, ◌||◌, not, Option, none, some, List, [], ◌∷◌, ◌++◌, Text, codes,
  text_eq, has_prefix, to_lower, trim_space, is_empty, if◌then◌else◌,
}
use shareserver.Base.Int.{pos, leb_ℤ, ltb_ℤ, ◌+ℤ◌}
use shareserver.World.{M, pure, ◌>>=◌}
use shareserver.World.Path.{split}
use shareserver.Http.{Request, Response, Net, Settings, http_error, see_other}
use shareserver.Http.Sessions.{Session, no_session, Tokens, get, get_or_create, rotate, end_session}

unfoldable pub is_api_path : Text → Bool
is_api_path path =
    text_eq path (codes "/api/v0/upload")
    || text_eq path (codes "/api/v0/list")
    || has_prefix (codes "/api/v0/download/") path

unfoldable pub is_sessionless_path : Text → Bool
is_sessionless_path path =
    has_prefix (codes "/static/") path
    || text_eq path (codes "/download-sw.js")
    || text_eq path (codes "/robots.txt")
    || text_eq path (codes "/api/")
    || is_api_path path

abbrev pub sid_or_empty : Option Text → Text
sid_or_empty none = []
sid_or_empty (some s) = s

-- The four headers of `security`.
abbrev pub security_headers : List (Text × Text)
security_headers =
    (codes "X-Content-Type-Options", codes "nosniff")
    ∷ (codes "Referrer-Policy", codes "same-origin")
    ∷ (codes "X-Frame-Options", codes "DENY")
    ∷ (
      codes "Content-Security-Policy",
      codes
          "default-src 'self'; script-src 'self'; worker-src 'self' blob:; style-src 'self'; font-src 'self'; img-src 'self' blob: data:; media-src 'self' blob:; frame-src 'self' blob:; object-src 'none'; base-uri 'self'; form-action 'self'",
    )
    ∷ []

abbrev pub with_headers : List (Text × Text) → Response → Response
with_headers h r = record r { headers = h ++ r.headers }

unfoldable pub security : M Response → M Response
security next = do r ← next; pure (with_headers security_headers r)

abbrev pub session_or_none : Option Session → Session
session_or_none none = no_session
session_or_none (some s) = s

abbrev pub set_cookie : Text → Response → Response
set_cookie sid r = record r { cookie = some sid }

-- The cookie is set before the handler runs, which may set another.
abbrev pub cookie_if : Bool → Text → Response → Response
cookie_if created sid r = elim r.cookie [
  | some _ ↦ r
  | none ↦ if created then set_cookie sid r else r
]

module _ (tokens : Tokens) (r : Request) (next : Session → M Response) where
  -- Where no session is to be made, and where one is.
  abbrev pub session_of : Bool → M Response
  session_of true = do s ← get (sid_or_empty r.sid) r.clock; next (session_or_none s)
  session_of false = do
    s ← get_or_create tokens (sid_or_empty r.sid) r.clock (codes "en")
    res ← next s.0
    pure (cookie_if s.1 s.0.id res)

  unfoldable pub with_session : M Response
  with_session = session_of (is_sessionless_path r.path)

-- `subtle.ConstantTimeCompare(a, b) == 1`
unfoldable pub same_token : Text → Text → Bool
same_token a b = text_eq a b

unfoldable pub is_safe_method : Text → Bool
is_safe_method m =
    text_eq m (codes "GET") || text_eq m (codes "HEAD") || text_eq m (codes "OPTIONS")

abbrev pub presented_token : Request → Text
presented_token r =
    if is_empty r.csrf_header && not (has_prefix (codes "multipart/") (to_lower r.content_type))
    then r.form_csrf
    else r.csrf_header

unfoldable pub csrf : Request → Session → M Response → M Response
csrf r s next =
    let tok = presented_token r in
    if is_api_path r.path
    then next
    else if is_safe_method r.method
    then next
    else if is_empty s.csrf || is_empty tok || not (same_token tok s.csrf)
    then pure (http_error (codes "csrf rejected") 403)
    else next

unfoldable pub require_admin : Session → M Response → M Response
require_admin s next =
    if leb_ℤ s.admin_id (pos 0) then pure (see_other (codes "/admin/login")) else next

unfoldable pub request_body_limit : Settings → Text → ℤ
request_body_limit cfg path =
    if text_eq path (codes "/api/v0/upload")
    then (if ltb_ℤ cfg.max_upload_bytes (pos 0) then pos 0 else cfg.max_upload_bytes) +ℤ pos 4194304
    else pos 1048576

module _ (net : Net) where
  -- `auth.CleanIP`
  unfoldable pub clean_ip : Text → Text
  clean_ip hostport =
      let host : Text = elim (net.split_host hostport) [ none ↦ hostport | some h ↦ h ] in
      elim (net.parse_ip host) [ none ↦ host | some ip ↦ ip ]

  abbrev first_part : List Text → Text
  first_part [] = []
  first_part (s ∷ _) = s

  abbrev text_or_empty : Option Text → Text
  text_or_empty none = []
  text_or_empty (some s) = s

  unfoldable pub forwarded_ip : Text → Text
  forwarded_ip v = text_or_empty (net.parse_ip (trim_space (first_part (split b',' v))))

  abbrev trusted_peer : Settings → Option Text → Bool
  trusted_peer cfg none = false
  trusted_peer cfg (some ip) =
      net.is_loopback ip || (not (is_empty cfg.railway_environment) && net.in_railway ip)

  unfoldable pub trust_proxy_headers : Settings → Request → Bool
  trust_proxy_headers cfg r =
      cfg.trust_proxy_headers && trusted_peer cfg (net.parse_ip (clean_ip r.remote_addr))

  -- strings.EqualFold against "https": besides the ASCII case, U+017F folds to s.
  unfoldable pub folds_to_https : Text → Bool
  folds_to_https s =
      text_eq (to_lower s) (codes "https")
      || text_eq (to_lower s) (codes "http" ++ 0xc5 ∷ 0xbf ∷ [])

  unfoldable pub secure_request : Settings → Request → Bool
  secure_request cfg r =
      r.tls || (trust_proxy_headers cfg r && folds_to_https (trim_space r.forwarded_proto))

  unfoldable pub client_ip : Settings → Request → Text
  client_ip cfg r =
      let forwarded = forwarded_ip r.forwarded_for in
      let real = forwarded_ip r.real_ip in
      let direct = clean_ip r.remote_addr in
      if trust_proxy_headers cfg r
      then (if not (is_empty forwarded)
          then forwarded
          else if not (is_empty real)
          then real
          else direct)
      else direct

unfoldable pub login_session : Tokens → Text → ℕ → ℤ → M Text
login_session tokens old_sid now admin_id = do s ← rotate tokens old_sid now admin_id; pure s.id

unfoldable pub logout_session : Text → M (Unit {0})
logout_session sid = end_session sid
