-- ===== src/Http/Router.antt =====
-- internal/http/router.go: the route table of `New`, and a request on its way through the middleware
-- to its handler. How chi matches a pattern is a parameter.
use shareserver.Base.{
  ℕ, Bool, true, false, Option, none, some, List, [], ◌∷◌, ◌++◌, Text, codes, text_eq,
  if◌then◌else◌,
}
use shareserver.World.{M, pure, ◌>>=◌, ◌>>◌}
use shareserver.Auth.{Crypto}
use shareserver.Upload.Do.{Draws}
use shareserver.Http.{Request, Response, Net, Parsers, Settings, http_error}
use shareserver.Http.Sessions.{Session, Tokens}
use shareserver.Http.Middleware.{security, with_session, csrf, require_admin, client_ip}
use shareserver.Http.Shares.{Page, not_found_page, archive, archives_for_key, home, share_page}
use shareserver.Http.Body.{Body, Part}
use shareserver.Http.Api.{
  UploadReply, upload_error, created, DownloadReply, download_error, payload, api_upload_post,
  api_private_list_post, api_download_post,
}
use shareserver.Http.AdminPages.{
  admin_login_post, admin_logout, admin_bulk_delete, admin_dashboard, admin_shares,
}

pub data Route : Type 0 where
  service_worker robots static_file home_page archive_page upload_page api_page : Route
  shared upload list_private download login_form login logout : Route
  dashboard shares bulk_delete : Route

-- The table of `New`: any method stands for `Handle`.
pub data Method : Type 0 where
  get post any_method : Method

abbrev pub table : List (Method × Text × Route)
table =
    (get, codes "/download-sw.js", service_worker)
    ∷ (get, codes "/robots.txt", robots)
    ∷ (any_method, codes "/static/*", static_file)
    ∷ (get, codes "/", home_page)
    ∷ (post, codes "/", home_page)
    ∷ (get, codes "/s/", archive_page)
    ∷ (get, codes "/upload", upload_page)
    ∷ (get, codes "/api/", api_page)
    ∷ (get, codes "/s/{id}", shared)
    ∷ (post, codes "/api/v0/upload", upload)
    ∷ (post, codes "/api/v0/list", list_private)
    ∷ (post, codes "/api/v0/download/{id}", download)
    ∷ (get, codes "/admin/login", login_form)
    ∷ (post, codes "/admin/login", login)
    ∷ (post, codes "/admin/logout", logout)
    ∷ (get, codes "/admin", dashboard)
    ∷ (get, codes "/admin/shares", shares)
    ∷ (post, codes "/admin/shares/delete", bulk_delete)
    ∷ []

abbrev pub allows : Method → Text → Bool
allows get m = text_eq m (codes "GET")
allows post m = text_eq m (codes "POST")
allows any_method m = true

-- What the router finds: a route with the value of `{id}`, a path with other methods, or nothing.
pub data Found : Type 0 where
  found : Route → Text → Found
  wrong_method unknown : Found

-- `matches pattern path` gives the value of `{id}`, empty where the pattern has none.
module _ (matches : Text → Text → Option Text) where
  abbrev pub find_in : List (Method × Text × Route) → Bool → Text → Text → Found
  find_in [] seen method path = if seen then wrong_method else unknown
  find_in ((m, pattern, route) ∷ rest) seen method path = elim (matches pattern path) [
    | none ↦ find_in rest seen method path
    | some id ↦ if allows m method then found route id else find_in rest true method path
  ]

  unfoldable pub find_route : Text → Text → Found
  find_route method path = find_in table false method path

-- What a handler reads besides the request's head, and the random bytes and clocks that it draws.
pub record Input : Type 0 where
  pub body : Body
  pub parts : Option (List Part)
  pub finished : Bool
  pub form : Option (List (Text × List Text))
  pub ids : Option (List Text)
  pub key : Text
  pub tokens : Tokens
  pub login_tokens : Tokens
  pub draws : Draws
  pub now : ℕ
  pub jitter : ℕ

-- The head of a page or file that is served; the files themselves are net/http's to find.
abbrev pub served_ok : Response
served_ok = http_error [] 200

abbrev pub page_response : Page → Response
page_response not_found_page = http_error (codes "not found.") 404
page_response (archive _ _ _) = served_ok

abbrev pub upload_response : UploadReply → Response
upload_response (upload_error r) = r
upload_response (created _) = record (http_error [] 201) {
  headers =
      (codes "Content-Type", codes "application/json")
      ∷ (codes "Cache-Control", codes "no-store")
      ∷ [];
}

abbrev pub download_response : DownloadReply → Response
download_response (download_error r) = r
download_response (payload id _) = record served_ok {
  headers =
      (codes "Content-Type", codes "application/octet-stream")
      ∷ (
        codes "Content-Disposition",
        codes "attachment; filename=" ++ b'"' ∷ (id ++ codes ".payload" ++ b'"' ∷ []),
      )
      ∷ (codes "Cache-Control", codes "no-store")
      ∷ [];
}

module _ (c : Crypto) (net : Net) (p : Parsers) (cfg : Settings) (r : Request) (input : Input) where
  -- The handler of a route, `requireAdmin` before those of its group.
  unfoldable pub handle : Route → Text → Session → M Response
  handle service_worker id s = pure (record served_ok {
    headers =
        (codes "Cache-Control", codes "no-store")
        ∷ (codes "Service-Worker-Allowed", codes "/")
        ∷ [];
  })
  handle robots id s = pure (record served_ok {
    headers =
        (codes "Content-Type", codes "text/plain; charset=utf-8")
        ∷ (codes "Cache-Control", codes "public, max-age=3600")
        ∷ [];
  })
  handle static_file id s = pure (record served_ok {
    headers = (codes "Cache-Control", codes "no-cache, must-revalidate") ∷ [];
  })
  handle home_page id s = do
    page ← home c cfg r.clock (text_eq r.method (codes "POST")) input.key
    pure (page_response page)
  handle archive_page id s = do archives_for_key cfg r.clock []; pure served_ok
  handle upload_page id s = pure served_ok
  handle api_page id s = do archives_for_key cfg r.clock []; pure served_ok
  handle shared id s = do page ← share_page cfg r.clock id; pure (page_response page)
  handle upload id s = do
    u ← api_upload_post c net p cfg r s input.draws input.parts input.finished
    pure (upload_response u)
  handle list_private id s = do l ← api_private_list_post c net p cfg r input.body; pure l.1
  handle download id s = do
    d ← api_download_post c net p cfg r input.now input.jitter id input.body
    pure (download_response d)
  handle login_form id s = pure served_ok
  handle login id s =
      admin_login_post c net cfg r s input.login_tokens input.form input.now input.jitter
  handle logout id s = admin_logout s
  handle dashboard id s = require_admin s (do admin_dashboard cfg r.clock; pure served_ok)
  handle shares id s = require_admin s (do admin_shares cfg; pure served_ok)
  handle bulk_delete id s =
      require_admin s (admin_bulk_delete cfg (client_ip net cfg r) input.now input.ids)

  abbrev pub answer_found : Found → Session → M Response
  answer_found (found route id) s = handle route id s
  answer_found wrong_method s = pure (http_error [] 405)
  answer_found unknown s = pure (http_error (codes "not found.") 404)

  -- A request through `security`, `withClock`, `withSession` and `csrf` to its handler.
  unfoldable pub serve : (Text → Text → Option Text) → M Response
  serve matches = security (
      with_session input.tokens r
        λ s. csrf r s (answer_found (find_route matches r.method r.path) s))
