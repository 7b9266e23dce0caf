-- ===== src/Http/AdminPages.antt =====
-- internal/http/handlers.go: the admin login and logout, and the bulk deletion of Shares.
use shareserver.Base.{
  ℕ, ◌+◌, ℤ, Bool, true, false, ◌&&◌, ◌||◌, not, Option, none, some, List, [], ◌∷◌, ◌++◌, Text,
  codes, text_eq, is_empty, ltb, ◌==◌, if◌then◌else◌, length, any,
}
use shareserver.Base.Int.{pos}
use shareserver.Time.{format_nano}
use shareserver.Codec.{decimal}
use shareserver.World.{ok, err, M, pure, ◌>>=◌, ◌>>◌}
use shareserver.Auth.{Crypto, AdminLoginResult, success, failed, banned, admin_login}
use shareserver.Audit.{log}
use shareserver.Share.{Share, active_at}
use shareserver.Share.Store.{get, count_active, count_expired, count_purged, list_all}
use shareserver.Storage.{used_bytes}
use shareserver.Storage.Integrity.{remove_share, reconcile}
use shareserver.Http.{Request, Response, Net, Settings, http_error, see_other}
use shareserver.Http.Sessions.{Session, Tokens}
use shareserver.Http.Middleware.{client_ip, login_session, logout_session}
use shareserver.Http.Shares.{valid_uuid}

abbrev sole : List Text → Option Text
sole [] = none
sole (a ∷ []) = some a
sole (_ ∷ _ ∷ _) = none

-- The value of one field, where it has exactly one.
abbrev single : Text → List (Text × List Text) → Option Text
single name [] = none
single name ((k, v) ∷ form) = if text_eq k name then sole v else single name form

-- The user name and the password hash of a form that has these, the token, and nothing else.
abbrev login_form : Text → Option (List (Text × List Text)) → Option (Text × Text)
login_form raw_query none = none
login_form raw_query (some form) =
    if not (is_empty raw_query) || not (length form == 3)
    then none
    else elim (single (codes "username") form) [
      | none ↦ none
      | some user ↦ elim (single (codes "password_hash") form) [
        | none ↦ none
        | some password_hash ↦ elim (single (codes "csrf") form) [
          | none ↦ none
          | some _ ↦ some (user, password_hash)
        ]
      ]
    ]

abbrev failure_meta : ℕ → Text
failure_meta t = if t == 0 then [] else codes "banned_until=" ++ format_nano t

module _ (c : Crypto) (net : Net) (cfg : Settings) (r : Request) where
  abbrev finish_login : Session → Tokens → Text → ℕ → AdminLoginResult → M Response
  finish_login s tokens user now result = elim result.status [
    | banned ↦ do
      log (codes "public") (client_ip net cfg r) (codes "login_banned") [] [] now
      pure (http_error (codes "try again later") 429)
    | failed ↦ do
      log (codes "public") (client_ip net cfg r) (codes "login_fail") user
          (failure_meta result.banned_until) now
      pure (http_error (codes "login failed") 401)
    | success ↦ do
      sid ← login_session tokens s.id now (pos result.admin_id)
      log (codes "admin") (client_ip net cfg r) (codes "login") user [] now
      pure (record {
        status = 303;
        message = [];
        headers = (codes "Location", codes "/admin") ∷ [];
        cookie = some sid;
      })
  ]

  -- `form` is none where `ParseForm` fails; `jitter` is the login ban's random minutes.
  unfoldable pub admin_login_post :
      Session → Tokens → Option (List (Text × List Text)) → ℕ → ℕ → M Response
  admin_login_post s tokens form now jitter = elim (login_form r.raw_query form) [
    | none ↦ pure (http_error (codes "login failed") 401)
    | some (user, password_hash) ↦ do
      result ← admin_login c (client_ip net cfg r) user password_hash now jitter
      finish_login s tokens user now result
  ]

unfoldable pub admin_logout : Session → M Response
admin_logout s = do logout_session s.id; pure (see_other (codes "/"))

pub record Tally : Type 0 where
  pub removed : ℕ
  pub failed : ℕ

-- One id that was not seen before, with the number seen so far, itself included. The text of a
-- removal's error is left out of the audit event.
abbrev pub delete_one : Text → ℕ → ℕ → Text → M Bool
delete_one ip now count id = elim (ltb 300 count || not (valid_uuid id)) [
  | true ↦ pure false
  | false ↦ do
    found ← get id
    elim found [
      | none ↦ pure false
      | some sh ↦ do
        r ← remove_share sh
        elim r [
          | err _ ↦ do log (codes "admin") ip (codes "delete_failed") id [] now; pure false
          | ok _ ↦ do
            log (codes "admin") ip (codes "delete") id (codes "removed blob and metadata") now
            pure true
        ]
    ]
]

abbrev pub tick : Bool → Tally → Tally
tick true t = record t { removed = t.removed + 1 }
tick false t = record t { failed = t.failed + 1 }

-- The loop over the ids; `seen` holds the distinct ones so far.
unfoldable pub delete_each : Text → ℕ → List Text → Tally → List Text → M Tally
delete_each ip now seen t [] = pure t
delete_each ip now seen t (id ∷ ids) = elim (any (text_eq id) seen) [
  | true ↦ delete_each ip now seen t ids
  | false ↦ do
    gone ← delete_one ip now (length (id ∷ seen)) id
    delete_each ip now (id ∷ seen) (tick gone t) ids
]

abbrev pub delete_result : Tally → Text
delete_result t =
    if t.removed == 0 && t.failed == 0
    then codes "none"
    else if ltb 0 t.failed
    then codes "failed"
    else codes "done"

-- `ids` is none where `ParseForm` fails.
unfoldable pub admin_bulk_delete : Settings → Text → ℕ → Option (List Text) → M Response
admin_bulk_delete cfg ip now none = pure (http_error (codes "bad selection") 400)
admin_bulk_delete cfg ip now (some ids) = do
  t ← delete_each ip now [] (record { removed = 0; failed = 0 }) ids
  reconcile cfg.blob_dir
  pure (
      see_other (
        codes "/admin/shares?delete="
        ++ delete_result t
        ++ codes "&removed="
        ++ decimal t.removed
        ++ codes "&failed="
        ++ decimal t.failed))

pub record Dashboard : Type 0 where
  pub used : ℕ
  pub cap : ℤ
  pub active : ℕ
  pub expired : ℕ
  pub purged : ℕ

unfoldable pub admin_dashboard : Settings → ℕ → M Dashboard
admin_dashboard cfg now = do
  reconcile cfg.blob_dir
  λ w.
      (do
        a ← count_active (active_at now)
        e ← count_expired (active_at now)
        p ← count_purged
        pure (record {
          used = used_bytes cfg.blob_dir w;
          cap = cfg.storage_cap_bytes;
          active = a;
          expired = e;
          purged = p;
        }))
        w

unfoldable pub admin_shares : Settings → M (List Share)
admin_shares cfg = do reconcile cfg.blob_dir; list_all
