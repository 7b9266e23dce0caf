-- ===== src/App.antt =====
-- cmd/shareserver: `run` of main.go and `execAnubis` of anubis_unix.go; internal/app/version.go; and
-- `Open` of internal/db/db.go.
pub mod Serving
use shareserver.Base.{
  ℕ, Bool, true, false, ◌&&◌, not, Option, none, some, List, [], ◌∷◌, Text, codes, text_eq,
  is_empty, length, ◌==◌, if◌then◌else◌,
}
use shareserver.World.{Failure, Result, ok, err, M, pure, ◌>>=◌}
use shareserver.Config.{Config, Env, getenv}
use shareserver.Auth.{Crypto}
use shareserver.Storage.{hex}
use shareserver.Http.Cleanup.{start}

-- `Version`
abbrev pub version : Text
version = codes "v0.3.3"

-- How the process ends, or that it serves at an address.
pub data Ended : Type 0 where
  printed : Text → Ended
  unconfigured : Ended
  replaced : Text → Env → Ended
  fatal : Text → Ended
  failed : Failure → Ended
  serving : Text → Ended

-- `os.Setenv`
unfoldable pub set_env : Text → Text → Env → Env
set_env k v [] = (k, v) ∷ []
set_env k v ((j, u) ∷ e) =
    let rest = set_env k v e in if text_eq j k then (j, v) ∷ e else (j, u) ∷ rest

abbrev pub seed_name : Text
seed_name = codes "ED25519_PRIVATE_KEY_HEX"

-- Whether the environment has a signing key already.
abbrev pub has_key : Env → Bool
has_key e = not (
    is_empty (getenv (codes "HS512_SECRET") e)
    && is_empty (getenv seed_name e)
    && is_empty (getenv (codes "ED25519_PRIVATE_KEY_HEX_FILE") e))

-- The environment that Anubis is started with.
unfoldable pub anubis_env : Crypto → Config → Env → Env
anubis_env c cfg e =
    if has_key e
    then e
    else set_env seed_name
        (hex (c.hmac_sha256 cfg.app_secret (codes "shareserver/anubis/ed25519/v1"))) e

-- `execAnubis`; `exec_error` is the error of syscall.Exec, which does not return otherwise.
unfoldable pub exec_anubis : Crypto → Config → Env → List Text → Option Text → Ended
exec_anubis c cfg e args exec_error =
    if length args == 2
    then elim exec_error [
      | some m ↦ fatal m
      | none ↦ replaced (codes "./anubis") (anubis_env c cfg e)
    ]
    else fatal (codes "unexpected Anubis arguments")

-- `Open`: the pool, then the migration, whose error closes the pool again. Whether it is open after.
unfoldable pub open_database : Option Failure → Option Failure → Result (Unit {0}) × Bool
open_database (some e) migration = (err e, false)
open_database none (some e) = (err e, false)
open_database none none = (ok tt, true)

abbrev pub served : Config → Result (Unit {0}) → Ended
served cfg (ok _) = serving cfg.addr
served cfg (err e) = failed e

abbrev pub asks : Text → List Text → Bool
asks flag [] = false
asks flag (_ ∷ []) = false
asks flag (_ ∷ arg ∷ _) = text_eq arg flag

-- What the steps of `run` outside the program give.
pub record Outside : Type 0 where
  pub loaded : Option Config
  pub environment : Env
  pub exec_error : Option Text
  pub open_error : Option Failure
  pub migration_error : Option Failure
  pub salt : Text
  pub created : Text
  pub admin_id : ℕ
  pub now : ℕ

module _ (c : Crypto) (o : Outside) where
  abbrev pub start_with : Config → Result (Unit {0}) × Bool → M Ended
  start_with cfg (err e, _) = pure (failed e)
  start_with cfg (ok _, _) = do
    r ← start c cfg o.salt o.created o.admin_id o.now
    pure (served cfg r)

  -- `run`; `config.Load` ends the process where it gives no settings.
  unfoldable pub run : List Text → M Ended
  run args =
      if (length args == 2) && asks (codes "--version") args
      then pure (printed version)
      else elim o.loaded [
        | none ↦ pure (unconfigured)
        | some cfg ↦
            if asks (codes "--anubis") args
            then pure (exec_anubis c cfg o.environment args o.exec_error)
            else start_with cfg (open_database o.open_error o.migration_error)
      ]
