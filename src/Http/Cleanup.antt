-- ===== src/Http/Cleanup.antt =====
-- internal/http/cleanup.go and cmd/shareserver/main.go: the repairs at the start and at each midnight.
use shareserver.Base.{ℕ, Text}
use shareserver.World.{M, Result, ok, err, pure, ◌>>=◌, ◌>>◌}
use shareserver.Config.{Config}
use shareserver.Auth.{Crypto, ensure_admin}
use shareserver.Storage.Integrity.{
  ReconcileResult, clear_staging, purge_unprotected, purge, reconcile,
}
use shareserver.Http.Sessions.{clean_expired_sessions}

-- The counts that a clean-up logs.
pub record Cleaned : Type 0 where
  pub unprotected : ℕ
  pub repaired : ReconcileResult
  pub purged : ℕ
  pub sessions : ℕ

-- The part of `StartCleanup` that runs before the server listens; an error of the staging directory is
-- only logged.
unfoldable pub start_cleanup : Text → ℕ → M Cleaned
start_cleanup dir now = do
  clear_staging dir
  u ← purge_unprotected
  r ← reconcile dir
  n ← purge now
  pure (record { unprotected = u; repaired = r; purged = n; sessions = 0 })

-- One round of its loop, with the clock's readings of the purge and of the sessions.
unfoldable pub nightly_cleanup : Text → ℕ → ℕ → M Cleaned
nightly_cleanup dir now session_now = do
  u ← purge_unprotected
  r ← reconcile dir
  n ← purge now
  s ← clean_expired_sessions session_now
  pure (record { unprotected = u; repaired = r; purged = n; sessions = s })

abbrev cleaning : Text → ℕ → Result (Unit {0}) → M (Result (Unit {0}))
cleaning dir now (err e) = pure (err e)
cleaning dir now (ok _) = do start_cleanup dir now; pure (ok tt)

-- `run`, from the open database to the listening: the administrator, then the clean-up. `salt`,
-- `created` and `id` are for the administrator's row.
unfoldable pub start : Crypto → Config → Text → Text → ℕ → ℕ → M (Result (Unit {0}))
start c cfg salt created id now = do
  r ← ensure_admin c salt cfg.admin_user cfg.admin_password cfg.dev created id
  cleaning cfg.blob_dir now r
