-- ===== src/Audit.antt =====
-- internal/audit/audit.go: an audit event; that it could not be written is ignored.
use shareserver.Base.{ℕ, Text}
use shareserver.Time.{format_nano}
use shareserver.World.{M, pure, ◌>>◌}
use shareserver.World.Db.{create_audit}

unfoldable pub log : Text → Text → Text → Text → Text → ℕ → M (Unit {0})
log actor ip action target meta now = do
  create_audit (record {
    actor = actor;
    ip = ip;
    action = action;
    target = target;
    meta = meta;
    created_at = format_nano now;
  })
  pure tt
