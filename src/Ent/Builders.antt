-- ===== src/Ent/Builders.antt =====
-- The builders that internal/auth, internal/http and internal/audit put together for the tables besides
-- shares, and assignValues of internal/ent/session.go and ipban.go.
use shareserver.Base.{ℤ, Option, none, some, Text}
use shareserver.World.{AdminRow, SessionRow, BanRow, FailureRow, AuditRow}
use shareserver.Ent.{text, int, Result, ok, ◌>>=◌}
use shareserver.Ent.Mutation.{create, new_mutation, set_id}
use shareserver.Ent.Update.{update_one_id}
use shareserver.Ent.Scan.{Scanned, text_field, int_pointer}
use shareserver.Ent.Admins
use shareserver.Ent.AuditEvents
use shareserver.Ent.IpBans
use shareserver.Ent.IpBans.{IpBanColumn, IpBanMutation, field_ip, field_banned_until}
use shareserver.Ent.LoginFailureEvents
use shareserver.Ent.Sessions
use shareserver.Ent.Sessions.{
  SessionColumn, SessionMutation, field_id, field_admin_id, field_csrf, field_language,
  field_created_at, field_expires_at,
}

-- `DBSessions.create`; an anonymous session sets no admin.
abbrev pub with_admin : Option ℤ → SessionMutation → SessionMutation
with_admin none m = m
with_admin (some n) m = Sessions.admin_id_methods.methods.methods.set n m

unfoldable pub session_builder : SessionRow → SessionMutation
session_builder r =
    let m0 : SessionMutation = set_id (text r.id) (new_mutation create) in
    let m1 = Sessions.csrf_methods.set r.csrf m0 in
    let m2 = Sessions.language_methods.set r.language m1 in
    let m3 = Sessions.created_at_methods.set r.created_at m2 in
    let m4 = Sessions.expires_at_methods.set r.expires_at m3 in with_admin r.admin_id m4

unfoldable pub ban_builder : BanRow → IpBanMutation
ban_builder r =
    IpBans.banned_until_methods.set r.banned_until (set_id (text r.id) (new_mutation create))

-- `UpdateOneID(ip).SetBannedUntil(until)` and `UpdateOneID(a.ID).SetPasswordHash(h)`
unfoldable pub ban_updater : Text → Text → IpBanMutation
ban_updater ip until = IpBans.banned_until_methods.set until (update_one_id (text ip))

unfoldable pub admin_updater : ℤ → Text → Admins.AdminMutation
admin_updater id hash = Admins.password_hash_methods.set hash (update_one_id (int id))

-- `recordLoginFailure` and `RecordFailure`
unfoldable pub failure_builder : FailureRow → LoginFailureEvents.LoginFailureEventMutation
failure_builder r =
    LoginFailureEvents.happened_at_methods.set r.happened_at
      (LoginFailureEvents.ip_methods.set r.ip (new_mutation create))

-- `Log`
unfoldable pub audit_builder : AuditRow → AuditEvents.AuditEventMutation
audit_builder r =
    let m1 = AuditEvents.actor_methods.set r.actor (new_mutation create) in
    let m2 = AuditEvents.ip_methods.set r.ip m1 in
    let m3 = AuditEvents.action_methods.set r.action m2 in
    let m4 = AuditEvents.target_methods.set r.target m3 in
    let m5 = AuditEvents.meta_methods.set r.meta m4 in
    AuditEvents.created_at_methods.set r.created_at m5

-- `EnsureAdmin`
unfoldable pub admin_builder : AdminRow → Admins.AdminMutation
admin_builder r =
    let m1 = Admins.username_methods.set r.username (new_mutation create) in
    let m2 = Admins.password_hash_methods.set r.password_hash m1 in
    Admins.created_at_methods.set r.created_at m2

-- `assignValues` of a Session and of an IpBan
unfoldable pub assign_session : (SessionColumn → Scanned) → Result SessionRow
assign_session v = do
  id ← text_field Sessions.schema v field_id
  admin_id ← int_pointer Sessions.schema v field_admin_id
  csrf ← text_field Sessions.schema v field_csrf
  language ← text_field Sessions.schema v field_language
  created_at ← text_field Sessions.schema v field_created_at
  expires_at ← text_field Sessions.schema v field_expires_at
  ok (record {
    id = id;
    admin_id = admin_id;
    csrf = csrf;
    language = language;
    created_at = created_at;
    expires_at = expires_at;
  })

unfoldable pub assign_ban : (IpBanColumn → Scanned) → Result BanRow
assign_ban v = do
  id ← text_field IpBans.schema v field_ip
  banned_until ← text_field IpBans.schema v field_banned_until
  ok (record { id = id; banned_until = banned_until })
