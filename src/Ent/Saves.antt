-- ===== src/Ent/Saves.antt =====
-- What the builders of Ent/Builders give the database.
use shareserver.Base.{ℤ, Option, none, some, Text, List, [], ◌∷◌, map, ◌≡◌, refl, arith}
use shareserver.World.{AdminRow, SessionRow, BanRow, FailureRow, AuditRow}
use shareserver.Ent.{Value, null, text, int, Schema, int_kind, Result, ok, ◌>>=◌, Row}
use shareserver.Ent.Mutation.{
  new_mutation, set_id, set_value, set_number, value_of, is_cleared, added_number,
}
use shareserver.Ent.Create.{with_defaults, missing, create_spec, save}
use shareserver.Ent.Update.{update_one_id, update_spec, update_one_spec}
use shareserver.Ent.Scan.{Scanning, IsScan, scan_values, nullable_int}
use shareserver.Ent.Builders.{
  session_builder, ban_builder, ban_updater, admin_updater, failure_builder, audit_builder,
  admin_builder, assign_session, assign_ban,
}
use shareserver.Ent.Admins
use shareserver.Ent.AuditEvents
use shareserver.Ent.IpBans
use shareserver.Ent.LoginFailureEvents
use shareserver.Ent.Sessions

abbrev pub load_session : Scanning → Row Sessions.SessionColumn → Result SessionRow
load_session scan row = assign_session (scan_values Sessions.schema scan row)

abbrev pub load_ban : Scanning → Row IpBans.IpBanColumn → Result BanRow
load_ban scan row = assign_ban (scan_values IpBans.schema scan row)

abbrev admin_value : Option ℤ → Value
admin_value none = null
admin_value (some n) = int n

module _ (scan : Scanning) (h : IsScan scan) where
  scan-admin : (o : Option ℤ) → scan int_kind (admin_value o) ≡ nullable_int o
  scan-admin none = h.null_int
  scan-admin (some n) = h.some_int n

  session_saved :
      (r : SessionRow) → (save Sessions.schema (session_builder r) >>= load_session scan) ≡ ok r
  unfolding save create_spec missing with_defaults session_builder new_mutation set_id set_value
      set_number value_of scan_values assign_session
  session_saved r = ground (
    arith,
    h.some_text r.id,
    h.some_text r.csrf,
    h.some_text r.language,
    h.some_text r.created_at,
    h.some_text r.expires_at,
    scan-admin r.admin_id,
  )

  ban_saved : (r : BanRow) → (save IpBans.schema (ban_builder r) >>= load_ban scan) ≡ ok r
  unfolding save create_spec missing with_defaults ban_builder new_mutation set_id set_value
      value_of scan_values assign_ban
  ban_saved r = ground (arith, h.some_text r.id, h.some_text r.banned_until)

-- The columns of a row in the schema's order.
abbrev pub in_order : {C : Type 0} → Schema C → Row C → Result (List Value)
in_order s row = ok (map row s.columns)

failure_saved :
    (r : FailureRow)
    → (save LoginFailureEvents.schema (failure_builder r) >>= in_order LoginFailureEvents.schema)
      ≡ ok (null ∷ text r.ip ∷ text r.happened_at ∷ [])
unfolding save create_spec missing with_defaults failure_builder new_mutation set_value value_of
failure_saved r = refl

audit_saved :
    (r : AuditRow)
    → (save AuditEvents.schema (audit_builder r) >>= in_order AuditEvents.schema)
      ≡ ok (
          null
          ∷ text r.actor
          ∷ text r.ip
          ∷ text r.action
          ∷ text r.target
          ∷ text r.meta
          ∷ text r.created_at
          ∷ [])
unfolding save create_spec missing with_defaults audit_builder new_mutation set_value value_of
audit_saved r = refl

admin_saved :
    (r : AdminRow)
    → (save Admins.schema (admin_builder r) >>= in_order Admins.schema)
      ≡ ok (null ∷ text r.username ∷ text r.password_hash ∷ text r.created_at ∷ [])
unfolding save create_spec missing with_defaults admin_builder new_mutation set_value value_of
admin_saved r = refl

-- The rows of the other five tables.
abbrev pub SavesRows : Scanning → SessionRow → BanRow → FailureRow → AuditRow → AdminRow → Type 0
SavesRows scan session ban failure audit admin =
    ((save Sessions.schema (session_builder session) >>= load_session scan) ≡ ok session)
    × ((save IpBans.schema (ban_builder ban) >>= load_ban scan) ≡ ok ban)
    × ((save LoginFailureEvents.schema (failure_builder failure)
          >>= in_order LoginFailureEvents.schema)
        ≡ ok (null ∷ text failure.ip ∷ text failure.happened_at ∷ []))
    × ((save AuditEvents.schema (audit_builder audit) >>= in_order AuditEvents.schema)
        ≡ ok (
            null
            ∷ text audit.actor
            ∷ text audit.ip
            ∷ text audit.action
            ∷ text audit.target
            ∷ text audit.meta
            ∷ text audit.created_at
            ∷ []))
    × ((save Admins.schema (admin_builder admin) >>= in_order Admins.schema)
        ≡ ok (null ∷ text admin.username ∷ text admin.password_hash ∷ text admin.created_at ∷ []))

-- Where Rows.Scan leaves NULL and a value of the field's own type in its variable: the session and
-- the ban that the program creates pass the checks and are scanned back as they are, and a login
-- failure, an audit event and an administrator pass the checks with the fields they were given and an
-- id left to the database.
pub save-SavesRows :
    (scan : Scanning)
    → IsScan scan
    → (session : SessionRow) (ban : BanRow) (failure : FailureRow) (audit : AuditRow)
      (admin : AdminRow)
    → SavesRows scan session ban failure audit admin
save-SavesRows scan h session ban failure audit admin = (
  session_saved scan h session,
  ban_saved scan h ban,
  failure_saved failure,
  audit_saved audit,
  admin_saved admin,
)

-- The two updates of the program change the one column they name, of the one row of the id.
pub update_one_lem :
    (ip until : Text) (id : ℤ) (hash : Text)
    → (update_one_spec IpBans.schema [] (ban_updater ip until)
        ≡ ok (record {
          id = some (text ip);
          read = map IpBans.column_name IpBans.columns;
          predicates = [];
          sets = (IpBans.field_banned_until, text until) ∷ [];
          adds = [];
          clears = [];
        }))
      × (update_one_spec Admins.schema [] (admin_updater id hash)
          ≡ ok (record {
            id = some (int id);
            read = map Admins.column_name Admins.columns;
            predicates = [];
            sets = (Admins.field_password_hash, text hash) ∷ [];
            adds = [];
            clears = [];
          }))
unfolding update_one_spec update_spec update_one_id ban_updater admin_updater new_mutation set_id
    set_value value_of is_cleared added_number
update_one_lem ip until id hash = (refl, refl)
