-- ===== src/Witnesses/Handlers.antt =====
-- The theorems on single handlers and middleware, at concrete inputs.
use shareserver.Base.{false, ◌≡◌, refl, true, none, some, [], ◌∷◌, Text, codes, text_eq}
use shareserver.Time.{parse}
use shareserver.Codec.{decode64, encode64}
use shareserver.World.{fault}
use shareserver.World.Path.{clean, absolute, join_path, split}
use shareserver.World.Files.{lookup, lstat}
use shareserver.World.Db.{only_admin, get_ban, get_session, delete_session, create_session}
use shareserver.World.Db as Db
use shareserver.Auth.{check_password_hash, decode_password_hash}
use shareserver.Share.{Share, active_at, is_expired, is_active}
use shareserver.Share.Store.{
  predicate, expired_predicate, from_ent, to_row, list_by_key, null_string, null_string_ptr,
}
use shareserver.Share.Store as Store
use shareserver.Storage.{uuid}
use shareserver.Http.Sessions.{get, end_session}
use shareserver.Http.SessionLaws.{end_session-get}
use shareserver.Http.Middleware.{client_ip, clean_ip, trust_proxy_headers, secure_request}
use shareserver.Http.{Request, Settings}
use shareserver.Http.Laws.{with_forwarding, untrusted_peer}
use shareserver.Http.Shares.{valid_uuid}
use shareserver.Http.Ids.{valid_uuid-uuid}
use shareserver.Http.Api.{api_download_post, opens}
use shareserver.Http.Body.{request_body_value}
use shareserver.Http.Download.{banned_until}
use shareserver.Http.Shares as Shares
use shareserver.Http.Released.{ban_read, given_hash, share_read, payload-authorized}
use shareserver.World.{BanRow}
use shareserver.Http.Download.{record_failure}
use shareserver.Http.Isolation.{ban_of, record_failure-ban_of}
use shareserver.Fixtures as Fix

-- Forwarding headers count, but 10.0.0.2 is no loopback and no proxy of Railway.
abbrev trusting : Settings
trusting = record Fix.settings { trust_proxy_headers = true }

abbrev plain_request : Request
plain_request = record Fix.request { tls = false }

untrusted_peer_example :
    let forged =
      with_forwarding (codes "127.0.0.1") (codes "127.0.0.3") (codes "https") plain_request in
    (client_ip Fix.net trusting forged ≡ client_ip Fix.net trusting plain_request)
    × (secure_request Fix.net trusting forged ≡ secure_request Fix.net trusting plain_request)
unfolding trust_proxy_headers clean_ip text_eq
untrusted_peer_example =
    untrusted_peer Fix.net trusting plain_request (codes "127.0.0.1") (codes "127.0.0.3")
      (codes "https") refl

valid_uuid-uuid_example : valid_uuid (uuid 0 1 2 3 4 5 255 7 255 9 10 11 12 13 14 15) ≡ true
valid_uuid-uuid_example = valid_uuid-uuid 0 1 2 3 4 5 255 7 255 9 10 11 12 13 14 15

end_session-get_example :
    (get (codes "old") Fix.now (end_session (codes "old") Fix.world).1).0 ≡ none
end_session-get_example = end_session-get (codes "old") Fix.now Fix.world refl

payload-authorized_example :
    let b =
      ban_read Fix.crypto Fix.net Fix.parsers Fix.settings Fix.request Fix.now 0 Fix.id Fix.body
        Fix.world in
    let g =
      given_hash Fix.crypto Fix.net Fix.parsers Fix.settings Fix.request Fix.now 0 Fix.id Fix.body
        Fix.world in
    let r =
      share_read Fix.crypto Fix.net Fix.parsers Fix.settings Fix.request Fix.now 0 Fix.id Fix.body
        Fix.world in
    (secure_request Fix.net Fix.settings Fix.request ≡ true)
    × (b.0 ≡ none)
    × ((password_hash : Text) × (g ≡ some password_hash)
        × ((s : Share) × (r.0 ≡ some s)
            × (opens Fix.crypto password_hash s ≡ true)
            × (is_active (active_at Fix.now) s ≡ true)
            × (Fix.id ≡ s.id)))
unfolding api_download_post secure_request trust_proxy_headers client_ip banned_until get_ban fault
    request_body_value text_eq Shares.get_share valid_uuid Shares.hex_run Store.get Db.get_share
    from_ent lstat absolute join_path clean split lookup check_password_hash decode_password_hash
    decode64 encode64 is_active is_expired active_at parse clean_ip Store.string_value null_string
payload-authorized_example =
    payload-authorized Fix.crypto Fix.net Fix.parsers Fix.settings Fix.request Fix.now 0 Fix.id
      Fix.body Fix.world Fix.id Fix.blob refl

-- A ban of the admin login.
abbrev login_ban : BanRow
login_ban = record { id = codes "10.0.0.1"; banned_until = codes "2026-11-27T00:00:00Z" }

record_failure-ban_of_example :
    ban_of
      (codes "10.0.0.1")
      (record_failure
        (codes "10.0.0.1")
        Fix.now
        0
        (record Fix.world { bans = login_ban ∷ [] })).1.bans
    ≡ ban_of (codes "10.0.0.1") (login_ban ∷ [])
unfolding text_eq
record_failure-ban_of_example =
    record_failure-ban_of (codes "10.0.0.1") (codes "10.0.0.1") refl Fix.now 0
      (record Fix.world { bans = login_ban ∷ [] })
