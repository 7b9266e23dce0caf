-- ===== src/Http/Laws.antt =====
-- internal/http/middleware.go: who reaches a handler.
use shareserver.Base.{ℕ, ◌+◌, ◌*◌, ◌≤◌, ◌<◌, ◌≡◌, ◌⊎◌, false, Text, codes, arith}
use shareserver.Base.Int.{pos, ◌≤ℤ◌}
use shareserver.Time.{second}
use shareserver.World.{World, M}
use shareserver.Http.{Request, Response, Net, Settings, see_other}
use shareserver.Http.Sessions.{Session}
use shareserver.Http.Middleware.{require_admin, client_ip, trust_proxy_headers, secure_request}
use shareserver.Http.Download.{wait_seconds}

-- The admin pages run for a session with a positive administrator id; every other request is sent
-- to the login page and changes nothing.
pub require_admin-guards :
    (s : Session) (next : M Response) (w : World)
    → ((pos 1 ≤ℤ s.admin_id) × (require_admin s next w ≡ next w))
      ⊎ ((s.admin_id ≤ℤ pos 0) × (require_admin s next w ≡ (see_other (codes "/admin/login"), w)))
unfolding require_admin
require_admin-guards s next w = ground arith

-- The request with other forwarding headers.
abbrev pub with_forwarding : Text → Text → Text → Request → Request
with_forwarding for_ ip proto r = record r {
  forwarded_for = for_;
  real_ip = ip;
  forwarded_proto = proto;
}

-- Whatever forwarding headers a peer that is not trusted sends, the address that its request is
-- given and whether the request counts as secure are the same as with any others: it cannot pass
-- for another address and cannot claim a secure connection.
pub untrusted_peer :
    (net : Net) (cfg : Settings) (r : Request) (for_ ip proto : Text)
    → trust_proxy_headers net cfg r ≡ false
    → (client_ip net cfg (with_forwarding for_ ip proto r) ≡ client_ip net cfg r)
      × (secure_request net cfg (with_forwarding for_ ip proto r) ≡ secure_request net cfg r)
unfolding client_ip secure_request trust_proxy_headers
untrusted_peer net cfg r f i p h = ground arith

-- The wait that Retry-After announces is at least a second, reaches the end of the ban, and is less
-- than a second too long.
pub wait_seconds_lem :
    (until now : ℕ)
    → now < until
    → (1 ≤ wait_seconds until now)
      × (until ≤ now + wait_seconds until now * second)
      × (now + wait_seconds until now * second < until + second)
wait_seconds_lem until now h = (omega arith, omega arith, omega arith)
