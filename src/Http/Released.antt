-- ===== src/Http/Released.antt =====
-- internal/http/handlers.go: when a download releases ciphertext.
use shareserver.Base.{
  ℕ, ◌≡◌, inl, inr, true, Option, none, some, Text, codes, arith, Bool-cases, Option-cases,
}
use shareserver.World.{World}
use shareserver.Auth.{Crypto}
use shareserver.Share.{Share, active_at, is_active}
use shareserver.Http.{Request, Net, Parsers, Settings}
use shareserver.Http.Middleware.{secure_request, client_ip}
use shareserver.Http.Download.{banned_until}
use shareserver.Http.Body.{Body, request_body_value, max_download_password_bytes}
use shareserver.Http.Shares.{get_share}
use shareserver.Http.Api.{payload, api_download_post, opens}

module _ (c : Crypto) (net : Net) (p : Parsers) (cfg : Settings) (r : Request) (now jitter : ℕ)
    (target : Text) (body : Body) (w : World) where
  -- The ban's state, the password hash and the Share that the handler meets on its way.
  abbrev pub ban_read : Option ℕ × World
  ban_read = banned_until (client_ip net cfg r) now w

  abbrev pub given_hash : Option Text
  given_hash =
      request_body_value p r.raw_query r.content_type body (codes "password_hash")
        max_download_password_bytes

  abbrev pub share_read : Option Share × World
  share_read = get_share target ban_read.1

  -- Ciphertext leaves the server only over a secure connection, to an address with no ban, for a
  -- well-formed body whose password hash opens the Share, and while the Share is active.
  pub payload-authorized :
      (id bytes : Text)
      → (api_download_post c net p cfg r now jitter target body w).0 ≡ payload id bytes
      → (secure_request net cfg r ≡ true)
        × (ban_read.0 ≡ none)
        × ((password_hash : Text) × (given_hash ≡ some password_hash)
            × ((s : Share) × (share_read.0 ≡ some s)
                × (opens c password_hash s ≡ true)
                × (is_active (active_at r.clock) s ≡ true)
                × (id ≡ s.id)))
  unfolding api_download_post
  payload-authorized id bytes h = elim (Bool-cases (secure_request net cfg r)) [
    | inr plain ↦ absurd (ground arith)
    | inl tls ↦ elim (Option-cases ban_read.0) [
      | inr (t, out) ↦ absurd (ground arith)
      | inl free ↦ elim (Option-cases given_hash) [
        | inl bad ↦ absurd (ground arith)
        | inr (ph, good) ↦ elim (Option-cases share_read.0) [
          | inl missing ↦ absurd (ground arith)
          | inr (s, found) ↦
              (tls, free, (ph, good, (s, found, ground arith, ground arith, ground arith)))
        ]
      ]
    ]
  ]
