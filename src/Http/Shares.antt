-- ===== src/Http/Shares.antt =====
-- internal/http/router.go: a Share by its route parameter, and the pages that list Shares.
use shareserver.Base.{
  ℕ, zero, suc, Bool, true, false, ◌&&◌, ◌||◌, not, Option, none, some, List, [], ◌∷◌, Text,
  is_empty, leb, ◌==◌, if◌then◌else◌,
}
use shareserver.World.{Node, Result, ok, err, not_found, M, pure, ◌>>=◌, ◌>>◌}
use shareserver.World.Path.{clean}
use shareserver.World.Files.{lstat, is_regular}
use shareserver.Auth.{Crypto, hmac_key}
use shareserver.Share.{Share, Status, active, expired, purged, active_at, status}
use shareserver.Share.Store.{get, list_public, list_by_key}
use shareserver.Storage.Integrity.{remove_share, reconcile}
use shareserver.Http.{Settings}

abbrev pub is_hex_byte : ℕ → Bool
is_hex_byte c =
    (leb b'0' c && leb c b'9') || (leb b'a' c && leb c b'f') || (leb b'A' c && leb c b'F')

-- `k` hexadecimal digits and then a rest that passes.
unfoldable pub hex_run : ℕ → (Text → Bool) → Text → Bool
hex_run zero rest s = rest s
hex_run (suc k) rest [] = false
hex_run (suc k) rest (c ∷ s) = is_hex_byte c && hex_run k rest s

abbrev pub dash : (Text → Bool) → Text → Bool
dash rest [] = false
dash rest (c ∷ s) = c == b'-' && rest s

-- `uuidRE`
unfoldable pub valid_uuid : Text → Bool
valid_uuid id =
    hex_run 8 (dash (hex_run 4 (dash (hex_run 4 (dash (hex_run 4 (dash (hex_run 12 is_empty))))))))
      id

-- Of the blob's `Lstat`: the Share, or none and the stale row removed.
abbrev with_blob : Share → Result Node → M (Option Share)
with_blob sh (ok n) = if is_regular n then pure (some sh) else (do remove_share sh; pure none)
with_blob sh (err not_found) = do remove_share sh; pure none
with_blob sh (err _) = pure none

unfoldable pub get_share : Text → M (Option Share)
get_share id = elim (valid_uuid id) [
  | false ↦ pure none
  | true ↦ do
    r ← get id
    elim r [ none ↦ pure none | some sh ↦ do seen ← lstat (clean sh.blob_path); with_blob sh seen ]
]

-- The archives beside a page, and whether they are the private ones of a key.
unfoldable pub archives_for_key : Settings → ℕ → Text → M (List Share × Bool)
archives_for_key cfg now key_hash = do
  reconcile cfg.blob_dir
  elim (is_empty key_hash) [
    | false ↦ do l ← list_by_key (active_at now) key_hash; pure (l, true)
    | true ↦ do l ← list_public (active_at now); pure (l, false)
  ]

-- What `renderArchive` is given to show: a page, or the 404 page.
pub data Page : Type 0 where
  not_found_page : Page
  archive : Option (Share × Status) → List Share → Bool → Page

unfoldable pub home : Crypto → Settings → ℕ → Bool → Text → M Page
home c cfg now posted form_key = do
  let key = if posted then form_key else []
  a ← archives_for_key cfg now (if is_empty key then [] else hmac_key c cfg.app_secret key)
  pure (archive none a.0 a.1)

unfoldable pub share_page : Settings → ℕ → Text → M Page
share_page cfg now id = do
  r ← get_share id
  elim r [
    | none ↦ pure not_found_page
    | some s ↦
        let shown : Status → M Page =
          λ st. (do a ← archives_for_key cfg now []; pure (archive (some (s, st)) a.0 a.1)) in
        elim (not s.encrypted || is_empty s.download_password_hash) [
          | true ↦ pure not_found_page
          | false ↦ elim (status (active_at now) s) [
            | purged ↦ pure not_found_page
            | active ↦ shown active
            | expired ↦ shown expired
          ]
        ]
  ]
