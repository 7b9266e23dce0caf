-- ===== src/Http/Api.antt =====
-- internal/http/handlers.go: the upload, private list and download endpoints.
use shareserver.Base.{
  ℕ, Bool, false, ◌&&◌, ◌||◌, not, Option, none, some, List, [], ◌∷◌, ◌++◌, map, Text, codes,
  has_prefix, to_lower, is_empty, if◌then◌else◌,
}
use shareserver.Base.Int.{pos, ltb_ℤ}
use shareserver.World.{Node, regular, directory, irregular, M, pure, ◌>>=◌, ◌>>◌}
use shareserver.World.Files.{find_node}
use shareserver.Auth.{Crypto, check_password_hash, hmac_key}
use shareserver.Share.{Share, active_at, is_active}
use shareserver.Share.Store.{list_by_key}
use shareserver.Storage.{Reader}
use shareserver.Storage.Integrity.{reconcile}
use shareserver.Upload.{UploadError, Config}
use shareserver.Upload as Up
use shareserver.Upload.Do.{Receipt, Outcome, done, refused, Draws, do_upload}
use shareserver.Http.{Request, Response, Net, Parsers, Settings, http_error}
use shareserver.Http.Sessions.{Session}
use shareserver.Http.Middleware.{secure_request, client_ip, same_token}
use shareserver.Http.Download.{
  Recorded, allowed, banned, broken, banned_until, record_failure, retry_after_seconds,
}
use shareserver.Http.Body.{
  Body, Part, UploadParts, parsed, field_too_large, bad_upload, upload_parts, field,
  request_body_value, max_private_key_bytes, max_download_password_bytes,
}
use shareserver.Http.Shares.{get_share}

abbrev pub https_required : Response
https_required = http_error (codes "HTTPS required") 426

abbrev pub csrf_rejected : Response
csrf_rejected = http_error (codes "csrf rejected") 403

pub data UploadReply : Type 0 where
  upload_error : Response → UploadReply
  created : Receipt → UploadReply

abbrev pub error_response : UploadError → Response
error_response UploadError.admin_required =
    http_error (codes "admin required for download notices") 403
error_response UploadError.too_large = http_error (codes "upload too large after zip/encrypt") 413
error_response UploadError.private_key_required = http_error (codes "private key required") 400
error_response UploadError.password_hash_required =
    http_error (codes "download password hash required") 400
error_response UploadError.password_hash_invalid = http_error (codes "invalid password hash") 400
error_response UploadError.encryption_required = http_error (codes "invalid encryption mode") 400
error_response UploadError.metadata_too_large = http_error (codes "metadata too large") 413
error_response UploadError.invalid_body = http_error (codes "bad upload") 400
error_response UploadError.cap =
    http_error (codes "server couldn't keep this right now. try again later.") 507
error_response UploadError.store =
    http_error (codes "server couldn't keep this right now. try again later.") 500

abbrev reply : Outcome → UploadReply
reply (done receipt) = created receipt
reply (refused e) = upload_error (error_response e)

abbrev pub upload_config : Settings → Config
upload_config cfg = record {
  blob_dir = cfg.blob_dir;
  max_upload_bytes = cfg.max_upload_bytes;
  storage_cap_bytes = cfg.storage_cap_bytes;
  app_secret = cfg.app_secret;
}

-- A token is refused, or says whether it is an administrator's; no token is an API client's.
abbrev pub upload_admin : Request → Session → Option Bool
upload_admin r s =
    if is_empty r.csrf_header
    then some false
    else if is_empty s.csrf || not (same_token r.csrf_header s.csrf)
    then none
    else some (ltb_ℤ (pos 0) s.admin_id)

abbrev pub upload_request : List (Text × Text) → Reader → Text → Bool → Up.Request
upload_request fields file ip admin = record {
  title = field (codes "title") fields;
  visibility = field (codes "visibility") fields;
  private_key = field (codes "private_key") fields;
  download_password_hash = field (codes "password_hash") fields;
  cipher_meta = field (codes "cipher_meta") fields;
  zip_manifest = field (codes "zip_manifest") fields;
  encrypted_flag = field (codes "encrypted") fields;
  expiry_hours = field (codes "expiry_hours") fields;
  security_warning = field (codes "security_warning") fields;
  admin_message = field (codes "admin_message") fields;
  reader = file;
  uploader_ip = ip;
  admin = admin;
}

module _ (c : Crypto) (net : Net) (p : Parsers) (cfg : Settings) (r : Request) where
  abbrev store_parts : Draws → Bool → UploadParts → M UploadReply
  store_parts draws admin (parsed fields none) =
      pure (upload_error (http_error (codes "missing blob") 400))
  store_parts draws admin (parsed fields (some file)) = do
    o ←
        do_upload c (upload_config cfg) (p.cipher_metadata (field (codes "cipher_meta") fields))
          (upload_request fields file (client_ip net cfg r) admin) draws
    pure (reply o)
  store_parts draws admin field_too_large =
      pure (upload_error (http_error (codes "metadata too large") 413))
  store_parts draws admin bad_upload = pure (upload_error (http_error (codes "bad upload") 400))

  -- `parts` is none where the content type gives no multipart reader.
  unfoldable pub api_upload_post : Session → Draws → Option (List Part) → Bool → M UploadReply
  api_upload_post s draws parts finished =
      if not (secure_request net cfg r)
      then pure (upload_error https_required)
      else elim (upload_admin r s) [
        | none ↦ pure (upload_error csrf_rejected)
        | some admin ↦
            if not (has_prefix (codes "multipart/form-data") (to_lower r.content_type))
            then pure (upload_error (http_error (codes "multipart upload required") 415))
            else elim parts [
              | none ↦ store_parts draws admin bad_upload
              | some l ↦ store_parts draws admin (upload_parts finished [] l)
            ]
      ]

  -- One archive of the private list.
  unfoldable pub private_archive : Share → Receipt × Text × Text
  private_archive s = (
    record {
      id = s.id;
      url = codes "/s/" ++ s.id;
      download_url = codes "/api/v0/download/" ++ s.id;
      expires_at = if s.expires_at.valid then s.expires_at.string else [];
      cipher_meta = if p.json_valid s.cipher_meta then s.cipher_meta else codes "{}";
      encryption = codes "client";
      size = s.size;
      security_warning = s.security_warning;
      admin_message = s.admin_message;
    },
    s.title,
    s.created_at,
  )

  -- The archives, or the refusal.
  unfoldable pub api_private_list_post : Body → M (Option (List (Receipt × Text × Text)) × Response)
  api_private_list_post body =
      if not (secure_request net cfg r)
      then pure (none, https_required)
      else elim (request_body_value p r.raw_query r.content_type body (codes "private_key")
          max_private_key_bytes) [
            | none ↦ pure (none, http_error (codes "invalid private key request") 400)
            | some key ↦ do
              reconcile cfg.blob_dir
              l ← list_by_key (active_at r.clock) (hmac_key c cfg.app_secret key)
              pure (some (map private_archive l), http_error [] 200)
          ]

pub data DownloadReply : Type 0 where
  download_error : Response → DownloadReply
  -- the Share's id, which names the file, and the file's bytes
  payload : Text → Text → DownloadReply

abbrev pub too_many : Text → Response
too_many wait = record {
  status = 429;
  message = codes "too many download attempts";
  headers = (codes "Retry-After", wait) ∷ [];
  cookie = none;
}

abbrev pub denial : ℕ → Recorded → Response
denial now allowed = http_error (codes "download denied") 401
denial now (banned until) = too_many (retry_after_seconds until now)
denial now broken = too_many (codes "60")

-- `http.ServeFile` of the whole blob.
abbrev served : Share → Option Node → DownloadReply
served s (some (regular bytes)) = payload s.id bytes
served s (some directory) = download_error (http_error (codes "404 page not found") 404)
served s (some (irregular _)) = download_error (http_error (codes "404 page not found") 404)
served s none = download_error (http_error (codes "404 page not found") 404)

-- Whether the password hash opens the Share.
abbrev pub opens : Crypto → Text → Share → Bool
opens c password_hash s =
    s.encrypted
    && not (is_empty s.download_password_hash)
    && check_password_hash c s.download_password_hash password_hash

module _ (c : Crypto) (net : Net) (p : Parsers) (cfg : Settings) (r : Request) where
  -- `deny`
  abbrev deny : ℕ → ℕ → M DownloadReply
  deny now jitter = do
    o ← record_failure (client_ip net cfg r) now jitter
    pure (download_error (denial now o))

  abbrev release : Share → M DownloadReply
  release s w =
      if not (is_active (active_at r.clock) s)
      then (download_error (http_error (codes "expired") 410), w)
      else (served s (find_node w s.blob_path), w)

  abbrev answer : ℕ → ℕ → Text → Option Share → M DownloadReply
  answer now jitter password_hash none = deny now jitter
  answer now jitter password_hash (some s) =
      if opens c password_hash s then release s else deny now jitter

  -- `now` is the handler's own reading of the clock, `r.clock` that of the middleware.
  unfoldable pub api_download_post : ℕ → ℕ → Text → Body → M DownloadReply
  api_download_post now jitter target body =
      if not (secure_request net cfg r) then pure (download_error https_required) else (do
        b ← banned_until (client_ip net cfg r) now
        elim b [
          | some t ↦ pure (download_error (too_many (retry_after_seconds t now)))
          | none ↦
              elim (request_body_value p r.raw_query r.content_type body (codes "password_hash")
                max_download_password_bytes) [
                  | none ↦ deny now jitter
                  | some password_hash ↦ do s ← get_share target; answer now jitter password_hash s
                ]
        ])
