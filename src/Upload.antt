-- ===== src/Upload.antt =====
-- internal/upload/upload.go, the policy on the request: what is rejected before anything is stored.
pub mod Capacity
pub mod Do
pub mod Expiry
pub mod Admission
pub mod Ledger
pub mod Stored
pub mod Pool
pub mod Interleaved
pub mod Staging
pub mod Runs
pub mod Receipts
pub mod Recorded
pub mod Success
pub mod Lifetime
use shareserver.Base.{
  ℕ, ◌*◌, ℤ, Bool, true, false, ◌&&◌, ◌||◌, not, Option, none, some, List, [], ◌∷◌, ◌++◌, Text,
  codes, text_eq, is_empty, trim_space, ltb, ◌==◌, if◌then◌else◌, length,
}
use shareserver.Base.Int.{pos, negsuc, leb_ℤ, ltb_ℤ}
use shareserver.Codec.{decode64, atoi}
use shareserver.Auth.{Crypto, valid_password_hash, hmac_key}
use shareserver.Storage.{Reader}

abbrev pub max_admin_message_bytes : ℕ
max_admin_message_bytes = 4096

abbrev pub max_title_bytes : ℕ
max_title_bytes = 512

abbrev pub max_cipher_bytes : ℕ
max_cipher_bytes = 4096

abbrev pub max_manifest_bytes : ℕ
max_manifest_bytes = 65536

abbrev pub max_password_hash_bytes : ℕ
max_password_hash_bytes = 4096

-- `ErrTooLarge` and so on.
pub data UploadError : Type 0 where
  too_large cap store private_key_required password_hash_required password_hash_invalid :
      UploadError
  encryption_required metadata_too_large invalid_body admin_required : UploadError

pub record Config : Type 0 where
  pub blob_dir : Text
  pub max_upload_bytes : ℤ
  pub storage_cap_bytes : ℤ
  pub app_secret : Text

pub record Request : Type 0 where
  pub title : Text
  pub visibility : Text
  pub private_key : Text
  pub download_password_hash : Text
  pub cipher_meta : Text
  pub zip_manifest : Text
  pub encrypted_flag : Text
  pub expiry_hours : Text
  pub security_warning : Text
  pub admin_message : Text
  pub reader : Reader
  pub uploader_ip : Text
  pub admin : Bool

pub record CipherMetadata : Type 0 where
  pub kdf : Text
  pub iterations : ℤ
  pub salt : Text
  pub cipher : Text
  pub nonce : Text

abbrev decodes_to : ℕ → Option Text → Bool
decodes_to n none = false
decodes_to n (some bytes) = length bytes == n

-- `validCipherMeta` after `json.Unmarshal`, which gives none on an error.
unfoldable pub valid_cipher_meta : Option CipherMetadata → Bool
valid_cipher_meta none = false
valid_cipher_meta (some meta) =
    text_eq meta.kdf (codes "PBKDF2-SHA-384")
    && text_eq meta.cipher (codes "AES-256-GCM")
    && leb_ℤ (pos 100000) meta.iterations
    && leb_ℤ meta.iterations (pos 1200000)
    && decodes_to 16 (decode64 meta.salt)
    && decodes_to 12 (decode64 meta.nonce)

-- The `switch` on the flag: none is a value that it does not know.
unfoldable pub warning_flag : Text → Option Bool
warning_flag s =
    if is_empty s || text_eq s (codes "0") || text_eq s (codes "false")
    then some false
    else if text_eq s (codes "1") || text_eq s (codes "true")
    then some true
    else none

abbrev pub is_true_flag : Text → Bool
is_true_flag s = text_eq s (codes "1") || text_eq s (codes "true")

-- Hours above 0 and at most `most`, 6 where the request gives none.
abbrev pub clamp_hours : ℤ → ℕ → ℕ
clamp_hours (negsuc _) most = 6
clamp_hours (pos n) most = if n == 0 then 6 else if ltb most n then most else n

unfoldable pub expiry_hours : Bool → Text → ℕ
expiry_hours admin s = clamp_hours (atoi s).0 (if admin then 24 * 90 else 24)

-- What a request that passes is stored with.
pub record Policy : Type 0 where
  pub title : Text
  pub visibility : Text
  pub key_hash : Text
  pub hours : ℕ
  pub security_warning : Bool
  pub admin_message : Text

pub data Checked : Type 0 where
  rejected : UploadError → Checked
  accepted : Policy → Checked

abbrev pub stored_title : Text → Text
stored_title s = if is_empty s then codes "untitled share" else s

abbrev pub is_too_long : Request → Bool
is_too_long req =
    ltb max_title_bytes (length (stored_title req.title))
    || ltb max_password_hash_bytes (length req.download_password_hash)
    || ltb max_cipher_bytes (length req.cipher_meta)
    || ltb max_manifest_bytes (length req.zip_manifest)
    || ltb max_admin_message_bytes (length req.admin_message)

-- The checks after the warning flag is read.
unfoldable pub check_access : Crypto → Config → Option CipherMetadata → Request → Bool → Checked
check_access c cfg meta req warning =
    let message = trim_space req.admin_message in
    let private = text_eq req.visibility (codes "private") in
    if not req.admin && (warning || not (is_empty message))
    then rejected admin_required
    else if not (is_true_flag req.encrypted_flag)
    then rejected encryption_required
    else if not (valid_cipher_meta meta)
    then rejected encryption_required
    else if is_empty req.download_password_hash
    then rejected password_hash_required
    else if not (valid_password_hash req.download_password_hash)
    then rejected password_hash_invalid
    else if private && is_empty req.private_key
    then rejected private_key_required
    else accepted (record {
      title = stored_title req.title;
      visibility = if private then codes "private" else codes "public";
      key_hash = if private then hmac_key c cfg.app_secret req.private_key else [];
      hours = expiry_hours req.admin req.expiry_hours;
      security_warning = warning;
      admin_message = message;
    })

-- The first half of `Do`: `meta` is what json.Unmarshal makes of the cipher metadata.
unfoldable pub validate : Crypto → Config → Option CipherMetadata → Request → Checked
validate c cfg meta req =
    if is_too_long req
    then rejected metadata_too_large
    else elim (warning_flag req.security_warning) [
      | none ↦ rejected invalid_body
      | some warning ↦ check_access c cfg meta req warning
    ]
