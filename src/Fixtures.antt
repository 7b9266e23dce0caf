-- ===== src/Fixtures.antt =====
-- Concrete inputs for the examples: a world with one Share, and stand-ins for what is not modelled.
use shareserver.Base.{ℕ, ◌*◌, true, false, none, some, [], ◌∷◌, Text, codes}
use shareserver.Base.Int.{pos}
use shareserver.Time.{second}
use shareserver.World.{World, ShareRow, SessionRow, AdminRow, regular}
use shareserver.Auth.{Crypto}
use shareserver.Storage.{eof}
use shareserver.Upload as Up
use shareserver.Upload.{CipherMetadata}
use shareserver.Upload.Do.{Draws}
use shareserver.Http.{Request, Net, Parsers, Settings}
use shareserver.Http.Body.{Body}

abbrev pub id : Text
id = codes "00000000-0000-4000-8000-000000000000"

-- The canonical Base64 of 32 zero bytes.
abbrev pub password_hash : Text
password_hash = codes "AAAAAAAAAAAAAAAAAAAAAAAAAAAAAAAAAAAAAAAAAAA="

-- 2026-11-26T13:42:53Z
abbrev pub now : ℕ
now = 63_931_297_373 * second

abbrev pub row : ShareRow
row = record {
  id = id;
  title = codes "notes";
  visibility = codes "private";
  private_key_hash = some (codes "6b");
  download_password_hash = some (codes "verifier");
  encrypted = true;
  cipher_meta = codes "{}";
  zip_manifest = codes "[]";
  security_warning = false;
  admin_message = [];
  size = pos 16;
  blob_path = codes "data/blobs/00000000-0000-4000-8000-000000000000.blob";
  blob_sha256 = codes "00";
  uploader_ip = codes "10.0.0.1";
  expires_at = some (codes "2026-11-27T00:00:00Z");
  created_at = codes "2026-11-26T12:00:00Z";
  purged_at = none;
}

abbrev pub blob : Text
blob = codes "0123456789abcdef"

abbrev pub session_row : SessionRow
session_row = record {
  id = codes "old";
  admin_id = none;
  csrf = codes "token";
  language = codes "ko";
  created_at = codes "2026-11-26T12:00:00Z";
  expires_at = codes "2026-11-27T00:00:00Z";
}

abbrev pub admin_row : AdminRow
admin_row = record {
  id = 7;
  username = codes "admin";
  password_hash = codes "verifier";
  created_at = [];
}

abbrev pub world : World
world = record {
  shares = row ∷ [];
  admins = admin_row ∷ [];
  sessions = session_row ∷ [];
  bans = [];
  failures = [];
  audit = [];
  files = (codes "/srv/data/blobs/00000000-0000-4000-8000-000000000000.blob", regular blob) ∷ [];
  cwd = codes "/srv";
  reservations = [];
  faults = [];
}

-- A verifier that only says of what kind it is.
abbrev pub crypto : Crypto
crypto = record {
  bcrypt_generate = λ salt digest. some (codes "verifier");
  bcrypt_compare = λ verifier digest. true;
  sha256 = λ s. s;
  hmac_sha256 = λ secret key. key;
  nfc = λ s. s;
}

abbrev pub net : Net
net = record {
  split_host = λ s. none;
  parse_ip = λ s. some s;
  is_loopback = λ ip. false;
  in_railway = λ ip. false;
}

abbrev pub metadata : CipherMetadata
metadata = record {
  kdf = codes "PBKDF2-SHA-384";
  iterations = pos 600000;
  salt = codes "AAAAAAAAAAAAAAAAAAAAAA==";
  cipher = codes "AES-256-GCM";
  nonce = codes "AAAAAAAAAAAAAAAA";
}

abbrev pub parsers : Parsers
parsers = record {
  media_type = λ s. some s;
  parse_query = λ s. some ((codes "password_hash", s ∷ []) ∷ []);
  json_members = λ s. none;
  json_valid = λ s. true;
  cipher_metadata = λ s. some metadata;
}

abbrev pub settings : Settings
settings = record {
  blob_dir = codes "data/blobs";
  app_secret = codes "s";
  max_upload_bytes = pos 1000;
  storage_cap_bytes = pos 2000;
  trust_proxy_headers = false;
  railway_environment = [];
}

abbrev pub request : Request
request = record {
  method = codes "POST";
  path = codes "/admin/shares/delete";
  raw_query = [];
  content_type = codes "application/x-www-form-urlencoded";
  csrf_header = codes "token";
  form_csrf = [];
  forwarded_proto = [];
  forwarded_for = [];
  real_ip = [];
  remote_addr = codes "10.0.0.2";
  tls = true;
  sid = some (codes "old");
  clock = now;
}

abbrev pub body : Body
body = record { bytes = password_hash; complete = true }

abbrev pub upload_config : Up.Config
upload_config = record {
  blob_dir = codes "data/blobs";
  max_upload_bytes = pos 1000;
  storage_cap_bytes = pos 2000;
  app_secret = codes "s";
}

abbrev pub upload_request : Up.Request
upload_request = record {
  title = [];
  visibility = codes "private";
  private_key = codes "k";
  download_password_hash = password_hash;
  cipher_meta = codes "{}";
  zip_manifest = [];
  encrypted_flag = codes "1";
  expiry_hours = codes "48";
  security_warning = [];
  admin_message = [];
  reader = record { bytes = codes "short"; ending = eof };
  uploader_ip = codes "10.0.0.2";
  admin = false;
}

abbrev pub draws : Draws
draws = record {
  now = now;
  purge_now = now;
  commit_now = now;
  created = now;
  id = codes "11111111-1111-4111-8111-111111111111";
  salt = [];
}
