-- ===== src/Http.antt =====
-- internal/http: requests and responses as the handlers see them, and what they take from Go's
-- parsers of addresses, media types, queries and JSON.
pub mod Sessions
pub mod Middleware
pub mod Download
pub mod Body
pub mod Shares
pub mod Api
pub mod AdminPages
pub mod Laws
pub mod Released
pub mod Ids
pub mod SessionLaws
pub mod Isolation
pub mod Cleanup
pub mod Router
pub mod I18n
pub mod Render
pub mod AdminGate
pub mod Upkeep
pub mod SessionLife
pub mod Banned
pub mod Guessing
pub mod Bulk
use shareserver.Base.{ℕ, ℤ, Bool, Option, none, some, List, [], ◌∷◌, Text, codes}
use shareserver.Upload.{CipherMetadata}

pub record Request : Type 0 where
  pub method : Text
  pub path : Text
  pub raw_query : Text
  pub content_type : Text
  pub csrf_header : Text
  pub form_csrf : Text
  pub forwarded_proto : Text
  pub forwarded_for : Text
  pub real_ip : Text
  pub remote_addr : Text
  pub tls : Bool
  pub sid : Option Text
  -- what `withClock` stamps
  pub clock : ℕ

pub record Response : Type 0 where
  pub status : ℕ
  pub message : Text
  pub headers : List (Text × Text)
  -- the `sid` cookie that is set
  pub cookie : Option Text

abbrev pub http_error : Text → ℕ → Response
http_error message status = record {
  status = status;
  message = message;
  headers = [];
  cookie = none;
}

abbrev pub see_other : Text → Response
see_other location = record {
  status = 303;
  message = [];
  headers = (codes "Location", location) ∷ [];
  cookie = none;
}

-- net.SplitHostPort's host, net.ParseIP in its canonical spelling, and two tests on such an address.
pub record Net : Type 0 where
  pub split_host : Text → Option Text
  pub parse_ip : Text → Option Text
  pub is_loopback : Text → Bool
  pub in_railway : Text → Bool

-- The parsers of mime, net/url and encoding/json. `json_members` gives the members of a body that is
-- one JSON object and no more, with the value of each that is a string.
pub record Parsers : Type 0 where
  pub media_type : Text → Option Text
  pub parse_query : Text → Option (List (Text × List Text))
  pub json_members : Text → Option (List (Text × Option Text))
  pub json_valid : Text → Bool
  pub cipher_metadata : Text → Option CipherMetadata

-- The configuration that the handlers read.
pub record Settings : Type 0 where
  pub blob_dir : Text
  pub app_secret : Text
  pub max_upload_bytes : ℤ
  pub storage_cap_bytes : ℤ
  pub trust_proxy_headers : Bool
  -- `RAILWAY_ENVIRONMENT_ID`
  pub railway_environment : Text
