-- ===== src/Config.antt =====
-- internal/config/config.go: settings from the environment and a dotenv file, and the application
-- secret that is kept on disk.
pub mod Secret
pub mod Load
use shareserver.Base.{
  ℕ, ◌*◌, ℤ, Bool, true, false, ◌&&◌, ◌||◌, not, Option, none, some, List, [], ◌∷◌, ◌++◌, Text,
  codes, text_eq, has_prefix, trim, trim_space, cut, is_empty, ◌==◌, if◌then◌else◌, any,
}
use shareserver.Base.Int.{pos}
use shareserver.Codec.{atoi}

-- The environment, each name once.
abbrev pub Env : Type 0
Env = List (Text × Text)

-- `os.LookupEnv`
unfoldable pub lookup_env : Text → Env → Option Text
lookup_env k [] = none
lookup_env k ((j, v) ∷ e) = if text_eq j k then some v else lookup_env k e

abbrev text_or_empty : Option Text → Text
text_or_empty none = []
text_or_empty (some v) = v

-- `os.Getenv`
abbrev pub getenv : Text → Env → Text
getenv k e = text_or_empty (lookup_env k e)

abbrev pub is_quote : ℕ → Bool
is_quote c = c == b'"' || c == 39

abbrev has_nul : Text → Bool
has_nul s = any (λ c. c == 0) s

-- A name that is set already stays; `Setenv` refuses a NUL, which is ignored.
unfoldable pub set_new : Text → Text → Env → Env
set_new k v e =
    if is_empty k || has_nul k || has_nul v
    then e
    else elim (lookup_env k e) [ some _ ↦ e | none ↦ e ++ (k, v) ∷ [] ]

abbrev set_pair : Option (Text × Text) → Env → Env
set_pair none e = e
set_pair (some (k, v)) e = set_new (trim_space k) (trim is_quote (trim_space v)) e

-- One line of the dotenv file.
unfoldable pub load_line : Text → Env → Env
load_line s e =
    let line = trim_space s in
    if is_empty line || has_prefix (codes "#") line then e else set_pair (cut b'=' line) e

-- `loadDotEnv`; with no file there are no lines.
unfoldable pub load_dot_env : List Text → Env → Env
load_dot_env [] e = e
load_dot_env (line ∷ lines) e = load_dot_env lines (load_line line e)

-- `env`
unfoldable pub env : Text → Text → Env → Text
env k d e = if is_empty (getenv k e) then d else getenv k e

unfoldable pub env_bool : Text → Bool → Env → Bool
env_bool k d e =
    let v = getenv k e in
    if is_empty v
    then d
    else text_eq v (codes "1") || text_eq v (codes "true") || text_eq v (codes "yes")

abbrev number_or : ℤ → ℤ × Bool → ℤ
number_or d (n, good) = if good then n else d

unfoldable pub env_int : Text → ℤ → Env → ℤ
env_int k d e = let v = getenv k e in if is_empty v then d else number_or d (atoi v)

pub record Config : Type 0 where
  pub addr : Text
  pub db_path : Text
  pub blob_dir : Text
  pub app_secret : Text
  pub admin_user : Text
  pub admin_password : Text
  pub max_upload_bytes : ℤ
  pub storage_cap_bytes : ℤ
  pub trust_proxy_headers : Bool
  pub tz : Text
  pub dev : Bool

abbrev pub default_password : Text
default_password = codes "admin-change-me"

abbrev is_set : Option Text → Bool
is_set none = false
is_set (some _) = true

-- The secret of the environment, else a random one in development, else the persisted one.
abbrev pub pick_secret : Env → Bool → Text → Option Text → Option Text
pick_secret e dev random persisted =
    if not (is_empty (getenv (codes "APP_SECRET") e))
    then some (getenv (codes "APP_SECRET") e)
    else if dev
    then some random
    else persisted

abbrev pub settings : Env → Bool → Text → Text → Config
settings e dev password secret = record {
  addr = env (codes "ADDR") (codes "127.0.0.1:8081") e;
  db_path = env (codes "DB_PATH") (codes "data/shareserver.db") e;
  blob_dir = env (codes "BLOB_DIR") (codes "data/blobs") e;
  app_secret = secret;
  admin_user = env (codes "ADMIN_USER") (codes "admin") e;
  admin_password = password;
  max_upload_bytes = env_int (codes "MAX_UPLOAD_BYTES") (pos (200 * 1024 * 1024)) e;
  storage_cap_bytes = env_int (codes "STORAGE_CAP_BYTES") (pos (400 * 1024 * 1024)) e;
  trust_proxy_headers = env_bool (codes "TRUST_PROXY_HEADERS") false e;
  tz = env (codes "TZ") (codes "Asia/Shanghai") e;
  dev = dev;
}

abbrev or_default : Text → Text
or_default s = if is_empty s then default_password else s

-- `Load` after the dotenv file: none is `log.Fatal`. `random` is the hex text of 32 random bytes,
-- `persisted` what `persistentAppSecret` gives, and `known_zone` whether a time zone loads.
unfoldable pub load : (Text → Bool) → Text → Option Text → Env → Option Config
load known_zone random persisted e =
    let dev = env_bool (codes "DEBUG") true e in
    let password = or_default (getenv (codes "ADMIN_PASSWORD") e) in
    if not dev
      && (not (is_set (lookup_env (codes "ADMIN_PASSWORD") e)) || text_eq password default_password)
    then none
    else elim (pick_secret e dev random persisted) [
      | none ↦ none
      | some secret ↦
          if known_zone (env (codes "TZ") (codes "Asia/Shanghai") e)
          then some (settings e dev password secret)
          else none
    ]
