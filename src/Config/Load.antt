-- ===== src/Config/Load.antt =====
-- internal/config/config.go: what a loaded configuration guarantees.
use shareserver.Base.{
  ◌≡◌, ◌≢◌, Bool, true, false, Option, none, some, List, [], ◌∷◌, ◌++◌, Text, codes, text_eq_iff,
  arith, cut, trim_space,
}
use shareserver.Config.{
  Env, Config, load, lookup_env, set_new, load_line, load_dot_env, env_bool, default_password,
  set_pair, getenv,
}

-- A production server starts only with an administrator password that is set and is not the default.
pub load-production :
    (known_zone : Text → Bool) (random : Text) (persisted : Option Text) (e : Env) (c : Config)
    → env_bool (codes "DEBUG") true e ≡ false
    → load known_zone random persisted e ≡ some c
    → (lookup_env (codes "ADMIN_PASSWORD") e ≡ some c.admin_password)
      × (c.admin_password ≢ default_password)
      × (c.dev ≡ false)
unfolding load
load-production z random persisted e c d h = ground (
  arith,
  text_eq_iff (getenv (codes "ADMIN_PASSWORD") e) default_password,
  text_eq_iff default_password default_password,
)

lookup_env-append :
    (k : Text) (v : Text) (e f : Env) → lookup_env k e ≡ some v → lookup_env k (e ++ f) ≡ some v
unfolding lookup_env
lookup_env-append k v [] f h = cc
lookup_env-append k v ((j, u) ∷ e) f h = ground (arith, lookup_env-append k v e f)

set_new-lookup_env :
    (k v j u : Text) (e : Env) → lookup_env j e ≡ some u → lookup_env j (set_new k v e) ≡ some u
unfolding set_new
set_new-lookup_env k v j u e h = ground (arith, lookup_env-append j u e ((k, v) ∷ []))

set_pair-lookup_env :
    (o : Option (Text × Text)) (j u : Text) (e : Env)
    → lookup_env j e ≡ some u
    → lookup_env j (set_pair o e) ≡ some u
set_pair-lookup_env none j u e h = h
set_pair-lookup_env (some (k, v)) j u e h = set_new-lookup_env _ _ j u e h

load_line-lookup_env :
    (s j u : Text) (e : Env) → lookup_env j e ≡ some u → lookup_env j (load_line s e) ≡ some u
unfolding load_line
load_line-lookup_env s j u e h =
    ground (arith, set_pair-lookup_env (cut b'=' (trim_space s)) j u e h)

-- The dotenv file overrides no variable that the environment has.
pub load_dot_env-keeps :
    (lines : List Text) (j u : Text) (e : Env)
    → lookup_env j e ≡ some u
    → lookup_env j (load_dot_env lines e) ≡ some u
unfolding load_dot_env
load_dot_env-keeps [] j u e h = h
load_dot_env-keeps (line ∷ lines) j u e h =
    load_dot_env-keeps lines j u (load_line line e) (load_line-lookup_env line j u e h)
