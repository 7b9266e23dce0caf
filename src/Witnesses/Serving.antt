-- ===== src/Witnesses/Serving.antt =====
-- Requests through the whole chain, at concrete inputs.
use shareserver.Base.{
  List, ◌⊎◌, ◌≡◌, refl, true, Option, none, some, [], ◌∷◌, Text, codes, text_eq, if◌then◌else◌,
  arith,
}
use shareserver.Base.Int.{◌≤ℤ◌, pos}
use shareserver.World.{fault}
use shareserver.World.Db.{get_session}
use shareserver.Time.{parse}
use shareserver.Http.Sessions.{Session, get, session_from_row, supported_language}
use shareserver.Http.Router.{Input, serve, find_route, bulk_delete}
use shareserver.Http.AdminGate.{Refused, OnlySessions, serve-gated}
use shareserver.Config.{Config, settings}
use shareserver.App.{Outside, run}
use shareserver.App.Serving.{admin_answer, IsUnready, IsIdle, IsServing, run-cases}
use shareserver.Fixtures as Fix

abbrev input : Input
input = record {
  body = Fix.body;
  parts = none;
  finished = true;
  form = none;
  ids = some (Fix.row.id ∷ []);
  key = [];
  tokens = record { sid = codes "fresh"; csrf = codes "fresh-token" };
  login_tokens = record { sid = codes "bound"; csrf = codes "bound-token" };
  draws = Fix.draws;
  now = Fix.now;
  jitter = 0;
}

-- Patterns without a wildcard.
abbrev same_path : Text → Text → Option Text
same_path pattern path = if text_eq pattern path then some [] else none

-- The visitor's session is no administrator's.
visitor : (s : Session) → (get (codes "old") Fix.now Fix.world).0 ≡ some s → s.admin_id ≤ℤ pos 0
unfolding get get_session fault session_from_row parse supported_language text_eq
visitor s h = ground arith

serve-gated_example :
    Refused
      (serve Fix.crypto Fix.net Fix.parsers Fix.settings Fix.request input same_path Fix.world).0
    × OnlySessions Fix.world
        (serve Fix.crypto Fix.net Fix.parsers Fix.settings Fix.request input same_path Fix.world).1
unfolding find_route text_eq
serve-gated_example =
    serve-gated Fix.crypto Fix.net Fix.parsers Fix.settings Fix.request input same_path bulk_delete
      [] Fix.world refl refl visitor

-- The one id, twice, and a text that is none.
abbrev selection : List Text
selection = Fix.row.id ∷ codes "x" ∷ Fix.row.id ∷ []

abbrev outside : Outside
outside = record {
  loaded = some (settings [] true (codes "pw") (codes "secret"));
  environment = [];
  exec_error = none;
  open_error = none;
  migration_error = none;
  salt = codes "salt";
  created = codes "2026-11-26T12:00:00Z";
  admin_id = 1;
  now = Fix.now;
}

run-cases_example :
    let r = run Fix.crypto outside (codes "shareserver" ∷ []) Fix.world in
    IsIdle Fix.world r
    ⊎ ((cfg : Config) × (outside.loaded ≡ some cfg)
        × (outside.open_error ≡ none)
        × (outside.migration_error ≡ none)
        × (IsServing outside cfg (admin_answer Fix.crypto outside cfg Fix.world) r
            ⊎ IsUnready (admin_answer Fix.crypto outside cfg Fix.world) r))
run-cases_example = run-cases Fix.crypto outside (codes "shareserver" ∷ []) Fix.world refl
