-- ===== src/Http/I18n.antt =====
-- internal/http/i18n.go and internal/http/render.go: the texts of a page in the visitor's language, and
-- the search for the repository's directories.
use shareserver.Base.{
  ℕ, zero, suc, ◌-◌, Bool, true, false, ◌||◌, Option, none, some, List, [], ◌∷◌, ◌++◌, Text, codes,
  text_eq, has_prefix, is_empty, length, if◌then◌else◌,
}
use shareserver.Base.Int.{ltb_ℤ, pos}
use shareserver.World.Path.{split}
use shareserver.Http.Sessions.{Session}

-- What encoding/json makes of a catalog: a text, a map, or another value.
mutual
  pub data Json : Type 0 where
    text : Text → Json
    object : Members → Json
    other : Json

  pub data Members : Type 0 where
    no_more : Members
    member : Text → Json → Members → Members

unfoldable pub lookup_member : Text → Members → Option Json
lookup_member key no_more = none
lookup_member key (member k v rest) = if text_eq k key then some v else lookup_member key rest

abbrev pub text_of : Json → Text
text_of (text t) = t
text_of (object _) = []
text_of other = []

-- The loop of `catalogText`, over the parts of the key.
unfoldable pub descend : Json → List Text → Text
descend value [] = text_of value
descend (text t) (part ∷ parts) = []
descend other (part ∷ parts) = []
descend (object members) (part ∷ parts) = elim (lookup_member part members) [
  | none ↦ []
  | some v ↦ descend v parts
]

unfoldable pub catalog_text : Members → Text → Text
catalog_text messages key = descend (object messages) (split b'.' key)

-- strings.ReplaceAll for a non-empty `old`; `skip` bytes of a match are still to pass.
unfoldable pub replace_from : ℕ → Text → Text → Text → Text
replace_from skip old new [] = []
replace_from (suc skip) old new (c ∷ s) = replace_from skip old new s
replace_from zero old new (c ∷ s) = elim (has_prefix old (c ∷ s)) [
  | true ↦ new ++ replace_from (length old - 1) old new s
  | false ↦ c ∷ replace_from zero old new s
]

abbrev pub replace_all : Text → Text → Text → Text
replace_all old new s = replace_from 0 old new s

unfoldable pub substitute : Text → List (Text × Text) → Text
substitute s [] = s
substitute s ((name, value) ∷ rest) =
    substitute (replace_all (codes "{{" ++ name ++ codes "}}") value s) rest

-- `T`, with the name and value pairs as texts; the catalogs are those of the page's language and of
-- English.
unfoldable pub translate : Members → Members → Text → List (Text × Text) → Text
translate messages english key variables =
    let found = catalog_text messages key in
    let found_english = catalog_text english key in
    if is_empty found
    then (if is_empty found_english then key else substitute found_english variables)
    else substitute found variables

pub record PageContext : Type 0 where
  pub title : Text
  pub csrf : Text
  pub admin : Bool
  pub language : Text

abbrev pub language_cookie : Option Text → Text
language_cookie none = codes "en"
language_cookie (some v) =
    if text_eq v (codes "en") || text_eq v (codes "ko") then v else codes "en"

-- `pageContext`, from the session and the value of the `shareserver_lang` cookie.
unfoldable pub page_context : Session → Option Text → Text → PageContext
page_context s cookie title = record {
  title = title;
  csrf = s.csrf;
  admin = ltb_ℤ (pos 0) s.admin_id;
  language = language_cookie cookie;
}

-- The loops of `repoFile` and `templateDir`: the first of a directory and those above it that has what
-- is looked for. A directory is its elements, the deepest first, so its parent is the rest.
unfoldable pub search_up : (List Text → Bool) → List Text → Option (List Text)
search_up has [] = if has [] then some [] else none
search_up has (name ∷ above) =
    if has (name ∷ above) then some (name ∷ above) else search_up has above
