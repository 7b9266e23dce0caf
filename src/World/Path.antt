-- ===== src/World/Path.antt =====
-- path/filepath on Unix: Clean, Join, Abs and Ext, over byte lists.
use shareserver.Base.{
  ℕ, ◌≡◌, refl, Bool, true, false, ◌&&◌, ◌||◌, not, List, [], ◌∷◌, ◌++◌, Text, codes, text_eq,
  has_prefix, is_empty, ◌==◌, if◌then◌else◌,
}
use mathlib.Core.List.{reverse}

abbrev slash : ℕ
slash = b'/'

-- The parts between slashes.
unfoldable pub split : ℕ → Text → List Text
split sep [] = [] ∷ []
split sep (c ∷ s) = elim (split sep s) [
  | [] ↦ (c ∷ []) ∷ []
  | part ∷ parts ↦ if c == sep then [] ∷ part ∷ parts else (c ∷ part) ∷ parts
]

unfoldable pub join : Text → List Text → Text
join sep [] = []
join sep (s ∷ parts) = elim parts [ [] ↦ s | _ ∷ _ ↦ s ++ sep ++ join sep parts ]

unfoldable pub is_rooted : Text → Bool
is_rooted [] = false
is_rooted (c ∷ _) = c == b'/'

abbrev dots : Text
dots = b'.' ∷ b'.' ∷ []

-- One element, on the stack of those kept, its top first.
unfoldable pub resolve : Bool → List Text → Text → List Text
unfolding text_eq
resolve rooted [] part =
    if is_empty part || text_eq part (b'.' ∷ []) || (rooted && text_eq part dots)
    then []
    else part ∷ []
resolve rooted (top ∷ stack) part =
    if is_empty part || text_eq part (b'.' ∷ [])
    then top ∷ stack
    else if text_eq part dots && not (text_eq top dots)
    then stack
    else part ∷ top ∷ stack

unfoldable pub resolve_all : Bool → List Text → List Text → List Text
unfolding resolve
resolve_all rooted stack [] = stack
resolve_all rooted stack (part ∷ parts) = resolve_all rooted (resolve rooted stack part) parts

-- `filepath.Clean`
unfoldable pub clean : Text → Text
unfolding split join is_rooted resolve_all
clean path =
    let body = join (b'/' ∷ []) (reverse (resolve_all (is_rooted path) [] (split b'/' path))) in
    if is_rooted path then b'/' ∷ body else if is_empty body then b'.' ∷ [] else body

-- `filepath.Join(dir, name)`
unfoldable pub join_path : Text → Text → Text
unfolding clean
join_path dir name =
    if is_empty dir && is_empty name
    then []
    else if is_empty dir
    then clean name
    else if is_empty name
    then clean dir
    else clean (dir ++ b'/' ∷ name)

-- `filepath.Abs` in a working directory.
unfoldable pub absolute : Text → Text → Text
unfolding clean join_path is_rooted
absolute cwd path = if is_rooted path then clean path else join_path cwd path

unfoldable pub has_suffix : Text → Text → Bool
unfolding has_prefix
has_suffix suffix path = has_prefix (reverse suffix) (reverse path)

-- What every path below a directory begins with.
abbrev pub dir_prefix : Text → Text
dir_prefix dir = elim (text_eq dir (b'/' ∷ [])) [ true ↦ dir | false ↦ dir ++ b'/' ∷ [] ]

clean_tests :
    (clean (codes "a//b/./../c/") ≡ codes "a/c")
    × (clean (codes "/../x") ≡ codes "/x")
    × (clean (codes "../../x/..") ≡ codes "../..")
    × (clean [] ≡ codes ".")
    × (absolute (codes "/srv") (codes "data/blobs") ≡ codes "/srv/data/blobs")
unfolding clean absolute
clean_tests = (refl, refl, refl, refl, refl)
