-- ===== src/World/Files.antt =====
-- The calls of os and filepath.WalkDir that the program makes, over the flat map of files.
use shareserver.Base.{
  ℕ, ◌+◌, Bool, true, false, ◌&&◌, ◌||◌, Option, none, some, List, [], ◌∷◌, Text, codes, text_eq,
  has_prefix, if◌then◌else◌, length,
}
use shareserver.World.{
  World, Node, regular, directory, irregular, Result, ok, err, not_found, io, M, attempt,
}
use shareserver.World.Path.{absolute, has_suffix, dir_prefix}

unfoldable pub lookup : Text → List (Text × Node) → Option Node
lookup path [] = none
lookup path ((p, n) ∷ files) = if text_eq p path then some n else lookup path files

unfoldable pub delete : Text → List (Text × Node) → List (Text × Node)
delete path [] = []
delete path ((p, n) ∷ files) =
    if text_eq p path then delete path files else (p, n) ∷ delete path files

abbrev pub find_node : World → Text → Option Node
find_node w path = lookup (absolute w.cwd path) w.files

abbrev pub present : Option Node → Result Node
present none = err not_found
present (some n) = ok n

unfoldable pub lstat : Text → M (Result Node)
lstat path = attempt λ w. (present (find_node w path), w)

abbrev pub is_regular : Node → Bool
is_regular (regular _) = true
is_regular directory = false
is_regular (irregular _) = false

-- `os.Remove`, which does not distinguish a file from an empty directory.
abbrev removed : Text → World → Option Node → Result (Unit {0}) × World
removed path w none = (err not_found, w)
removed path w (some _) = (ok tt, record w { files = delete (absolute w.cwd path) w.files })

unfoldable pub remove : Text → M (Result (Unit {0}))
remove path = attempt λ w. removed path w (find_node w path)

-- Whether a path is the directory or lies below it.
unfoldable pub is_under : Text → Text → Bool
is_under dir path = text_eq path dir || has_prefix (dir_prefix dir) path

abbrev pub size_of : Node → ℕ
size_of (regular s) = length s
size_of directory = 0
size_of (irregular n) = n

abbrev pub is_blob : Text → Bool
is_blob path = has_suffix (codes ".blob") path

-- Sizes of the `.blob` files below a directory.
unfoldable pub total_blobs : Text → List (Text × Node) → ℕ
total_blobs dir [] = 0
total_blobs dir ((p, n) ∷ files) =
    (if is_under dir p && is_blob p then size_of n else 0) + total_blobs dir files

-- A directory at the new name.
abbrev pub is_directory : Option Node → Bool
is_directory (some directory) = true
is_directory _ = false

abbrev put_at : Text → Text → World → Node → Result (Unit {0}) × World
put_at old new w n = (
  ok tt,
  record w {
    files =
        (absolute w.cwd new, n) ∷ delete (absolute w.cwd new) (delete (absolute w.cwd old) w.files);
  },
)

-- `os.Rename` of a file, over whatever the new name held but a directory.
abbrev moved : Text → Text → World → Option Node → Result (Unit {0}) × World
moved old new w none = (err not_found, w)
moved old new w (some n) =
    if is_directory (find_node w new) then (err io, w) else put_at old new w n

unfoldable pub rename : Text → Text → M (Result (Unit {0}))
rename old new = attempt λ w. moved old new w (find_node w old)
