-- ===== src/Config/Secret.antt =====
-- internal/config/config.go: `persistentAppSecret`. Another startup may publish its own key between
-- the first look and the link.
use shareserver.Base.{
  ℕ, ◌≡◌, ◌≤◌, ◌⊎◌, All, arith, [], ◌∷◌, Bool, true, ◌&&◌, ◌||◌, not, Option, none, some, Text, leb,
  ◌==◌, if◌then◌else◌, length, all,
}
use shareserver.Storage.{hex}

-- What stands under the secret's name.
pub record SecretFile : Type 0 where
  pub regular : Bool
  pub owner_only : Bool
  pub content : Text

abbrev pub is_hex_byte : ℕ → Bool
is_hex_byte c =
    (leb b'0' c && leb c b'9') || (leb b'a' c && leb c b'f') || (leb b'A' c && leb c b'F')

-- The checks on the file found: its kind and mode, its size, and that it is 32 bytes in hex.
unfoldable pub read_secret : SecretFile → Option Text
read_secret f =
    if not f.regular || not f.owner_only
    then none
    else if not (length f.content == 64)
    then none
    else if all is_hex_byte f.content
    then some f.content
    else none

-- Which steps fail.
pub record SecretFaults : Type 0 where
  pub look : Bool
  -- making, filling, syncing or closing the temporary file
  pub prepare : Bool
  pub link : Bool
  pub sync : Bool
  pub look_again : Bool
  pub read : Bool
  -- removing the temporary file, or closing the directory
  pub clean_up : Bool

abbrev pub published : Text → SecretFile
published key = record { regular = true; owner_only = true; content = hex key }

-- `Link` leaves a file that is there.
abbrev pub linked : Text → Option SecretFile → SecretFile
linked key (some f) = f
linked key none = published key

abbrev finish : SecretFaults → SecretFile → Option Text
finish faults f = if faults.read || faults.clean_up then none else read_secret f

-- The secret, or none for an error, and the file afterwards. `key` is 32 random bytes, `rival` what
-- another startup has linked by then.
unfoldable pub persistent_app_secret :
    SecretFaults → Text → Option SecretFile → Option SecretFile → Option Text × Option SecretFile
persistent_app_secret faults key rival (some f) =
    (if faults.look then none else finish faults f, some f)
persistent_app_secret faults key rival none =
    if faults.look || faults.prepare || faults.link
    then (none, rival)
    else if faults.sync || faults.look_again
    then (none, some (linked key rival))
    else (finish faults (linked key rival), some (linked key rival))

-- 0 to 9, a to f and A to F in ASCII.
abbrev pub IsHexDigit : ℕ → Type 0
IsHexDigit c = ((48 ≤ c) × (c ≤ 57)) ⊎ (((97 ≤ c) × (c ≤ 102)) ⊎ ((65 ≤ c) × (c ≤ 70)))

is_hex_byte-IsHexDigit : (c : ℕ) → is_hex_byte c ≡ true → IsHexDigit c
is_hex_byte-IsHexDigit c h = ground arith

all-IsHexDigit : (s : Text) → all is_hex_byte s ≡ true → All IsHexDigit s
all-IsHexDigit [] h = tt
all-IsHexDigit (c ∷ s) h =
    (is_hex_byte-IsHexDigit c (ground arith), all-IsHexDigit s (ground arith))

read_secret-hex :
    (f : SecretFile) (s : Text)
    → read_secret f ≡ some s
    → (all is_hex_byte s ≡ true) × (length s ≡ 64)
unfolding read_secret
read_secret-hex f s h = ground arith

read_twice :
    (f : SecretFile) (s s' : Text)
    → read_secret f ≡ some s
    → read_secret f ≡ some s'
    → (s' ≡ s) × All IsHexDigit s × (length s ≡ 64)
read_twice f s s' h h' =
    let digits = read_secret-hex f s h in
    (ground (arith, h, h'), all-IsHexDigit s digits.0, digits.1)

-- Two startups, one after the other, that both get a secret get the same one, of 64 hex digits,
-- whatever keys they drew, whatever failed and whoever else published a key meanwhile.
pub persistent_app_secret-agree :
    (faults faults' : SecretFaults) (key key' s s' : Text) (rival rival' file : Option SecretFile)
    → (persistent_app_secret faults key rival file).0 ≡ some s
    → (persistent_app_secret faults' key' rival' (persistent_app_secret faults key rival file).1).0
      ≡ some s'
    → (s' ≡ s) × All IsHexDigit s × (length s ≡ 64)
unfolding persistent_app_secret
persistent_app_secret-agree f f' k k' s s' r r' (some file) p q =
    read_twice file s s' (ground arith) (ground arith)
persistent_app_secret-agree f f' k k' s s' (some r) r' none p q =
    read_twice r s s' (ground arith) (ground arith)
persistent_app_secret-agree f f' k k' s s' none r' none p q =
    read_twice (published k) s s' (ground arith) (ground arith)
