-- ===== src/World.antt =====
-- What the handlers share: the SQLite tables behind the Ent client (internal/ent), the file system,
-- the process-wide reservation map of internal/upload/upload.go, and the I/O faults to come.
pub mod Path
pub mod Files
pub mod Db
pub mod BanTable
use shareserver.Base.{ℕ, ℤ, Bool, true, false, Option, none, some, List, [], ◌∷◌, Text}

-- internal/ent/schema/share.go; a nullable column is an option.
pub record ShareRow : Type 0 where
  pub id : Text
  pub title : Text
  pub visibility : Text
  pub private_key_hash : Option Text
  pub download_password_hash : Option Text
  pub encrypted : Bool
  pub cipher_meta : Text
  pub zip_manifest : Text
  pub security_warning : Bool
  pub admin_message : Text
  pub size : ℤ
  pub blob_path : Text
  pub blob_sha256 : Text
  pub uploader_ip : Text
  pub expires_at : Option Text
  pub created_at : Text
  pub purged_at : Option Text

-- internal/ent/schema/admin.go
pub record AdminRow : Type 0 where
  pub id : ℕ
  pub username : Text
  pub password_hash : Text
  pub created_at : Text

-- internal/ent/schema/session.go
pub record SessionRow : Type 0 where
  pub id : Text
  pub admin_id : Option ℤ
  pub csrf : Text
  pub language : Text
  pub created_at : Text
  pub expires_at : Text

-- internal/ent/schema/ipban.go
pub record BanRow : Type 0 where
  pub id : Text
  pub banned_until : Text

-- internal/ent/schema/loginfailureevent.go
pub record FailureRow : Type 0 where
  pub ip : Text
  pub happened_at : Text

-- internal/ent/schema/auditevent.go
pub record AuditRow : Type 0 where
  pub actor : Text
  pub ip : Text
  pub action : Text
  pub target : Text
  pub meta : Text
  pub created_at : Text

-- A regular file with its bytes, a directory, or a symbolic link or other special file
-- with its size.
pub data Node : Type 0 where
  regular : Text → Node
  directory : Node
  irregular : ℕ → Node

pub record World : Type 0 where
  pub shares : List ShareRow
  pub admins : List AdminRow
  pub sessions : List SessionRow
  pub bans : List BanRow
  pub failures : List FailureRow
  pub audit : List AuditRow
  -- by absolute clean path
  pub files : List (Text × Node)
  pub cwd : Text
  -- by blob directory
  pub reservations : List (Text × ℤ)
  -- Whether each of the next database and file calls fails; none fails after the list.
  pub faults : List Bool

pub data Failure : Type 0 where
  not_found not_singular constraint io : Failure

pub data Result {ℓ} (A : Type ℓ) : Type ℓ where
  ok : A → Result A
  err : Failure → Result A

abbrev pub M : Type 0 → Type 0
M A = World → A × World

abbrev pub pure : {A : Type 0} → A → M A
pure a w = (a, w)

infixl 5 ◌>>=◌ ◌>>◌
abbrev pub ◌>>=◌ : {A B : Type 0} → M A → (A → M B) → M B
◌>>=◌ m f w = let r = m w in f r.0 r.1

abbrev pub ◌>>◌ : {A B : Type 0} → M A → M B → M B
m >> k = m >>= λ _. k

-- Whether the next call fails.
unfoldable pub fault : M Bool
fault w = elim w.faults [ [] ↦ (false, w) | f ∷ fs ↦ (f, record w { faults = fs }) ]

-- A call that fails by `io` with no effect, or does what `m` does.
abbrev pub attempt : {A : Type 0} → M (Result A) → M (Result A)
attempt m = do broken ← fault; λ w. elim broken [ true ↦ (err io, w) | false ↦ m w ]
