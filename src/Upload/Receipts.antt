-- ===== src/Upload/Receipts.antt =====
-- internal/upload/upload.go: what an upload stores, and what each call of it leaves in place.
use shareserver.Base.{
  ℕ, ◌+◌, ◌*◌, ◌≡◌, ℤ, true, false, some, List, [], ◌∷◌, ◌++◌, Text, text_eq, text_eq_refl,
  text_eq_iff, arith, length, find?, any,
}
use shareserver.Base.Int.{pos}
use shareserver.Time.{format_nano, hour}
use shareserver.World.{World, ShareRow, regular, ok, fault}
use shareserver.World.Path.{absolute}
use shareserver.World.Files.{lookup, find_node, remove, rename}
use shareserver.World.Db.{create_share, create_audit}
use shareserver.Auth.{Crypto}
use shareserver.Audit.{log}
use shareserver.Share.{Share}
use shareserver.Share.Store.{insert, to_row, null_string_ptr}
use shareserver.Storage.{Reader, Staged, staged, stage, copied, blob_path, commit, hex}
use shareserver.Upload.{Config, Request, Policy}
use shareserver.Upload.Capacity.{reserve_capacity, release_capacity}
use shareserver.Upload.Do.{Draws, Receipt}

-- What is stored under the new id: the row, with the policy's fields, and the bytes at its blob path.
pub record IsStored (c : Crypto) (cfg : Config) (req : Request) (draws : Draws) (policy : Policy)
    (r : Receipt) (home : Text) (w : World) (row : ShareRow) : Type 0 where
  pub cwd : w.cwd ≡ home
  pub found : find? (λ s. text_eq s.id draws.id) w.shares ≡ some row
  pub path : row.blob_path ≡ blob_path cfg.blob_dir draws.id
  pub content : find_node w row.blob_path ≡ some (regular req.reader.bytes)
  pub size : row.size ≡ pos (length req.reader.bytes)
  pub sum : row.blob_sha256 ≡ hex (c.sha256 req.reader.bytes)
  pub title : row.title ≡ policy.title
  pub visibility : row.visibility ≡ policy.visibility
  pub security_warning : row.security_warning ≡ policy.security_warning
  pub admin_message : row.admin_message ≡ policy.admin_message
  pub expires_at :
      row.expires_at
      ≡ null_string_ptr
          (record { valid = true; string = format_nano (draws.now + policy.hours * hour) })
  pub purged_at : row.purged_at ≡ null_string_ptr (record { valid = false; string = [] })
  pub receipt_id : r.id ≡ draws.id
  pub receipt_size : r.size ≡ row.size

find-append_new :
    (id : Text) (l : List ShareRow) (r : ShareRow)
    → any (λ s. text_eq s.id id) l ≡ false
    → r.id ≡ id
    → find? (λ s. text_eq s.id id) (l ++ r ∷ []) ≡ some r
find-append_new id [] r h e = ground (arith, text_eq_iff r.id id)
find-append_new id (s ∷ l) r h e = ground (arith, find-append_new id l r)

pub insert-ok :
    (t : Text) (sh : Share) (w : World)
    → (insert t sh w).0 ≡ ok tt
    → (find? (λ s. text_eq s.id sh.id) (insert t sh w).1.shares ≡ some (to_row t sh))
      × ((insert t sh w).1.files ≡ w.files)
      × ((insert t sh w).1.cwd ≡ w.cwd)
unfolding insert create_share fault to_row
insert-ok t sh w h = ground (arith, find-append_new sh.id w.shares (to_row t sh))

pub log-stored :
    (a b c d e : Text) (n : ℕ) (w : World)
    → ((log a b c d e n w).1.shares ≡ w.shares)
      × ((log a b c d e n w).1.files ≡ w.files)
      × ((log a b c d e n w).1.cwd ≡ w.cwd)
unfolding log create_audit fault
log-stored a b c d e n w = ground arith

pub commit-ok :
    (old dir id path : Text) (w : World)
    → (commit old dir id w).0 ≡ ok path
    → (path ≡ blob_path dir id)
      × ((commit old dir id w).1.cwd ≡ w.cwd)
      × (find_node (commit old dir id w).1 (blob_path dir id) ≡ find_node w old)
unfolding commit rename fault lookup
commit-ok old dir id path w h = ground (arith, text_eq_refl (absolute w.cwd (blob_path dir id)))

pub stage-cwd :
    (sha : Text → Text) (dir id : Text) (r : Reader) (limit : ℤ) (w : World)
    → (stage sha dir id r limit w).1.cwd ≡ w.cwd
unfolding stage remove fault
stage-cwd sha dir id r limit w = ground arith

pub stage-sum :
    (sha : Text → Text) (dir id : Text) (r : Reader) (limit : ℤ) (w : World) (blob : Staged)
    → (stage sha dir id r limit w).0 ≡ staged blob
    → blob.sum ≡ hex (sha r.bytes)
unfolding stage remove fault copied
stage-sum sha dir id r limit w blob h = ground arith

pub reserve_capacity-cwd :
    (dir : Text) (m k : ℤ) (w : World) → (reserve_capacity dir m k w).1.cwd ≡ w.cwd
unfolding reserve_capacity
reserve_capacity-cwd dir m k w = ground arith

pub release_capacity-IsStored :
    (c : Crypto) (cfg : Config) (req : Request) (draws : Draws) (policy : Policy) (home : Text)
    (r : Receipt) (row : ShareRow) (n : ℤ) (w : World)
    → IsStored c cfg req draws policy r home w row
    → IsStored c cfg req draws policy r home (release_capacity cfg.blob_dir n w) row
unfolding release_capacity
release_capacity-IsStored c cfg req draws policy home r row n w i =
    ground (arith, i.cwd, i.path, i.content, i.expires_at, i.purged_at)
