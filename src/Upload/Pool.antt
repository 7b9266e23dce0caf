-- ===== src/Upload/Pool.antt =====
-- internal/upload/upload.go: uploads that run at the same time, as steps of a shared state. Each
-- constructor is what one upload does while it holds `capMu`, or what anything else may do between.
use shareserver.Base.{ℕ, ◌+◌, ◌≤◌, ◌≡◌, List, [], ◌∷◌, ◌++◌, Text, some, length}
use shareserver.Base.Int.{pos}
use shareserver.World.{World, regular}
use shareserver.World.Files.{find_node}
use shareserver.Auth.{Crypto}
use shareserver.Storage.{Staged, used_bytes}
use shareserver.Upload.{Config, Request, Policy}
use shareserver.Upload.Capacity.{reserve_capacity, release_capacity}
use shareserver.Upload.Do.{Draws, finish}

-- The process, and the amounts that uploads in flight have reserved.
pub record Pool : Type 0 where
  pub world : World
  pub held : List ℕ

abbrev pub total : List ℕ → ℕ
total [] = 0
total (n ∷ ns) = n + total ns

pub data Step (cfg : Config) : Pool → Pool → Type 0 where
  -- `reserveCapacity` grants an amount
  reserve :
      (p : Pool) (n : ℕ) (w' : World)
      → reserve_capacity cfg.blob_dir cfg.max_upload_bytes cfg.storage_cap_bytes p.world
        ≡ (some (pos n), w')
      → Step cfg p (record { world = w'; held = n ∷ p.held })
  -- the last measure and the commit, with the staged file of at most the reserved size
  finishing :
      (p : Pool) (before after : List ℕ) (n : ℕ) (bytes : Text) (c : Crypto) (req : Request)
      (draws : Draws) (policy : Policy) (verifier : Text) (blob : Staged)
      → p.held ≡ before ++ n ∷ after
      → find_node p.world blob.path ≡ some (regular bytes)
      → blob.size ≡ pos (length bytes)
      → length bytes ≤ n
      → Step cfg p
          (record p { world = (finish c cfg req draws policy verifier (pos n) blob p.world).1 })
  -- the deferred `releaseCapacity`
  release :
      (p : Pool) (before after : List ℕ) (n : ℕ)
      → p.held ≡ before ++ n ∷ after
      → Step cfg p
          (record { world = release_capacity cfg.blob_dir (pos n) p.world; held = before ++ after })
  -- whatever touches no reservation and adds no stored byte: staging, purges, downloads
  other :
      (p : Pool) (w' : World)
      → w'.reservations ≡ p.world.reservations
      → used_bytes cfg.blob_dir w' ≤ used_bytes cfg.blob_dir p.world
      → Step cfg p (record p { world = w' })

pub data Reach (cfg : Config) (p : Pool) : Pool → Type 0 where
  here : Reach cfg p p
  next : {q r : Pool} → Reach cfg p q → Step cfg q r → Reach cfg p r
