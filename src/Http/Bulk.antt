-- ===== src/Http/Bulk.antt =====
-- internal/http/handlers.go: what the loop of a bulk deletion counts and removes.
use shareserver.Base.{ℕ, suc, true, false, not, List, [], ◌∷◌, Text, text_eq, any, keep}
use shareserver.World.{World, ShareRow}
use shareserver.Share.{Share}
use shareserver.Share.Store as Store

-- The number of ids that are not in `seen`, each counted once.
abbrev pub distinct : List Text → List Text → ℕ
distinct seen [] = 0
distinct seen (id ∷ ids) = elim (any (text_eq id) seen) [
  | true ↦ distinct seen ids
  | false ↦ suc (distinct (id ∷ seen) ids)
]

-- The rows of other ids than these.
abbrev pub others : List Text → List ShareRow → List ShareRow
others ids = keep (λ row. not (any (text_eq row.id) ids))
