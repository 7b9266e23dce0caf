-- ===== src/Ent/StoreQueries.antt =====
-- internal/share/store.go: the queries that the store puts together, and their rows scanned as sqlAll of
-- internal/ent/share_query.go does.
use shareserver.Base.{true, List, [], ◌∷◌, Text}
use shareserver.World.{ShareRow}
use shareserver.Share.{ActiveRule}
use shareserver.Ent.{Result, ok, ◌>>=◌, Row}
use shareserver.Ent.Scan.{Scanning}
use shareserver.Ent.Query.{Ordering, Query, new_query, where_, limited, ordered}
use shareserver.Ent.Shares.{ShareColumn, field_created_at}
use shareserver.Ent.ShareRows.{
  active_query, expired_query, public_query, key_query, expiry_query, unprotected_query,
  purged_query,
}
use shareserver.Ent.Inserts.{load_share}

-- `ent.Desc(entshare.FieldCreatedAt)`
abbrev pub newest : Ordering ShareColumn
newest = record { column = field_created_at; descending = true }

unfoldable pub list_public_query : ActiveRule → Query ShareColumn
list_public_query r = limited 100 (ordered (newest ∷ []) (where_ (public_query r) new_query))

unfoldable pub list_by_key_query : ActiveRule → Text → Query ShareColumn
list_by_key_query r key_hash =
    limited 100 (ordered (newest ∷ []) (where_ (key_query r key_hash) new_query))

unfoldable pub list_all_query : Query ShareColumn
list_all_query = limited 300 (ordered (newest ∷ []) new_query)

unfoldable pub all_query : Query ShareColumn
all_query = new_query

unfoldable pub with_expiry_query : Query ShareColumn
with_expiry_query = where_ expiry_query new_query

unfoldable pub without_protection_query : Query ShareColumn
without_protection_query = where_ unprotected_query new_query

unfoldable pub count_active_query : ActiveRule → Query ShareColumn
count_active_query r = where_ (active_query r ∷ []) new_query

unfoldable pub count_expired_query : ActiveRule → Query ShareColumn
count_expired_query r = where_ (expired_query r ∷ []) new_query

unfoldable pub count_purged_query : Query ShareColumn
count_purged_query = where_ purged_query new_query

-- The rows of a query, each scanned and assigned.
unfoldable pub load_shares : Scanning → List (Row ShareColumn) → Result (List ShareRow)
load_shares scan [] = ok []
load_shares scan (row ∷ rest) = do r ← load_share scan row; rs ← load_shares scan rest; ok (r ∷ rs)
