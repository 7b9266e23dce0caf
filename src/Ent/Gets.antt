-- ===== src/Ent/Gets.antt =====
-- internal/share/store.go over internal/ent/client.go: a Share by its id.
use shareserver.Base.{
  suc, ◌≤◌, false, List, [], ◌∷◌, map, Text, text_eq, ◌≡◌, refl, arith, keep, find?, length,
  Bool-cases, inl, inr,
}
use shareserver.World
use shareserver.World.{World, ShareRow, fault, attempt}
use shareserver.World.Db
use shareserver.World.Db.{get_share}
use shareserver.Ent.{not_found, not_singular, constraint, driver, Result, ok, err, ◌>>=◌}
use shareserver.Ent.Predicate.{Comparing, IsBinary, Predicate, selects, evaluate}
use shareserver.Ent.Query.{Driver, get, only_of}
use shareserver.Storage.Removal.{fault-shares}
use shareserver.Ent.Tables.{selected, IsTable, get_lem}
use shareserver.Ent.Scan.{Scanning, IsScan}
use shareserver.Ent.Shares.{ShareColumn, schema, field_id}
use shareserver.Ent.Shares.Fields.{id_predicates}
use shareserver.Ent.ShareRows.{share_values}
use shareserver.Ent.Inserts.{load_share, load_share-share_values}

-- The errors of the client, as the handlers' model has them.
abbrev pub as_client {ℓ} : {A : Type ℓ} → World.Result A → Result A
as_client (World.ok a) = ok a
as_client (World.err World.not_found) = err not_found
as_client (World.err World.not_singular) = err not_singular
as_client (World.err World.constraint) = err constraint
as_client (World.err World.io) = err driver

module _ (test : Comparing) (b : IsBinary test) (id : Text) where
  abbrev with_id : List ShareRow → List ShareRow
  with_id rows = keep (λ r. text_eq r.id id) rows

  abbrev id_is : Predicate ShareColumn
  id_is = id_predicates.order.eq id

  selected-map :
      (rows : List ShareRow)
      → selected schema test field_id (id_is ∷ []) (map share_values rows)
        ≡ map share_values (with_id rows)
  unfolding selects evaluate share_values
  selected-map [] = refl
  selected-map (r ∷ rows) = ground (arith, b.eq_text r.id id, selected-map rows)

  only-one :
      (r : ShareRow) (xs : List ShareRow) → suc (length xs) ≤ 1 → Db.only (r ∷ xs) ≡ World.ok r
  only-one r [] h = refl
  only-one r (x ∷ xs) h = absurd (omega arith)

  only-with_id :
      (rows : List ShareRow)
      → length (with_id rows) ≤ 1
      → Db.only (with_id rows) ≡ Db.first (find? (λ r. text_eq r.id id) rows)
  only-with_id [] h = refl
  only-with_id (r ∷ rows) h = elim (Bool-cases (text_eq r.id id)) [
    | inl is_it ↦ rw (is_it, only-one r (with_id rows) (ground arith)) refl
    | inr other ↦ rw other (only-with_id rows (ground arith))
  ]

get_share_lem :
    (id : Text) (w : World)
    → (fault w).0 ≡ false
    → (get_share id w).0 ≡ Db.first (find? (λ r. text_eq r.id id) w.shares)
unfolding get_share
get_share_lem id w fine = ground (arith, fault-shares w)

module _ (scan : Scanning) (h : IsScan scan) where
  loaded :
      (xs : List ShareRow)
      → (only_of (ok (map share_values xs)) >>= load_share scan) ≡ as_client (Db.only xs)
  loaded [] = refl
  loaded (r ∷ []) = load_share-share_values scan h r
  loaded (r ∷ x ∷ xs) = refl

  -- Where the database answers over the shares table, compares texts bytewise, scans the columns into the
  -- fields' types and keeps one row at most for an id, the client's `Get`, its row scanned and assigned, is
  -- the model's `get_share` of a world whose next call does not fail.
  pub get-get_share :
      (test : Comparing)
      → IsBinary test
      → (d : Driver ShareColumn) (w : World)
      → IsTable schema test field_id d (map share_values w.shares)
      → (id : Text) → length (keep (λ r. text_eq r.id id) w.shares) ≤ 1
      → (fault w).0 ≡ false
      → (get schema d (id_predicates.order.eq id) >>= load_share scan)
        ≡ as_client (get_share id w).0
  get-get_share test b d w table id one fine =
      rw
        (
          get_lem schema test field_id d _ table (id_is test b id ∷ []) (id_is test b id) refl,
          selected-map test b id w.shares,
          loaded (keep (λ r. text_eq r.id id) w.shares),
          only-with_id test b id w.shares one,
          get_share_lem id w fine,
        )
        refl
