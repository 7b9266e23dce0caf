-- ===== src/Witnesses/Clients.antt =====
-- The theorems on the database client at concrete inputs.
use shareserver.Base.{
  keep, Text, Bool, Bool-cases, inl, inr, true, false, not, none, some, List, [], ◌∷◌, map, codes,
  text_eq, text_lt, length, ◌≡◌, refl, arith, ◌⊎◌, All,
}
use shareserver.Base.Int.{pos}
use shareserver.Fixtures as Fix
use shareserver.World.{ShareRow, fault}
use shareserver.World.Db.{get_share}
use shareserver.Share.{active_at}
use shareserver.Share.Store.{to_row, from_ent}
use shareserver.Ent.{
  Value, missing_id, text, bool, int, string_kind, bool_kind, int_kind, missing_required,
  unknown_field, unexpected_type, has_kind, ok, err, ◌>>=◌, Row,
}
use shareserver.Ent.Predicate.{Comparing, IsBinary, eq, gt, lte}
use shareserver.Ent.Mutation.{create, new_mutation, set_id, named, set_field}
use shareserver.Ent.Create.{with_defaults, create_spec, save}
use shareserver.Ent.Scan.{nullable_text, nullable_bool, nullable_int, Scanning, IsScan}
use shareserver.Ent.Query.{Driver, get}
use shareserver.Ent.Shares.{ShareColumn, ShareMutation, schema, field_id}
use shareserver.Ent.Shares.Fields.{id_predicates}
use shareserver.Ent.ShareRows.{share_values, insert_builder}
use shareserver.Ent.Predicate.{selects}
use shareserver.Ent.Query.{Query}
use shareserver.Ent.Lists.{
  IsArranged, IsNewestFirst, IsSharesTable, StoreMatches, all_rows-StoreMatches,
}
use shareserver.Ent.Admins
use shareserver.Ent.Admins.{AdminColumn, AdminMutation}
use shareserver.Ent.Builders.{admin_updater}
use shareserver.Ent.Update.{UpdateSpec, update_one_spec}
use shareserver.Ent.Keyed.{are_keyed}
use shareserver.Ent.Updates.{IsUnknown, Sends, update_one_spec-cases}
use shareserver.Ent.Inserts.{load_share, insert_saved}
use shareserver.Ent.Gets.{as_client, get-get_share}
use shareserver.Ent.Tables.{cut, selected, IsTable}
use shareserver.Ent.Checks.{HasValue, IsFirstMissing, save-cases}
use shareserver.Ent.FieldLaws.{IsAssigned, set_field-cases}
use shareserver.Ent.Saves.{SavesRows, save-SavesRows}

-- SQLite's comparisons as far as the program uses them.
abbrev binary : Comparing
binary eq (text s) (text t) = text_eq s t
binary eq (bool a) (bool true) = a
binary eq (bool a) (bool false) = not a
binary gt (text s) (text t) = text_lt t s
binary lte (text s) (text t) = not (text_lt t s)
binary _ _ _ = false

abbrev binary-IsBinary : IsBinary binary
binary-IsBinary = record {
  eq_text = λ s t. refl;
  eq_true = λ b. refl;
  eq_false = λ b. refl;
  gt_text = λ s t. refl;
  lte_text = λ s t. refl;
}

abbrev reading : Scanning
reading string_kind (text t) = nullable_text (some t)
reading string_kind _ = nullable_text none
reading bool_kind (bool b) = nullable_bool (some b)
reading bool_kind _ = nullable_bool none
reading int_kind (int n) = nullable_int (some n)
reading int_kind _ = nullable_int none

abbrev reading-IsScan : IsScan reading
reading-IsScan = record {
  null_text = refl;
  some_text = λ t. refl;
  some_bool = λ b. refl;
  null_int = refl;
  some_int = λ n. refl;
}

insert_saved_example :
    (save schema (insert_builder (codes "2026-11-26T00:00:00Z") (from_ent Fix.row))
      >>= load_share reading)
    ≡ ok (to_row (codes "2026-11-26T00:00:00Z") (from_ent Fix.row))
insert_saved_example =
    insert_saved reading reading-IsScan (codes "2026-11-26T00:00:00Z") (from_ent Fix.row)

-- A database that holds the shares of the sample world.
abbrev rows : List (Row ShareColumn)
rows = map share_values Fix.world.shares

abbrev table : Driver ShareColumn
table = record {
  query_nodes = λ q. ok (cut q.limit (selected schema binary field_id q.predicates rows));
  scan_ids = λ q.
      ok (
        map (λ row. row field_id)
          (cut q.limit (selected schema binary field_id q.predicates rows)));
  count_nodes = λ q. ok (length (selected schema binary field_id q.predicates rows));
  delete_nodes = λ ps. ok (length (selected schema binary field_id ps rows));
}

abbrev table-IsTable : IsTable schema binary field_id table rows
table-IsTable = record { nodes = λ q o f. refl }

get-get_share_example :
    (get schema table (id_predicates.order.eq Fix.id) >>= load_share reading)
    ≡ as_client (get_share Fix.id Fix.world).0
unfolding text_eq fault
get-get_share_example =
    get-get_share reading reading-IsScan binary binary-IsBinary table Fix.world table-IsTable Fix.id
      (omega arith) refl

abbrev no_title : ShareMutation
no_title = set_id (text Fix.id) (new_mutation create)

save-cases_example :
    let full = with_defaults schema schema.defaults no_title in
    (All (HasValue schema full) schema.required
      × (save schema no_title ≡ ok (create_spec schema full)))
    ⊎ ((c : ShareColumn) × IsFirstMissing schema schema.required full c
        × (save schema no_title ≡ err (missing_required (schema.name c))))
save-cases_example = save-cases schema no_title

set_field-cases_example :
    let name = codes "title" in
    let v = text (codes "notes") in
    ((named schema schema.fields name ≡ none)
      × (set_field schema name v no_title ≡ err (unknown_field name)))
    ⊎ ((c : ShareColumn) × (named schema schema.fields name ≡ some c)
        × (((has_kind (schema.kind c) v ≡ false)
              × (set_field schema name v no_title ≡ err (unexpected_type name)))
            ⊎ ((m1 : ShareMutation) × (has_kind (schema.kind c) v ≡ true)
                × IsAssigned schema name c v no_title m1)))
set_field-cases_example = set_field-cases schema (codes "title") (text (codes "notes")) no_title

save-SavesRows_example :
    SavesRows reading Fix.session_row
      (record { id = codes "ip"; banned_until = codes "t" })
      (record { ip = codes "ip"; happened_at = codes "t" })
      (record {
        actor = codes "a";
        ip = codes "ip";
        action = codes "b";
        target = codes "c";
        meta = [];
        created_at = codes "t";
      })
      Fix.admin_row
save-SavesRows_example =
    save-SavesRows reading reading-IsScan Fix.session_row
      (record { id = codes "ip"; banned_until = codes "t" })
      (record { ip = codes "ip"; happened_at = codes "t" })
      (record {
        actor = codes "a";
        ip = codes "ip";
        action = codes "b";
        target = codes "c";
        meta = [];
        created_at = codes "t";
      })
      Fix.admin_row

abbrev older : ShareRow
older = record Fix.row { id = codes "older"; created_at = codes "2020-01-01T00:00:00Z" }

-- The table has the older row first.
abbrev stored : List ShareRow
stored = older ∷ Fix.row ∷ []

abbrev kept : Query ShareColumn → List ShareRow → List ShareRow
kept q = keep (λ r. selects binary (share_values r) q.predicates)

-- Every query is answered by age, also one that asks for no order.
abbrev shares_driver : Driver ShareColumn
shares_driver = record {
  query_nodes = λ q. ok (map share_values (cut q.limit (kept q (Fix.row ∷ older ∷ []))));
  scan_ids = λ q. ok [];
  count_nodes = λ q. ok (length (kept q stored));
  delete_nodes = λ ps. ok 0;
}

swapped :
    (x y : ShareRow) (p : ShareRow → Bool) → IsArranged (keep p (y ∷ x ∷ [])) (keep p (x ∷ y ∷ []))
swapped x y p q = ground arith

sorted :
    (x y : ShareRow) (p : ShareRow → Bool)
    → text_lt x.created_at y.created_at ≡ false
    → IsNewestFirst (keep p (x ∷ y ∷ []))
sorted x y p h = elim (Bool-cases (p x)) [
  | inl a ↦ elim (Bool-cases (p y)) [ inl b ↦ rw (a, b) (h, tt) | inr b ↦ rw (a, b) tt ]
  | inr a ↦ elim (Bool-cases (p y)) [ inl b ↦ rw (a, b) tt | inr b ↦ rw (a, b) tt ]
]

older_lem : text_lt Fix.row.created_at older.created_at ≡ false
unfolding text_lt
older_lem = refl

abbrev shares_driver-IsSharesTable : IsSharesTable binary shares_driver stored
shares_driver-IsSharesTable = record {
  plain = λ q o f. (
    kept q (Fix.row ∷ older ∷ []),
    swapped Fix.row older (λ r. selects binary (share_values r) q.predicates),
    refl,
  );
  by_age = λ q o f. (
    kept q (Fix.row ∷ older ∷ []),
    swapped Fix.row older (λ r. selects binary (share_values r) q.predicates),
    sorted Fix.row older (λ r. selects binary (share_values r) q.predicates) older_lem,
    refl,
  );
  counts = λ q o f l. refl;
}

all_rows-StoreMatches_example :
    StoreMatches reading shares_driver stored (active_at Fix.now) (codes "6b")
all_rows-StoreMatches_example =
    all_rows-StoreMatches reading reading-IsScan binary binary-IsBinary shares_driver stored
      shares_driver-IsSharesTable (active_at Fix.now) (codes "6b")

-- `UpdateOneID(7).SetPasswordHash("h")`
abbrev renewed : AdminMutation
renewed = admin_updater (pos 7) (codes "h")

update_one_spec-cases_example :
    ((renewed.id ≡ none) × (update_one_spec Admins.schema [] renewed ≡ err missing_id))
    ⊎ ((id : Value) × (renewed.id ≡ some id)
        × (((name : Text) × IsUnknown Admins.schema [] name
              × (update_one_spec Admins.schema [] renewed ≡ err (unknown_field name)))
            ⊎ ((spec : UpdateSpec AdminColumn) × (update_one_spec Admins.schema [] renewed
                  ≡ ok spec)
                × (spec.id ≡ some id)
                × (spec.predicates ≡ renewed.predicates)
                × ((c : AdminColumn) → Sends Admins.schema renewed spec c))))
update_one_spec-cases_example = update_one_spec-cases Admins.schema are_keyed.1 [] renewed
