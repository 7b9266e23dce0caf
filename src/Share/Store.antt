-- ===== src/Share/Store.antt =====
-- internal/share/store.go: every query of the shares table, and the mapping of its rows.
use shareserver.Base.{
  ℕ, Bool, true, false, ◌&&◌, ◌||◌, not, Option, none, some, List, [], map, Text, codes, text_eq,
  text_lt, is_empty, if◌then◌else◌,
}
use shareserver.Share.{NullString, Share, ActiveRule}
use shareserver.World.{ShareRow, Result, ok, err, M, pure, ◌>>=◌}
use shareserver.World.Db.{
  get_share, query_shares, query_newest, count_shares, create_share, delete_shares,
}

-- SQL comparisons with NULL hold of no row.
abbrev holds : (Text → Bool) → Option Text → Bool
holds p none = false
holds p (some t) = p t

abbrev pub is_nil : Option Text → Bool
is_nil none = true
is_nil (some _) = false

-- `ActiveRule.Predicate`
unfoldable pub predicate : ActiveRule → ShareRow → Bool
predicate r row =
    is_nil row.purged_at
    && (is_nil row.expires_at || holds (λ t. text_lt r.encoded_now t) row.expires_at)

-- `ActiveRule.ExpiredPredicate`
unfoldable pub expired_predicate : ActiveRule → ShareRow → Bool
expired_predicate r row =
    is_nil row.purged_at && holds (λ t. not (text_lt r.encoded_now t)) row.expires_at

unfoldable pub string_value : Option Text → Text
string_value none = []
string_value (some v) = v

unfoldable pub null_string : Option Text → NullString
null_string none = record { valid = false; string = [] }
null_string (some v) =
    if is_empty v
    then record { valid = false; string = [] }
    else record { valid = true; string = v }

unfoldable pub null_string_ptr : NullString → Option Text
null_string_ptr v = if not v.valid || is_empty v.string then none else some v.string

unfoldable pub non_empty_string : Text → Option Text
non_empty_string v = if is_empty v then none else some v

unfoldable pub from_ent : ShareRow → Share
from_ent row = record {
  id = row.id;
  title = row.title;
  visibility = row.visibility;
  private_key_hash = string_value row.private_key_hash;
  download_password_hash = string_value row.download_password_hash;
  encrypted = row.encrypted;
  cipher_meta = row.cipher_meta;
  zip_manifest = row.zip_manifest;
  security_warning = row.security_warning;
  admin_message = row.admin_message;
  size = row.size;
  blob_path = row.blob_path;
  blob_sha256 = row.blob_sha256;
  uploader_ip = row.uploader_ip;
  expires_at = null_string row.expires_at;
  created_at = row.created_at;
  purged_at = null_string row.purged_at;
}

-- The row that `Insert` sets up, with the server's own `created_at`.
unfoldable pub to_row : Text → Share → ShareRow
to_row created sh = record {
  id = sh.id;
  title = sh.title;
  visibility = sh.visibility;
  private_key_hash = non_empty_string sh.private_key_hash;
  download_password_hash = non_empty_string sh.download_password_hash;
  encrypted = sh.encrypted;
  cipher_meta = sh.cipher_meta;
  zip_manifest = sh.zip_manifest;
  security_warning = sh.security_warning;
  admin_message = sh.admin_message;
  size = sh.size;
  blob_path = sh.blob_path;
  blob_sha256 = sh.blob_sha256;
  uploader_ip = sh.uploader_ip;
  expires_at = null_string_ptr sh.expires_at;
  created_at = created;
  purged_at = null_string_ptr sh.purged_at;
}

-- `Store.query`: a failed query is an empty list.
unfoldable pub rows_or_none : Result (List ShareRow) → List Share
rows_or_none (ok rows) = map from_ent rows
rows_or_none (err _) = []

-- `Store.count`
unfoldable pub count_or_zero : Result ℕ → ℕ
count_or_zero (ok n) = n
count_or_zero (err _) = 0

abbrev found : Result ShareRow → Option Share
found (ok row) = some (from_ent row)
found (err _) = none

unfoldable pub get : Text → M (Option Share)
get id = do r ← get_share id; pure (found r)

abbrev is_protected : ShareRow → Bool
is_protected row = row.encrypted && not (is_nil row.download_password_hash)

unfoldable pub listed_public : ActiveRule → ShareRow → Bool
listed_public active row =
    predicate active row && text_eq row.visibility (codes "public") && is_protected row

unfoldable pub list_public : ActiveRule → M (List Share)
list_public active = do r ← query_newest 100 (listed_public active); pure (rows_or_none r)

unfoldable pub listed_by_key : ActiveRule → Text → ShareRow → Bool
listed_by_key active key_hash row =
    predicate active row
    && text_eq row.visibility (codes "private")
    && holds (λ h. text_eq h key_hash) row.private_key_hash
    && is_protected row

unfoldable pub list_by_key : ActiveRule → Text → M (List Share)
list_by_key active key_hash = do
  r ← query_newest 100 (listed_by_key active key_hash)
  pure (rows_or_none r)

unfoldable pub list_all : M (List Share)
list_all = do r ← query_newest 300 (λ _. true); pure (rows_or_none r)

-- `Store.All`
unfoldable pub all_shares : M (List Share)
all_shares = do r ← query_shares (λ _. true); pure (rows_or_none r)

unfoldable pub with_expiry : M (List Share)
with_expiry = do
  r ← query_shares (λ row. is_nil row.purged_at && not (is_nil row.expires_at))
  pure (rows_or_none r)

unfoldable pub without_download_protection : M (List Share)
without_download_protection = do
  r ← query_shares (λ row. not row.encrypted || is_nil row.download_password_hash)
  pure (rows_or_none r)

unfoldable pub count_active : ActiveRule → M ℕ
count_active active = do r ← count_shares (predicate active); pure (count_or_zero r)

unfoldable pub count_expired : ActiveRule → M ℕ
count_expired active = do r ← count_shares (expired_predicate active); pure (count_or_zero r)

unfoldable pub count_purged : M ℕ
count_purged = do r ← count_shares (λ row. not (is_nil row.purged_at)); pure (count_or_zero r)

unfoldable pub insert : Text → Share → M (Result (Unit {0}))
insert created sh = create_share (to_row created sh)

-- `Store.Delete`
unfoldable pub delete_row : Text → M (Result (Unit {0}))
delete_row id = delete_shares id
