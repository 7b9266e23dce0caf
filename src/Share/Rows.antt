-- ===== src/Share/Rows.antt =====
-- internal/share/store.go: what a Share keeps on its way through the table.
use shareserver.Base.{◌≡◌, refl, [], ◌∷◌, Text, arith}
use shareserver.Share.{NullString, Share}
use shareserver.Share.Store.{
  from_ent, to_row, string_value, null_string, null_string_ptr, non_empty_string,
}

string_value-non_empty_string : (s : Text) → string_value (non_empty_string s) ≡ s
unfolding string_value non_empty_string
string_value-non_empty_string [] = refl
string_value-non_empty_string (_ ∷ _) = refl

-- The form in which the store keeps an optional text: an empty one is null.
abbrev pub IsNormal : NullString → Type 0
IsNormal n = null_string (null_string_ptr n) ≡ n

-- A Share that is inserted is read back with every field but the creation stamp, which the server
-- sets, provided that its optional stamps are null where they are empty.
pub from_ent-to_row :
    (created : Text) (sh : Share)
    → IsNormal sh.expires_at
    → IsNormal sh.purged_at
    → from_ent (to_row created sh) ≡ record sh { created_at = created }
unfolding from_ent to_row
from_ent-to_row created sh e p = ground (
  arith,
  string_value-non_empty_string sh.private_key_hash,
  string_value-non_empty_string sh.download_password_hash,
  e,
  p,
)
