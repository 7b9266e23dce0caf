-- ===== src/Http/Body.antt =====
-- internal/http/handlers.go: the one-value request bodies, and the parts of an upload.
use shareserver.Base.{
  ℕ, ◌+◌, ◌*◌, Bool, true, false, ◌&&◌, ◌||◌, not, Option, none, some, List, [], ◌∷◌, Text, codes,
  text_eq, is_empty, ltb, leb, if◌then◌else◌, length, any,
}
use shareserver.Storage.{Reader, Ending, eof, too_big, bad_body, broken}
use shareserver.Http.{Parsers}

abbrev pub max_download_password_bytes : ℕ
max_download_password_bytes = 4096

abbrev pub max_private_key_bytes : ℕ
max_private_key_bytes = 65536

abbrev pub max_upload_field_bytes : ℕ
max_upload_field_bytes = 65537

-- A body as read: its bytes, and whether the read ended with no error.
pub record Body : Type 0 where
  pub bytes : Text
  pub complete : Bool

abbrev acceptable : ℕ → Text → Option Text
acceptable maximum v = if is_empty v || ltb maximum (length v) then none else some v

-- The only member, of the name asked for, and a string.
abbrev json_value : Text → ℕ → Option (List (Text × Option Text)) → Option Text
json_value field maximum (some ((name, some v) ∷ [])) =
    if text_eq name field then acceptable maximum v else none
json_value field maximum _ = none

abbrev form_value : Text → ℕ → Option (List (Text × List Text)) → Option Text
form_value field maximum (some ((name, v ∷ []) ∷ [])) =
    if text_eq name field then acceptable maximum v else none
form_value field maximum _ = none

-- A body within its limit. `io.LimitReader` hides an error beyond the limit, which is refused too.
abbrev within : ℕ → Body → Bool
within limit body = body.complete && leb (length body.bytes) limit

abbrev body_value : Parsers → Text → ℕ → Body → Option Text → Option Text
body_value p field maximum body none = none
body_value p field maximum body (some kind) =
    if text_eq kind (codes "application/json")
    then if within (maximum * 6 + 256) body
      then json_value field maximum (p.json_members body.bytes)
      else none
    else if text_eq kind (codes "application/x-www-form-urlencoded")
        && within (maximum * 3 + 256) body
    then form_value field maximum (p.parse_query body.bytes)
    else none

unfoldable pub request_body_value : Parsers → Text → Text → Body → Text → ℕ → Option Text
request_body_value p raw_query content_type body field maximum =
    if not (is_empty raw_query)
    then none
    else body_value p field maximum body (p.media_type content_type)

-- One part of the multipart body: its names, its bytes and how reading it ends.
pub record Part : Type 0 where
  pub form_name : Text
  pub file_name : Text
  pub bytes : Text
  pub ending : Ending

pub data UploadParts : Type 0 where
  -- the fields, and the blob's reader where a blob follows them
  parsed : List (Text × Text) → Option Reader → UploadParts
  field_too_large bad_upload : UploadParts

unfoldable pub field : Text → List (Text × Text) → Text
field name [] = []
field name ((k, v) ∷ fields) = if text_eq k name then v else field name fields

abbrev pub has_field : Text → List (Text × Text) → Bool
has_field name fields = any (λ e. text_eq e.0 name) fields

abbrev pub allowed_fields : List Text
allowed_fields =
    codes "csrf"
    ∷ codes "title"
    ∷ codes "visibility"
    ∷ codes "private_key"
    ∷ codes "password_hash"
    ∷ codes "cipher_meta"
    ∷ codes "zip_manifest"
    ∷ codes "encrypted"
    ∷ codes "expiry_hours"
    ∷ codes "security_warning"
    ∷ codes "admin_message"
    ∷ []

-- `uploadPart.Read`: the end of the blob is the end of the body, or an error.
abbrev blob_ending : Ending → List Part → Bool → Ending
blob_ending eof [] true = eof
blob_ending eof [] false = bad_body
blob_ending eof (_ ∷ _) finished = bad_body
blob_ending too_big rest finished = too_big
blob_ending bad_body rest finished = bad_body
blob_ending broken rest finished = broken

abbrev is_eof : Ending → Bool
is_eof eof = true
is_eof too_big = false
is_eof bad_body = false
is_eof broken = false

-- One round of `uploadParts` at a part that is not the blob: none to go on with the field.
abbrev pub field_error : Part → List (Text × Text) → Option UploadParts
field_error part fields =
    if not (is_empty part.file_name) || not (any (λ n. text_eq n part.form_name) allowed_fields)
    then some bad_upload
    else if has_field part.form_name fields
    then some bad_upload
    else if not (is_eof part.ending)
    then some bad_upload
    else if leb max_upload_field_bytes (length part.bytes)
    then some field_too_large
    else none

-- The loop over the parts; `finished` is whether the body ends after them with no error.
unfoldable pub upload_parts : Bool → List (Text × Text) → List Part → UploadParts
upload_parts finished fields [] = if finished then parsed fields none else bad_upload
upload_parts finished fields (part ∷ rest) =
    let more = upload_parts finished ((part.form_name, part.bytes) ∷ fields) rest in
    if text_eq part.form_name (codes "blob")
    then if is_empty part.file_name
      then bad_upload
      else parsed fields
          (some (record { bytes = part.bytes; ending = blob_ending part.ending rest finished }))
    else elim (field_error part fields) [ some e ↦ e | none ↦ more ]
