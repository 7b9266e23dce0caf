-- ===== src/Upload/Lifetime.antt =====
-- internal/upload/upload.go, internal/share/model.go and internal/storage/integrity.go: how long an
-- uploaded Share lives.
use shareserver.Base.{
  ℕ, ◌+◌, ◌*◌, ◌<◌, ◌≡◌, refl, true, false, Option, none, some, [], text_eq, arith, leb, ltb, find?,
  ap, ◌∙◌,
}
use shareserver.Time.{format_nano, parse, hour}
use shareserver.Time.RoundTrip.{year_10000, parse-format_nano}
use shareserver.World.{World, ShareRow}
use shareserver.World.Path.{absolute, clean}
use shareserver.Auth.{Crypto}
use shareserver.Share.{active_at, is_expired, is_active}
use shareserver.Share.Store.{from_ent, null_string_ptr, null_string}
use shareserver.Storage.{staged_path, blob_path}
use shareserver.Storage.Purged.{is_due}
use shareserver.Upload.{Config, Request, CipherMetadata, expiry_hours}
use shareserver.Upload.Admission.{IsAdmitted-expiry_hours, validate-IsAdmitted}
use shareserver.Upload.Expiry.{expiry_hours_bounds}
use shareserver.Upload.Do.{Draws, Receipt, done, do_upload}
use shareserver.Upload.Success.{do_upload-IsStored}

parse-empty : parse [] ≡ none
unfolding parse
parse-empty = refl

module _ (e : ℕ) (early : e < year_10000) where
  -- The text of an instant is not empty.
  kept : null_string_ptr (record { valid = true; string = format_nano e }) ≡ some (format_nano e)
  unfolding null_string_ptr
  kept = ground (arith, parse-empty, parse-format_nano e early)

  is_expired-format_nano :
      (t : ℕ) → is_expired (active_at t) (record { valid = true; string = format_nano e }) ≡ leb e t
  unfolding is_expired active_at
  is_expired-format_nano t = ground (arith, parse-empty, parse-format_nano e early)

  -- A row of that expiry.
  is_active-row :
      (row : ShareRow)
      → row.expires_at ≡ some (format_nano e)
      → row.purged_at ≡ none
      → (t : ℕ) → is_active (active_at t) (from_ent row) ≡ ltb t e
  unfolding is_active from_ent null_string is_expired active_at
  is_active-row row h p t = ground (arith, h, p, parse-empty, parse-format_nano e early)

  is_due-row :
      (row : ShareRow)
      → row.expires_at ≡ some (format_nano e)
      → row.purged_at ≡ none
      → (t : ℕ) → is_due t row ≡ leb e t
  is_due-row row h p t = ground (arith, h, p, parse-format_nano e early)

no_null_string : null_string_ptr (record { valid = false; string = [] }) ≡ none
unfolding null_string_ptr
no_null_string = refl

-- An upload that succeeds is stored under its receipt's id and is active at exactly the instants before
-- the end of the lifetime that the policy gives its request, and due for a purge at exactly those from
-- then on. The staging name is another file's, and the lifetime ends before the year 10000.
pub do_upload-lifetime :
    (c : Crypto) (cfg : Config) (meta : Option CipherMetadata) (req : Request) (draws : Draws)
    (w : World) (r : Receipt)
    → text_eq
        (absolute w.cwd (clean (staged_path cfg.blob_dir draws.id)))
        (absolute w.cwd (blob_path cfg.blob_dir draws.id))
      ≡ false
    → draws.now + 2160 * hour < year_10000
    → (do_upload c cfg meta req draws w).0 ≡ done r
    → let end = draws.now + expiry_hours req.admin req.expiry_hours * hour in
      (row : ShareRow) × (find? (λ s. text_eq s.id r.id) (do_upload c cfg meta req draws w).1.shares
        ≡ some row)
      × ((t : ℕ)
          → (is_active (active_at t) (from_ent row) ≡ ltb t end) × (is_due t row ≡ leb end t))
do_upload-lifetime c cfg meta req draws w r apart early h =
    let (policy, checked, (row, i)) = do_upload-IsStored c cfg meta req draws w r apart h in
    let hours : policy.hours ≡ expiry_hours req.admin req.expiry_hours =
      IsAdmitted-expiry_hours c cfg meta req policy
        (validate-IsAdmitted c cfg meta req policy checked) in
    let b = expiry_hours_bounds req.admin req.expiry_hours in
    let end = draws.now + expiry_hours req.admin req.expiry_hours * hour in
    let before : end < year_10000 = ground (arith, early, b.1) in
    let due : row.expires_at ≡ some (format_nano end) =
      i.expires_at
      ∙ (ap
            (λ n.
              null_string_ptr
                (record { valid = true; string = format_nano (draws.now + n * hour) }))
            hours
          ∙ kept end before) in
    let unpurged : row.purged_at ≡ none = i.purged_at ∙ no_null_string in
    (
      row,
      ap (λ x. find? (λ s. text_eq s.id x) (do_upload c cfg meta req draws w).1.shares) i.receipt_id
          ∙ i.found,
      λ t. (is_active-row end before row due unpurged t, is_due-row end before row due unpurged t),
    )
