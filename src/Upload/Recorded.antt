-- ===== src/Upload/Recorded.antt =====
-- internal/upload/upload.go: an upload from its staged blob to its row.
use shareserver.Base.{
  Bool, ◌≢◌, ◌≡◌, refl, ℤ, true, false, none, some, Text, text_eq, arith, length, ◌⊎◌, inl, inr,
}
use shareserver.Base.Int.{pos}
use shareserver.Time.{format_nano}
use shareserver.World.{World, ShareRow, regular, Result, ok, err, fault}
use shareserver.World.Path.{absolute, clean}
use shareserver.World.Files.{find_node, remove, rename}
use shareserver.Auth.{Crypto}
use shareserver.Share.Store.{insert, to_row}
use shareserver.Storage.{Staged, blob_path, commit, hex, remove_blob_best_effort}
use shareserver.Storage.Integrity.{purge, purge_unprotected}
use shareserver.Storage.Shrinks.{
  Shrinks-trans, purge-Shrinks, purge_unprotected-Shrinks, lookup-delete_ne,
}
use shareserver.Upload.{Config, Request, Policy}
use shareserver.Upload.Do.{
  Draws, Outcome, Receipt, done, measure_again, finish, admit, turn_away, fits, record_share,
  new_share, receipt, log_upload, inserted, committed,
}
use shareserver.Upload.Receipts.{IsStored, insert-ok, log-stored, commit-ok}

module _ (c : Crypto) (cfg : Config) (req : Request) (draws : Draws) (policy : Policy)
    (home : Text) where
  log_upload-stored :
      (blob : Staged) (w : World)
      → let w' = (log_upload c cfg req draws policy blob w).1 in
        (w'.shares ≡ w.shares) × (w'.files ≡ w.files) × (w'.cwd ≡ w.cwd)
  unfolding log_upload
  log_upload-stored blob w = log-stored _ _ _ _ _ _ w

  inserted-done :
      (x : Result (Unit {0})) (blob : Staged) (path : Text) (w : World) (r : Receipt)
      → (inserted c cfg req draws policy blob path x w).0 ≡ done r
      → let w' = (inserted c cfg req draws policy blob path x w).1 in
        (x ≡ ok tt)
        × (r ≡ receipt c cfg req draws policy blob)
        × (w'.shares ≡ w.shares)
        × (w'.files ≡ w.files)
        × (w'.cwd ≡ w.cwd)
  inserted-done (err e) blob path w r h = absurd (ground arith)
  inserted-done (ok tt) blob path w r h = ground (arith, log_upload-stored blob w)

  record_share-IsStored :
      (v path : Text) (blob : Staged) (w : World) (r : Receipt)
      → (record_share c cfg req draws policy v blob path w).0 ≡ done r
      → w.cwd ≡ home
      → path ≡ blob_path cfg.blob_dir draws.id
      → find_node w path ≡ some (regular req.reader.bytes)
      → blob.size ≡ pos (length req.reader.bytes)
      → blob.sum ≡ hex (c.sha256 req.reader.bytes)
      → IsStored c cfg req draws policy r home
          (record_share c cfg req draws policy v blob path w).1
          (to_row (format_nano draws.created) (new_share c cfg req draws policy v blob path))
  unfolding record_share to_row
  record_share-IsStored v path blob w r h at_home place held size sum =
      let sh = new_share c cfg req draws policy v blob path in
      let i = insert (format_nano draws.created) sh w in
      let d = inserted-done i.0 blob path i.1 r h in
      let a = insert-ok (format_nano draws.created) sh w d.0 in
      record {
        cwd = ground (arith, d, a);
        found = ground (arith, d, a);
        path = place;
        content = ground (arith, d, a);
        size = size;
        sum = sum;
        title = refl;
        visibility = refl;
        security_warning = refl;
        admin_message = refl;
        expires_at = refl;
        purged_at = refl;
        receipt_id = ground (arith, d);
        receipt_size = ground (arith, d);
      }

  -- Some row of the upload is stored.
  abbrev Stored : Receipt → World → Type 0
  Stored r w = (row : ShareRow) × IsStored c cfg req draws policy r home w row

  admit-Stored :
      (v : Text) (blob : Staged) (w : World) (r : Receipt)
      → w.cwd ≡ home
      → (admit c cfg req draws policy v blob w).0 ≡ done r
      → find_node w blob.path ≡ some (regular req.reader.bytes)
      → blob.size ≡ pos (length req.reader.bytes)
      → blob.sum ≡ hex (c.sha256 req.reader.bytes)
      → Stored r (admit c cfg req draws policy v blob w).1
  unfolding admit
  admit-Stored v blob w r at_home h held size sum =
      moved (commit blob.path cfg.blob_dir draws.id w).0 refl h
    where
      moved :
          (x : Result Text)
          → (commit blob.path cfg.blob_dir draws.id w).0 ≡ x
          → (committed c cfg req draws policy v blob x
              (commit blob.path cfg.blob_dir draws.id w).1).0
            ≡ done r
          → Stored r
              (committed c cfg req draws policy v blob x
                (commit blob.path cfg.blob_dir draws.id w).1).1
      moved (err e) k d = absurd (ground arith)
      moved (ok path) k d =
          let w1 = (commit blob.path cfg.blob_dir draws.id w).1 in
          let m = commit-ok blob.path cfg.blob_dir draws.id path w k in
          (
            to_row (format_nano draws.created) (new_share c cfg req draws policy v blob path),
            record_share-IsStored v path blob w1 r d (ground (arith, m)) m.0 (ground (arith, m))
                size sum,
          )

  admit-gone :
      (v : Text) (blob : Staged) (w : World) (r : Receipt)
      → (admit c cfg req draws policy v blob w).0 ≡ done r
      → find_node w blob.path ≢ none
  unfolding admit commit rename fault
  admit-gone v blob w r h gone = absurd (ground arith)

  finish-Stored :
      (v : Text) (n : ℤ) (blob : Staged) (w : World) (r : Receipt)
      → w.cwd ≡ home
      → (finish c cfg req draws policy v n blob w).0 ≡ done r
      → (find_node w blob.path ≡ some (regular req.reader.bytes)) ⊎ (find_node w blob.path ≡ none)
      → blob.size ≡ pos (length req.reader.bytes)
      → blob.sum ≡ hex (c.sha256 req.reader.bytes)
      → Stored r (finish c cfg req draws policy v n blob w).1
  unfolding finish turn_away
  finish-Stored v n blob w r at_home h held size sum =
      chosen (fits c cfg req draws policy n blob w) h held
    where
      chosen :
          (b : Bool)
          → let x = elim b as (λ _. Outcome × World) [
            | true ↦ admit c cfg req draws policy v blob w
            | false ↦ turn_away c cfg req draws policy blob w
          ] in
            x.0 ≡ done r
            → (find_node w blob.path ≡ some (regular req.reader.bytes))
              ⊎ (find_node w blob.path ≡ none)
            → Stored r x.1
      chosen true d (inl found) = admit-Stored v blob w r at_home d found size sum
      chosen true d (inr gone) = absurd (admit-gone v blob w r d gone)
      chosen false d found = absurd (ground arith)

  pub measure_again-Stored :
      (v : Text) (n : ℤ) (blob : Staged) (w : World) (r : Receipt)
      → w.cwd ≡ home
      → (measure_again c cfg req draws policy v n blob w).0 ≡ done r
      → find_node w blob.path ≡ some (regular req.reader.bytes)
      → blob.size ≡ pos (length req.reader.bytes)
      → blob.sum ≡ hex (c.sha256 req.reader.bytes)
      → Stored r (measure_again c cfg req draws policy v n blob w).1
  unfolding measure_again
  measure_again-Stored v n blob w r at_home h held size sum =
      let w1 = (purge_unprotected w).1 in
      let w2 = (purge draws.commit_now w1).1 in
      let s =
        Shrinks-trans cfg.blob_dir (purge_unprotected-Shrinks cfg.blob_dir w)
          (purge-Shrinks cfg.blob_dir draws.commit_now w1) in
      finish-Stored v n blob w2 r (ground (arith, s.cwd)) h
        (ground (arith, s.kept (absolute w.cwd blob.path), s.cwd)) size sum

  -- Removing another file leaves it stored.
  pub remove-IsStored :
      (path : Text) (w : World) (r : Receipt) (row : ShareRow)
      → text_eq (absolute home (clean path)) (absolute home (blob_path cfg.blob_dir draws.id))
        ≡ false
      → IsStored c cfg req draws policy r home w row
      → IsStored c cfg req draws policy r home (remove_blob_best_effort path w).1 row
  unfolding remove_blob_best_effort remove fault
  remove-IsStored path w r row apart i = ground (
    arith,
    i.cwd,
    i.path,
    i.content,
    lookup-delete_ne (absolute home (blob_path cfg.blob_dir draws.id)) (absolute home (clean path))
        w.files apart,
  )
