-- ===== src/Http/Isolation.antt =====
-- internal/http/download.go: the bans that a failed download password can change.
use shareserver.Base.{
  ℕ, ◌-◌, ◌&&◌, not, text_lt, has_prefix, ◌≡◌, ◌⊎◌, inl, inr, refl, Bool, false, Option, some, List,
  [], ◌∷◌, ◌++◌, map, Text, text_eq, text_eq_iff, arith, discard, find?, if◌then◌else◌,
}
use shareserver.World.{World, BanRow, FailureRow, Failure, Result, ok, err, fault}
use shareserver.World.Db.{
  get_ban, create_ban, update_ban, delete_ban, with_until, create_failure, delete_failures,
  count_failures,
}
use shareserver.Time.{minute, format_nano, format_fixed}
use shareserver.Http.Download.{
  banned_until, record_failure, count_failure, failure_key, write_ban, set_ban, judge, new_until,
  download_failure_prefix,
}

-- The ban under an id.
abbrev pub ban_of : Text → List BanRow → Option BanRow
ban_of id bans = find? (λ r. text_eq r.id id) bans

module _ (id key : Text) (other : text_eq key id ≡ false) where
  ban_of-append :
      (l : List BanRow) (r : BanRow) → r.id ≡ key → ban_of id (l ++ r ∷ []) ≡ ban_of id l
  ban_of-append [] r h = ground (arith, other)
  ban_of-append (b ∷ l) r h = ground (arith, ban_of-append l r)

  ban_of-discard : (l : List BanRow) → ban_of id (discard (λ b. text_eq b.id key) l) ≡ ban_of id l
  ban_of-discard [] = refl
  ban_of-discard (b ∷ l) = ground (arith, ban_of-discard l, text_eq_iff b.id key, other)

  ban_of-map :
      (t : Text) (l : List BanRow)
      → ban_of id (map (λ b. if text_eq b.id key then with_until t b else b) l) ≡ ban_of id l
  ban_of-map t [] = refl
  ban_of-map t (b ∷ l) = ground (arith, ban_of-map t l, text_eq_iff b.id key, other)

find-named : (key : Text) (l : List BanRow) (r : BanRow) → ban_of key l ≡ some r → r.id ≡ key
find-named key [] r h = absurd (ground arith)
find-named key (b ∷ l) r h = ground (arith, find-named key l r, text_eq_iff b.id key)

get_ban-bans : (key : Text) (w : World) → (get_ban key w).1.bans ≡ w.bans
unfolding get_ban fault
get_ban-bans key w = ground arith

create_failure-bans : (r : FailureRow) (w : World) → (create_failure r w).1.bans ≡ w.bans
unfolding create_failure fault
create_failure-bans r w = ground arith

delete_failures-bans : (p : FailureRow → Bool) (w : World) → (delete_failures p w).1.bans ≡ w.bans
unfolding delete_failures fault
delete_failures-bans p w = ground arith

count_failures-bans : (p : FailureRow → Bool) (w : World) → (count_failures p w).1.bans ≡ w.bans
unfolding count_failures fault
count_failures-bans p w = ground arith

fault-bans : (w : World) → (fault w).1.bans ≡ w.bans
unfolding fault
fault-bans w = ground arith

get_ban-named : (key : Text) (w : World) (r : BanRow) → (get_ban key w).0 ≡ ok r → r.id ≡ key
unfolding get_ban fault
get_ban-named key w r h = ground (arith, find-named key (fault w).1.bans r)

module _ (id key : Text) (other : text_eq key id ≡ false) where
  delete_ban-ban_of : (w : World) → ban_of id (delete_ban key w).1.bans ≡ ban_of id w.bans
  unfolding delete_ban fault
  delete_ban-ban_of w = ground (arith, ban_of-discard id key other w.bans)

  update_ban-ban_of :
      (t : Text) (w : World) → ban_of id (update_ban key t w).1.bans ≡ ban_of id w.bans
  unfolding update_ban fault
  update_ban-ban_of t w = ground (arith, ban_of-map id key other t w.bans)

  create_ban-ban_of :
      (r : BanRow) (w : World) → r.id ≡ key → ban_of id (create_ban r w).1.bans ≡ ban_of id w.bans
  unfolding create_ban fault
  create_ban-ban_of r w h = ground (arith, ban_of-append id key other w.bans r h)

BanResult-cases : (r : Result BanRow) → ((e : Failure) × (r ≡ err e)) ⊎ ((b : BanRow) × (r ≡ ok b))
BanResult-cases (err e) = inl (e, refl)
BanResult-cases (ok b) = inr (b, refl)

module _ (id ip : Text) (other : text_eq (failure_key ip) id ≡ false) where
  banned_until-ban_of :
      (now : ℕ) (w : World) → ban_of id (banned_until ip now w).1.bans ≡ ban_of id w.bans
  unfolding banned_until
  banned_until-ban_of now w = elim (BanResult-cases (get_ban (failure_key ip) w).0) [
    | inl (e, h) ↦ ground (arith, get_ban-bans (failure_key ip) w)
    | inr (b, h) ↦
        let named : b.id ≡ failure_key ip = get_ban-named (failure_key ip) w b h in
        let apart : text_eq b.id id ≡ false = rw named other in
        ground (
          arith,
          get_ban-bans (failure_key ip) w,
          delete_ban-ban_of id b.id apart (get_ban (failure_key ip) w).1,
        )
  ]

  write_ban-ban_of :
      (t : Text) (old : Result BanRow) (w : World)
      → ban_of id (write_ban (failure_key ip) t old w).1.bans ≡ ban_of id w.bans
  write_ban-ban_of t old w =
      let fresh : BanRow = record { id = failure_key ip; banned_until = t } in
      ground (
        arith,
        update_ban-ban_of id (failure_key ip) other t w,
        create_ban-ban_of id (failure_key ip) other fresh w refl,
      )

  set_ban-ban_of :
      (now jitter : ℕ) (w : World)
      → ban_of id (set_ban (failure_key ip) now jitter w).1.bans ≡ ban_of id w.bans
  set_ban-ban_of now jitter w = ground (
    arith,
    get_ban-bans (failure_key ip) w,
    write_ban-ban_of (format_nano (new_until now jitter)) (get_ban (failure_key ip) w).0
        (get_ban (failure_key ip) w).1,
  )

  judge-ban_of :
      (now jitter : ℕ) (r : Result ℕ) (w : World)
      → ban_of id (judge (failure_key ip) now jitter r w).1.bans ≡ ban_of id w.bans
  judge-ban_of now jitter (err e) w = refl
  judge-ban_of now jitter (ok n) w = ground (arith, set_ban-ban_of now jitter w)

  count_failure-ban_of :
      (now jitter : ℕ) (w : World)
      → ban_of id (count_failure ip now jitter w).1.bans ≡ ban_of id w.bans
  unfolding count_failure
  count_failure-ban_of now jitter w =
      let row : FailureRow = record { ip = failure_key ip; happened_at = format_fixed now } in
      let cutoff = format_fixed (now - minute) in
      let w1 = (create_failure row w).1 in
      let old : FailureRow → Bool =
        λ e. has_prefix download_failure_prefix e.ip && not (text_lt cutoff e.happened_at) in
      let recent : FailureRow → Bool =
        λ e. text_eq e.ip (failure_key ip) && text_lt cutoff e.happened_at in
      let w2 = (delete_failures old w1).1 in
      ground (
        arith,
        create_failure-bans row w,
        delete_failures-bans old w1,
        count_failures-bans recent w2,
        judge-ban_of now jitter (count_failures recent w2).0 (count_failures recent w2).1,
      )

  -- A failed download password leaves the ban under every id but the address's own download key as it
  -- was, whatever fails; the bans of the admin login and of other addresses are among them.
  pub record_failure-ban_of :
      (now jitter : ℕ) (w : World)
      → ban_of id (record_failure ip now jitter w).1.bans ≡ ban_of id w.bans
  unfolding record_failure
  record_failure-ban_of now jitter w =
      ground (
        arith,
        banned_until-ban_of now w,
        count_failure-ban_of now jitter (banned_until ip now w).1,
      )
