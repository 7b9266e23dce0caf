-- ===== src/Upload/Ledger.antt =====
-- internal/upload/upload.go: the arithmetic of the reservation map.
use shareserver.Base.{
  ℕ, ◌+◌, ◌≤◌, ◌<◌, ◌≡◌, ◌⊎◌, inl, inr, ℤ, false, some, List, [], ◌∷◌, Text, text_eq_refl, arith,
  Bool-cases, refl,
}
use shareserver.Base.Int.{
  negsuc, pos, pos_part, neg_part, ◌≤ℤ◌, leb_ℤ, ◌+ℤ◌, ◌-ℤ◌, +ℤ_parts, -ℤ_parts,
}
use shareserver.World.{World}
use shareserver.Storage.{used_bytes}
use shareserver.Upload.Capacity.{
  reserved, assign, forget, available, lesser, reserve_capacity, release_capacity,
}

abbrev pub small : ℕ
small = 1152921504606846976

-- Below 2^60 in absolute value: such numbers of bytes can be added four times with no overflow.
abbrev pub IsSmall : ℤ → Type 0
IsSmall a = (pos_part a < small) × (neg_part a < small)

pub parts_zero : (a : ℤ) → (pos_part a ≡ 0) ⊎ (neg_part a ≡ 0)
parts_zero (pos n) = inr refl
parts_zero (negsuc n) = inl refl

pub reserved-assign : (dir : Text) (n : ℤ) (m : List (Text × ℤ)) → reserved dir (assign dir n m) ≡ n
unfolding reserved assign
reserved-assign dir n m = ground (arith, text_eq_refl dir)

pub reserved-forget : (dir : Text) (m : List (Text × ℤ)) → reserved dir (forget dir m) ≡ pos 0
unfolding reserved forget
reserved-forget dir [] = refl
reserved-forget dir ((d, n) ∷ m) = ground (arith, reserved-forget dir m)

-- The arithmetic of `reserve_capacity`, on what it reads.
lesser_fits :
    (maximum capacity taken : ℤ) (used : ℕ)
    → IsSmall maximum
    → IsSmall capacity
    → used < small
    → IsSmall taken
    → leb_ℤ (capacity -ℤ pos used -ℤ taken) (pos 0) ≡ false
    → leb_ℤ maximum (pos 0) ≡ false
    → let n = lesser maximum (capacity -ℤ pos used -ℤ taken) in
      (pos 1 ≤ℤ n)
      × (n ≤ℤ maximum)
      × (pos_part (taken +ℤ n) + used ≤ pos_part capacity + neg_part (taken +ℤ n))
lesser_fits maximum capacity taken used m k u t p q =
    let a = capacity -ℤ pos used in
    let e1 = -ℤ_parts capacity (pos used) (omega arith) (omega arith) in
    let e2 = -ℤ_parts a taken (omega (arith, parts_zero a)) (omega (arith, parts_zero a)) in
    let n = lesser maximum (a -ℤ taken) in
    let e3 = +ℤ_parts taken n (ground (arith, e1, e2, parts_zero a)) (ground (arith, e1, e2)) in
    ground arith

-- What a call that succeeds has found and done.
pub record IsReserved (dir : Text) (maximum capacity n : ℤ) (w w' : World) : Type 0 where
  pub left : leb_ℤ (available dir capacity w) (pos 0) ≡ false
  pub is_open : leb_ℤ maximum (pos 0) ≡ false
  pub amount : n ≡ lesser maximum (available dir capacity w)
  pub ledger : reserved dir w'.reservations ≡ reserved dir w.reservations +ℤ n
  pub used : used_bytes dir w' ≡ used_bytes dir w

pub reserve_capacity-IsReserved :
    (dir : Text) (maximum capacity n : ℤ) (w w' : World)
    → reserve_capacity dir maximum capacity w ≡ (some n, w')
    → IsReserved dir maximum capacity n w w'
unfolding reserve_capacity used_bytes
reserve_capacity-IsReserved dir maximum capacity n w w' h =
    elim (Bool-cases (leb_ℤ (available dir capacity w) (pos 0))) [
      | inl full ↦ absurd (ground arith)
      | inr some_left ↦ elim (Bool-cases (leb_ℤ maximum (pos 0))) [
        | inl closed ↦ absurd (ground arith)
        | inr is_open ↦ ground (
          arith,
          reserved-assign dir
              (reserved dir w.reservations +ℤ lesser maximum (available dir capacity w))
              w.reservations,
        )
      ]
    ]

-- A reservation is at least one byte and at most the upload limit, and with it the stored blobs and
-- all reservations together stay within the storage cap, for byte counts below 2^60.
pub reserve_capacity_fits :
    (dir : Text) (maximum capacity n : ℤ) (w w' : World)
    → IsSmall maximum
    → IsSmall capacity
    → used_bytes dir w < small
    → IsSmall (reserved dir w.reservations)
    → reserve_capacity dir maximum capacity w ≡ (some n, w')
    → (pos 1 ≤ℤ n)
      × (n ≤ℤ maximum)
      × (pos_part (reserved dir w'.reservations) + used_bytes dir w'
          ≤ pos_part capacity + neg_part (reserved dir w'.reservations))
reserve_capacity_fits dir maximum capacity n w w' m k u r h =
    let v = reserve_capacity-IsReserved dir maximum capacity n w w' h in
    rw (v.ledger, v.used, v.amount)
      (lesser_fits maximum capacity (reserved dir w.reservations) (used_bytes dir w) m k u r v.left
        v.is_open)

add_sub : (a b : ℤ) → IsSmall a → IsSmall b → a +ℤ b -ℤ b ≡ a
add_sub a b h k =
    let e = +ℤ_parts a b (omega arith) (omega arith) in
    let f =
      -ℤ_parts (a +ℤ b) b (omega (arith, parts_zero (a +ℤ b)))
        (omega (arith, parts_zero (a +ℤ b))) in
    ground (arith, e, f)

-- Releasing a reservation puts the ledger of the directory back to what it was, if that was not
-- negative, for byte counts below 2^60.
pub release-reserve :
    (dir : Text) (maximum capacity n : ℤ) (w w' : World)
    → IsSmall maximum
    → IsSmall capacity
    → used_bytes dir w < small
    → IsSmall (reserved dir w.reservations)
    → pos 0 ≤ℤ reserved dir w.reservations
    → reserve_capacity dir maximum capacity w ≡ (some n, w')
    → reserved dir (release_capacity dir n w').reservations ≡ reserved dir w.reservations
unfolding release_capacity
release-reserve dir maximum capacity n w w' m k u r nonneg h =
    let v = reserve_capacity-IsReserved dir maximum capacity n w w' h in
    let (low, high, total) = reserve_capacity_fits dir maximum capacity n w w' m k u r h in
    let same = add_sub (reserved dir w.reservations) n r (omega (arith, parts_zero n)) in
    ground (
      arith,
      v.ledger,
      same,
      reserved-forget dir w'.reservations,
      reserved-assign dir (reserved dir w'.reservations -ℤ n) w'.reservations,
    )
