-- ===== src/Upload/Capacity.antt =====
-- internal/upload/upload.go: the reservation map. `capMu` makes each call one step.
use shareserver.Base.{ℤ, ◌||◌, Option, none, some, List, [], ◌∷◌, Text, text_eq, if◌then◌else◌}
use shareserver.Base.Int.{pos, leb_ℤ, ltb_ℤ, ◌+ℤ◌, ◌-ℤ◌}
use shareserver.World.{World}
use shareserver.Storage.{used_bytes}

-- `reservations[dir]`
unfoldable pub reserved : Text → List (Text × ℤ) → ℤ
reserved dir [] = pos 0
reserved dir ((d, n) ∷ m) = if text_eq d dir then n else reserved dir m

-- `delete(reservations, dir)`
unfoldable pub forget : Text → List (Text × ℤ) → List (Text × ℤ)
forget dir [] = []
forget dir ((d, n) ∷ m) = if text_eq d dir then forget dir m else (d, n) ∷ forget dir m

-- `reservations[dir] = n`
unfoldable pub assign : Text → ℤ → List (Text × ℤ) → List (Text × ℤ)
assign dir n m = (dir, n) ∷ forget dir m

abbrev pub available : Text → ℤ → World → ℤ
available dir capacity w = capacity -ℤ pos (used_bytes dir w) -ℤ reserved dir w.reservations

abbrev pub lesser : ℤ → ℤ → ℤ
lesser a b = if ltb_ℤ a b then a else b

unfoldable pub reserve_capacity : Text → ℤ → ℤ → World → Option ℤ × World
reserve_capacity dir maximum capacity w =
    let free = lesser maximum (available dir capacity w) in
    if leb_ℤ (available dir capacity w) (pos 0) || leb_ℤ maximum (pos 0) then (none, w) else (
      some free,
      record w { reservations = assign dir (reserved dir w.reservations +ℤ free) w.reservations },
    )

unfoldable pub release_capacity : Text → ℤ → World → World
release_capacity dir amount w =
    let left = reserved dir w.reservations -ℤ amount in
    record w {
      reservations =
          if leb_ℤ left (pos 0) then forget dir w.reservations else assign dir left w.reservations;
    }
