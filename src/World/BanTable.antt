-- ===== src/World/BanTable.antt =====
-- internal/ent/schema/ipban.go: what the table of bans gives back after a ban is written.
use shareserver.Base.{
  ◌≡◌, refl, false, Option, none, some, List, [], ◌∷◌, ◌++◌, map, Text, text_eq, text_eq_refl,
  arith, find?, any, if◌then◌else◌,
}
use shareserver.World.{World, BanRow, ok, fault}
use shareserver.World.Db.{create_ban, update_ban, with_until}

-- The end of the ban under a key.
abbrev pub until_of : Text → List BanRow → Option Text
until_of key l = elim (find? (λ b. text_eq b.id key) l) [
  | none ↦ none
  | some b ↦ some b.banned_until
]

until_of-updated :
    (key until : Text) (l : List BanRow) (old : BanRow)
    → find? (λ b. text_eq b.id key) l ≡ some old
    → until_of key (map (λ b. if text_eq b.id key then with_until until b else b) l) ≡ some until
until_of-updated key until [] old h = absurd (ground arith)
until_of-updated key until (b ∷ l) old h = ground (arith, until_of-updated key until l old)

until_of-created :
    (key until : Text) (l : List BanRow)
    → find? (λ b. text_eq b.id key) l ≡ none
    → until_of key (l ++ (record { id = key; banned_until = until }) ∷ []) ≡ some until
until_of-created key until [] h = ground (arith, text_eq_refl key)
until_of-created key until (b ∷ l) h = ground (arith, until_of-created key until l)

none-any :
    (key : Text) (l : List BanRow)
    → find? (λ b. text_eq b.id key) l ≡ none
    → any (λ b. text_eq b.id key) l ≡ false
none-any key [] h = refl
none-any key (b ∷ l) h = ground (arith, none-any key l)

-- Without faults, a ban that is updated where there is one and created where there is none is found.
pub update_ban-until :
    (key until : Text) (w : World) (old : BanRow)
    → w.faults ≡ []
    → find? (λ b. text_eq b.id key) w.bans ≡ some old
    → (until_of key (update_ban key until w).1.bans ≡ some until)
      × ((update_ban key until w).1.faults ≡ [])
      × ((update_ban key until w).0 ≡ ok tt)
unfolding update_ban fault
update_ban-until key until w old f h = ground (arith, until_of-updated key until w.bans old h)

pub create_ban-until :
    (key until : Text) (w : World)
    → w.faults ≡ []
    → find? (λ b. text_eq b.id key) w.bans ≡ none
    → let x = create_ban (record { id = key; banned_until = until }) w in
      (until_of key x.1.bans ≡ some until) × (x.1.faults ≡ []) × (x.0 ≡ ok tt)
unfolding create_ban fault
create_ban-until key until w f h =
    ground (arith, until_of-created key until w.bans h, none-any key w.bans h)
