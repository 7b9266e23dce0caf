-- ===== src/Storage/Swept.antt =====
-- internal/storage/integrity.go: the files that the walk of a repair without faults takes.
use mathlib.Core.Path.{subst}
use shareserver.Base.{
  ℕ, ◌≡◌, refl, sym, ap, ◌∙◌, Bool, true, false, ◌&&◌, ◌||◌, not, List, [], ◌∷◌, map, Text, text_eq,
  arith, keep, discard, any, length, Bool-cases, none, inl, inr, All,
}
use shareserver.World.{World, Node, fault}
use shareserver.World.Path.{absolute}
use shareserver.World.Files.{lookup, delete, remove}
use shareserver.Storage.Integrity.{sweep, is_walked, counted}
use shareserver.Storage.Purged.{any-ext, discard-discard, discard-ext, any-ext}

delete-discard :
    (path : Text) (files : List (Text × Node))
    → delete path files ≡ discard (λ e. text_eq e.0 path) files
unfolding delete
delete-discard path [] = refl
delete-discard path ((p, n) ∷ files) = ground (arith, delete-discard path files)

delete-absent :
    (path : Text) (files : List (Text × Node))
    → lookup path files ≡ none
    → delete path files ≡ files
unfolding delete lookup
delete-absent path [] h = refl
delete-absent path ((p, n) ∷ files) h = ground (arith, delete-absent path files)

-- A file of the walk that goes, whether or not it is still there.
remove-exact :
    (path : Text) (w : World)
    → w.faults ≡ []
    → absolute w.cwd path ≡ path
    → (remove path w).1 ≡ record w { files = discard (λ e. text_eq e.0 path) w.files }
unfolding remove fault
remove-exact path w f h = ground (arith, delete-discard path w.files, delete-absent path w.files, h)

discard_nothing {ℓ} : {A : Type ℓ} (l : List A) → discard (λ _. false) l ≡ l
discard_nothing [] = refl
discard_nothing (x ∷ l) = ground (arith, discard_nothing l)

module _ (path : Text) (node : Node) (entries : List (Text × Node)) (known : List Text) (n : ℕ)
    (w : World) where
  sweep-listed :
      any (text_eq path) known ≡ true
      → sweep ((path, node) ∷ entries) known n w ≡ sweep entries known n w
  unfolding sweep
  sweep-listed h = rw (h, sweep) refl

  sweep-lost :
      any (text_eq path) known ≡ false
      → sweep ((path, node) ∷ entries) known n w
        ≡ (let r = remove path w in sweep entries known (counted r.0 n) r.1)
  unfolding sweep
  sweep-lost h = rw (h, sweep) refl

sweep-exact :
    (entries : List (Text × Node)) (known : List Text) (n : ℕ) (w : World)
    → w.faults ≡ []
    → All (λ e. absolute w.cwd e.0 ≡ e.0) entries
    → (sweep entries known n w).1 ≡ record w {
      files =
          discard
            (λ e. any (λ o. not (any (text_eq o.0) known) && text_eq e.0 o.0) entries)
            w.files;
    }
unfolding sweep
sweep-exact [] known n w f h = rw (discard_nothing w.files) refl
sweep-exact ((path, node) ∷ entries) known n w f h =
    let orphan : Text × Node → Bool = λ o. not (any (text_eq o.0) known) in
    let later : Text × Node → Bool = λ e. any (λ o. orphan o && text_eq e.0 o.0) entries in
    let all_of : Text × Node → Bool =
      λ e. any (λ o. orphan o && text_eq e.0 o.0) ((path, node) ∷ entries) in
    let with_files : List (Text × Node) → World = λ l. record w { files = l } in
    elim (Bool-cases (any (text_eq path) known)) [
      | inl listed ↦
          let same = discard-ext later all_of (λ e. rw listed refl) w.files in
          ap (λ x. x.1) (sweep-listed path node entries known n w listed)
          ∙ (sweep-exact entries known n w f h.1 ∙ ap with_files same)
      | inr lost ↦
          let m = counted (remove path w).0 n in
          let w1 = with_files (discard (λ e. text_eq e.0 path) w.files) in
          let both = discard-discard later (λ e. text_eq e.0 path) w.files in
          let same =
            discard-ext (λ e. text_eq e.0 path || later e) all_of (λ e. rw lost refl) w.files in
          let ih = sweep-exact entries known m w1 f h.1 ∙ ap with_files (both ∙ same) in
          let end : World → Type 0 =
            λ x. (sweep entries known m x).1 ≡ with_files (discard all_of w.files) in
          ap (λ x. x.1) (sweep-lost path node entries known n w lost)
          ∙ subst end (sym (remove-exact path w f h.0)) ih
    ]

module _ {ℓ} {A : Type ℓ} where
  pub keep_all : (l : List A) → keep (λ _. true) l ≡ l
  keep_all [] = refl
  keep_all (x ∷ l) = ground (arith, keep_all l)

  pub any-map {κ} :
      {B : Type κ} (f : B → Bool) (g : A → B) (l : List A) → any f (map g l) ≡ any (λ r. f (g r)) l
  any-map f g [] = refl
  any-map f g (x ∷ l) = ground (arith, any-map f g l)

  pub length-keep-map {κ} :
      {B : Type κ} (f : B → Bool) (g : A → B) (l : List A)
      → length (keep f (map g l)) ≡ length (keep (λ r. f (g r)) l)
  length-keep-map f g [] = refl
  length-keep-map f g (x ∷ l) = ground (arith, length-keep-map f g l)

  any-keep : (f p : A → Bool) (l : List A) → any f (keep p l) ≡ any (λ r. p r && f r) l
  any-keep f p [] = refl
  any-keep f p (x ∷ l) = ground (arith, any-keep f p l)

  All-keep {κ} : (P : A → Type κ) (p : A → Bool) (l : List A) → All P l → All P (keep p l)
  All-keep P p [] h = h
  All-keep P p (x ∷ l) h = elim (Bool-cases (p x)) [
    | inl yes_it ↦ rw (yes_it, keep) (h.0, All-keep P p l h.1)
    | inr no_it ↦ rw (no_it, keep) (All-keep P p l h.1)
  ]

-- The walk and the sweep, on a world whose list of known paths is given.
pub swept-exact :
    (dir : Text) (known : List Text) (w : World) (held : Text → Bool)
    → w.faults ≡ []
    → All (λ e. absolute w.cwd e.0 ≡ e.0) w.files
    → ((p : Text) → any (text_eq p) known ≡ held p)
    → (sweep (keep (is_walked (absolute w.cwd dir)) w.files) known 0 w).1 ≡ record w {
      files =
          discard
            (λ e.
              any
                (λ o. (is_walked (absolute w.cwd dir) o && not (held o.0)) && text_eq e.0 o.0)
                w.files)
            w.files;
    }
swept-exact dir known w held f h k =
    let walked = is_walked (absolute w.cwd dir) in
    let orphan : Text × Node → Bool = λ o. not (any (text_eq o.0) known) in
    let same : (e : Text × Node)
        → any (λ o. orphan o && text_eq e.0 o.0) (keep walked w.files)
          ≡ any (λ o. (walked o && not (held o.0)) && text_eq e.0 o.0) w.files =
      λ e.
        any-keep (λ o. orphan o && text_eq e.0 o.0) walked w.files
        ∙ any-ext (λ o. walked o && (orphan o && text_eq e.0 o.0))
            (λ o. (walked o && not (held o.0)) && text_eq e.0 o.0) (λ o. ground (arith, k o.0))
            w.files in
    sweep-exact (keep walked w.files) known 0 w f
      (All-keep (λ e. absolute w.cwd e.0 ≡ e.0) walked w.files h)
    ∙ ap (λ x. record w { files = x }) (discard-ext _ _ same w.files)
