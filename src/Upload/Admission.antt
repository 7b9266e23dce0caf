-- ===== src/Upload/Admission.antt =====
-- internal/upload/upload.go: what the request policy lets through.
use mathlib.Core.Path.{subst}
use shareserver.Base.{
  ℕ, ◌≤◌, ◌<◌, ◌≡◌, ◌≢◌, ◌⊎◌, refl, Bool-cases, Option-cases, inl, inr, Bool, true, false, Option,
  none, some, [], Text, codes, arith, length, All, text_eq_iff,
}
use shareserver.Base.Int.{ℤ, pos, negsuc, ◌≤ℤ◌}
use shareserver.Codec.{decode64, encode64, atoi}
use shareserver.Auth.{Crypto, hmac_key}
use shareserver.Auth.Hashes.{valid_password_hash_iff}
use shareserver.Upload.{
  Config, Request, CipherMetadata, Policy, accepted, validate, check_access, warning_flag,
  valid_cipher_meta, expiry_hours, is_too_long, clamp_hours,
}

-- The key derivation, its rounds, the cipher, and the sizes of the salt and the nonce.
pub record IsCipherMetadata (m : CipherMetadata) : Type 0 where
  pub kdf : m.kdf ≡ codes "PBKDF2-SHA-384"
  pub cipher : m.cipher ≡ codes "AES-256-GCM"
  pub least_iterations : pos 100000 ≤ℤ m.iterations
  pub most_iterations : m.iterations ≤ℤ pos 1200000
  pub salt : (bytes : Text) × (decode64 m.salt ≡ some bytes) × (length bytes ≡ 16)
  pub nonce : (bytes : Text) × (decode64 m.nonce ≡ some bytes) × (length bytes ≡ 12)

-- The hours for what the text of the request parses to, with `most` allowed.
abbrev pub IsLifetime : ℕ → ℤ → ℕ → Type 0
IsLifetime most asked hours =
    ((n : ℕ) × (asked ≡ pos n) × (1 ≤ n) × (n ≤ most) × (hours ≡ n))
    ⊎ (((n : ℕ) × (asked ≡ pos n) × (most < n) × (hours ≡ most)) ⊎ ((asked ≤ℤ pos 0) × (hours ≡ 6)))

-- What holds of every admitted request.
pub record IsAdmitted (c : Crypto) (cfg : Config) (meta : Option CipherMetadata) (req : Request)
    (p : Policy) : Type 0 where
  pub title_size : length p.title ≤ 512
  pub hash_size : length req.download_password_hash ≤ 4096
  pub cipher_size : length req.cipher_meta ≤ 4096
  pub manifest_size : length req.zip_manifest ≤ 65536
  pub message_size : length req.admin_message ≤ 4096
  pub title :
      ((req.title ≢ []) × (p.title ≡ req.title))
      ⊎ ((req.title ≡ []) × (p.title ≡ codes "untitled share"))
  pub encrypted : (req.encrypted_flag ≡ codes "1") ⊎ (req.encrypted_flag ≡ codes "true")
  pub metadata : (m : CipherMetadata) × (meta ≡ some m) × IsCipherMetadata m
  pub password :
      (digest : Text) × All (λ b. b < 256) digest
      × (length digest ≡ 32)
      × (req.download_password_hash ≡ encode64 digest)
  pub notices : (req.admin ≡ true) ⊎ ((p.security_warning ≡ false) × (p.admin_message ≡ []))
  pub visibility :
      ((req.visibility ≡ codes "private")
        × (p.visibility ≡ codes "private")
        × (req.private_key ≢ [])
        × (p.key_hash ≡ hmac_key c cfg.app_secret req.private_key))
      ⊎ ((req.visibility ≢ codes "private") × (p.visibility ≡ codes "public") × (p.key_hash ≡ []))
  pub lifetime :
      ((req.admin ≡ true) × IsLifetime 2160 (atoi req.expiry_hours).0 p.hours)
      ⊎ ((req.admin ≡ false) × IsLifetime 24 (atoi req.expiry_hours).0 p.hours)

clamp_hours-IsLifetime : (z : ℤ) (most : ℕ) → IsLifetime most z (clamp_hours z most)
clamp_hours-IsLifetime (pos n) most = ground arith
clamp_hours-IsLifetime (negsuc n) most = ground arith

expiry_hours-IsLifetime :
    (admin : Bool) (s : Text)
    → ((admin ≡ true) × IsLifetime 2160 (atoi s).0 (expiry_hours admin s))
      ⊎ ((admin ≡ false) × IsLifetime 24 (atoi s).0 (expiry_hours admin s))
unfolding expiry_hours
expiry_hours-IsLifetime true s = inl (refl, clamp_hours-IsLifetime (atoi s).0 2160)
expiry_hours-IsLifetime false s = inr (refl, clamp_hours-IsLifetime (atoi s).0 24)

clamp_hours_unique : (z : ℤ) (most n : ℕ) → IsLifetime most z n → n ≡ clamp_hours z most
clamp_hours_unique (pos k) most n h = ground arith
clamp_hours_unique (negsuc k) most n h = ground arith

pub IsAdmitted-expiry_hours :
    (c : Crypto) (cfg : Config) (meta : Option CipherMetadata) (req : Request) (p : Policy)
    → IsAdmitted c cfg meta req p
    → p.hours ≡ expiry_hours req.admin req.expiry_hours
unfolding expiry_hours
IsAdmitted-expiry_hours c cfg meta req p h = elim h.lifetime [
  | inl (is, l) ↦ rw is (clamp_hours_unique (atoi req.expiry_hours).0 2160 p.hours l)
  | inr (is, l) ↦ rw is (clamp_hours_unique (atoi req.expiry_hours).0 24 p.hours l)
]

valid_cipher_meta-IsCipherMetadata :
    (meta : Option CipherMetadata)
    → valid_cipher_meta meta ≡ true
    → (m : CipherMetadata) × (meta ≡ some m) × IsCipherMetadata m
unfolding valid_cipher_meta
valid_cipher_meta-IsCipherMetadata none h = absurd (ground arith)
valid_cipher_meta-IsCipherMetadata (some m) h = elim (Option-cases (decode64 m.salt)) [
  | inl bad ↦ absurd (ground (arith, bad))
  | inr (salt, es) ↦ elim (Option-cases (decode64 m.nonce)) [
    | inl bad ↦ absurd (ground (arith, bad))
    | inr (nonce, en) ↦ (
      m,
      refl,
      record {
        kdf = ground (arith, text_eq_iff m.kdf (codes "PBKDF2-SHA-384"));
        cipher = ground (arith, text_eq_iff m.cipher (codes "AES-256-GCM"));
        least_iterations = ground arith;
        most_iterations = ground arith;
        salt = (salt, es, ground (arith, es));
        nonce = (nonce, en, ground (arith, en));
      },
    )
  ]
]

check_access-IsAdmitted :
    (c : Crypto) (cfg : Config) (meta : Option CipherMetadata) (req : Request) (warning : Bool)
    (p : Policy)
    → is_too_long req ≡ false
    → check_access c cfg meta req warning ≡ accepted p
    → IsAdmitted c cfg meta req p
unfolding check_access
check_access-IsAdmitted c cfg meta req warning p s h = record {
  title_size = ground arith;
  hash_size = ground arith;
  cipher_size = ground arith;
  manifest_size = ground arith;
  message_size = ground arith;
  title = ground arith;
  encrypted = ground (
    arith,
    text_eq_iff req.encrypted_flag (codes "1"),
    text_eq_iff req.encrypted_flag (codes "true"),
  );
  metadata = valid_cipher_meta-IsCipherMetadata meta (ground arith);
  password = (valid_password_hash_iff req.download_password_hash).0 (ground arith);
  notices = ground arith;
  visibility = ground (arith, text_eq_iff req.visibility (codes "private"));
  lifetime =
      subst
        (λ hours.
          ((req.admin ≡ true) × IsLifetime 2160 (atoi req.expiry_hours).0 hours)
          ⊎ ((req.admin ≡ false) × IsLifetime 24 (atoi req.expiry_hours).0 hours))
        hours_of (expiry_hours-IsLifetime req.admin req.expiry_hours);
}
  where
    hours_of : expiry_hours req.admin req.expiry_hours ≡ p.hours
    hours_of = ground arith

-- A request that the policy admits has a title of at most 512 bytes, which is the given one or,
-- where none is given, "untitled share", a password hash, cipher metadata and an administrator's
-- message of at most 4096 bytes each and a manifest of at most 65536. It declares client
-- encryption. Its metadata names PBKDF2-SHA-384 with 100000 to 1200000 rounds and AES-256-GCM,
-- with a salt of 16 bytes and a nonce of 12. Its password hash is the Base64 of 32 bytes. It
-- brings a warning or a message only from an administrator. It is private, with the hash of the
-- given key, exactly if it asks to be. It lives for the hours it asks for, cut to 24, or 2160 for
-- an administrator, and 6 hours if it asks for none.
pub validate-IsAdmitted :
    (c : Crypto) (cfg : Config) (meta : Option CipherMetadata) (req : Request) (p : Policy)
    → validate c cfg meta req ≡ accepted p
    → IsAdmitted c cfg meta req p
unfolding validate
validate-IsAdmitted c cfg meta req p h = elim (Bool-cases (is_too_long req)) [
  | inl long ↦ absurd (ground arith)
  | inr short ↦ elim (Option-cases (warning_flag req.security_warning)) [
    | inl unknown ↦ absurd (ground arith)
    | inr (w, known) ↦ check_access-IsAdmitted c cfg meta req w p short (ground arith)
  ]
]
