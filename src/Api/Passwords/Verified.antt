-- ===== src/Api/Passwords/Verified.antt =====
-- Which passwords are verified against a stored hash.

use Prim.Native.String.{len}
use text.Mathlib.TextPositions.{eq_refl}
use go_sentinel.Base.{
  String, [], ◌∷◌, none, some, true, str_eq, ◌≡◌, refl, ap, ◌∙◌, inl, inr, arith, Option-cases,
}
use go_sentinel.Base.Text.{split, concat, lacks, split-concat, split_single}
use go_sentinel.Api.Passwords.{
  Argon, argon_time, argon_memory, argon_threads, argon_key_len, hash_prefix, hash_password,
  verify_key, verify_password, scan_parameters, prefixed,
}

-- What RawStdEncoding and IDKey promise: an encoded text is decoded and has no dollar sign, and a
-- key has the length that is asked for.
pub record IsArgon (a : Argon) : Type 0 where
  pub decodes : (s : String) → a.decode (a.encode s) ≡ some s
  pub no_dollar : (s : String) → lacks b'$' (a.encode s) ≡ true
  pub long :
      (password salt key : String)
      → a.id_key password salt argon_time argon_memory argon_threads argon_key_len ≡ some key
      → len key ≡ argon_key_len

module _ (a : Argon) (is : IsArgon a) where
  open a use {id_key, encode, decode}

  split-hash :
      (salt key : String)
      → split b'$' (concat hash_prefix (concat (encode salt) (String.◌∷◌ "$" (encode key))))
        ≡ "" ∷ "argon2id" ∷ "v=19" ∷ "m=65536,t=3,p=4" ∷ encode salt ∷ encode key ∷ []
  unfolding concat split
  split-hash salt key = rw (
    prefixed,
    split-concat b'$' (encode salt) (encode key) "$" (is.no_dollar salt) refl,
    split_single b'$' (encode key) (is.no_dollar key),
  )

  verify-hash :
      (salt key other : String)
      → len key ≡ argon_key_len
      → verify_password a other
          (concat hash_prefix (concat (encode salt) (String.◌∷◌ "$" (encode key))))
        ≡ elim (id_key other salt argon_time argon_memory argon_threads argon_key_len) [
          | none ↦ none
          | some got ↦ some (str_eq got key)
        ]
  unfolding verify_password verify_key scan_parameters
  verify-hash salt key other l =
      rw (split-hash salt key)
        (rw (is.decodes salt, verify_key) (rw (is.decodes key, verify_key) (rw (l, verify_key))))

  -- A hash that is made of a password with a salt verifies exactly the passwords that Argon2id gives
  -- the key of the password with that salt, the password itself among them; it refuses those with
  -- another key.
  pub verify_password-hash_password :
      (salt password encoded : String)
      → hash_password a (some salt) password ≡ some encoded
      → (key : String) × (id_key password salt argon_time argon_memory argon_threads argon_key_len
          ≡ some key)
        × (verify_password a password encoded ≡ some true)
        × ((other : String)
            → verify_password a other encoded
              ≡ elim (id_key other salt argon_time argon_memory argon_threads argon_key_len) [
                | none ↦ none
                | some got ↦ some (str_eq got key)
              ])
  unfolding hash_password
  verify_password-hash_password salt password encoded e =
      elim (Option-cases
        (id_key password salt argon_time argon_memory argon_threads argon_key_len)) [
          | inl none_made ↦ absurd (ground arith)
          | inr (key, made) ↦
              let enc : encoded
                  ≡ concat hash_prefix (concat (encode salt) (String.◌∷◌ "$" (encode key))) =
                ground arith in
              let checks =
                λ (other : String). verify-hash salt key other (is.long password salt key made) in
              (
                key,
                made,
                rw enc (checks password ∙ rw made (ap some (eq_refl key))),
                λ other. rw enc (checks other),
              )
        ]
