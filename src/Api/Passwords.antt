-- ===== src/Api/Passwords.antt =====
-- internal/api/auth.go: the hash of a password, and its verification. Argon2id, base64 and the random
-- salt are parameters; bytes are texts.
pub mod Verified
use Prim.Native.Char.{Char, code}
use Prim.Native.String
use Prim.Native.String.{len}
use go_sentinel.Base.{
  ℕ, zero, suc, ◌+◌, ◌-◌, ◌*◌, ◌^◌, String, List, [], ◌∷◌, Option, none, some, Bool, true, false,
  not, ◌&&◌, ◌||◌, str_eq, ltb, leb, ◌==◌, if◌then◌else◌, ◌≡◌, refl,
}
use go_sentinel.Base.Text.{split, decimal, cut_prefix, concat}

-- `id_key` takes the password, the salt, the iterations, the memory, the threads and the length of
-- the key; none is the panic of zero iterations or zero threads.
pub record Argon : Type 0 where
  pub id_key : String → String → ℕ → ℕ → ℕ → ℕ → Option String
  pub encode : String → String
  pub decode : String → Option String

abbrev pub argon_time : ℕ
argon_time = 3

abbrev pub argon_memory : ℕ
argon_memory = 65536

abbrev pub argon_threads : ℕ
argon_threads = 4

abbrev pub argon_key_len : ℕ
argon_key_len = 32

abbrev pub argon_version : ℕ
argon_version = 19

-- The digits that a number is scanned from, with the value of those before them.
scan_digits : ℕ → String → ℕ × String
scan_digits n String.[] = (n, "")
scan_digits n (String.◌∷◌ c s) =
    let rest = scan_digits (n * 10 + (code c - b'0')) s in
    if leb b'0' (code c) && leb (code c) b'9' then rest else (n, String.◌∷◌ c s)

abbrev is_blank : Char → Bool
is_blank c = not (code c == 10) && (code c == 32 || leb 9 (code c) && leb (code c) 13)

-- `%d` into an unsigned integer of so many bits: blanks, then a digit at least.
scan_number : ℕ → String → Option (ℕ × String)
scan_number bits String.[] = none
scan_number bits (String.◌∷◌ c s) =
    let skipped = scan_number bits s in
    let (n, rest) = scan_digits 0 (String.◌∷◌ c s) in
    if is_blank c
    then skipped
    else if leb b'0' (code c) && leb (code c) b'9' && ltb n (2 ^ bits)
    then some (n, rest)
    else none

-- A literal part of the format, and the number after it.
scan_field : String → ℕ → String → Option (ℕ × String)
scan_field literal bits s = elim (cut_prefix s literal) [
  | none ↦ none
  | some rest ↦ scan_number bits rest
]

-- `fmt.Sscanf(s, "m=%d,t=%d,p=%d", &memory, &iterations, &threads)`, which does not look at what
-- follows.
unfoldable pub scan_parameters : String → Option (ℕ × ℕ × ℕ)
unfolding scan_field scan_number scan_digits cut_prefix
scan_parameters s = elim (scan_field "m=" 32 s) [
  | none ↦ none
  | some (memory, s1) ↦ elim (scan_field ",t=" 32 s1) [
    | none ↦ none
    | some (iterations, s2) ↦ elim (scan_field ",p=" 8 s2) [
      | none ↦ none
      | some (threads, s3) ↦ some (memory, iterations, threads)
    ]
  ]
]

scanned : scan_parameters "m=65536,t=3,p=4" ≡ some (65536, 3, 4)
unfolding scan_parameters
scanned = refl

-- What stands before the salt in an encoded hash.
unfoldable pub hash_prefix : String
unfolding decimal concat
hash_prefix = concat "$argon2id$v=" (
    concat (decimal argon_version) (
      concat "$m=" (
        concat (decimal argon_memory) (
          concat ",t="
            (concat (decimal argon_time) (concat ",p=" (concat (decimal argon_threads) "$")))))))

prefixed : hash_prefix ≡ "$argon2id$v=19$m=65536,t=3,p=4$"
unfolding hash_prefix
prefixed = refl

module _ (a : Argon) where
  open a use {id_key, encode, decode}

  -- none where no salt could be drawn.
  unfoldable pub hash_password : Option String → String → Option String
  hash_password none password = none
  hash_password (some salt) password =
      elim (id_key password salt argon_time argon_memory argon_threads argon_key_len) [
        | none ↦ none
        | some key ↦ some (concat hash_prefix (concat (encode salt) (String.◌∷◌ "$" (encode key))))
      ]

  -- The part that follows the two tests of the parts.
  unfoldable pub verify_key : String → String → String → String → Option Bool
  verify_key password parameters salt_part key_part = elim (scan_parameters parameters) [
    | none ↦ some false
    | some (memory, iterations, threads) ↦ elim (decode salt_part) [
      | none ↦ some false
      | some salt ↦ elim (decode key_part) [
        | none ↦ some false
        | some want ↦ elim (id_key password salt iterations memory threads (len want)) [
          | none ↦ none
          | some got ↦ some (str_eq got want)
        ]
      ]
    ]
  ]

  verify_parts : String → List String → Option Bool
  verify_parts password (before ∷ name ∷ version ∷ parameters ∷ salt ∷ key ∷ []) =
      if str_eq name "argon2id" then verify_key password parameters salt key else some false
  verify_parts password parts = some false

  -- none is the panic of Argon2id.
  unfoldable pub verify_password : String → String → Option Bool
  unfolding verify_parts
  verify_password password encoded = verify_parts password (split b'$' encoded)
