-- ===== src/Config/Loaded.antt =====
-- What Load makes of the defaults, and of a list that the environment gives as one text.

use go_sentinel.Base.{
  String, List, [], ◌∷◌, ◌++◌, Option, none, some, Bool, true, str_eq, All, if◌then◌else◌, ◌≡◌,
  refl, sym, ap, ◌∙◌, arith, inl, inr, Bool-cases,
}
use mathlib.Core.List.{append-nil}
use go_sentinel.Base.Int.{ℤ, pos}
use go_sentinel.Base.Result.{ok}
use go_sentinel.Base.Text.{split, trim_space, join, concat, lacks, split-concat, split_single}
use go_sentinel.Config.{
  Setting, number, flag, texts, Viper, ReadResult, read, not_found, failed, Config, defaults,
  kept_parts, split_values, validate, set_defaults, config_of, prepared, loaded, load,
}

split-join :
    (x : String) (xs : List String)
    → lacks b',' x ≡ true
    → All (λ y. lacks b',' y ≡ true) xs
    → split b',' (join "," (x ∷ xs)) ≡ x ∷ xs
unfolding join
split-join x [] h g = split_single b',' x h
split-join x (y ∷ xs) h g =
    split-concat b',' x (join "," (y ∷ xs)) "," h refl
    ∙ ap (λ rest. x ∷ rest) (split-join y xs g.0 g.1)

kept_parts-append : (xs ys : List String) → kept_parts (xs ++ ys) ≡ kept_parts xs ++ kept_parts ys
unfolding kept_parts
kept_parts-append [] ys = refl
kept_parts-append (x ∷ xs) ys = elim (Bool-cases (str_eq (trim_space x) "")) [
  | inl e ↦ rw e (kept_parts-append xs ys)
  | inr e ↦ rw e (ap (λ rest. trim_space x ∷ rest) (kept_parts-append xs ys))
]

split_values-parts :
    (xs : List String) → All (λ y. lacks b',' y ≡ true) xs → split_values xs ≡ kept_parts xs
unfolding split_values kept_parts
split_values-parts [] h = refl
split_values-parts (x ∷ xs) h =
    rw (split_single b',' x h.0, split_values-parts xs h.1)
      (elim (Bool-cases (str_eq (trim_space x) "")) [ inl e ↦ rw e refl | inr e ↦ rw e refl ])

-- A list setting that the environment gives as one text with commas is the list that a file gives as
-- a sequence, where no element has a comma: the elements that are not blank, without the white space
-- around them, in their order.
split_values-join :
    (x : String) (xs : List String)
    → All (λ y. lacks b',' y ≡ true) (x ∷ xs)
    → (split_values (join "," (x ∷ xs) ∷ []) ≡ split_values (x ∷ xs))
      × (split_values (x ∷ xs) ≡ kept_parts (x ∷ xs))
unfolding split_values
split_values-join x xs h =
    let parts = split_values-parts (x ∷ xs) h in
    (rw (split-join x xs h.0 h.1) (append-nil (kept_parts (x ∷ xs)) ∙ sym parts), parts)

-- The key of a name in a section.
abbrev pub key_of : String → String → String
key_of section name = concat section (concat "." name)

-- What is documented of the package. `own` is the value, no section, that the environment or the file
-- gives a key. A key of a section to which neither gives such a value has its own value, where there
-- is one, and else the default that was set last; a section to which one does shadows its keys, and
-- nothing is said of them. Reading the environment and the file keeps the defaults, and a value of the
-- type that is asked for is not converted.
pub record IsViper (v : Viper) : Type 0 where
  pub own : String → v.State → Option Setting
  pub default_of : String → v.State → Option Setting
  pub get_lem :
      (section name : String) (s : v.State)
      → lacks b'.' section ≡ true
      → lacks b'.' name ≡ true
      → own section s ≡ none
      → v.get (key_of section name) s ≡ elim (own (key_of section name) s) [
        | none ↦ default_of (key_of section name) s
        | some x ↦ some x
      ]
  pub default-set :
      (key other : String) (x : Setting) (s : v.State)
      → default_of other (v.set_default key x s)
        ≡ (if str_eq key other then some x else default_of other s)
  pub default-env :
      (key prefix : String) (s : v.State)
      → default_of key (v.automatic_env prefix s) ≡ default_of key s
  pub default-read :
      (key : String) (s t : v.State)
      → v.read_in_config s ≡ read t
      → default_of key t ≡ default_of key s
  pub int : (n : ℤ) → v.to_int (some (number n)) ≡ n
  pub bool : (b : Bool) → v.to_bool (some (flag b)) ≡ b
  pub slice : (xs : List String) → v.to_string_slice (some (texts xs)) ≡ xs

-- The value that a list of settings gives a key.
last_of : List (String × Setting) → String → Option Setting → Option Setting
last_of [] key before = before
last_of (e ∷ rest) key before = last_of rest key (if str_eq e.0 key then some e.1 else before)

some_inj : {A : Type 0} {a b : A} → Path (Option A) (some a) (some b) → a ≡ b
some_inj e = ground arith

module _ (v : Viper) (is : IsViper v) where
  open is use {own, default_of}

  default-set_defaults :
      (settings : List (String × Setting)) (key : String) (s : v.State)
      → default_of key (set_defaults v settings s) ≡ last_of settings key (default_of key s)
  unfolding set_defaults last_of
  default-set_defaults [] key s = refl
  default-set_defaults (e ∷ rest) key s =
      default-set_defaults rest key (v.set_default e.0 e.1 s)
      ∙ ap (last_of rest key) (is.default-set e.0 key e.1 s)

  default-prepared :
      (key : String) (s : v.State)
      → default_of key (prepared v s) ≡ last_of defaults key (default_of key s)
  unfolding prepared
  default-prepared key s =
      is.default-env key "GOSENTINEL" (set_defaults v defaults s)
      ∙ default-set_defaults defaults key s

  after_read :
      (key : String) (p t : v.State) (r : ReadResult v.State)
      → v.read_in_config p ≡ r
      → Path
          (Option v.State)
          (elim r [ failed ↦ none | not_found ↦ some p | read s' ↦ some s' ])
          (some t)
      → default_of key t ≡ default_of key p
  after_read key p t failed e f = absurd (ground arith)
  after_read key p t not_found e f = ap (default_of key) (sym (some_inj f))
  after_read key p t (read s') e f =
      ap (default_of key) (sym (some_inj f)) ∙ is.default-read key p s' e

  default-loaded :
      (key : String) (s t : v.State)
      → loaded v s ≡ some t
      → default_of key t ≡ last_of defaults key (default_of key s)
  unfolding loaded
  default-loaded key s t e =
      after_read key (prepared v s) t (v.read_in_config (prepared v s)) refl e
      ∙ default-prepared key s

  get-default :
      (section name : String) (x : Setting) (s t : v.State)
      → loaded v s ≡ some t
      → lacks b'.' section ≡ true
      → lacks b'.' name ≡ true
      → own section t ≡ none
      → own (key_of section name) t ≡ none
      → last_of defaults (key_of section name) (default_of (key_of section name) s) ≡ some x
      → v.get (key_of section name) t ≡ some x
  get-default section name x s t e one two clear free l =
      is.get_lem section name t one two clear
      ∙ rw free (default-loaded (key_of section name) s t e ∙ l)

  -- Where the settings can be read, and neither the environment nor the file has the ports, the
  -- endpoints of etcd or whether authentication is on, nor a value in the place of the sections they
  -- are in: Load returns a configuration that Validate accepts, with authentication on.
  pub load-validate :
      (s t : v.State)
      → loaded v s ≡ some t
      → All (λ key. own key t ≡ none) ("orchestrator" ∷ "worker" ∷ "etcd" ∷ "api" ∷ [])
      → own "orchestrator.port" t ≡ none
      → own "worker.port" t ≡ none
      → own "etcd.endpoints" t ≡ none
      → own "api.auth_enabled" t ≡ none
      → (c : Config) × (load v s ≡ some c) × (validate c ≡ ok tt) × (c.api.auth_enabled ≡ true)
  unfolding load validate config_of last_of concat lacks
  load-validate s t e (clear1, (clear2, (clear3, (clear4, _)))) port worker etcd auth =
      let one =
        ap v.to_int (get-default "orchestrator" "port" _ s t e refl refl clear1 port refl)
        ∙ is.int (pos 50051) in
      let two =
        ap v.to_int (get-default "worker" "port" _ s t e refl refl clear2 worker refl)
        ∙ is.int (pos 50052) in
      let three =
        ap v.to_string_slice (get-default "etcd" "endpoints" _ s t e refl refl clear3 etcd refl)
        ∙ is.slice ("localhost:2379" ∷ []) in
      let four =
        ap v.to_bool (get-default "api" "auth_enabled" _ s t e refl refl clear4 auth refl)
        ∙ is.bool true in
      (config_of v t, rw (load, e) refl, rw (one, two, validate, three) refl, four)
