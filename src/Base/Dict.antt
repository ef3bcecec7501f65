-- ===== src/Base/Dict.antt =====
-- Go's maps with text keys, as association lists in the order in which a `range` meets the keys.
use Prim.Native.String.{String}
use mathlib.Core.Path.{◌≡◌, refl}
use mathlib.Core.Option.{Option, none, some}
use mathlib.Core.List.{List, [], ◌∷◌}
use native.Mathlib.Omega.{arith}
use text.Mathlib.Text.{◌==◌}
use text.Mathlib.TextEquality.{eq_iff}
use go_sentinel.Base.Tests.{if◌then◌else◌}

abbrev pub Dict {ℓ} : Type ℓ → Type ℓ
Dict V = List (String × V)

module _ {ℓ} {V : Type ℓ} where
  -- `v, ok := m[key]`
  unfoldable pub lookup : String → Dict V → Option V
  lookup key [] = none
  lookup key (e ∷ rest) = if e.0 == key then some e.1 else lookup key rest

  -- `m[key]`, which is the zero value where the key is missing.
  unfoldable pub get_or : V → String → Dict V → V
  get_or zero key [] = zero
  get_or zero key (e ∷ rest) = if e.0 == key then e.1 else get_or zero key rest

  -- `m[key] = value`
  unfoldable pub insert : String → V → Dict V → Dict V
  insert key value [] = (key, value) ∷ []
  insert key value (e ∷ rest) =
      let after = insert key value rest in if e.0 == key then (e.0, value) ∷ rest else e ∷ after

  -- `delete(m, key)`
  unfoldable pub delete : String → Dict V → Dict V
  delete key [] = []
  delete key (e ∷ rest) = let after = delete key rest in if e.0 == key then after else e ∷ after

  pub lookup-insert :
      (key other : String) (value : V) (entries : Dict V)
      → lookup other (insert key value entries)
        ≡ (if key == other then some value else lookup other entries)
  unfolding lookup insert
  lookup-insert key other value [] = refl
  lookup-insert key other value (e ∷ rest) = ground (
    arith,
    lookup-insert key other value rest,
    eq_iff e.0 other,
    eq_iff e.0 key,
    eq_iff key other,
  )

  pub lookup-delete :
      (key other : String) (entries : Dict V)
      → lookup other (delete key entries) ≡ (if key == other then none else lookup other entries)
  unfolding lookup delete
  lookup-delete key other [] = ground arith
  lookup-delete key other (e ∷ rest) =
      ground
        (arith, lookup-delete key other rest, eq_iff e.0 other, eq_iff e.0 key, eq_iff key other)

  pub get_or-insert :
      (zero : V) (key other : String) (value : V) (entries : Dict V)
      → get_or zero other (insert key value entries)
        ≡ (if key == other then value else get_or zero other entries)
  unfolding get_or insert
  get_or-insert zero key other value [] = refl
  get_or-insert zero key other value (e ∷ rest) = ground (
    arith,
    get_or-insert zero key other value rest,
    eq_iff e.0 other,
    eq_iff e.0 key,
    eq_iff key other,
  )

  pub get_or-lookup :
      (zero : V) (key : String) (entries : Dict V)
      → get_or zero key entries ≡ elim (lookup key entries) [ none ↦ zero | some value ↦ value ]
  unfolding get_or lookup
  get_or-lookup zero key [] = refl
  get_or-lookup zero key (e ∷ rest) = ground (arith, get_or-lookup zero key rest)

  pub insert_nonempty : (k : String) (v : V) (m : Dict V) → insert k v m ≡ [] → ⊥
  unfolding insert
  insert_nonempty k v [] e = ground arith
  insert_nonempty k v ((j, w) ∷ m) e = ground arith
