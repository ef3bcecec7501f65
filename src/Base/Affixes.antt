-- ===== src/Base/Affixes.antt =====
-- Prefixes and suffixes of texts: what cut_prefix and has_suffix of Base.Text find.
use Prim.Native.Char.{Char, code}
use text.Mathlib.TextEquality.{codes_equal}
use go_sentinel.Base.Tests.{◌==◌, Bool-cases, Option-cases}
use go_sentinel.Base.Text.{cut_prefix, has_suffix, concat}
use Prim.Native.String.{String}
use mathlib.Core.Bool.{true}
use mathlib.Core.Option.{Option, none, some}
use mathlib.Core.Path.{◌≡◌, refl, sym, ap, ◌∙◌}
use mathlib.Core.Logic.{◌≢◌, inl, inr}
use text.Mathlib.Text.{◌==◌ as str_eq}
use text.Mathlib.TextEquality.{eq_iff}
use text.Mathlib.TextPositions.{eq_refl}
use native.Mathlib.Omega.{arith}

code_eq : (c d : Char) → (code c == code d) ≡ true → c ≡ d
code_eq c d e = codes_equal c d (ground arith)

pub append-cut_prefix : (s p x : String) → cut_prefix s p ≡ some x → s ≡ concat p x
unfolding cut_prefix concat
append-cut_prefix s String.[] x e = ground arith
append-cut_prefix String.[] (String.◌∷◌ d p) x e = absurd (ground arith)
append-cut_prefix (String.◌∷◌ c s) (String.◌∷◌ d p) x e = elim (Bool-cases (code c == code d)) [
  | inl same ↦
      rw (code_eq c d same) (ap (λ t. String.◌∷◌ d t) (append-cut_prefix s p x (ground arith)))
  | inr other ↦ absurd (ground arith)
]

pub cut_prefix-append : (p x : String) → cut_prefix (concat p x) p ≡ some x
unfolding cut_prefix concat
cut_prefix-append String.[] x = refl
cut_prefix-append (String.◌∷◌ d p) x = ground (arith, cut_prefix-append p x)

pub not_prefixed : (s p : String) → cut_prefix s p ≡ none → (x : String) → s ≢ concat p x
not_prefixed s p e x same =
    none_some (sym e ∙ ap (λ t. cut_prefix t p) same ∙ cut_prefix-append p x)
  where
    none_some : {y : String} → Path (Option String) none (some y) → ⊥
    none_some e = ground arith

pub cut_prefix-none : (s p : String) → ((x : String) → s ≢ concat p x) → cut_prefix s p ≡ none
cut_prefix-none s p other = elim (Option-cases (cut_prefix s p)) [
  | inl e ↦ e
  | inr (x, e) ↦ absurd (other x (append-cut_prefix s p x e))
]

has_suffix_refl : (t : String) → has_suffix t t ≡ true
unfolding has_suffix concat
has_suffix_refl String.[] = refl
has_suffix_refl (String.◌∷◌ c t) = rw (eq_refl (String.◌∷◌ c t)) refl

pub has_suffix-append : (x t : String) → has_suffix (concat x t) t ≡ true
unfolding has_suffix concat
has_suffix-append String.[] t = has_suffix_refl t
has_suffix-append (String.◌∷◌ c x) t = ground (arith, has_suffix-append x t)

pub append-has_suffix : (s t : String) → has_suffix s t ≡ true → (x : String) × (s ≡ concat x t)
unfolding has_suffix concat
append-has_suffix String.[] t e = ("", ground (arith, eq_iff "" t))
append-has_suffix (String.◌∷◌ c s) t e = elim (Bool-cases (str_eq (String.◌∷◌ c s) t)) [
  | inl same ↦ ("", ground (arith, eq_iff (String.◌∷◌ c s) t))
  | inr other ↦
      let (x, found) = append-has_suffix s t (ground arith) in
      (String.◌∷◌ c x, ap (λ u. String.◌∷◌ c u) found)
]
