-- ===== src/Base/Text.antt =====
-- The functions of Go's package strings that the program uses, on native texts. Case is mapped for
-- ASCII letters, and the white space is that of ASCII.
use Prim.Native.Char.{Char, code}
use Prim.Native.String
use Prim.Native.String.{String, char_at, count}
use mathlib.Core.Path.{◌≡◌, refl}
use mathlib.Core.Bool.{Bool, true, false, not, ◌&&◌, ◌||◌}
use mathlib.Core.List.{List, [], ◌∷◌}
use native.Mathlib.Omega.{arith}
use mathlib.Core.Option.{Option, none, some}
use text.Mathlib.Text.{◌==◌ as str_eq}
use go_sentinel.Base.Int.{ℤ, pos, negsuc}
use go_sentinel.Base.Tests.{ltb, leb, ◌==◌, if◌then◌else◌}
use Prim.Native.Nat.{ℕ, zero, suc, ◌-◌, ◌/◌, ◌%◌, pred}

upper_char : Char → Char
upper_char c =
    if leb b'a' (code c) && leb (code c) b'z'
    then char_at "ABCDEFGHIJKLMNOPQRSTUVWXYZ" (code c - b'a')
    else c

lower_char : Char → Char
lower_char c =
    if leb b'A' (code c) && leb (code c) b'Z'
    then char_at "abcdefghijklmnopqrstuvwxyz" (code c - b'A')
    else c

unfoldable pub to_upper : String → String
unfolding upper_char
to_upper String.[] = ""
to_upper (String.◌∷◌ c s) = String.◌∷◌ (upper_char c) (to_upper s)

unfoldable pub to_lower : String → String
unfolding lower_char
to_lower String.[] = ""
to_lower (String.◌∷◌ c s) = String.◌∷◌ (lower_char c) (to_lower s)

-- space, and \t \n \v \f \r
abbrev is_space : Char → Bool
is_space c = code c == 32 || leb 9 (code c) && leb (code c) 13

unfoldable pub trim_left : String → String
trim_left String.[] = ""
trim_left (String.◌∷◌ c s) = let rest = trim_left s in if is_space c then rest else String.◌∷◌ c s

-- A character before a text whose white space at the end is gone.
abbrev keep_char : Char → String → String
keep_char c s = if str_eq s "" && is_space c then "" else String.◌∷◌ c s

unfoldable pub trim_right : String → String
trim_right String.[] = ""
trim_right (String.◌∷◌ c s) = keep_char c (trim_right s)

unfoldable pub trim_space : String → String
unfolding trim_left trim_right
trim_space s = trim_right (trim_left s)

-- `strings.CutPrefix`: what follows the prefix.
unfoldable pub cut_prefix : String → String → Option String
cut_prefix s String.[] = some s
cut_prefix String.[] (String.◌∷◌ d t) = none
cut_prefix (String.◌∷◌ c s) (String.◌∷◌ d t) =
    let rest = cut_prefix s t in if code c == code d then rest else none

abbrev pub has_prefix : String → String → Bool
has_prefix s t = elim (cut_prefix s t) [ none ↦ false | some rest ↦ true ]

unfoldable pub has_suffix : String → String → Bool
has_suffix String.[] t = str_eq "" t
has_suffix (String.◌∷◌ c s) t = str_eq (String.◌∷◌ c s) t || has_suffix s t

-- `strings.Contains`
unfoldable pub contains : String → String → Bool
unfolding cut_prefix
contains String.[] t = has_prefix "" t
contains (String.◌∷◌ c s) t = has_prefix (String.◌∷◌ c s) t || contains s t

-- `strings.ReplaceAll` with an `old` that is not empty: after a match the loop skips its characters.
replace_from : String → String → ℕ → String → String
replace_from old new skip String.[] = ""
replace_from old new (suc skip) (String.◌∷◌ c s) = replace_from old new skip s
replace_from old new zero (String.◌∷◌ c s) =
    let matched = String.◌++◌ new (replace_from old new (pred (count old)) s) in
    let kept = String.◌∷◌ c (replace_from old new 0 s) in
    if has_prefix (String.◌∷◌ c s) old then matched else kept

unfoldable pub replace_all : String → String → String → String
unfolding replace_from cut_prefix
replace_all s old new = replace_from old new 0 s

replaced : replace_all "/u/${id}/${id}" "${id}" "7" ≡ "/u/7/7"
unfolding replace_all
replaced = refl

trimmed : to_lower (trim_space " A b\t") ≡ "a b"
unfolding trim_space to_lower
trimmed = refl

-- `strings.SplitN(s, "=", 2)` where it has two parts.
unfoldable pub split_pair : String → Option (String × String)
split_pair String.[] = none
split_pair (String.◌∷◌ c s) =
    let rest = split_pair s in
    if code c == b'='
    then some ("", s)
    else elim rest [ none ↦ none | some (k, v) ↦ some (String.◌∷◌ c k, v) ]

paired : split_pair "A=b=c" ≡ some ("A", "b=c")
unfolding split_pair
paired = refl

digit : ℕ → String
digit d = String.◌∷◌ (char_at "0123456789" d) ""

decimal_from : ℕ → ℕ → String
decimal_from zero n = ""
decimal_from (suc fuel) n =
    let rest = decimal_from fuel (n / 10) in
    if ltb n 10 then digit n else String.◌++◌ rest (digit (n % 10))

-- `%d` of a number: it has at most n + 1 digits.
unfoldable pub decimal : ℕ → String
unfolding decimal_from digit
decimal n = decimal_from (suc n) n

printed : decimal 109 ≡ "109"
unfolding decimal
printed = refl

-- A character before the first part.
abbrev push : Char → List String → List String
push c [] = String.◌∷◌ c "" ∷ []
push c (part ∷ parts) = String.◌∷◌ c part ∷ parts

-- `strings.Split` at a separator of one character, given by its code.
unfoldable pub split : ℕ → String → List String
split sep String.[] = "" ∷ []
split sep (String.◌∷◌ c s) =
    let rest = split sep s in if code c == sep then "" ∷ rest else push c rest

-- No character has the code.
unfoldable pub lacks : ℕ → String → Bool
lacks sep String.[] = true
lacks sep (String.◌∷◌ c s) = not (code c == sep) && lacks sep s

-- `s + t`, which computes also where `t` is not known.
unfoldable pub concat : String → String → String
concat String.[] t = t
concat (String.◌∷◌ c s) t = String.◌∷◌ c (concat s t)

pub split-concat :
    (sep : ℕ) (s t : String) (c : Char)
    → lacks sep s ≡ true
    → code c ≡ sep
    → split sep (concat s (String.◌∷◌ c t)) ≡ s ∷ split sep t
unfolding split lacks concat
split-concat sep String.[] t c h e = ground arith
split-concat sep (String.◌∷◌ d s) t c h e = ground (arith, split-concat sep s t c)

pub split_single : (sep : ℕ) (s : String) → lacks sep s ≡ true → split sep s ≡ s ∷ []
unfolding split lacks
split_single sep String.[] h = refl
split_single sep (String.◌∷◌ d s) h = ground (arith, split_single sep s)

-- `strings.Join`
unfoldable pub join : String → List String → String
unfolding concat
join sep [] = ""
join sep (x ∷ []) = x
join sep (x ∷ y ∷ rest) = concat x (concat sep (join sep (y ∷ rest)))

-- `%d` of an integer
abbrev pub signed_decimal : ℤ → String
signed_decimal (pos n) = decimal n
signed_decimal (negsuc n) = String.◌++◌ "-" (decimal (suc n))
