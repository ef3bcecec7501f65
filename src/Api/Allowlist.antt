-- ===== src/Api/Allowlist.antt =====
-- internal/api/allowlist.go. The packages net/url and net are parameters: `parse_url` gives the
-- scheme and the host name of a URL, and `ip_of` the canonical form of an IP address.
pub mod Checks
use go_sentinel.Base.{
  String, List, [], ◌∷◌, Option, none, some, Bool, true, false, not, ◌&&◌, ◌||◌, str_eq, any,
  if◌then◌else◌,
}
use go_sentinel.Base.Dict.{Dict, lookup}
use go_sentinel.Base.Result.{Result, ok, err}
use go_sentinel.Base.Text.{to_lower, trim_space, cut_prefix, has_suffix}
use Prim.Native.String

pub record Allowlist : Type 0 where
  pub patterns : List String

abbrev pub blocked_hosts : Dict String
blocked_hosts =
    ("169.254.169.254", "cloud instance metadata")
    ∷ ("metadata.google.internal", "cloud instance metadata")
    ∷ []

clean_patterns : List String → List String
clean_patterns [] = []
clean_patterns (p ∷ ps) =
    let cleaned = to_lower (trim_space p) in
    let rest = clean_patterns ps in if str_eq cleaned "" then rest else cleaned ∷ rest

unfoldable pub new_allowlist : List String → Allowlist
unfolding clean_patterns
new_allowlist patterns = record { patterns = clean_patterns patterns }

unfoldable pub unrestricted : Allowlist → Bool
unrestricted a = elim a.patterns [ [] ↦ true | p ∷ ps ↦ false ]

pub data Error : Type 0 where
  unparsable no_host : Error
  wrong_scheme not_allowed : String → Error
  blocked : String → String → Error

pub record Net : Type 0 where
  pub parse_url : String → Option (String × String)
  pub ip_of : String → Option String

module _ (net : Net) where
  same_ip : String → String → Bool
  same_ip pattern host = elim (net.ip_of pattern) [
    | none ↦ false
    | some ip ↦ elim (net.ip_of host) [ none ↦ false | some host_ip ↦ str_eq ip host_ip ]
  ]

  unfoldable pub match_host : String → String → Bool
  unfolding same_ip
  match_host pattern host = if str_eq pattern host then true else elim (cut_prefix pattern "*.") [
    | some suffix ↦ has_suffix host (String.◌++◌ "." suffix) && not (str_eq host suffix)
    | none ↦ same_ip pattern host
  ]

  -- The part of `Check` that follows the parsing of the URL.
  check_host : Allowlist → String → Result Error (Unit {0})
  check_host a host =
      if any (λ p. match_host p host) a.patterns then ok tt else elim (lookup host blocked_hosts) [
        | some reason ↦ err (blocked host reason)
        | none ↦ if unrestricted a then ok tt else err (not_allowed host)
      ]

  check_parts : Allowlist → String → String → Result Error (Unit {0})
  check_parts a scheme hostname =
      let host = to_lower hostname in
      if not (str_eq scheme "http") && not (str_eq scheme "https")
      then err (wrong_scheme scheme)
      else if str_eq host ""
      then err no_host
      else check_host a host

  unfoldable pub check : Allowlist → String → Result Error (Unit {0})
  unfolding check_parts check_host
  check a base_url = elim (net.parse_url (trim_space base_url)) [
    | none ↦ err unparsable
    | some (scheme, hostname) ↦ check_parts a scheme hostname
  ]
