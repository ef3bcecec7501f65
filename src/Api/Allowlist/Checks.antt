-- ===== src/Api/Allowlist/Checks.antt =====
-- Which URLs pass.
use Prim.Native.String
use go_sentinel.Base.{
  String, List, [], ◌∷◌, none, some, true, str_eq, eq_iff, any, ◌≡◌, ◌≢◌, ◌↔◌, ◌⊎◌, arith, refl, ap,
  ◌∙◌, inl, inr, Bool-cases, Option-cases,
}
use text.Mathlib.TextPositions.{eq_refl}
use go_sentinel.Base.Affixes.{
  append-cut_prefix, cut_prefix-append, not_prefixed, cut_prefix-none, append-has_suffix,
  has_suffix-append,
}
use go_sentinel.Base.Dict.{lookup}
use go_sentinel.Base.Result.{ok}
use go_sentinel.Base.Text.{to_lower, trim_space, concat, cut_prefix, has_suffix}
use go_sentinel.Api.Allowlist.{
  Allowlist, Net, blocked_hosts, unrestricted, match_host, same_ip, check_host, check_parts, check,
}

-- The pattern names the host: it is the host; or it is a wildcard and the host a name that ends with
-- a dot and what follows the wildcard; or it is no wildcard and an IP address, whose canonical form
-- is also that of the host.
abbrev pub IsNamed : Net → String → String → Type 0
IsNamed net host pattern =
    (pattern ≡ host)
    ⊎ ((suffix : String) × (sub : String) × (pattern ≡ concat "*." suffix)
        × (host ≡ concat sub (String.◌++◌ "." suffix))
        × (host ≢ suffix))
    ⊎ (((suffix : String) → pattern ≢ concat "*." suffix)
        × ((ip : String) × (net.ip_of pattern ≡ some ip) × (net.ip_of host ≡ some ip)))

abbrev pub Any : (String → Type 0) → List String → Type 0
Any P [] = ⊥
Any P (x ∷ xs) = P x ⊎ Any P xs

-- A host that a load test may aim at: one that a pattern names, or, where there is no pattern at all,
-- one that is no address of cloud metadata.
abbrev pub IsAllowed : Net → Allowlist → String → Type 0
IsAllowed net a host =
    Any (IsNamed net host) a.patterns
    ⊎ (("169.254.169.254" ≢ host) × ("metadata.google.internal" ≢ host) × (a.patterns ≡ []))

lookup-blocked_hosts :
    (host : String)
    → lookup host blocked_hosts ≡ none
      ↔ ("169.254.169.254" ≢ host) × ("metadata.google.internal" ≢ host)
unfolding lookup
lookup-blocked_hosts host =
    ground (arith, eq_iff "169.254.169.254" host, eq_iff "metadata.google.internal" host)

match_host-IsNamed :
    (net : Net) (pattern host : String)
    → match_host net pattern host ≡ true
    → IsNamed net host pattern
unfolding match_host same_ip
match_host-IsNamed net pattern host e = elim (Bool-cases (str_eq pattern host)) [
  | inl same ↦ inl (ground (arith, eq_iff pattern host))
  | inr differs ↦ elim (Option-cases (cut_prefix pattern "*.")) [
    | inr (suffix, cut) ↦
        let (sub, below) = append-has_suffix host (String.◌++◌ "." suffix) (ground arith) in
        inr (
          inl (
            suffix,
            sub,
            append-cut_prefix pattern "*." suffix cut,
            below,
            ground (arith, eq_iff host suffix),
          ))
    | inl plain ↦ elim (Option-cases (net.ip_of pattern)) [
      | inl no_ip ↦ absurd (ground arith)
      | inr (ip, p) ↦ elim (Option-cases (net.ip_of host)) [
        | inl no_ip ↦ absurd (ground arith)
        | inr (host_ip, h) ↦
            inr (inr (not_prefixed pattern "*." plain, (ip, p, ground (arith, eq_iff ip host_ip))))
      ]
    ]
  ]
]

IsNamed-match_host :
    (net : Net) (pattern host : String)
    → IsNamed net host pattern
    → match_host net pattern host ≡ true
unfolding match_host same_ip
IsNamed-match_host net pattern host (inl same) = ground (arith, eq_iff pattern host)
IsNamed-match_host net pattern host (inr (inl (suffix, sub, p, h, other))) =
    let cut = ap (λ t. cut_prefix t "*.") p ∙ cut_prefix-append "*." suffix in
    let below =
      ap (λ t. has_suffix t (String.◌++◌ "." suffix)) h
      ∙ has_suffix-append sub (String.◌++◌ "." suffix) in
    ground (arith, cut, below, eq_iff host suffix)
IsNamed-match_host net pattern host (inr (inr (plain, (ip, p, h)))) =
    ground (arith, cut_prefix-none pattern "*." plain, eq_refl ip)

any-Any :
    (net : Net) (host : String) (patterns : List String)
    → any (λ p. match_host net p host) patterns ≡ true ↔ Any (IsNamed net host) patterns
any-Any net host [] = ((λ e. absurd (ground arith)), (λ e. absurd e))
any-Any net host (p ∷ patterns) =
    let (forward, backward) = any-Any net host patterns in
    (
      λ e. elim (Bool-cases (match_host net p host)) [
        | inl h ↦ inl (match_host-IsNamed net p host h)
        | inr n ↦ inr (forward (ground arith))
      ],
      λ found. elim found [
        | inl n ↦ rw (IsNamed-match_host net p host n) refl
        | inr n ↦ ground (arith, backward n)
      ],
    )

check_host_iff :
    (net : Net) (a : Allowlist) (host : String)
    → check_host net a host ≡ ok tt ↔ IsAllowed net a host
unfolding check_host unrestricted
check_host_iff net a host = ground (arith, any-Any net host a.patterns, lookup-blocked_hosts host)

check_parts_iff :
    (net : Net) (a : Allowlist) (scheme hostname : String)
    → check_parts net a scheme hostname ≡ ok tt
      ↔ ((scheme ≡ "http") ⊎ (scheme ≡ "https"))
        × (to_lower hostname ≢ "")
        × IsAllowed net a (to_lower hostname)
unfolding check_parts
check_parts_iff net a scheme hostname = ground (
  arith,
  eq_iff scheme "http",
  eq_iff scheme "https",
  eq_iff (to_lower hostname) "",
  check_host_iff net a (to_lower hostname),
)

-- A base URL that parses passes exactly if its scheme is http or https, its host in lower case is
-- not empty, and some pattern names that host (as it is, by a wildcard for any name below a domain,
-- or as an IP address with the same canonical form) or, where there are no patterns, the host is none
-- of the two addresses of cloud metadata.
pub check_iff :
    (net : Net) (a : Allowlist) (base_url scheme hostname : String)
    → net.parse_url (trim_space base_url) ≡ some (scheme, hostname)
    → check net a base_url ≡ ok tt
      ↔ ((scheme ≡ "http") ⊎ (scheme ≡ "https"))
        × (to_lower hostname ≢ "")
        × IsAllowed net a (to_lower hostname)
unfolding check
check_iff net a base_url scheme hostname e = rw (e, check) (check_parts_iff net a scheme hostname)
