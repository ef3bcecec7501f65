-- ===== src/Tests/Submitting.antt =====
-- Submitted runs: the hosts they may aim at, and the queue.
use go_sentinel.Base.{String, [], ◌∷◌, none, some, true, ◌≡◌, ◌≢◌, ◌↔◌, ◌⊎◌, refl, arith}
use go_sentinel.Base.Dict.{get_or}
use go_sentinel.Base.Result.{ok}
use go_sentinel.Base.Text.{to_lower, trim_space, cut_prefix, has_suffix}
use go_sentinel.Api.Allowlist.{Net, new_allowlist, check, match_host}
use go_sentinel.Api.Allowlist.Checks.{IsAllowed, check_iff}
use go_sentinel.Api.Queue.{Queue, new_queue, dispatch_next}
use go_sentinel.Api.Queue.Attempts.{IsBounded, dispatch_next-IsBounded}

-- Every URL is http, and its text is its host; no text is an IP address.
abbrev plain : Net
plain = record { parse_url = λ url. some ("http", url); ip_of = λ host. none }

trimmed : plain.parse_url (trim_space "A.B.test") ≡ some ("http", "A.B.test")
unfolding trim_space
trimmed = refl

check_iff_example :
    check plain (new_allowlist ("*.b.test" ∷ [])) "A.B.test" ≡ ok tt
    ↔ ((◌≡◌ {A = String} "http" "http") ⊎ (◌≡◌ {A = String} "http" "https"))
      × (to_lower "A.B.test" ≢ "")
      × IsAllowed plain (new_allowlist ("*.b.test" ∷ [])) (to_lower "A.B.test")
check_iff_example =
    check_iff plain (new_allowlist ("*.b.test" ∷ [])) "A.B.test" "http" "A.B.test" trimmed

crosses_dots : match_host plain "*.b.test" "x.a.b.test" ≡ true
unfolding match_host cut_prefix has_suffix
crosses_dots = refl

abbrev tried : Queue
tried = record { current = ""; attempts = ("r1", 4) ∷ [] }

new_queue-IsBounded : IsBounded new_queue
unfolding new_queue get_or
new_queue-IsBounded = record { at = λ id. omega arith }

dispatch_next-IsBounded_example : IsBounded (dispatch_next (some "r1") true new_queue).0
dispatch_next-IsBounded_example =
    dispatch_next-IsBounded new_queue (some "r1") true new_queue-IsBounded

abbrev running : Queue
running = record { current = "r1"; attempts = [] }
