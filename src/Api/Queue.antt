-- ===== src/Api/Queue.antt =====
-- internal/api/queue.go: the slot and the attempts of the queue. `dispatchNext` reads the store and
-- dispatches between its critical sections; what these returned are parameters of a step.
pub mod Attempts
use go_sentinel.Base.{
  ℕ, ◌+◌, String, List, [], ◌∷◌, Option, none, some, Bool, true, false, str_eq, not, ltb,
  if◌then◌else◌,
}
use go_sentinel.Base.Dict.{Dict, get_or, insert, delete}

pub record Queue : Type 0 where
  -- the empty text where the queue is idle
  pub current : String
  pub attempts : Dict ℕ

abbrev pub max_dispatch_attempts : ℕ
max_dispatch_attempts = 5

unfoldable pub new_queue : Queue
new_queue = record { current = ""; attempts = [] }

unfoldable pub release : String → Queue → Queue
release id q = if str_eq q.current id then record q { current = "" } else q

-- What a call of `dispatchNext` did: whether it is to be called again, and the run it gave up on,
-- whose status it set to FAILED.
pub record Outcome : Type 0 where
  pub again : Bool
  pub gave_up : Option String

abbrev pub idle : Outcome
idle = record { again = false; gave_up = none }

-- The end of `dispatchNext` for a run whose dispatch failed.
unfoldable pub after_failure : String → Queue → Queue × Outcome
unfolding release
after_failure id q =
    let n = get_or 0 id q.attempts + 1 in
    let released = release id (record q { attempts = insert id n q.attempts }) in
    if ltb n max_dispatch_attempts then (released, idle) else (
      record released { attempts = delete id released.attempts },
      record { again = true; gave_up = some id },
    )

-- The end of `dispatchNext` for a run that was dispatched; it stays current.
unfoldable pub after_success : String → Queue → Queue × Outcome
after_success id q = (record q { attempts = delete id q.attempts }, idle)

-- The claim of the slot; none where another run holds it.
unfoldable pub claim : String → Queue → Option Queue
claim id q = if not (str_eq q.current "") then none else some (record q { current = id })

-- `next` is the oldest queued run, `failed` whether its dispatch failed.
unfoldable pub dispatch_next : Option String → Bool → Queue → Queue × Outcome
unfolding after_failure after_success claim
dispatch_next none failed q = (q, idle)
dispatch_next (some id) failed q = elim (claim id q) [
  | none ↦ (q, idle)
  | some claimed ↦ if failed then after_failure id claimed else after_success id claimed
]
