-- ===== src/Api/Queue/Attempts.antt =====
-- How often a run is tried.
use go_sentinel.Base.{
  ℕ, ◌+◌, ◌<◌, ◌≤◌, String, [], ◌∷◌, Option, none, some, Bool, true, str_eq, eq_iff, ltb,
  if◌then◌else◌, ◌≡◌, ◌≢◌, ◌↔◌, refl, arith,
}
use go_sentinel.Base.Dict.{Dict, get_or, insert, delete, get_or-insert}
use go_sentinel.Api.Queue.{
  Queue, max_dispatch_attempts, release, after_failure, after_success, claim, dispatch_next,
}

abbrev pub attempts_of : String → Queue → ℕ
attempts_of id q = get_or 0 id q.attempts

get_or-delete :
    (key other : String) (m : Dict ℕ)
    → get_or 0 other (delete key m) ≡ (if str_eq key other then 0 else get_or 0 other m)
unfolding get_or delete
get_or-delete key other [] = ground arith
get_or-delete key other (e ∷ m) =
    ground (arith, get_or-delete key other m, eq_iff e.0 other, eq_iff e.0 key, eq_iff key other)

-- For an idle queue and a queued run whose id is not empty, a failed dispatch leaves the queue idle;
-- it gives up on the run exactly if five failures are reached, and then forgets its count, and else
-- counts one more. The attempts of no other run change.
pub dispatch_next-failed :
    (q : Queue) (id other : String)
    → q.current ≡ ""
    → id ≢ ""
    → ((dispatch_next (some id) true q).0.current ≡ "")
      × (((dispatch_next (some id) true q).1.gave_up ≡ some id)
          ↔ (max_dispatch_attempts ≤ attempts_of id q + 1))
      × (attempts_of other (dispatch_next (some id) true q).0 ≡ (
          if str_eq id other
          then (if ltb (attempts_of id q + 1) max_dispatch_attempts
              then attempts_of id q + 1
              else 0)
          else attempts_of other q))
unfolding dispatch_next after_failure claim release
dispatch_next-failed q id other e some_id = ground (
  arith,
  eq_iff q.current "",
  eq_iff id id,
  get_or-insert 0 id other (attempts_of id q + 1) q.attempts,
  get_or-delete id other (insert id (attempts_of id q + 1) q.attempts),
)

-- No run has been tried five times.
pub record IsBounded (q : Queue) : Type 0 where
  pub at : (id : String) → attempts_of id q < max_dispatch_attempts

-- Whatever is queued and whether or not it is dispatched, `dispatchNext` keeps every run's count of
-- failed attempts below five.
pub dispatch_next-IsBounded :
    (q : Queue) (next : Option String) (failed : Bool)
    → IsBounded q
    → IsBounded (dispatch_next next failed q).0
unfolding dispatch_next after_failure after_success claim release
dispatch_next-IsBounded q none failed h = h
dispatch_next-IsBounded q (some id) failed h = record {
  at = λ other. ground (
    arith,
    h.at id,
    h.at other,
    get_or-insert 0 id other (attempts_of id q + 1) q.attempts,
    get_or-delete id other (insert id (attempts_of id q + 1) q.attempts),
    get_or-delete id other q.attempts,
  );
}

-- While a run is current, `dispatchNext` changes nothing, whatever is queued.
pub dispatch_next-busy :
    (q : Queue) (next : Option String) (failed : Bool)
    → q.current ≢ ""
    → (dispatch_next next failed q).0 ≡ q
unfolding dispatch_next claim
dispatch_next-busy q none failed h = refl
dispatch_next-busy q (some id) failed h = ground (arith, eq_iff q.current "")
