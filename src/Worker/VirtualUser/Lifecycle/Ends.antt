-- ===== src/Worker/VirtualUser/Lifecycle/Ends.antt =====
-- Why `Run` goes no further than in a round.
use go_sentinel.Base.{
  ℕ, suc, ◌+◌, List, [], ◌∷◌, ◌++◌, map, none, some, true, false, length, length-append, append_nil,
  ◌≡◌, refl, sym, ap, ◌∙◌, arith,
}
use go_sentinel.Base.Int.{ℤ, ltb_ℤ}
use go_sentinel.Store.Table.{limit}
use go_sentinel.Models.{Request}
use go_sentinel.Worker.VirtualUser.Lifecycle.{Answer, Round, passed, stopped, executing, cancelled}
use go_sentinel.Worker.VirtualUser.Lifecycle.Parts.{
  request_of, answer_of, cuts, RoundEnd, through, ran_out, cut_off,
}
use go_sentinel.Worker.VirtualUser.Lifecycle.Pace.{
  IsEnding, no_answer_yet, done_thinking, done_waiting,
}

pub limit-trace :
    (trace : List (Request × Answer)) (unused answers : List Answer)
    → map answer_of trace ++ unused ≡ answers
    → limit (length (map request_of trace)) answers ≡ map answer_of trace
unfolding limit
limit-trace trace unused answers e =
    ap (limit (length (map request_of trace))) (sym e) ∙ first trace
  where
    first :
        (xs : List (Request × Answer))
        → limit (length (map request_of xs)) (map answer_of xs ++ unused) ≡ map answer_of xs
    first [] = refl
    first ((r, a) ∷ xs) = ap (λ ys. a ∷ ys) (first xs)

pub cuts-append : (xs ys : List (Request × Answer)) → cuts (xs ++ ys) ≡ cuts xs + cuts ys
cuts-append [] ys = omega arith
cuts-append (x ∷ xs) ys = omega (arith, cuts-append xs ys)

length-both :
    (xs : List (Request × Answer)) → length (map request_of xs) ≡ length (map answer_of xs)
length-both [] = refl
length-both (x ∷ xs) = ap suc (length-both xs)

pub passed_end :
    (requests : List Request) (trace : List (Request × Answer)) (rest : List Request)
    (unused : List Answer) (n : ℕ)
    → map request_of trace ++ rest ≡ requests
    → RoundEnd trace rest unused n passed
    → (map request_of trace ≡ requests) × (n ≡ 0)
passed_end requests trace rest unused n e through =
    (sym (append_nil (map request_of trace)) ∙ e, refl)

pub executing_end :
    (deadline : ℤ) (requests : List Request) (r : Round) (rounds : List Round)
    (trace : List (Request × Answer)) (rest : List Request) (unused : List Answer) (n : ℕ)
    → r.done ≡ false
    → ltb_ℤ deadline r.now ≡ false
    → map request_of trace ++ rest ≡ requests
    → map answer_of trace ++ unused ≡ r.answers
    → RoundEnd trace rest unused n executing
    → IsEnding deadline requests (r ∷ rounds) (map request_of trace) n none
executing_end deadline requests r rounds trace rest unused n going now e f
      (ran_out {r = q} {rest = others}) =
    no_answer_yet r going now
      (ap length (sym f ∙ append_nil (map answer_of trace)) ∙ sym (length-both trace))
      (omega (arith, length-append (map request_of trace) (q ∷ others), ap length e))

pub stopped_end :
    (deadline : ℤ) (requests : List Request) (r : Round) (rounds : List Round)
    (trace : List (Request × Answer)) (rest : List Request) (unused : List Answer) (n : ℕ)
    → r.done ≡ false
    → ltb_ℤ deadline r.now ≡ false
    → map answer_of trace ++ unused ≡ r.answers
    → RoundEnd trace rest unused n stopped
    → IsEnding deadline requests (r ∷ rounds) (map request_of trace) n (some cancelled)
stopped_end deadline requests r rounds trace rest unused n going now f (cut_off before last e c) =
    done_thinking r before last going now (ap (map request_of) e)
      (limit-trace trace unused r.answers f ∙ ap (map answer_of) e) c

pub waited_end :
    (deadline : ℤ) (requests : List Request) (r : Round) (rounds : List Round)
    (trace : List (Request × Answer)) (rest : List Request) (unused : List Answer) (n : ℕ)
    → r.done ≡ false
    → ltb_ℤ deadline r.now ≡ false
    → r.interrupted ≡ true
    → map request_of trace ++ rest ≡ requests
    → RoundEnd trace rest unused n passed
    → IsEnding deadline requests (r ∷ rounds) (map request_of trace) n (some cancelled)
waited_end deadline requests r rounds trace rest unused n going now i e through =
    done_waiting r going now (sym (append_nil (map request_of trace)) ∙ e) i
