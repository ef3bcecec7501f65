-- ===== src/Orchestrator/Allocation.antt =====
-- `allocateStageVUs` of internal/orchestrator/plan_distributor.go: one stage's VUs, split over the
-- workers of a test by largest remainders.
pub mod Sums
pub mod Total
pub mod Exact
use Prim.Native.Char.{code}
use go_sentinel.Base.{
  ℕ, String, List, [], ◌∷◌, map, Bool, true, false, ltb, ◌==◌, ◌||◌, if◌then◌else◌,
}
use go_sentinel.Base.Int.{ℤ, pos, ◌+ℤ◌, ltb_ℤ, leb_ℤ, wrap32}
use go_sentinel.Base.Dict.{Dict, get_or, insert}
use go_sentinel.Base.Float.{Float64}

-- `<` on texts, by their code points.
unfoldable pub str_ltb : String → String → Bool
str_ltb String.[] String.[] = false
str_ltb String.[] (String.◌∷◌ d t) = true
str_ltb (String.◌∷◌ c s) String.[] = false
str_ltb (String.◌∷◌ c s) (String.◌∷◌ d t) =
    let rest = str_ltb s t in
    if ltb (code c) (code d) then true else if code c == code d then rest else false

-- Insertion that keeps the order of equal elements: `x` stood before all of the list.
unfoldable pub insert_by {ℓ} : {A : Type ℓ} → (A → A → Bool) → A → List A → List A
insert_by less x [] = x ∷ []
insert_by less x (y ∷ ys) =
    let rest = insert_by less x ys in if less y x then y ∷ rest else x ∷ y ∷ ys

-- `sort.SliceStable` and `sort.Strings`
unfoldable pub sort_by {ℓ} : {A : Type ℓ} → (A → A → Bool) → List A → List A
unfolding insert_by
sort_by less [] = []
sort_by less (x ∷ xs) = insert_by less x (sort_by less xs)

pub record Remainder (F : Type 0) : Type 0 where
  pub worker_id : String
  pub frac : F

unfoldable pub total_share : ℤ → Dict ℤ → ℤ
total_share total [] = total
total_share total ((id, share) ∷ rest) = total_share (wrap32 (total +ℤ share)) rest

module _ (float : Float64) (distribution : Dict ℤ) (target total : ℤ) where
  open float use {F, of_int, mul, div, sub, gtb, to_int32}

  unfoldable pub exact : String → F
  exact id = div (mul (of_int target) (of_int (get_or (pos 0) id distribution))) (of_int total)

  unfoldable pub whole : String → ℤ
  unfolding exact
  whole id = to_int32 (exact id)

  -- The loop over the sorted workers, once for each of the variables that it fills.
  unfoldable pub wholes : List String → Dict ℤ
  wholes [] = []
  wholes (id ∷ ids) = insert id (whole id) (wholes ids)

  unfoldable pub sum_wholes : ℤ → List String → ℤ
  sum_wholes assigned [] = assigned
  sum_wholes assigned (id ∷ ids) = sum_wholes (wrap32 (assigned +ℤ whole id)) ids

  unfoldable pub remainder_of : String → Remainder F
  unfolding exact whole
  remainder_of id = record { worker_id = id; frac = sub (exact id) (of_int (whole id)) }

-- The loop that hands out the VUs lost to truncation.
unfoldable pub hand_out : {F : Type 0} → Dict ℤ → ℤ → List (Remainder F) → Dict ℤ → ℤ → Dict ℤ
hand_out distribution target [] allocation assigned = allocation
hand_out distribution target (r ∷ rs) allocation assigned =
    let id = r.worker_id in
    let skipped = hand_out distribution target rs allocation assigned in
    let given =
      hand_out distribution target rs
        (insert id (wrap32 (get_or (pos 0) id allocation +ℤ pos 1)) allocation)
        (wrap32 (assigned +ℤ pos 1)) in
    if ltb_ℤ assigned target
    then (if leb_ℤ (get_or (pos 0) id distribution) (get_or (pos 0) id allocation)
        then skipped
        else given)
    else allocation

unfoldable pub worker_ids : Dict ℤ → List String
worker_ids distribution = map (λ e. e.0) distribution

unfoldable pub allocate_stage_vus : Float64 → Dict ℤ → ℤ → Dict ℤ
unfolding sort_by worker_ids
allocate_stage_vus float [] target = []
allocate_stage_vus float (e ∷ es) target =
    let distribution = e ∷ es in
    let total = total_share (pos 0) distribution in
    let ids = sort_by str_ltb (worker_ids distribution) in
    let remainders =
      sort_by (λ a b. float.gtb a.frac b.frac)
        (map (remainder_of float distribution target total) ids) in
    let handed =
      hand_out distribution target remainders (wholes float distribution target total ids)
        (sum_wholes float distribution target total (pos 0) ids) in
    if leb_ℤ target (pos 0) then [] else if leb_ℤ total (pos 0) then [] else handed
