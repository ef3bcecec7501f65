-- ===== src/Commands/WorkerServer/Registered.antt =====
-- A worker that registers with the orchestrator.
use text.Mathlib.TextPositions.{eq_refl}
use go_sentinel.Base.{
  ℕ, zero, suc, ◌+◌, String, Option, some, Bool, true, false, not, ◌||◌, if◌then◌else◌, ◌≡◌, refl,
  inl, inr, Bool-cases,
}
use go_sentinel.Base.Int.{ℤ}
use go_sentinel.Base.Dict.{lookup-insert}
use go_sentinel.Base.Result.{Result, ok, err}
use go_sentinel.Models.{WorkerNode, WorkerStatus}
use go_sentinel.Orchestrator.Nodes.{register_node, get_node}
use go_sentinel.Orchestrator.Server.{Server, Error, RegisterWorkerRequest, register_worker}
use go_sentinel.Commands.WorkerServer.{register_with_orchestrator}

abbrev pub succeeded : Result Error (Unit {0}) → Bool
succeeded (ok u) = true
succeeded (err e) = false

-- The node of the worker, as it was registered at the attempt.
abbrev pub node_at : (ℕ → ℤ) → RegisterWorkerRequest → ℕ → WorkerNode
node_at now req attempt = record {
  id = req.worker_id;
  address = req.address;
  max_vus = req.max_vus;
  status = WorkerStatus.idle;
  metadata = req.metadata;
  last_seen = now attempt;
}

-- The attempt that the loop ends with, where the attempts succeed as given.
abbrev pub last_attempt : (ℕ → Bool) → ℕ
last_attempt succeeds = if succeeds 1 then 1 else if succeeds 2 then 2 else 3

-- What becomes of an attempt: it does not reach the orchestrator; the orchestrator registers the
-- worker, but its answer does not come in time; or it answers. The Boolean is whether etcd fails.
pub data Outcome : Type 0 where
  unreachable : Outcome
  late answered : Bool → Outcome

-- The worker gets an answer without an error.
abbrev pub is_accepted : Outcome → Bool
is_accepted unreachable = false
is_accepted (late fails) = false
is_accepted (answered fails) = not fails

abbrev pub is_reached : Outcome → Bool
is_reached unreachable = false
is_reached (late fails) = true
is_reached (answered fails) = true

abbrev pub accepts : (ℕ → Outcome) → ℕ → Bool
accepts outcome attempt = is_accepted (outcome attempt)

-- The node that the orchestrator has after so many attempts, of what it had before.
abbrev pub node_after :
    (ℕ → Outcome) → (ℕ → ℤ) → RegisterWorkerRequest → Option WorkerNode → ℕ → Option WorkerNode
node_after outcome now req before zero = before
node_after outcome now req before (suc n) =
    if is_reached (outcome (suc n))
    then some (node_at now req (suc n))
    else node_after outcome now req before n

-- A loop of three calls over any state.
module _ {S : Type 0} (call : ℕ → S → S × Bool) (succeeds : ℕ → Bool) (P : ℕ → S → Type 0)
    (keeps : (n : ℕ) (s : S) → P n s → P (suc n) (call (suc n) s).0)
    (answers : (attempt : ℕ) (s : S) → (call attempt s).1 ≡ succeeds attempt) where
  abbrev Ends : S → Type 0
  Ends s =
      let r = register_with_orchestrator call s in
      (r.registered ≡ succeeds 1 || succeeds 2 || succeeds 3)
      × (r.calls ≡ last_attempt succeeds)
      × (r.sleeps + 1 ≡ last_attempt succeeds)
      × P (last_attempt succeeds) r.state

  ends : (s : S) → P 0 s → Ends s
  unfolding register_with_orchestrator
  ends s p0 =
      let s1 = (call 1 s).0 in
      let s2 = (call 2 s1).0 in
      let p1 = keeps 0 s p0 in
      let p2 = keeps 1 s1 p1 in
      let p3 = keeps 2 s2 p2 in
      elim (Bool-cases (succeeds 1)) [
        | inl a ↦ rw (answers 1 s, a) (refl, refl, refl, p1)
        | inr a ↦ elim (Bool-cases (succeeds 2)) [
          | inl b ↦ rw (answers 1 s, answers 2 s1, a, b) (refl, refl, refl, p2)
          | inr b ↦ elim (Bool-cases (succeeds 3)) [
            | inl c ↦ rw (answers 1 s, answers 2 s1, answers 3 s2, a, b, c) (refl, refl, refl, p3)
            | inr c ↦ rw (answers 1 s, answers 2 s1, answers 3 s2, a, b, c) (refl, refl, refl, p3)
          ]
        ]
      ]

module _ {F : Type 0} (hash : String → ℕ → ℕ) (outcome : ℕ → Outcome) (now : ℕ → ℤ)
    (req : RegisterWorkerRequest) where
  -- The orchestrator after an attempt, and whether the worker got an answer without an error.
  abbrev made : Outcome → ℕ → Server F → Server F × Bool
  made unreachable attempt s = (s, false)
  made (late fails) attempt s = ((register_worker hash fails (now attempt) s req).0, false)
  made (answered fails) attempt s =
      let answer = register_worker hash fails (now attempt) s req in (answer.0, succeeded answer.1)

  abbrev pub call : ℕ → Server F → Server F × Bool
  call attempt s = made (outcome attempt) attempt s

  registers :
      (fails : Bool) (attempt : ℕ) (s : Server F)
      → get_node (register_worker hash fails (now attempt) s req).0.nodes req.worker_id
        ≡ some (node_at now req attempt)
  unfolding register_worker register_node get_node
  registers fails attempt s =
      rw
        (
          lookup-insert req.worker_id req.worker_id (node_at now req attempt) s.nodes.nodes,
          eq_refl req.worker_id,
        )
        refl

  made-node :
      (before : Option WorkerNode) (o : Outcome) (n : ℕ) (s : Server F)
      → get_node s.nodes req.worker_id ≡ node_after outcome now req before n
      → get_node (made o (suc n) s).0.nodes req.worker_id ≡ (
          if is_reached o
          then some (node_at now req (suc n))
          else node_after outcome now req before n)
  made-node before unreachable n s p = p
  made-node before (late fails) n s p = registers fails (suc n) s
  made-node before (answered fails) n s p = registers fails (suc n) s

  made-answer : (o : Outcome) (attempt : ℕ) (s : Server F) → (made o attempt s).1 ≡ is_accepted o
  unfolding register_worker register_node
  made-answer unreachable attempt s = refl
  made-answer (late fails) attempt s = refl
  made-answer (answered true) attempt s = refl
  made-answer (answered false) attempt s = refl

  -- Whether an attempt reaches the orchestrator, whether its answer comes in time, and whether etcd
  -- fails it being given: the registration calls up to three times, until an answer without an error
  -- comes, and waits between the calls; the worker takes itself for registered exactly if there is
  -- such an answer. The orchestrator then has it as an idle node, with its address, its virtual users
  -- and the time of the last call that reached it, even where none was answered well; where none
  -- reached it, it has what it had. (A call that is late is handled before the next one.)
  pub register_with_orchestrator-IsNode :
      (s : Server F)
      → ((register_with_orchestrator call s).registered
          ≡ accepts outcome 1 || accepts outcome 2 || accepts outcome 3)
        × ((register_with_orchestrator call s).calls ≡ last_attempt (accepts outcome))
        × ((register_with_orchestrator call s).sleeps + 1 ≡ last_attempt (accepts outcome))
        × (get_node (register_with_orchestrator call s).state.nodes req.worker_id
            ≡ node_after outcome now req
                (get_node s.nodes req.worker_id)
                (last_attempt (accepts outcome)))
  register_with_orchestrator-IsNode s =
      let before = get_node s.nodes req.worker_id in
      ends call (accepts outcome)
        (λ n state. get_node state.nodes req.worker_id ≡ node_after outcome now req before n)
        (λ n state. made-node before (outcome (suc n)) n state)
        (λ attempt state. made-answer (outcome attempt) attempt state) s refl
