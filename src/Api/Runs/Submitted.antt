-- ===== src/Api/Runs/Submitted.antt =====
-- What a submission of a run must pass before it is stored.
use go_sentinel.Base.{
  ℕ, String, List, [], ◌∷◌, ◌++◌, Option, some, true, false, str_eq, eq_iff, any, ◌≡◌, refl, arith,
  Bool-cases, inl, inr,
}
use go_sentinel.Base.Int.{ℤ}
use go_sentinel.Base.Float.{Float64}
use go_sentinel.Base.Result.{ok, err, Result-cases}
use go_sentinel.Runtime.Duration.{Durations}
use go_sentinel.Runtime.Scenario.{Scenario, YamlTestPlan}
use go_sentinel.Runtime.Parser.{from_spec}
use go_sentinel.Store.{Run, User, Database, not_found, constraint_failed}
use go_sentinel.Store.Table.{select_row}
use go_sentinel.Store.Runs.{queued, create_run, get_run, has_id, new_row, scanned}
use go_sentinel.Api.Allowlist.{Net, Allowlist, check}
use go_sentinel.Api.Reply.{Reply, reply, refuse, no_content}
use go_sentinel.Api.Runs.{StartRunResponse, submitted, queue_run, handle_start_run}

module _ (fl : Float64) where
  open fl use {F}

  create_new :
      (r : Run F) (db : Database F)
      → any (λ other. str_eq r.id other.id) db.runs ≡ false
      → create_run fl r db ≡ ok (record db { runs = db.runs ++ (new_row fl r ∷ []) })
  unfolding create_run
  create_new r db n = rw (create_run, n) refl

  create_taken :
      (r : Run F) (db : Database F)
      → any (λ other. str_eq r.id other.id) db.runs ≡ true
      → create_run fl r db ≡ err constraint_failed
  unfolding create_run
  create_taken r db n = rw (create_run, n) refl

  created_row :
      (r : Run F) (rows : List (Run F))
      → any (λ other. str_eq r.id other.id) rows ≡ false
      → (scanned (select_row (has_id r.id) rows) ≡ err not_found)
        × (scanned (select_row (has_id r.id) (rows ++ (new_row fl r ∷ []))) ≡ ok (new_row fl r))
  unfolding select_row
  created_row r [] n = (refl, rw ((eq_iff r.id r.id).1 refl) refl)
  created_row r (x ∷ rows) n =
      ground (arith, created_row r rows, eq_iff r.id x.id, eq_iff x.id r.id)

module _ (fl : Float64) (durations : Durations) (environ : List String) (net : Net)
    (allowlist : Allowlist) (marshal : YamlTestPlan → String) where
  open fl use {F}

  -- An accepted run: its plan is a scenario with an allowed target, its id was new, and it is stored
  -- as QUEUED with its plan, for the user of the request.
  pub record IsStored (plan : YamlTestPlan) (db after : Database F) (resp : StartRunResponse)
      : Type 0 where
    pub scenario : Scenario
    pub accepted : from_spec durations environ plan ≡ ok scenario
    pub allowed : check net allowlist scenario.http.base_url ≡ ok tt
    pub fresh : get_run resp.test_id db ≡ err not_found
    pub row : Run F
    pub found : get_run resp.test_id after ≡ ok row
    pub waits : row.status ≡ "QUEUED"
    pub snapshot : row.plan_spec ≡ marshal plan

  abbrev pub IsSubmission : YamlTestPlan → Database F → Database F × Reply StartRunResponse → Type 0
  IsSubmission plan db (after, refuse code) = after ≡ db
  IsSubmission plan db (after, no_content) = ⊥
  IsSubmission plan db (after, reply code resp) = (code ≡ 202) × IsStored plan db after resp

  queue_run-IsSubmission :
      (plan : YamlTestPlan) (scenario : Scenario) (r : Run F) (db : Database F)
      → from_spec durations environ plan ≡ ok scenario
      → check net allowlist scenario.http.base_url ≡ ok tt
      → r.status ≡ queued
      → r.plan_spec ≡ marshal plan
      → IsSubmission plan db (queue_run fl durations environ net r db)
  unfolding queue_run get_run
  queue_run-IsSubmission plan scenario r db a c q m =
      elim (Bool-cases (any (λ other. str_eq r.id other.id) db.runs)) [
        | inl t ↦ rw (queue_run, create_taken fl r db t) refl
        | inr t ↦
            let (before, after) = created_row fl r db.runs t in
            rw (queue_run, create_new fl r db t)
              (
                refl,
                record {
                  scenario = scenario;
                  accepted = a;
                  allowed = c;
                  fresh = before;
                  row = new_row fl r;
                  found = after;
                  waits = q;
                  snapshot = m;
                },
              )
      ]

  -- A submission that is refused leaves the store as it is. One that is not is answered with 202, and
  -- then the plan was read into a scenario without an error, the target of the scenario passed the
  -- allowlist, no run of the store had the id of the answer, and the store now has a run of that id
  -- that is QUEUED and carries the plan as it was submitted.
  pub handle_start_run-IsSubmission :
      (ms : ℕ) (now : ℤ) (user : Option User) (plan : YamlTestPlan) (db : Database F)
      → IsSubmission plan db
          (handle_start_run fl durations environ net allowlist marshal ms now user (some plan) db)
  unfolding handle_start_run submitted
  handle_start_run-IsSubmission ms now user plan db =
      elim (Result-cases (from_spec durations environ plan)) [
        | inr (e, p) ↦ rw (handle_start_run, p) refl
        | inl (scenario, p) ↦ elim (Result-cases (check net allowlist scenario.http.base_url)) [
          | inr (e, q) ↦ rw (handle_start_run, p, q) refl
          | inl (u, q) ↦
              rw (handle_start_run, p, q) (queue_run-IsSubmission plan scenario _ db p q refl refl)
        ]
      ]
