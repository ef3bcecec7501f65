-- ===== src/Api/Session.antt =====
-- internal/api/recorder.go: the session of a run and its subscribers.
pub mod Channels
use go_sentinel.Base.{
  ℕ, zero, suc, String, List, [], ◌∷◌, ◌++◌, Option, none, some, Bool, true, false, ◌&&◌, ltb, map,
  length, if◌then◌else◌,
}
use go_sentinel.Base.Int.{ℤ, pos}
use go_sentinel.Base.Float.{Float64}
use go_sentinel.Base.Result.{Result, ok, err}
use go_sentinel.Proto.{
  MetricSnapshot, Status, unknown, pending, running, completed, failed, stopped,
}
use go_sentinel.Store.{Run, Sample, Database, StoreError}
use go_sentinel.Store.Runs.{or_same, finish_run}
use go_sentinel.Store.Plans.{add_sample}
use go_sentinel.Api.Metrics.{Metrics}

pub record RunStatus (F : Type 0) : Type 0 where
  pub test_id : String
  pub status : String
  pub active_workers : ℤ
  pub total_vus : ℤ

pub data Event (F : Type 0) : Type 0 where
  metrics_event : Metrics F → Event F
  status_event : RunStatus F → Event F
  end_event : String → Event F

-- A subscriber's channel: the events it holds, of at most 64, and whether it is in `subs`; one that
-- is not is closed.
pub record Channel (F : Type 0) : Type 0 where
  pub events : List (Event F)
  pub is_open : Bool

pub record Session (F : Type 0) : Type 0 where
  pub test_id : String
  pub channels : List (Channel F)
  pub closed : Bool
  pub last : Option (Metrics F)
  pub peak_rps : F
  pub status : String

abbrev pub capacity : ℕ
capacity = 64

module _ {F : Type 0} where
  -- A send that does not block: a full channel does not get the event.
  unfoldable pub send : Event F → Channel F → Channel F
  send ev c =
      if c.is_open && ltb (length c.events) capacity
      then record c { events = c.events ++ (ev ∷ []) }
      else c

  unfoldable pub close_channel : Channel F → Channel F
  close_channel c = record c { is_open = false }

  abbrev pub first_events : Option (Metrics F) → List (Event F)
  first_events none = []
  first_events (some m) = metrics_event m ∷ []

  -- The new channel is the last one.
  unfoldable pub subscribe : Session F → Session F
  subscribe s = record s {
    channels =
        s.channels
        ++ ((if s.closed
              then record { events = []; is_open = false }
              else record { events = first_events s.last; is_open = true })
            ∷ []);
  }

  -- The function that `subscribe` returned for the channel at an index.
  unfoldable pub close_at : ℕ → List (Channel F) → List (Channel F)
  unfolding close_channel
  close_at n [] = []
  close_at zero (c ∷ channels) = close_channel c ∷ channels
  close_at (suc n) (c ∷ channels) = c ∷ close_at n channels

  unfoldable pub unsubscribe : ℕ → Session F → Session F
  unfolding close_at
  unsubscribe n s = record s { channels = close_at n s.channels }

  unfoldable pub publish : Event F → Session F → Session F
  publish ev s = if s.closed then s else record s { channels = map (send ev) s.channels }

  unfoldable pub close : Event F → Session F → Session F
  close final s =
      if s.closed
      then s
      else record s { closed = true; channels = map (λ c. close_channel (send final c)) s.channels }

module _ (fl : Float64) where
  open fl use {F, of_int}

  unfoldable pub new_session : String → Session F
  new_session test_id = record {
    test_id = test_id;
    channels = [];
    closed = false;
    last = none;
    peak_rps = of_int (pos 0);
    status = "RUNNING";
  }
