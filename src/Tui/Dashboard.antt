-- ===== src/Tui/Dashboard.antt =====
-- internal/tui/dashboard.go: the model of the dashboard. A command is the tick that comes a second
-- later, or the end of the program.
pub mod Ticks
use Prim.Native.String
use go_sentinel.Base.{
  String, List, [], ◌∷◌, Option, none, some, Bool, true, false, not, ◌||◌, str_eq, if◌then◌else◌,
}
use go_sentinel.Base.Int.{ℤ, pos, ◌-ℤ◌, quot}
use go_sentinel.Base.Float.{Float64}
use go_sentinel.Models.{MetricSnapshot, WorkerNode}
use go_sentinel.Runtime.Duration.{zero_time}
use go_sentinel.Tui.Views.{
  Style, title, success, warning, help, Screen, MetricsView, NodesView, is_empty, metrics_view,
  nodes_view,
}

pub record Model (F : Type 0) : Type 0 where
  pub metrics_pane : MetricsView F
  pub nodes_pane : NodesView
  pub width : ℤ
  pub height : ℤ
  pub paused : Bool
  pub test_id : String
  pub metrics : MetricSnapshot F
  pub nodes : List WorkerNode

pub data Msg (F : Type 0) : Type 0 where
  window_size : ℤ → ℤ → Msg F
  ticked : Msg F
  metrics_update : MetricSnapshot F → Msg F
  nodes_update : List WorkerNode → Msg F
  key : String → Msg F
  -- any other message
  other : Msg F

pub data Cmd : Type 0 where
  nil tick quit : Cmd

abbrev pub pane_width : ℤ → ℤ
pane_width width = quot width (pos 2) -ℤ pos 2

module _ (float : Float64) where
  open float use {F, of_int}

  unfoldable pub zero_snapshot : MetricSnapshot F
  zero_snapshot = record {
    rps = record {
      current = of_int (pos 0);
      average = of_int (pos 0);
      peak = of_int (pos 0);
      window_seconds = pos 0;
    };
    latency = record {
      min = pos 0;
      max = pos 0;
      mean = pos 0;
      p50 = pos 0;
      p95 = pos 0;
      p99 = pos 0;
      p999 = pos 0;
      count = pos 0;
    };
    error_rate = record {
      rate = of_int (pos 0);
      percentage = of_int (pos 0);
      status_code_counts = [];
      error_messages = [];
    };
    total_requests = pos 0;
    total_errors = pos 0;
    timestamp = zero_time;
    worker_id = "";
  }

  unfoldable pub new_model : String → Model F
  unfolding zero_snapshot
  new_model test_id = record {
    metrics_pane = record { metrics = zero_snapshot; width = pos 0; height = pos 0 };
    nodes_pane = record { nodes = []; width = pos 0; height = pos 0 };
    width = pos 0;
    height = pos 0;
    paused = false;
    test_id = test_id;
    metrics = zero_snapshot;
    nodes = [];
  }

  unfoldable pub update_metrics : MetricSnapshot F → Model F → Model F
  update_metrics metrics m = record m {
    metrics = metrics;
    metrics_pane = record m.metrics_pane { metrics = metrics };
  }

  unfoldable pub update_nodes : List WorkerNode → Model F → Model F
  update_nodes nodes m = record m {
    nodes = nodes;
    nodes_pane = record m.nodes_pane { nodes = nodes };
  }

  unfoldable pub resize : ℤ → ℤ → Model F → Model F
  resize width height m = record m {
    width = width;
    height = height;
    metrics_pane = record m.metrics_pane { width = pane_width width; height = height -ℤ pos 10 };
    nodes_pane = record m.nodes_pane { width = pane_width width; height = height -ℤ pos 10 };
  }

  -- What a key does.
  unfoldable pub press : String → Model F → Model F × Cmd
  unfolding update_metrics zero_snapshot
  press k m =
      if str_eq k "q" || str_eq k "ctrl+c"
      then (m, quit)
      else if str_eq k "p"
      then (record m { paused = not m.paused }, if m.paused then tick else nil)
      else if str_eq k "r"
      then (update_metrics zero_snapshot m, nil)
      else (m, nil)

  unfoldable pub update : Msg F → Model F → Model F × Cmd
  unfolding resize update_metrics update_nodes press
  update (window_size width height) m = (resize width height m, nil)
  update ticked m = (m, if m.paused then nil else tick)
  update (metrics_update metrics) m = (update_metrics metrics m, nil)
  update (nodes_update nodes) m = (update_nodes nodes m, nil)
  update (key k) m = press k m
  update other m = (m, nil)

  module _ (screen : Screen F) where
    open screen use {render, join_horizontal, join_vertical}

    unfoldable pub render_header : Model F → String
    render_header m =
        let status = if m.paused then render warning "PAUSED" else render success "RUNNING" in
        join_horizontal (
          render title "GoSentinel Load Testing Dashboard"
          ∷ "  "
          ∷ String.◌++◌ "Test ID: " (String.◌++◌ m.test_id (String.◌++◌ " | Status: " status))
          ∷ [])

    abbrev pub render_footer : String
    render_footer = render help "Press 'q' to quit, 'p' to pause, 'r' to reset"

    -- none is a panic.
    unfoldable pub view : Model F → Option String
    unfolding render_header
    view m =
        if is_empty m.width m.height
        then some "Initializing..."
        else elim (nodes_view float screen m.nodes_pane) [
          | none ↦ none
          | some nodes ↦ some (
              join_vertical (
                render_header m
                ∷ join_horizontal (metrics_view float screen m.metrics_pane ∷ "  " ∷ nodes ∷ [])
                ∷ render_footer
                ∷ []))
        ]
