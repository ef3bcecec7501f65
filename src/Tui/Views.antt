-- ===== src/Tui/Views.antt =====
-- internal/tui/metrics_view.go and nodes_view.go: the two halves of the dashboard, and the styles of
-- styles.go by name. An int is an integer.
use Prim.Native.String
use go_sentinel.Base.{
  ℕ, zero, suc, String, List, [], ◌∷◌, Option, none, some, Bool, ◌||◌, map, if◌then◌else◌,
}
use go_sentinel.Base.Int.{ℤ, pos, negsuc, ◌-ℤ◌, quot, eqb_ℤ}
use go_sentinel.Base.Float.{Float64}
use go_sentinel.Base.Text.{join, signed_decimal}
use go_sentinel.Models.{MetricSnapshot, WorkerNode, WorkerStatus}
use go_sentinel.Runtime.Duration.{millisecond}

pub data Style : Type 0 where
  title border success warning error table_header table_row metric_label metric_value help : Style

pub record Screen (F : Type 0) : Type 0 where
  pub render : Style → String → String
  -- in a column of a width
  pub render_column : Style → ℤ → String → String
  -- in a box of a width and a height
  pub render_box : ℤ → ℤ → String → String
  pub join_horizontal : List String → String
  pub join_vertical : List String → String
  -- `%.2f`
  pub fixed : F → String

dashes : ℕ → String
dashes zero = ""
dashes (suc n) = String.◌∷◌ "-" (dashes n)

-- `strings.Repeat("-", n)`, which panics for a negative count.
unfoldable pub repeat_dash : ℤ → Option String
unfolding dashes
repeat_dash (pos n) = some (dashes n)
repeat_dash (negsuc n) = none

pub record MetricsView (F : Type 0) : Type 0 where
  pub metrics : MetricSnapshot F
  pub width : ℤ
  pub height : ℤ

pub record NodesView : Type 0 where
  pub nodes : List WorkerNode
  pub width : ℤ
  pub height : ℤ

abbrev pub is_empty : ℤ → ℤ → Bool
is_empty width height = eqb_ℤ width (pos 0) || eqb_ℤ height (pos 0)

unfoldable pub status_style : WorkerStatus → Style
status_style WorkerStatus.running = success
status_style WorkerStatus.error = error
status_style WorkerStatus.stopping = warning
status_style WorkerStatus.idle = help

unfoldable pub status_text : WorkerStatus → String
status_text WorkerStatus.idle = "idle"
status_text WorkerStatus.running = "running"
status_text WorkerStatus.stopping = "stopping"
status_text WorkerStatus.error = "error"

module _ (float : Float64) (screen : Screen float.F) where
  open float use {F, of_int, gtb}
  open screen use {render, render_column, render_box, join_horizontal, join_vertical, fixed}

  -- A line of a section: its label and its value.
  abbrev pub line : String → Style → String → String
  line label style value =
      String.◌++◌ (render metric_label label) (String.◌++◌ " " (render style value))

  abbrev pub section : String → List String → String
  section name rows = join_vertical (render title name ∷ join "\n" rows ∷ [])

  unfoldable pub render_rps : MetricsView F → String
  unfolding join
  render_rps mv = section "Requests Per Second" (
      line "Current:" metric_value (fixed mv.metrics.rps.current)
      ∷ line "Average:" metric_value (fixed mv.metrics.rps.average)
      ∷ line "Peak:" metric_value (fixed mv.metrics.rps.peak)
      ∷ [])

  abbrev pub milliseconds : ℤ → String
  milliseconds d = signed_decimal (quot d millisecond)

  unfoldable pub render_latency : MetricsView F → String
  unfolding join
  render_latency mv = section "Latency (ms)" (
      line "Min:" metric_value (milliseconds mv.metrics.latency.min)
      ∷ line "Mean:" metric_value (milliseconds mv.metrics.latency.mean)
      ∷ line "Max:" metric_value (milliseconds mv.metrics.latency.max)
      ∷ line "P50:" metric_value (milliseconds mv.metrics.latency.p50)
      ∷ line "P95:" metric_value (milliseconds mv.metrics.latency.p95)
      ∷ line "P99:" metric_value (milliseconds mv.metrics.latency.p99)
      ∷ [])

  unfoldable pub error_style : F → Style
  error_style percentage =
      if gtb percentage (of_int (pos 5))
      then error
      else if gtb percentage (of_int (pos 1))
      then warning
      else success

  unfoldable pub render_error_rate : MetricsView F → String
  unfolding join error_style
  render_error_rate mv =
      let style = error_style mv.metrics.error_rate.percentage in
      section "Error Rate" (
        line "Rate:" style (String.◌++◌ (fixed mv.metrics.error_rate.rate) "/s")
        ∷ line "Percentage:" style (String.◌++◌ (fixed mv.metrics.error_rate.percentage) "%")
        ∷ line "Total Errors:" metric_value (signed_decimal mv.metrics.total_errors)
        ∷ line "Total Requests:" metric_value (signed_decimal mv.metrics.total_requests)
        ∷ [])

  unfoldable pub metrics_view : MetricsView F → String
  unfolding render_rps render_latency render_error_rate
  metrics_view mv =
      if is_empty mv.width mv.height
      then ""
      else render_box (mv.width -ℤ pos 4) (mv.height -ℤ pos 2)
          (join "\n\n" (render_rps mv ∷ render_latency mv ∷ render_error_rate mv ∷ []))

  unfoldable pub node_row : WorkerNode → String
  unfolding status_style status_text join
  node_row node = join " | " (
      render_column table_row (pos 20) node.id
      ∷ render_column table_row (pos 25) node.address
      ∷ render_column (status_style node.status) (pos 10) (status_text node.status)
      ∷ render_column table_row (pos 10) (signed_decimal node.max_vus)
      ∷ [])

  abbrev pub header_row : String
  header_row = join " | " (
      render_column table_header (pos 20) "Node ID"
      ∷ render_column table_header (pos 25) "Address"
      ∷ render_column table_header (pos 10) "Status"
      ∷ render_column table_header (pos 10) "Max VUs"
      ∷ [])

  -- none is the panic of strings.Repeat.
  unfoldable pub table : ℤ → List WorkerNode → Option String
  unfolding node_row repeat_dash
  table width nodes = elim (repeat_dash (width -ℤ pos 4)) [
    | none ↦ none
    | some separator ↦ some (join "\n" (header_row ∷ separator ∷ map node_row nodes))
  ]

  unfoldable pub content : ℤ → List WorkerNode → Option String
  unfolding table
  content width [] = some (render help "No worker nodes connected")
  content width (node ∷ nodes) = table width (node ∷ nodes)

  unfoldable pub nodes_view : NodesView → Option String
  unfolding content
  nodes_view nv =
      if is_empty nv.width nv.height then some "" else elim (content nv.width nv.nodes) [
        | none ↦ none
        | some text ↦ some (
            render_box (nv.width -ℤ pos 4) (nv.height -ℤ pos 2)
              (join_vertical (render title "Worker Nodes" ∷ text ∷ [])))
      ]
