-- ===== src/Tui/Dashboard/Ticks.antt =====
-- The dashboard as its runtime drives it: the ticks on their way, what the panes show, and where the
-- rendering panics.
use go_sentinel.Base.{
  ℕ, zero, suc, ◌+◌, ◌<◌, String, List, [], ◌∷◌, Option, none, some, Bool, true, false, not, ◌&&◌,
  ◌||◌, str_eq, eq_iff, if◌then◌else◌, ◌≡◌, ◌≢◌, ◌⊎◌, refl, arith, inl, inr, Bool-cases,
}
use go_sentinel.Base.Int.{ℤ, pos, negsuc, ◌-ℤ◌, quot, ltb_ℤ, eqb_ℤ}
use go_sentinel.Base.Float.{Float64}
use go_sentinel.Models.{WorkerNode}
use go_sentinel.Tui.Views.{Screen, NodesView, is_empty, repeat_dash, table, content, nodes_view}
use go_sentinel.Tui.Dashboard.{
  Model, Msg, window_size, ticked, metrics_update, nodes_update, key, other, Cmd, nil, tick, quit,
  new_model, update, pane_width, view,
}

-- The runtime: the model, the ticks that were asked for and have not come, and whether the program
-- was told to quit.
pub record Program (F : Type 0) : Type 0 where
  pub model : Model F
  pub pending : ℕ
  pub ended : Bool

abbrev pub asked : Cmd → ℕ
asked nil = 0
asked tick = 1
asked quit = 0

abbrev pub ends : Cmd → Bool
ends nil = false
ends tick = false
ends quit = true

-- The ticks that are left when a message is taken: a tick comes only if it was asked for.
abbrev pub left : {F : Type 0} → Msg F → ℕ → Option ℕ
left ticked zero = none
left ticked (suc n) = some n
left (window_size width height) n = some n
left (metrics_update metrics) n = some n
left (nodes_update nodes) n = some n
left (key k) n = some n
left other n = some n

k_neq : (a b : String) → str_eq a b ≡ false → a ≢ b
k_neq a b e = ground (arith, eq_iff a b)

module _ (float : Float64) where
  open float use {F}

  -- `Init` asks for the first tick.
  unfoldable pub start : String → Program F
  start test_id = record { model = new_model float test_id; pending = 1; ended = false }

  unfoldable pub deliver : Msg F → Program F → Option (Program F)
  deliver msg p = if p.ended then none else elim (left msg p.pending) [
    | none ↦ none
    | some n ↦
        let (m, cmd) = update float msg p.model in
        some (record { model = m; pending = n + asked cmd; ended = ends cmd })
  ]

  -- A press of the key that resumes a paused dashboard, and a tick that comes while it is paused.
  abbrev pub resumes : Msg F → Model F → ℕ
  resumes (key k) m = if str_eq k "p" && m.paused then 1 else 0
  resumes ticked m = 0
  resumes (window_size width height) m = 0
  resumes (metrics_update metrics) m = 0
  resumes (nodes_update nodes) m = 0
  resumes other m = 0

  abbrev pub drops : Msg F → Model F → ℕ
  drops ticked m = if m.paused then 1 else 0
  drops (key k) m = 0
  drops (window_size width height) m = 0
  drops (metrics_update metrics) m = 0
  drops (nodes_update nodes) m = 0
  drops other m = 0

  -- The programs that messages lead to, with the number of resumptions and of ticks that came while
  -- the dashboard was paused.
  pub data Reached : Program F → ℕ → ℕ → Type 0 where
    started : (test_id : String) → Reached (start test_id) 0 0
    delivered :
        {p q : Program F} {resumed dropped : ℕ} (msg : Msg F)
        → Reached p resumed dropped
        → deliver msg p ≡ some q
        → Reached q (resumed + resumes msg p.model) (dropped + drops msg p.model)

  pub record IsTicking (p : Program F) (resumed : ℕ) (dropped : ℕ) : Type 0 where
    pub ticks : p.pending + dropped ≡ suc resumed
    pub ahead : p.model.paused ≡ false → 0 < p.pending
    pub metrics : p.model.metrics_pane.metrics ≡ p.model.metrics
    pub nodes : p.model.nodes_pane.nodes ≡ p.model.nodes
    pub sized :
        (p.model.width ≡ pos 0)
        ⊎ ((p.model.nodes_pane.width ≡ pane_width p.model.width)
            × (p.model.nodes_pane.height ≡ p.model.height -ℤ pos 10)
            × (p.model.metrics_pane.width ≡ pane_width p.model.width)
            × (p.model.metrics_pane.height ≡ p.model.height -ℤ pos 10))

  deliver-IsTicking :
      {p q : Program F} {resumed dropped : ℕ} (msg : Msg F)
      → deliver msg p ≡ some q
      → IsTicking p resumed dropped
      → IsTicking q (resumed + resumes msg p.model) (dropped + drops msg p.model)
  unfolding deliver update
  deliver-IsTicking {p} ticked e t = elim (Bool-cases p.model.paused) [
    | inl a ↦ ground arith
    | inr a ↦ ground arith
  ]
  deliver-IsTicking (window_size width height) e t = ground arith
  deliver-IsTicking (metrics_update metrics) e t = ground arith
  deliver-IsTicking (nodes_update nodes) e t = ground arith
  deliver-IsTicking (key k) e t = ground (
    arith,
    eq_iff k "p",
    eq_iff k "q",
    eq_iff k "ctrl+c",
    k_neq "p" "q" refl,
    k_neq "p" "ctrl+c" refl,
  )
  deliver-IsTicking other e t = ground arith

  started-IsTicking : (test_id : String) → IsTicking (start test_id) 0 0
  unfolding start new_model
  started-IsTicking test_id = record {
    ticks = refl;
    ahead = λ e. omega arith;
    metrics = refl;
    nodes = refl;
    sized = inl refl;
  }

  -- However messages come, as long as the dashboard was not told to quit: the ticks on their way are
  -- one, and one more for each time that it was resumed, less those that came while it was paused; so
  -- a dashboard that is not paused always has a tick ahead. The panes show the metrics and the nodes
  -- of the model; and where the model's width is not 0, both panes have half that width less 2, and
  -- its height less 10.
  pub Reached-IsTicking :
      {p : Program F} {resumed dropped : ℕ}
      → Reached p resumed dropped
      → IsTicking p resumed dropped
  Reached-IsTicking (started test_id) = started-IsTicking test_id
  Reached-IsTicking (delivered msg r e) = deliver-IsTicking msg e (Reached-IsTicking r)

abbrev pub is_nil : List WorkerNode → Bool
is_nil [] = true
is_nil (node ∷ nodes) = false

-- The window is less than twelve columns wide, but not so narrow that the pane has none.
abbrev pub is_narrow : ℤ → ℤ → Bool
is_narrow width height =
    ltb_ℤ width (pos 12)
    && not (eqb_ℤ width (pos 0))
    && not (eqb_ℤ (quot width (pos 2)) (pos 2))
    && not (eqb_ℤ height (pos 0))
    && not (eqb_ℤ height (pos 10))

narrow : (width : ℤ) → ltb_ℤ (pane_width width) (pos 4) ≡ ltb_ℤ width (pos 12)
unfolding quot ◌-ℤ◌
narrow (pos n) = ground arith
narrow (negsuc n) = ground arith

gone : (width : ℤ) → eqb_ℤ (pane_width width) (pos 0) ≡ eqb_ℤ (quot width (pos 2)) (pos 2)
unfolding ◌-ℤ◌
gone width = ground arith

low : (height : ℤ) → eqb_ℤ (height -ℤ pos 10) (pos 0) ≡ eqb_ℤ height (pos 10)
unfolding ◌-ℤ◌
low height = ground arith

abbrev pub is_none {ℓ} : {A : Type ℓ} → Option A → Bool
is_none none = true
is_none (some a) = false

repeat_dash-none : (n : ℤ) → is_none (repeat_dash (n -ℤ pos 4)) ≡ ltb_ℤ n (pos 4)
unfolding repeat_dash ◌-ℤ◌
repeat_dash-none n = ground arith

reordered :
    (a b c d e f : Bool)
    → (not (a || b) && (not (c || d) && not e && f))
      ≡ (not e && (f && not a && not c && not b && not d))
reordered a b c d e f = ground arith

module _ (float : Float64) (screen : Screen float.F) where
  open float use {F}

  content-none :
      (width : ℤ) (nodes : List WorkerNode)
      → is_none (content float screen width nodes) ≡ (not (is_nil nodes) && ltb_ℤ width (pos 4))
  unfolding content table
  content-none width [] = refl
  content-none width (node ∷ nodes) = ground (arith, repeat_dash-none width)

  nodes_view-none :
      (nv : NodesView)
      → is_none (nodes_view float screen nv)
        ≡ (not (is_empty nv.width nv.height) && not (is_nil nv.nodes) && ltb_ℤ nv.width (pos 4))
  unfolding nodes_view
  nodes_view-none nv = ground (arith, content-none nv.width nv.nodes)

  view-none :
      (m : Model F)
      → is_none (view float screen m)
        ≡ (not (is_empty m.width m.height) && is_none (nodes_view float screen m.nodes_pane))
  unfolding view
  view-none m = ground arith

  unsized-none :
      (m : Model F)
      → m.width ≡ pos 0
      → is_none (view float screen m) ≡ (not (is_nil m.nodes) && is_narrow m.width m.height)
  unsized-none m e = rw (view-none m, e) (ground arith)

  sized-none :
      (m : Model F)
      → m.nodes_pane.width ≡ pane_width m.width
      → m.nodes_pane.height ≡ m.height -ℤ pos 10
      → m.nodes_pane.nodes ≡ m.nodes
      → is_none (view float screen m) ≡ (not (is_nil m.nodes) && is_narrow m.width m.height)
  sized-none m w h n =
      rw
        (
          view-none m,
          nodes_view-none m.nodes_pane,
          w,
          h,
          n,
          narrow m.width,
          gone m.width,
          low m.height,
        )
        (reordered (eqb_ℤ m.width (pos 0)) (eqb_ℤ m.height (pos 0))
          (eqb_ℤ (quot m.width (pos 2)) (pos 2)) (eqb_ℤ m.height (pos 10)) (is_nil m.nodes)
          (ltb_ℤ m.width (pos 12)))

  -- In every state that messages lead to, the rendering of the dashboard panics exactly if it has
  -- nodes to show in a window that is less than twelve columns wide, and whose width and height leave
  -- a pane to render.
  pub view-Reached :
      {p : Program F} {resumed dropped : ℕ}
      → Reached float p resumed dropped
      → is_none (view float screen p.model)
        ≡ (not (is_nil p.model.nodes) && is_narrow p.model.width p.model.height)
  view-Reached {p} r =
      let t = Reached-IsTicking float r in
      elim t.sized [
        | inl e ↦ unsized-none p.model e
        | inr sizes ↦ sized-none p.model sizes.0 sizes.1 t.nodes
      ]
