-- ===== src/Tui.antt =====
-- internal/tui: the dashboard of the command line. The packages lipgloss and fmt are parameters: how
-- a style renders a text, how texts are joined, and how a float is printed.
pub mod Views
pub mod Dashboard
