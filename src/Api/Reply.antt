-- ===== src/Api/Reply.antt =====
-- internal/api/server.go: what a handler writes. `refuse` is writeError with its status code; the
-- text of the error is not modelled. `no_content` is the status 204.
use go_sentinel.Base.{ℕ}

pub data Reply (B : Type 0) : Type 0 where
  reply : ℕ → B → Reply B
  refuse : ℕ → Reply B
  no_content : Reply B
