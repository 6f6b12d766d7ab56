-- ===== src/HttpServer/Serving/Answers.antt =====
-- That deprecated/HttpServer.h leaves no request of a connection unanswered.
use fast_db.Prelude.{ℕ, ◌+◌, ◌≤◌, bytes_eq, length, ◌≡◌, All, ◌⊎◌}
use fast_db.Prelude.Assoc.{Assoc}
use fast_db.StringUtil.Search
use fast_db.HttpServer.{Environment, RoutesMap}
use fast_db.HttpServer.Serving.{Connection, Served, served, threw}
use fast_db.HttpServer.Serving.Dispatch.{AllCompile}

-- The connection has `n` more responses than `c` at least, or it has failed for good.
abbrev pub Grows : ℕ → Connection → Connection → Type 0
Grows n c next =
    (next.capacity ≡ c.capacity)
    × ((n + length c.written ≤ length next.written) ⊎ (c.capacity ≤ length next.written))

-- A request's end: it was answered, or the connection has failed.
abbrev pub Answered : Connection → Served → Type 0
Answered c (served next) = Grows 1 c next
Answered c (threw next) = (next.capacity ≡ c.capacity) × (c.capacity ≤ length next.written)

-- Every key of every table is a regular expression.
abbrev pub RoutesCompile : Environment → RoutesMap → Type 0
RoutesCompile env = All (λ p. AllCompile env p.1)
