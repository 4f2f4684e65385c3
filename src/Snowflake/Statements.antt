-- ===== src/Snowflake/Statements.antt =====
-- The SQL that reaches the connector.
use snowglobe.Prelude.{
  ℕ, ◌+◌, ◌≡◌, String, Bool, true, false, some, List, [], ◌∷◌, All, arith, Option-cases, inl, inr,
  str_eq_iff, if◌then◌else◌,
}
use snowglobe.Exec.{ok, err}
use snowglobe.Limits.{mvp_statement_timeout_seconds}
use snowglobe.Snowflake.Connector.{
  Event, logs_suppressed, connected, opened, printed, executed, fetched, batches_read,
  cursor_closed, connection_closed,
}
use snowglobe.Snowflake.Session.{
  Session, idle, silent, connection, cursor, drained, closed, follow, follow_all,
}

-- how many statements a call executes
abbrev pub is_execution : Event → ℕ
is_execution (executed j s t) = 1
is_execution _ = 0

abbrev pub executions : List Event → ℕ
executions [] = 0
executions (e ∷ es) = is_execution e + executions es

-- A statement is this one, under the timeout.
abbrev pub IsOwn : String → Event → Type 0
IsOwn sql (executed j s t) = (s ≡ sql) × (t ≡ mvp_statement_timeout_seconds)
IsOwn sql _ = Unit

abbrev flag : Bool → ℕ
flag b = if b then 1 else 0

abbrev done : Session → ℕ
done idle = 0
done silent = 0
done (connection c) = 0
done (cursor c j ran) = flag ran
done (drained c ran) = flag ran
done (closed ran) = flag ran

module _ (id sql : String) where
  follow-counts :
      (s t : Session) (e : Event)
      → follow id sql s e ≡ some t
      → (is_execution e + done s ≡ done t) × IsOwn sql e
  unfolding follow
  follow-counts idle t logs_suppressed h = ground arith
  follow-counts silent t (connected (ok c)) h = ground arith
  follow-counts silent t (connected (err e)) h = ground arith
  follow-counts (connection c) t (opened d (ok j)) h = ground arith
  follow-counts (connection c) t (opened d (err e)) h = ground arith
  follow-counts (connection c) t (connection_closed d) h = ground arith
  follow-counts (cursor c j false) t (printed i s) h = ground arith
  follow-counts (cursor c j false) t (executed i s n) h = ground (arith, str_eq_iff s sql)
  follow-counts (cursor c j true) t (fetched i) h = ground arith
  follow-counts (cursor c j true) t (batches_read i) h = ground arith
  follow-counts (cursor c j true) t (cursor_closed i) h = ground arith
  follow-counts (cursor c j false) t (cursor_closed i) h = ground arith
  follow-counts (drained c ran) t (connection_closed d) h = ground arith
  follow-counts _ t _ h = absurd (cc h)

  pub follow_all-counts :
      (s t : Session) (es : List Event)
      → follow_all id sql s es ≡ some t
      → (executions es + done s ≡ done t) × All (IsOwn sql) es
  unfolding follow_all
  follow_all-counts s t [] h = (ground arith, tt)
  follow_all-counts s t (e ∷ es) h = elim (Option-cases (follow id sql s e)) [
    | inl n ↦ absurd (cc (rw (n, follow_all) at h))
    | inr (u, p) ↦
        let (now, own) = follow-counts s u e p in
        let (later, all) = follow_all-counts u t es (rw (p, follow_all) at h) in
        (omega arith, (own, all))
  ]
