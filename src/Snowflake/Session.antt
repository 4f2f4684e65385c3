-- ===== src/Snowflake/Session.antt =====
-- The protocol that a request owes the connector, as an automaton over the calls: the logs are
-- suppressed, one connection is opened, on it one cursor, on that one statement, whose result is then
-- read; the cursor is closed before the connection, each once.
use snowglobe.Prelude.{
  ℕ, String, ◌≡◌, refl, Bool, true, false, Option, none, some, List, [], ◌∷◌, ◌++◌, ◌&&◌, ◌==◌,
  str_eq, str_eq_iff, arith, Option-cases, inl, inr, if◌then◌else◌,
}
use snowglobe.Exec.{Result, ok, err}
use snowglobe.Broker.Records.{CursorRef}
use snowglobe.Limits.{mvp_statement_timeout_seconds}
use snowglobe.Snowflake.Connector.{
  Event, ConnectionRef, logs_suppressed, connected, opened, printed, executed, fetched,
  batches_read, cursor_closed, connection_closed,
}

==_refl : (n : ℕ) → (n == n) ≡ true
==_refl n = ground arith

str_eq_refl : (s : String) → str_eq s s ≡ true
str_eq_refl s = (str_eq_iff s s).1 refl

-- What the request holds; the flag tells whether its statement was executed.
pub data Session : Type 0 where
  idle silent : Session
  connection : ConnectionRef → Session
  cursor : ConnectionRef → CursorRef → Bool → Session
  drained : ConnectionRef → Bool → Session
  closed : Bool → Session

abbrev when : Bool → Session → Option Session
when b s = if b then some s else none

abbrev pub after_connect : Result ConnectionRef → Session
after_connect (ok c) = connection c
after_connect (err e) = closed false

abbrev pub after_open : ConnectionRef → Result CursorRef → Session
after_open c (ok k) = cursor c k false
after_open c (err e) = connection c

-- One call, for the request and the statement given; nothing where the protocol forbids it.
unfoldable pub follow : String → String → Session → Event → Option Session
follow id sql idle logs_suppressed = some silent
follow id sql silent (connected r) = some (after_connect r)
follow id sql (connection c) (opened d r) = when (d == c) (after_open c r)
follow id sql (connection c) (connection_closed d) = when (d == c) (closed false)
follow id sql (cursor c k false) (printed i s) =
    when (str_eq i id && str_eq s sql) (cursor c k false)
follow id sql (cursor c k false) (executed j s t) =
    when ((j == k) && str_eq s sql && (t == mvp_statement_timeout_seconds)) (cursor c k true)
follow id sql (cursor c k true) (fetched j) = when (j == k) (cursor c k true)
follow id sql (cursor c k true) (batches_read j) = when (j == k) (cursor c k true)
follow id sql (cursor c k ran) (cursor_closed j) = when (j == k) (drained c ran)
follow id sql (drained c ran) (connection_closed d) = when (d == c) (closed ran)
follow id sql _ _ = none

unfoldable pub follow_all : String → String → Session → List Event → Option Session
follow_all id sql s [] = some s
follow_all id sql s (e ∷ es) = elim (follow id sql s e) [
  | none ↦ none
  | some s' ↦ follow_all id sql s' es
]

pub follow_all-append :
    (id sql : String) (s t : Session) (es fs : List Event)
    → follow_all id sql s es ≡ some t
    → follow_all id sql s (es ++ fs) ≡ follow_all id sql t fs
unfolding follow_all
follow_all-append id sql s t [] fs h = let same : s ≡ t = cc in rw same refl
follow_all-append id sql s t (e ∷ es) fs h = elim (Option-cases (follow id sql s e)) [
  | inl n ↦ absurd (cc (rw (n, follow_all) at h))
  | inr (u, p) ↦ rw (p, follow_all) (follow_all-append id sql u t es fs (rw (p, follow_all) at h))
]

-- What the protocol allows while a cursor is open.
module _ (id sql : String) (c : ConnectionRef) (j : CursorRef) where
  pub follow-printed : follow id sql (cursor c j false) (printed id sql) ≡ some (cursor c j false)
  unfolding follow
  follow-printed = rw (str_eq_refl id, str_eq_refl sql) refl

  pub follow-executed :
      follow id sql (cursor c j false) (executed j sql mvp_statement_timeout_seconds)
      ≡ some (cursor c j true)
  unfolding follow
  follow-executed = rw (==_refl j, str_eq_refl sql) refl

  pub follow-fetched : follow id sql (cursor c j true) (fetched j) ≡ some (cursor c j true)
  unfolding follow
  follow-fetched = rw (==_refl j) refl

  pub follow-batches_read :
      follow id sql (cursor c j true) (batches_read j) ≡ some (cursor c j true)
  unfolding follow
  follow-batches_read = rw (==_refl j) refl

  pub follow-cursor_closed :
      (ran : Bool) → follow id sql (cursor c j ran) (cursor_closed j) ≡ some (drained c ran)
  unfolding follow
  follow-cursor_closed true = rw (==_refl j) refl
  follow-cursor_closed false = rw (==_refl j) refl

module _ (id sql : String) (c : ConnectionRef) where
  pub follow-opened :
      (r : Result CursorRef) → follow id sql (connection c) (opened c r) ≡ some (after_open c r)
  unfolding follow
  follow-opened r = rw (==_refl c) refl

  pub follow-drained_closed :
      (ran : Bool) → follow id sql (drained c ran) (connection_closed c) ≡ some (closed ran)
  unfolding follow
  follow-drained_closed ran = rw (==_refl c) refl

  pub follow-connection_closed :
      follow id sql (connection c) (connection_closed c) ≡ some (closed false)
  unfolding follow
  follow-connection_closed = rw (==_refl c) refl
