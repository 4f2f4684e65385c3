-- ===== src/Snowflake/Cursor.antt =====
-- src/snowglobe/snowflake.py: `request_cursor`.
use snowglobe.Prelude.{ℕ, false, List, [], ◌∷◌}
use snowglobe.Exec.{Exec, ok, finally, ◌>>=◌, ◌>>◌}
use snowglobe.Arrow.Library.{PyArrow}
use snowglobe.Broker.Records.{CursorRef}
use snowglobe.Broker.State.{Environment}
use snowglobe.Broker.History.{Call}
use snowglobe.Config.Arguments.{ConnectorArguments}
use snowglobe.Snowflake.Connector.{
  Connector, ConnectionRef, World, Logger, null_handler, calling, note, logs_suppressed, connected,
  opened, cursor_closed, connection_closed,
}

-- `logging.CRITICAL + 1`
abbrev pub above_critical : ℕ
above_critical = 51

-- `_suppress_connector_logs`, on the logger
unfoldable pub silence : Logger → Logger
silence logger = record logger {
  handlers = null_handler ∷ [];
  level = above_critical;
  propagate = false;
}

module _ (env : Environment) (pa : PyArrow) (k : Connector pa) (others : ℕ → List Call) where
  unfoldable pub suppress_connector_logs : Exec (World k) (Unit {0})
  suppress_connector_logs w =
      (ok tt, note env pa k others logs_suppressed (record w { logger = silence w.logger }))

  unfoldable pub connect : ConnectorArguments → Exec (World k) ConnectionRef
  connect arguments = calling env pa k others connected (k.connect arguments)

  unfoldable pub open_cursor : ConnectionRef → Exec (World k) CursorRef
  open_cursor c = calling env pa k others (opened c) (k.open_cursor c)

  unfoldable pub close_cursor : CursorRef → Exec (World k) (Unit {0})
  close_cursor cursor = calling env pa k others (λ _. cursor_closed cursor) (k.close_cursor cursor)

  unfoldable pub close_connection : ConnectionRef → Exec (World k) (Unit {0})
  close_connection c = calling env pa k others (λ _. connection_closed c) (k.close_connection c)

  -- the inner `try` of `request_cursor`
  unfoldable pub with_cursor {ℓ} :
      {A : Type ℓ} → (CursorRef → Exec (World k) A) → CursorRef → Exec (World k) A
  with_cursor body cursor = finally (body cursor) (close_cursor cursor)

  -- the outer one
  unfoldable pub with_connection {ℓ} :
      {A : Type ℓ} → (CursorRef → Exec (World k) A) → ConnectionRef → Exec (World k) A
  with_connection body c = finally (open_cursor c >>= with_cursor body) (close_connection c)

  -- `with request_cursor(arguments) as cursor`, around a body
  unfoldable pub request_cursor {ℓ} :
      {A : Type ℓ} → ConnectorArguments → (CursorRef → Exec (World k) A) → Exec (World k) A
  request_cursor arguments body = do
    suppress_connector_logs
    connection ← connect arguments
    with_connection body connection
