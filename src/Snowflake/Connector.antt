-- ===== src/Snowflake/Connector.antt =====
-- What src/snowglobe/snowflake.py and snowflake_executor.py use of the Snowflake connector, and the
-- world in which they use it: the connector, its logger, the broker, and the lock of the admission.
use snowglobe.Prelude.{ℕ, suc, String, Bool, Option, List, [], ◌∷◌, ◌++◌}
use snowglobe.Exec.{Result, Exec}
use snowglobe.Arrow.Types.{RecordBatch}
use snowglobe.Arrow.Library.{PyArrow}
use snowglobe.Broker.Records.{CursorRef}
use snowglobe.Broker.State.{Broker, Environment}
use snowglobe.Broker.History.{Call, run}
use snowglobe.Config.Arguments.{ConnectorArguments}

-- A `pa.Table` and its batches.
pub record Table (Schema : Type 0) : Type 0 where
  pub schema : Schema
  pub num_rows : ℕ
  pub batches : List (RecordBatch Schema)

-- What the connector hands over where the code expects a table.
pub data TableItem (Schema : Type 0) : Type 0 where
  table : Table Schema → TableItem Schema
  not_table : TableItem Schema

-- An iterable of tables, run to its end.
pub record Tables (Schema : Type 0) : Type 0 where
  pub items : List (TableItem Schema)
  pub ending : Result (Unit {0})

-- A result batch, with what `to_arrow()` gives.
pub record ResultBatch (Schema : Type 0) : Type 0 where
  pub rowcount : ℕ
  pub arrow : Result (TableItem Schema)

abbrev pub ConnectionRef : Type 0
ConnectionRef = ℕ

-- The connector: each call changes its state and returns or raises.
pub record Connector (pa : PyArrow) : Type 1 where
  pub State : Type 0
  pub connect : ConnectorArguments → Exec State ConnectionRef
  pub open_cursor : ConnectionRef → Exec State CursorRef
  pub close_cursor : CursorRef → Exec State (Unit {0})
  pub close_connection : ConnectionRef → Exec State (Unit {0})
  pub execute : CursorRef → String → ℕ → Exec State (Unit {0})
  pub fetch_arrow_batches : CursorRef → Exec State (Tables pa.Schema)
  pub get_result_batches : CursorRef → Exec State (Option (List (ResultBatch pa.Schema)))

-- The calls of the connector that the code makes, with what the first two of them give.
pub data Event : Type 0 where
  logs_suppressed : Event
  connected : Result ConnectionRef → Event
  opened : ConnectionRef → Result CursorRef → Event
  printed : String → String → Event
  executed : CursorRef → String → ℕ → Event
  fetched : CursorRef → Event
  batches_read : CursorRef → Event
  cursor_closed : CursorRef → Event
  connection_closed : ConnectionRef → Event

pub data Handler : Type 0 where
  null_handler : Handler
  other_handler : Handler

-- `logging.getLogger("snowflake.connector")`
pub record Logger : Type 0 where
  pub handlers : List Handler
  pub level : ℕ
  pub propagate : Bool

-- `is_active` is the lock of `SnowflakeQueryAdmission`; `ticks` counts the calls of the connector.
pub record World {pa : PyArrow} (k : Connector pa) : Type 0 where
  pub driver : k.State
  pub events : List Event
  pub ticks : ℕ
  pub broker : Broker
  pub logger : Logger
  pub is_active : Bool

module _ (env : Environment) (pa : PyArrow) (k : Connector pa) (others : ℕ → List Call) where
  -- one event, without a call of the connector
  unfoldable pub note : Event → World k → World k
  note e w = record w { events = w.events ++ e ∷ [] }

  -- A call of the connector. While the thread waits for it, others call the broker.
  unfoldable pub calling {ℓ} : {A : Type ℓ} → (Result A → Event) → Exec k.State A → Exec (World k) A
  unfolding note
  calling event call w =
      let (r, driver') = call w.driver in
      (
        r,
        note (event r) (record w {
          driver = driver';
          ticks = suc w.ticks;
          broker = run env (others w.ticks) w.broker;
        }),
      )

  -- a call of the broker, which its lock makes one step
  unfoldable pub on_broker {ℓ} : {A : Type ℓ} → Exec Broker A → Exec (World k) A
  on_broker call w = let (r, b) = call w.broker in (r, record w { broker = b })
