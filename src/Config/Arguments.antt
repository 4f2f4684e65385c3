-- ===== src/Config/Arguments.antt =====
-- src/snowglobe/configuration.py: `build_connector_arguments`.
use snowglobe.Prelude.{ℕ, String, Bool, true}
use snowglobe.Exec.{Result, ok}
use snowglobe.Fallible.{◌>>=◌}
use snowglobe.Arrow.Types.{Bytes}
use snowglobe.Limits.{
  mvp_login_timeout_seconds, mvp_network_timeout_seconds, mvp_socket_timeout_seconds,
  mvp_queued_timeout_seconds, mvp_statement_timeout_seconds,
}
use snowglobe.Config.Profiles.{SnowflakeProfile}
use snowglobe.Config.PrivateKey.{Cryptography, load_private_key}

pub record ConnectorArguments : Type 0 where
  pub account : String
  pub user : String
  pub authenticator : String
  pub private_key : Bytes
  pub database : String
  pub warehouse : String
  pub role : String
  pub client_prefetch_threads : ℕ
  pub login_timeout : ℕ
  pub network_timeout : ℕ
  pub socket_timeout : ℕ
  pub abort_detached_query : Bool
  pub statement_queued_timeout_in_seconds : ℕ
  pub statement_timeout_in_seconds : ℕ

-- `read_key` reads the file at a path.
unfoldable pub build_connector_arguments :
    Cryptography → (String → Result Bytes) → SnowflakeProfile → Result ConnectorArguments
build_connector_arguments crypto read_key profile = do
  private_key ← load_private_key crypto (read_key profile.private_key_path)
  ok (record {
    account = profile.account;
    user = profile.user;
    authenticator = profile.authenticator;
    private_key = private_key;
    database = profile.database;
    warehouse = profile.warehouse;
    role = profile.role;
    client_prefetch_threads = 1;
    login_timeout = mvp_login_timeout_seconds;
    network_timeout = mvp_network_timeout_seconds;
    socket_timeout = mvp_socket_timeout_seconds;
    abort_detached_query = true;
    statement_queued_timeout_in_seconds = mvp_queued_timeout_seconds;
    statement_timeout_in_seconds = mvp_statement_timeout_seconds;
  })
