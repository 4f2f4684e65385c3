-- ===== src/Tests/Startup.antt =====
-- The start of the service and the preflight on concrete files.
use snowglobe.Prelude.{◌≡◌, refl, true, none, some, [], ◌∷◌, str_eq, if◌then◌else◌}
use snowglobe.Exec.{ok, err, is_exception, configuration_error, os_error, value_error}
use snowglobe.Python.{pos}
use snowglobe.Arrow.Types.{Bytes}
use snowglobe.Broker.State.{init}
use snowglobe.Config.Toml.{Value, text, integer, table, no_fields, field}
use snowglobe.Config.Toml
use snowglobe.Config.Profiles.{read_snowflake_profile, load_snowflake_profile, string_field}
use snowglobe.Config.PrivateKey.{
  Cryptography, unreadable, unparsable, or_else, parse_key, load_private_key,
}
use snowglobe.Config.Arguments.{build_connector_arguments}
use snowglobe.Snowflake.Connector.{
  World, logs_suppressed, connected, opened, cursor_closed, connection_closed,
}
use snowglobe.Startup.Runtime.{
  Files, Runtime, new_executor, create_snowflake_executor, optional_executor, create_runtime,
}
use snowglobe.Startup.Console.{Console, print, say, progress, beneath, line, failed}
use snowglobe.Startup.Preflight.{Arguments, pass, check_connection, run_preflight, exit_code, main}
use snowglobe.Startup.LocalServer
use snowglobe.Tests.Arrow.{row_writer}
use snowglobe.Tests.Broker.{ticking}
use snowglobe.Tests.Config.{config_program, only_spaces, document_of, two_views}
use snowglobe.Tests.Snowflake.{snowflake_program, counting, start, nobody}

unfoldable pub startup_program : Unit {0}
unfolding snowflake_program config_program is_exception read_snowflake_profile
    load_snowflake_profile string_field unreadable unparsable or_else parse_key load_private_key
    build_connector_arguments new_executor create_snowflake_executor optional_executor
    create_runtime init print say progress beneath pass check_connection run_preflight exit_code
    main LocalServer.compose LocalServer.start LocalServer.main
startup_program = tt

-- A key is the bytes of its file; those of one byte are no PEM.
abbrev pub crypto : Cryptography
crypto = record {
  Key = Bytes;
  load_pem = λ bytes. err value_error;
  load_der = λ bytes. ok bytes;
  is_rsa = λ key. true;
  private_bytes = λ key. ok key;
}

abbrev connection_fields : Toml.Table
connection_fields = field "account" (text "account") (
    field "user" (text "user") (
      field "authenticator" (text "SNOWFLAKE_JWT") (
        field "private_key_path" (text "key.p8") (
          field "database" (text "DB")
            (field "warehouse" (text "WH") (field "role" (text "ROLE") no_fields))))))

abbrev pub files : Files
files = record {
  documents = λ path.
      if str_eq path "connections.toml"
      then ok (field "analyst" (table connection_fields) no_fields)
      else ok (document_of (integer (pos 1)) two_views);
  keys = λ path. if str_eq path "key.p8" then ok (1 ∷ []) else err os_error;
}

abbrev pub quiet : Console (World (counting (ok tt)))
quiet = record { state = start (ok tt); printed = [] }

abbrev pub command : Arguments
command = record {
  connections = "connections.toml";
  snowglobe_config = "snowglobe.toml";
  profile = "analyst";
  connect = true;
}

passes :
    (main ticking row_writer (counting (ok tt)) nobody only_spaces crypto files command quiet).0
    ≡ ok 0
unfolding startup_program
passes = refl

rehearses :
    (main ticking row_writer
      (counting (ok tt))
      nobody
      only_spaces
      crypto
      files
      command
      quiet).1.state.events
    ≡ logs_suppressed
      ∷ connected (ok 7)
      ∷ opened 7 (ok 8)
      ∷ cursor_closed 8
      ∷ connection_closed 7
      ∷ []
unfolding startup_program
rehearses = refl

-- A profile that neither file has.
fails :
    (main ticking row_writer
      (counting (ok tt))
      nobody
      only_spaces
      crypto
      files
      (record command { profile = "other" })
      quiet)
    ≡ (
      ok 1,
      record quiet {
        printed = line "Checking Snowflake connection profile..." ∷ failed configuration_error ∷ [];
      },
    )
unfolding startup_program
fails = refl

-- One of the two files is not enough.
half :
    create_runtime only_spaces crypto files (some "connections.toml") none "analyst"
    ≡ err value_error
unfolding startup_program
half = refl

serves :
    (LocalServer.main
      (λ rt. ok rt)
      (λ (rt : Runtime) (s : Unit {0}). (ok tt, s))
      only_spaces
      crypto
      files
      (record { connections = none; snowglobe_config = none; profile = "default" })
      (record { state = tt; printed = [] })).0
    ≡ ok 0
unfolding startup_program
serves = refl
