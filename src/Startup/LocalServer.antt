-- ===== src/Startup/LocalServer.antt =====
-- src/snowglobe/local_server.py: `main`. The composition of the routes and the server are parameters.
use snowglobe.Prelude.{ℕ, String, Bool, Option, if◌then◌else◌}
use snowglobe.Exec.{Result, ok, err, is_exception, Exec, lift, ◌>>=◌, ◌>>◌}
use snowglobe.Config.PrivateKey.{Cryptography}
use snowglobe.Startup.Runtime.{Files, Runtime, create_runtime}
use snowglobe.Startup.Console.{Console, failed, print, say, beneath}

-- What argparse makes of the command line.
pub record Arguments : Type 0 where
  pub connections : Option String
  pub snowglobe_config : Option String
  pub profile : String

module _ {S Application : Type 0} (create_app : Runtime → Result Application)
    (serve : Application → Exec S (Unit {0})) (is_blank : String → Bool) (crypto : Cryptography)
    (files : Files) where
  -- the `try` of `main`
  unfoldable pub compose : Arguments → Exec (Console S) Application
  unfolding ◌>>=◌ lift
  compose a = do
    say
        "Creating Snowglobe runtime (validating configured profiles, policy, and RSA key; not connecting to Snowflake)..."
    runtime ← lift (create_runtime is_blank crypto files a.connections a.snowglobe_config a.profile)
    say "Composing MCP and viewer routes around the shared local runtime..."
    lift (create_app runtime)

  -- what follows it
  unfoldable pub start : Result Application → Exec (Console S) ℕ
  unfolding ◌>>=◌
  start (err e) c = if is_exception e then (ok 1, print (failed e) c) else (err e, c)
  start (ok application) c =
      (do
        say
            "Starting the loopback server. Uvicorn will report when startup completes; this process then remains running until Ctrl-C."
        beneath (serve application)
        λ c'. (ok 0, c'))
        c

  unfoldable pub main : Arguments → Exec (Console S) ℕ
  main a c = let (r, c') = compose a c in start r c'
