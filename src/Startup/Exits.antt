-- ===== src/Startup/Exits.antt =====
-- The exit codes of the preflight and of the service on the same files.
use snowglobe.Prelude.{ℕ, String, ◌≡◌, ◌∙◌, refl, sym, Bool, true, false, some, List, arith}
use snowglobe.Exec.{Result, ok, err, Error, Exec, is_exception, lift, ◌>>=◌}
use snowglobe.Arrow.Library.{PyArrow}
use snowglobe.Broker.State.{Environment}
use snowglobe.Broker.History.{Call}
use snowglobe.Config.PrivateKey.{Cryptography}
use snowglobe.Snowflake.Connector.{Connector, World}
use snowglobe.Startup.Runtime.{Files, Runtime, create_runtime}
use snowglobe.Startup.Console.{Console, print, say}
use snowglobe.Startup.Preflight.{Arguments, run_preflight, exit_code, main}
use snowglobe.Startup.LocalServer
use snowglobe.Startup.LocalServer.{compose, start}
use snowglobe.Startup.Agreement.{finished, run_preflight-eq-create_runtime}

module _ (env : Environment) (pa : PyArrow) (k : Connector pa) (others : ℕ → List Call)
    (is_blank : String → Bool) (crypto : Cryptography) (files : Files) where
  exit_code-zero :
      (r : Result (Unit {0})) (c : Console (World k))
      → (exit_code env pa k others is_blank crypto files r c).0 ≡ ok 0
      → r ≡ ok tt
  unfolding exit_code
  exit_code-zero (ok tt) c h = refl
  exit_code-zero (err e) c h = absurd (ground arith)

  exit_code-one :
      (r : Result (Unit {0})) (c : Console (World k))
      → (exit_code env pa k others is_blank crypto files r c).0 ≡ ok 1
      → (e : Error) × (r ≡ err e) × (is_exception e ≡ true)
  unfolding exit_code
  exit_code-one (ok tt) c h = absurd (ground arith)
  exit_code-one (err e) c h = (e, refl, ground arith)

  finished-ok {ℓ} : {A : Type ℓ} (r : Result A) → finished r ≡ ok tt → (a : A) × (r ≡ ok a)
  finished-ok (ok a) h = (a, refl)
  finished-ok (err e) h = absurd (cc h)

  finished-err {ℓ} : {A : Type ℓ} (r : Result A) (e : Error) → finished r ≡ err e → r ≡ err e
  finished-err (ok a) e h = absurd (cc h)
  finished-err (err e') e h = cc h

  -- The command line of the service for the files of a preflight.
  abbrev pub service_of : Arguments → LocalServer.Arguments
  service_of a = record {
    connections = some a.connections;
    snowglobe_config = some a.snowglobe_config;
    profile = a.profile;
  }

  abbrev runtime_of : Arguments → Result Runtime
  runtime_of a =
      create_runtime is_blank crypto files (some a.connections) (some a.snowglobe_config) a.profile

  abbrev rehearsal : Arguments → Console (World k) → Result (Unit {0}) × Console (World k)
  rehearsal a c =
      run_preflight env pa k others is_blank crypto files a.connections a.snowglobe_config a.profile
        a.connect true c

  agreed :
      (a : Arguments) (c : Console (World k))
      → a.connect ≡ false
      → (rehearsal a c).0 ≡ finished (runtime_of a)
  agreed a c offline =
      rw offline
        (run_preflight-eq-create_runtime env pa k others is_blank crypto files a.connections
          a.snowglobe_config a.profile true c).0

  module _ {S Application : Type 0} (create_app : Runtime → Result Application)
      (serve : Application → Exec S (Unit {0})) (a : Arguments) (c : Console (World k))
      (d : Console S) (offline : a.connect ≡ false) where
    -- Where a preflight that leaves the connection out exits with 0, the service with the same files gets as far
    -- as the composition of its routes, around the runtime that it has created.
    pub main_passes :
        (main env pa k others is_blank crypto files a c).0 ≡ ok 0
        → (rt : Runtime) × (runtime_of a ≡ ok rt)
          × ((compose create_app serve is_blank crypto files (service_of a) d).0 ≡ create_app rt)
    unfolding main compose say print ◌>>=◌ lift
    main_passes h =
        let done : (rehearsal a c).0 ≡ ok tt =
          exit_code-zero (rehearsal a c).0 (rehearsal a c).1 h in
        let (rt, p) = finished-ok (runtime_of a) (sym (agreed a c offline) ∙ done) in
        (rt, p, rw (p, compose) refl)

    -- Where a preflight that leaves the connection out exits with 1, the service with the same files exits with 1
    -- too and never serves.
    pub main_fails :
        (main env pa k others is_blank crypto files a c).0 ≡ ok 1
        → ((LocalServer.main create_app serve is_blank crypto files (service_of a) d).0 ≡ ok 1)
          × ((LocalServer.main create_app serve is_blank crypto files (service_of a) d).1.state
              ≡ d.state)
    unfolding main LocalServer.main compose start say print ◌>>=◌ lift
    main_fails h =
        let (e, p, q) = exit_code-one (rehearsal a c).0 (rehearsal a c).1 h in
        let r = finished-err (runtime_of a) e (sym (agreed a c offline) ∙ p) in
        rw (r, q, LocalServer.main, compose, start) (refl, refl)
