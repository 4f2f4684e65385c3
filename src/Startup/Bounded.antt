-- ===== src/Startup/Bounded.antt =====
-- The budgets of a service, whatever is called.
use snowglobe.Prelude.{ℕ, ◌≤◌, String, ◌≡◌, ◌∙◌, Bool, Option, some, List, [], length}
use snowglobe.Exec.{ok}
use snowglobe.Fallible.{bind_returned}
use snowglobe.Python.{pos}
use snowglobe.Broker.Records.{count_pending}
use snowglobe.Broker.State.{Broker, Environment, init}
use snowglobe.Broker.Invariant.{Within, IsWellFormed}
use snowglobe.Broker.History.{Call, run, run-IsWellFormed}
use snowglobe.Broker.Budgets.{run-SameLimits}
use snowglobe.Limits.{mvp_maximum_ttl, mvp_maximum_pending_requests, mvp_maximum_requests}
use snowglobe.Config.PrivateKey.{Cryptography}
use snowglobe.Startup.Runtime.{Files, Runtime, create_runtime, optional_executor}
use snowglobe.Startup.Configured.{init-HasBudgets}

-- The time to live that a request may have, and how many requests there may be.
pub record IsBounded (b : Broker) : Type 0 where
  pub short_lived : b.maximum_ttl ≡ mvp_maximum_ttl
  pub few_pending : count_pending b.records ≤ mvp_maximum_pending_requests
  pub few_requests : length b.records ≤ mvp_maximum_requests

Within-some : (l : Option ℕ) (m n : ℕ) → l ≡ some m → Within l n → n ≤ m
Within-some l m n e h = rw e at h

IsWellFormed-IsBounded :
    (b : Broker)
    → b.maximum_ttl ≡ mvp_maximum_ttl
    → b.maximum_pending_requests ≡ some mvp_maximum_pending_requests
    → b.maximum_requests ≡ some mvp_maximum_requests
    → IsWellFormed b
    → IsBounded b
IsWellFormed-IsBounded b t p r w = record {
  short_lived = t;
  few_pending = Within-some b.maximum_pending_requests _ _ p w.few_pending;
  few_requests = Within-some b.maximum_requests _ _ r w.few_requests;
}

module _ (is_blank : String → Bool) (crypto : Cryptography) (files : Files) where
  created_broker :
      (connections_path snowglobe_config_path : Option String) (profile_name : String)
      (rt : Runtime)
      → create_runtime is_blank crypto files connections_path snowglobe_config_path profile_name
        ≡ ok rt
      → init
          (pos mvp_maximum_ttl)
          (some (pos mvp_maximum_pending_requests))
          (some (pos mvp_maximum_requests))
        ≡ ok rt.broker
  unfolding create_runtime
  created_broker connections_path snowglobe_config_path profile_name rt h =
      let (b, p, h1) =
        bind_returned
          (init (pos mvp_maximum_ttl) (some (pos mvp_maximum_pending_requests))
            (some (pos mvp_maximum_requests)))
          _ rt h in
      let (made, q, h2) =
        bind_returned
          (optional_executor is_blank crypto files b connections_path snowglobe_config_path
            profile_name)
          _ rt h1 in
      let same : record { broker = b; executor = made } ≡ rt = cc in rw (← same) p

  -- In a service that was started, with the files or without, whatever calls reach the broker and whatever the clock and
  -- the tokens are: at most one request is pending, there are at most a hundred, and the maximum time to live is
  -- still five minutes.
  pub create_runtime-IsBounded :
      (connections_path snowglobe_config_path : Option String) (profile_name : String)
      (rt : Runtime) (env : Environment) (calls : List Call)
      → create_runtime is_blank crypto files connections_path snowglobe_config_path profile_name
        ≡ ok rt
      → IsBounded (run env calls rt.broker)
  create_runtime-IsBounded connections_path snowglobe_config_path profile_name rt env calls h =
      let made = created_broker connections_path snowglobe_config_path profile_name rt h in
      let start = init-HasBudgets is_blank crypto files rt.broker made in
      let well =
        run-IsWellFormed env (pos mvp_maximum_ttl) (some (pos mvp_maximum_pending_requests))
          (some (pos mvp_maximum_requests)) rt.broker in
      let first : IsWellFormed rt.broker = unfold run in well [] made in
      let (t, p, r) = run-SameLimits env calls rt.broker first in
      IsWellFormed-IsBounded (run env calls rt.broker) (t ∙ start.ttl) (p ∙ start.waiting)
        (r ∙ start.requests) (well calls made)
