-- ===== src/Broker/Access.antt =====
-- When a result may be read, and when it may never be read again.
use snowglobe.Prelude.{◌<◌, String, ◌≡◌, ◌↔◌, true, some, arith, Option-cases, inl, inr}
use snowglobe.Exec.{ok}
use snowglobe.Broker.Records.{RequestRecord, SourceRef, complete, is_live, is_complete, lookup}
use snowglobe.Broker.State.{Broker, Environment, expire, locked_record}
use snowglobe.Broker.Bodies.{completed_source}
use snowglobe.Broker.Methods.{open_source}

-- The request is complete and holds this source, and the clock, which is read once, says that its
-- time has not come.
pub record Available (env : Environment) (k : String) (b : Broker) (s : SourceRef) : Type 0 where
  pub request : RequestRecord
  pub found : lookup k b.records ≡ some request
  pub is_complete : request.status ≡ complete
  pub holds : request.source ≡ some s
  pub aware : (env.clock b.reads).is_aware ≡ true
  pub in_time : (env.clock b.reads).instant < request.expires_at

module _ (env : Environment) (k : String) (b : Broker) (s : SourceRef) where
  opened-Available : (open_source env k b).0 ≡ ok s → Available env k b s
  unfolding open_source locked_record
  opened-Available h = elim (Option-cases (lookup k b.records)) [
    | inl e ↦ absurd (ground arith)
    | inr (r, e) ↦ record {
      request = r;
      found = e;
      is_complete = unfold completed_source is_complete expire is_live in ground arith;
      holds = unfold completed_source is_complete expire is_live in ground arith;
      aware = unfold completed_source is_complete expire is_live in ground arith;
      in_time = unfold completed_source is_complete expire is_live in ground arith;
    }
  ]

  Available-opened : Available env k b s → (open_source env k b).0 ≡ ok s
  unfolding open_source locked_record completed_source is_complete expire is_live
  Available-opened a = ground arith

  -- A result can be read exactly while its request is complete, holds it and has not expired.
  pub open_source-Available : ((open_source env k b).0 ≡ ok s) ↔ Available env k b s
  open_source-Available = (opened-Available, Available-opened)
