-- ===== src/Tests/Broker.antt =====
-- The broker on concrete inputs.
use Prim.Native.Char.{Char}
use snowglobe.Prelude.{
  ℕ, zero, suc, ◌+◌, String, ◌≡◌, ◌≢◌, ◌↔◌, refl, ap, true, none, some, List, [], ◌∷◌, arith,
}
use snowglobe.Exec.{ok, err, still_running, ◌>>=◌}
use snowglobe.Python.{pos, add_timedelta, require_positive}
use snowglobe.Broker.Records.{
  RequestRecord, pending, complete, cancelled, is_pending, is_live, is_complete, is_evictable,
  lookup, put_record, count_pending, evict_first, view,
}
use snowglobe.Broker.State.{
  Broker, Environment, init, now, expire, expire_all, locked_record, locked_records, cancel_each,
  cancel_optional,
}
use snowglobe.Broker.Bodies.{
  at_pending_capacity, make_room, add_record, draw_id, after_register, attach_cursor, detach_cursor,
  complete_with, close_failed, completed_source, cancel_live,
}
use snowglobe.Broker.Methods.{
  new_request_id, register_pending, admit_pending, submit, register_cursor, release_cursor, publish,
  fail, list_requests, get_request, open_source, cancel,
}
use snowglobe.Broker.History.{Call, submits, registers, publishes, run, run-IsWellFormed}
use snowglobe.Broker.Invariant.{IsWellFormed}
use snowglobe.Broker.Access.{Available, open_source-Available}
use snowglobe.Broker.Publication
use snowglobe.Broker.Revocation.{NeverDrawn, cancel_is_final}
use snowglobe.Broker.Registered.{Registered, submit-Registered, submit_ends}
use snowglobe.Broker.Retained.{submit_keeps}

unfoldable pub program : Unit {0}
unfolding add_timedelta require_positive is_pending is_live is_complete is_evictable lookup
    put_record count_pending evict_first view init now expire expire_all locked_record
    locked_records cancel_each cancel_optional at_pending_capacity make_room add_record draw_id
    after_register attach_cursor detach_cursor complete_with close_failed completed_source
    cancel_live new_request_id register_pending admit_pending submit register_cursor release_cursor
    publish fail list_requests get_request open_source cancel run ◌>>=◌
program = tt

-- "t", "at", "aat" and so on
abbrev spell : ℕ → String
spell zero = "t"
spell (suc n) = String.◌∷◌ (let c : Char = "a" in c) (spell n)

-- A clock that advances by one at each reading.
abbrev pub ticking : Environment
ticking = record {
  clock = λ n. record { is_aware = true; instant = 1000 + n };
  token = spell;
  draw_limit = 5;
}

abbrev pub empty : Broker
empty = record {
  maximum_ttl = 300000000;
  maximum_pending_requests = some 1;
  maximum_requests = some 2;
  records = [];
  reads = 0;
  draws = 0;
  cancels = [];
}

init_test : init (pos 300000000) (some (pos 1)) (some (pos 2)) ≡ ok empty
unfolding program
init_test = refl

submit_test :
    (submit ticking (pos 50) empty).0
    ≡ ok (record { request_id = "t"; status = pending; expires_at = 1050 })
unfolding program
submit_test = refl

-- One request that is pending, that is complete, and a history that leads there.
abbrev to_pending : List Call
to_pending = submits (pos 50) ∷ registers "t" 7 ∷ []

abbrev to_complete : List Call
to_complete = submits (pos 50) ∷ registers "t" 7 ∷ publishes "t" 9 ∷ []

abbrev waiting : Broker
waiting = run ticking to_pending empty

abbrev published : Broker
published = run ticking to_complete empty

cancel_logs : (cancel ticking "t" waiting).1.cancels ≡ 7 ∷ []
unfolding program
cancel_logs = refl

waiting-IsWellFormed : IsWellFormed waiting
waiting-IsWellFormed =
    run-IsWellFormed ticking (pos 300000000) (some (pos 1)) (some (pos 2)) empty to_pending
      init_test

run-IsWellFormed_example : IsWellFormed published
run-IsWellFormed_example =
    run-IsWellFormed ticking (pos 300000000) (some (pos 1)) (some (pos 2)) empty to_complete
      init_test

pub empty-IsWellFormed : IsWellFormed empty
empty-IsWellFormed =
    unfold run in
    run-IsWellFormed ticking (pos 300000000) (some (pos 1)) (some (pos 2)) empty [] init_test

open_source-Available_example :
    ((open_source ticking "t" published).0 ≡ ok 9) ↔ Available ticking "t" published 9
open_source-Available_example = open_source-Available ticking "t" published 9

publish_then_open_example : (open_source ticking "t" (publish ticking "t" 9 waiting).1).0 ≡ ok 9
unfolding program
publish_then_open_example =
    Publication.publish_then_open ticking "t" 9 waiting
      (record { request_id = "t"; status = complete; expires_at = 1050 }) refl refl (omega arith)

register_cursor-Accounted_example :
    Publication.Accounted ticking "t" 8 waiting (register_cursor ticking "t" 8 waiting)
register_cursor-Accounted_example = Publication.register_cursor-Accounted ticking "t" 8 waiting

abbrev characters : String → ℕ
characters String.[] = 0
characters (String.◌∷◌ c s) = suc (characters s)

characters-spell : (n : ℕ) → characters (spell n) ≡ suc n
characters-spell zero = refl
characters-spell (suc n) = ap suc (characters-spell n)

spell-injective : (i j : ℕ) → spell i ≡ spell j → i ≡ j
spell-injective i j e = omega (arith, ap characters e, characters-spell i, characters-spell j)

never_again : NeverDrawn ticking "t" 1
never_again i h e = absurd (omega (arith, spell-injective i 0 e))

cancel_is_final_example :
    (open_source ticking "t"
      (run ticking (publishes "t" 9 ∷ submits (pos 5) ∷ []) (cancel ticking "t" waiting).1)).0
    ≢ ok 9
unfolding program
cancel_is_final_example =
    cancel_is_final ticking "t" waiting
      (record { request_id = "t"; status = cancelled; expires_at = 1050 })
      (publishes "t" 9 ∷ submits (pos 5) ∷ []) 9 waiting-IsWellFormed never_again refl

submit-Registered_example :
    Registered ticking empty
      (record { request_id = "t"; status = pending; expires_at = 1050 })
      (submit ticking (pos 50) empty).1
unfolding program
submit-Registered_example =
    submit-Registered ticking empty empty-IsWellFormed (pos 50)
      (record { request_id = "t"; status = pending; expires_at = 1050 }) refl

submit_ends_example : (submit ticking (pos 50) waiting).0 ≢ err still_running
unfolding program
submit_ends_example =
    submit_ends ticking (pos 50) waiting waiting-IsWellFormed
      (λ i j low less high same. absurd (omega (arith, spell-injective i j same))) (omega arith)

published-IsWellFormed : IsWellFormed published
published-IsWellFormed =
    run-IsWellFormed ticking (pos 300000000) (some (pos 1)) (some (pos 2)) empty to_complete
      init_test

abbrev completed : RequestRecord
completed = record {
  request_id = "t";
  status = complete;
  expires_at = 1050;
  source = some 9;
  cursor = none;
}

submit_keeps_example : lookup "t" (submit ticking (pos 5) published).1.records ≡ some completed
unfolding program
submit_keeps_example =
    submit_keeps ticking "t" completed (λ h. h) published (pos 5) published-IsWellFormed
      (λ n low high. (refl, omega arith)) refl
