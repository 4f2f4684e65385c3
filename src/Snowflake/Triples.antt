-- ===== src/Snowflake/Triples.antt =====
-- Actions on the connector that keep to the protocol, and how they compose.
use snowglobe.Prelude.{ℕ, String, ◌≡◌, ◌∙◌, refl, some, List, [], ◌∷◌, ◌++◌, inl, inr}
use mathlib.Core.List.{append_assoc, append-nil}
use snowglobe.Exec.{
  Result, ok, err, Error, Exec, Result-cases, lift, modify, finally, after_cleanup, ◌>>=◌, bind-ok,
  bind-err,
}
use snowglobe.Arrow.Library.{PyArrow}
use snowglobe.Broker.State.{Broker, Environment}
use snowglobe.Broker.History.{Call}
use snowglobe.Snowflake.Connector.{Connector, World, Event, calling, on_broker, note}
use snowglobe.Snowflake.Session.{Session, follow, follow_all, follow_all-append}

module _ (env : Environment) (pa : PyArrow) (k : Connector pa) (others : ℕ → List Call)
    (id sql : String) where
  -- What is promised of the result and of what the request then holds.
  abbrev pub Promise : Type 0 → Type 1
  Promise A = Result A → Session → Type 0

  -- How an action has ended: its calls followed the protocol from `s`, the lock is as it was, and the
  -- promise is kept.
  pub record Ends {A : Type 0} (s : Session) (Q : Promise A) (w : World k)
      (end : Result A × World k) : Type 0 where
    pub events : List Event
    pub appended : end.1.events ≡ w.events ++ events
    pub same_lock : end.1.is_active ≡ w.is_active
    pub session : Session
    pub path : follow_all id sql s events ≡ some session
    pub post : Q end.0 session

  abbrev pub Keeps : {A : Type 0} → Exec (World k) A → Session → Promise A → Type 0
  Keeps m s Q = (w : World k) → Ends s Q w (m w)

  -- One after the other.
  Ends-append :
      {A B : Type 0} (s : Session) (Q : Promise A) (R : Promise B) (w : World k)
      (first : Result A × World k) (second : Result B × World k)
      → (r : Ends s Q w first) → Ends r.session R first.1 second
      → Ends s R w second
  Ends-append s Q R w first second r n = record {
    events = r.events ++ n.events;
    appended = n.appended ∙ (rw (r.appended, append_assoc w.events r.events n.events) refl);
    same_lock = n.same_lock ∙ r.same_lock;
    session = n.session;
    path = follow_all-append id sql s r.session r.events n.events r.path ∙ n.path;
    post = n.post;
  }

  -- An action without calls.
  Ends-here :
      {A : Type 0} (s : Session) (Q : Promise A) (w w' : World k) (r : Result A)
      → w'.events ≡ w.events
      → w'.is_active ≡ w.is_active
      → Q r s
      → Ends s Q w (r, w')
  Ends-here s Q w w' r same lock post = record {
    events = [];
    appended = rw append-nil same;
    same_lock = lock;
    session = s;
    path = unfold follow_all in refl;
    post = post;
  }

  pub Keeps-bind :
      {A B : Type 0} (m : Exec (World k) A) (f : A → Exec (World k) B) (s : Session) (Q : Promise A)
      (R : Promise B)
      → Keeps m s Q
      → ((a : A) (s' : Session) → Q (ok a) s' → Keeps (f a) s' R)
      → ((e : Error) (s' : Session) → Q (err e) s' → R (err e) s')
      → Keeps (m >>= f) s R
  Keeps-bind m f s Q R first next failed w =
      let r = first w in
      elim (Result-cases (m w).0) [
        | inr (e, p) ↦ rw (bind-err m w f e p) (
            Ends-append s Q R w (m w) (err e, (m w).1) r
              (Ends-here r.session R (m w).1 (m w).1 (err e) refl refl
                (failed e r.session (rw p at r.post))))
        | inl (a, p) ↦
            rw (bind-ok m w f a p) (
              Ends-append s Q R w (m w) (f a (m w).1) r (next a r.session (rw p at r.post) (m w).1))
      ]

  pub Keeps-finally :
      {A : Type 0} (m : Exec (World k) A) (cleanup : Exec (World k) (Unit {0})) (s : Session)
      (Q R : Promise A)
      → Keeps m s Q
      → ((r : Result A) (s' : Session)
          → Q r s'
          → Keeps cleanup s' (λ r' s''. R (after_cleanup r r') s''))
      → Keeps (finally m cleanup) s R
  unfolding finally
  Keeps-finally m cleanup s Q R first last w =
      let r = first w in
      let n = last (m w).0 r.session r.post (m w).1 in
      Ends-append s Q R w (m w) (finally m cleanup w) r (record {
        events = n.events;
        appended = n.appended;
        same_lock = n.same_lock;
        session = n.session;
        path = n.path;
        post = n.post;
      })

  -- A call of the connector that the protocol allows, whatever it gives.
  pub Keeps-calling :
      {A : Type 0} (event : Result A → Event) (call : Exec k.State A) (s : Session)
      (next : Result A → Session) (Q : Promise A)
      → ((r : Result A) → follow id sql s (event r) ≡ some (next r))
      → ((r : Result A) → Q r (next r))
      → Keeps (calling env pa k others event call) s Q
  unfolding calling note follow_all
  Keeps-calling event call s next Q allowed post w =
      let r = (call w.driver).0 in
      record {
        events = event r ∷ [];
        appended = refl;
        same_lock = refl;
        session = next r;
        path = rw (allowed r, follow_all) refl;
        post = post r;
      }

  -- What is only noted down.
  pub Keeps-note :
      (e : Event) (s t : Session) (Q : Promise (Unit {0}))
      → follow id sql s e ≡ some t
      → Q (ok tt) t
      → Keeps (modify (note env pa k others e)) s Q
  unfolding modify note follow_all
  Keeps-note e s t Q allowed post w = record {
    events = e ∷ [];
    appended = refl;
    same_lock = refl;
    session = t;
    path = rw (allowed, follow_all) refl;
    post = post;
  }

  pub Keeps-on_broker :
      {A : Type 0} (call : Exec Broker A) (s : Session) (Q : Promise A)
      → ((r : Result A) → Q r s)
      → Keeps (on_broker env pa k others call) s Q
  unfolding on_broker
  Keeps-on_broker call s Q post w =
      Ends-here s Q w _ (call w.broker).0 refl refl (post (call w.broker).0)

  pub Keeps-lift :
      {A : Type 0} (r : Result A) (s : Session) (Q : Promise A) → Q r s → Keeps (lift r) s Q
  unfolding lift
  Keeps-lift r s Q post w = Ends-here s Q w w r refl refl post

  -- The same, where the first action is known to end in `t`.
  pub Keeps-then :
      {A B : Type 0} (m : Exec (World k) A) (f : A → Exec (World k) B) (s t : Session)
      (R : Promise B)
      → Keeps m s (λ r s'. s' ≡ t)
      → ((a : A) → Keeps (f a) t R)
      → ((e : Error) → R (err e) t)
      → Keeps (m >>= f) s R
  Keeps-then m f s t R first next failed =
      Keeps-bind m f s (λ r s'. s' ≡ t) R first (λ a s' p. rw p (next a))
        (λ e s' p. rw p (failed e))

  pub Keeps-weaken :
      {A : Type 0} (m : Exec (World k) A) (s : Session) (Q R : Promise A)
      → ((r : Result A) (s' : Session) → Q r s' → R r s')
      → Keeps m s Q
      → Keeps m s R
  Keeps-weaken m s Q R weaker keeps w =
      let r = keeps w in
      record {
        events = r.events;
        appended = r.appended;
        same_lock = r.same_lock;
        session = r.session;
        path = r.path;
        post = weaker (m w).0 r.session r.post;
      }
