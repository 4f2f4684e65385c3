-- ===== src/Exec.antt =====
-- Python methods that change an object and may raise: what was written before a raise stays
-- written, so the state comes back beside the error too.
use snowglobe.Prelude.{◌≡◌, refl, ◌⊎◌, inl, inr, Bool, true, false}

-- The exceptions that the program raises or tells apart. `foreign` is any exception of a library
-- that the program has no name for; `cancelled_error` is asyncio's, which is no `Exception`.
-- `still_running` is no exception: a loop has used up its fuel and goes on, so no handler catches it.
pub data Error : Type 0 where
  request_unavailable : Error
  query_policy_rejected : Error
  arrow_admission_error : Error
  configuration_error : Error
  private_key_error : Error
  value_error : Error
  type_error : Error
  key_error : Error
  os_error : Error
  overflow_error : Error
  struct_error : Error
  foreign : Error
  cancelled_error : Error
  still_running : Error

-- `except Exception` catches it.
unfoldable pub is_exception : Error → Bool
is_exception cancelled_error = false
is_exception still_running = false
is_exception _ = true

pub data Result {ℓ} (A : Type ℓ) : Type ℓ where
  ok : A → Result A
  err : Error → Result A

abbrev pub Exec {ℓ κ} : Type ℓ → Type κ → Type (ℓ ⊔ κ)
Exec S A = S → Result A × S

module _ {ℓ κ} {S : Type ℓ} {A : Type κ} where
  pub pure : A → Exec S A
  pure a s = (ok a, s)

  pub raise : Error → Exec S A
  raise e s = (err e, s)

  unfoldable pub lift : Result A → Exec S A
  lift r s = (r, s)

  pub gets : (S → A) → Exec S A
  gets f s = (ok (f s), s)

-- an assignment to the object's fields
unfoldable pub modify {ℓ} : {S : Type ℓ} → (S → S) → Exec S (Unit {0})
modify f s = (ok tt, f s)

module _ {ℓ κ μ} {S : Type ℓ} {A : Type κ} {B : Type μ} where
  -- from the end of one action to the next, which an exception skips
  abbrev pub proceed : (A → Exec S B) → Result A × S → Result B × S
  proceed next (err e, s) = (err e, s)
  proceed next (ok a, s) = next a s

  infixl 5 ◌>>=◌ ◌>>◌
  unfoldable pub ◌>>=◌ : Exec S A → (A → Exec S B) → Exec S B
  unfolding pure raise lift gets modify
  ◌>>=◌ action next s = proceed next (action s)

  abbrev pub ◌>>◌ : Exec S A → Exec S B → Exec S B
  m >> n = m >>= λ _. n

-- `try: m` with `finally: cleanup`: an exception of the cleanup takes the place of what came before.
unfoldable pub after_cleanup {ℓ} : {A : Type ℓ} → Result A → Result (Unit {0}) → Result A
after_cleanup r (ok _) = r
after_cleanup r (err e) = err e

unfoldable pub finally {ℓ κ} : {S : Type ℓ} {A : Type κ} → Exec S A → Exec S (Unit {0}) → Exec S A
unfolding after_cleanup
finally m cleanup s = let (r, s') = m s in let (r', s'') = cleanup s' in (after_cleanup r r', s'')

-- what `with suppress(RequestUnavailable)` lets through
unfoldable pub forgive_unavailable {ℓ} : {A : Type ℓ} → Result A → Result (Unit {0})
forgive_unavailable (ok a) = ok tt
forgive_unavailable (err request_unavailable) = ok tt
forgive_unavailable (err e) = err e

-- `with suppress(RequestUnavailable): m`
unfoldable pub suppress_unavailable {ℓ κ} : {S : Type ℓ} {A : Type κ} → Exec S A → Exec S (Unit {0})
unfolding forgive_unavailable
suppress_unavailable m s = let (r, s') = m s in (forgive_unavailable r, s')

pub Result-cases {ℓ} :
    {A : Type ℓ} (r : Result A) → ((a : A) × (r ≡ ok a)) ⊎ ((e : Error) × (r ≡ err e))
Result-cases (ok a) = inl (a, refl)
Result-cases (err e) = inr (e, refl)

module _ {ℓ κ μ} {S : Type ℓ} {A : Type κ} {B : Type μ} (m : Exec S A) (s : S) where
  pub bind-ok : (f : A → Exec S B) (a : A) → (m s).0 ≡ ok a → (m >>= f) s ≡ f a (m s).1
  unfolding ◌>>=◌
  bind-ok f a h = rw (h, ◌>>=◌) refl

  pub bind-err : (f : A → Exec S B) (e : Error) → (m s).0 ≡ err e → (m >>= f) s ≡ (err e, (m s).1)
  unfolding ◌>>=◌
  bind-err f e h = rw (h, ◌>>=◌) refl

  -- A bind that returns has two parts that return.
  pub bind-inverse :
      (f : A → Exec S B) (b : B)
      → ((m >>= f) s).0 ≡ ok b
      → (a : A) × ((m s).0 ≡ ok a) × ((f a (m s).1).0 ≡ ok b)
  unfolding ◌>>=◌
  bind-inverse f b h = elim (Result-cases (m s).0) [
    | inl (a, e) ↦ (a, e, rw (e, ◌>>=◌) at h)
    | inr (x, e) ↦ absurd (cc (rw (e, ◌>>=◌) at h))
  ]

pub finally-inverse {ℓ κ} :
    {S : Type ℓ} {A : Type κ} (m : Exec S A) (cleanup : Exec S (Unit {0})) (s : S) (a : A)
    → (finally m cleanup s).0 ≡ ok a
    → (m s).0 ≡ ok a
unfolding finally after_cleanup
finally-inverse m cleanup s a h = elim (Result-cases (cleanup (m s).1).0) [
  | inl (u, e) ↦ rw (e, finally) at h
  | inr (x, e) ↦ absurd (cc (rw (e, finally) at h))
]
