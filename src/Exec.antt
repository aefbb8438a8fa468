-- ===== src/Exec.antt =====
-- Methods that change state, await and may throw: what was written before a throw stays written,
-- so the state comes back beside the error too. An `await` is a bind; what other requests do at
-- an await is written out where it matters (Interceptor/Race).
use personal_blog_service.Common.{◌≡◌, refl, ap, arith}
use personal_blog_service.Failure.Exceptions.{Thrown}

pub data Result {ℓ} (A : Type ℓ) : Type ℓ where
  ok : A → Result A
  throw : Thrown → Result A

abbrev pub Exec : Type 0 → Type 0 → Type 0
Exec S A = S → Result A × S

module _ {S A : Type 0} where
  abbrev pub pure : A → Exec S A
  pure a s = (ok a, s)

  abbrev pub raise : Thrown → Exec S A
  raise e s = (throw e, s)

  abbrev pub lift : Result A → Exec S A
  lift r s = (r, s)

  -- `catchError`, `try … catch`: the handler goes on from the state that the throw left.
  abbrev pub caught : (Thrown → Exec S A) → Result A → S → Result A × S
  caught h (ok a) s = (ok a, s)
  caught h (throw e) s = h e s

  abbrev pub catch_error : (Thrown → Exec S A) → Exec S A → Exec S A
  catch_error h m s = let (r, s') = m s in caught h r s'

module _ {S : Type 0} where
  abbrev pub gets : {A : Type 0} → (S → A) → Exec S A
  gets f s = (ok (f s), s)

  abbrev pub modify : (S → S) → Exec S (Unit {0})
  modify f s = (ok tt, f s)

module _ {S A B : Type 0} where
  abbrev pub continue : (A → Exec S B) → Result A → S → Result B × S
  continue f (ok a) s = f a s
  continue f (throw e) s = (throw e, s)

  infixl 5 ◌>>=◌
  abbrev pub ◌>>=◌ : Exec S A → (A → Exec S B) → Exec S B
  ◌>>=◌ m f s = let (r, s') = m s in continue f r s'

infixl 5 ◌>>◌
abbrev pub ◌>>◌ : {S A B : Type 0} → Exec S A → Exec S B → Exec S B
m >> n = m >>= λ _. n

-- A step whose throw is swallowed only leaves its state behind.
module _ {S A : Type 0} (n : Exec S A) where
  swallowed :
      (r : Result (Unit {0})) (s : S)
      → let (q, t) = caught (λ _. pure tt) r s in continue (λ _. n) q t ≡ n s
  swallowed (ok _) s = refl
  swallowed (throw _) s = refl

  pub swallow : (m : Exec S (Unit {0})) (s : S) → (catch_error (λ _. pure tt) m >> n) s ≡ n (m s).1
  swallow m s = swallowed (m s).0 (m s).1

-- A step that changes nothing leaves the state alone.
pub continue-lift :
    {S A B : Type 0} (f : A → Result B) (r : Result A) (s : S)
    → (continue (λ a. lift (f a)) r s).1 ≡ s
continue-lift f (ok a) s = refl
continue-lift f (throw e) s = refl

pub ok-injective : {A : Type 0} {a b : A} → ok a ≡ ok b → a ≡ b
ok-injective h = cc

module _ {S A B : Type 0} (f : A → Exec S B) where
  -- What returns has gone through both its steps.
  pub continue-ok :
      (r : Result A) (s : S) (b : B)
      → (continue f r s).0 ≡ ok b
      → (a : A) × (r ≡ ok a) × ((f a s).0 ≡ ok b) × ((continue f r s).1 ≡ (f a s).1)
  continue-ok (ok a) s b h = (a, refl, h, refl)
  continue-ok (throw _) s b h = ground arith

  pub bind-ok :
      (m : Exec S A) (s : S) (b : B)
      → ((m >>= f) s).0 ≡ ok b
      → (a : A) × ((m s).0 ≡ ok a) × ((f a (m s).1).0 ≡ ok b) × (((m >>= f) s).1 ≡ (f a (m s).1).1)
  bind-ok m s b h = continue-ok (m s).0 (m s).1 b h

  -- A first step that returns is followed by the second.
  pub bind-of_ok : (m : Exec S A) (s : S) (a : A) → (m s).0 ≡ ok a → (m >>= f) s ≡ f a (m s).1
  bind-of_ok m s a h = ap (λ r. continue f r (m s).1) h
