-- ===== src/Action.antt =====
-- A Go function that returns `(value, error)`, as a step on the state of the world: the database,
-- the data plane and all else that the process can reach. The world comes back after an error too,
-- since what was written stays written.
use vpn_backend.Base.{◌≡◌, refl, ap, ◌∙◌, arith}
use vpn_backend.Errors.{Error}

pub data Result (A : Type 0) : Type 0 where
  ok : A → Result A
  err : Error → Result A

abbrev pub Action : Type 0 → Type 0 → Type 0
Action W A = W → Result A × W

module _ {W A : Type 0} where
  abbrev pub pure : A → Action W A
  pure a w = (ok a, w)

  abbrev pub fail : Error → Action W A
  fail e w = (err e, w)

  abbrev pub lift : Result A → Action W A
  lift r w = (r, w)

-- `if err != nil { return err }` after each call.
infixl 5 ◌>>=◌ ◌>>◌
unfoldable pub ◌>>=◌ : {W A B : Type 0} → Action W A → (A → Action W B) → Action W B
◌>>=◌ m f w = let (r, w') = m w in elim r [ ok a ↦ f a w' | err e ↦ (err e, w') ]

abbrev pub ◌>>◌ : {W A B : Type 0} → Action W A → Action W B → Action W B
m >> k = m >>= λ _. k

module _ {W A : Type 0} where
  -- `if err != nil { return f(err) }`
  unfoldable pub on_error : (Error → Error) → Action W A → Action W A
  on_error f m w = let (r, w') = m w in elim r [ ok a ↦ (ok a, w') | err e ↦ (err (f e), w') ]

  -- `if err := m(); err != nil { cleanup(); return err }`, the cleanup's own error ignored
  unfoldable pub on_error_run : Action W (Unit {0}) → Action W A → Action W A
  on_error_run cleanup m w =
      let (r, w') = m w in elim r [ ok a ↦ (ok a, w') | err e ↦ (err e, (cleanup w').1) ]

  -- `_ = m()`
  unfoldable pub ignore_error : Action W A → Action W (Unit {0})
  ignore_error m w = (ok tt, (m w).1)

-- A postcondition of a bind: what holds if the first part returns, and if it does not.
module _ {W A B : Type 0} (Q : Result B × W → Type 0) where
  pub bind_rule :
      (m : Action W A) (f : A → Action W B) (w : W)
      → ((a : A) → (m w).0 ≡ ok a → Q (f a (m w).1))
      → ((e : Error) → (m w).0 ≡ err e → Q (err e, (m w).1))
      → Q ((m >>= f) w)
  unfolding ◌>>=◌
  bind_rule m f w good bad = go (m w).0 refl
    where
      go :
          (r : Result A)
          → (m w).0 ≡ r
          → Q (elim r [ ok a ↦ f a (m w).1 | err e ↦ (err e, (m w).1) ])
      go (ok a) h = good a h
      go (err e) h = bad e h

module _ {W A : Type 0} (Q : Result A × W → Type 0) where
  pub on_error_run_rule :
      (cleanup : Action W (Unit {0})) (m : Action W A) (w : W)
      → ((a : A) → (m w).0 ≡ ok a → Q (ok a, (m w).1))
      → ((e : Error) → (m w).0 ≡ err e → Q (err e, (cleanup (m w).1).1))
      → Q (on_error_run cleanup m w)
  unfolding on_error_run
  on_error_run_rule cleanup m w good bad = go (m w).0 refl
    where
      go :
          (r : Result A)
          → (m w).0 ≡ r
          → Q (elim r [ ok a ↦ (ok a, (m w).1) | err e ↦ (err e, (cleanup (m w).1).1) ])
      go (ok a) h = good a h
      go (err e) h = bad e h

  pub on_error_rule :
      (g : Error → Error) (m : Action W A) (w : W)
      → ((a : A) → (m w).0 ≡ ok a → Q (ok a, (m w).1))
      → ((e : Error) → (m w).0 ≡ err e → Q (err (g e), (m w).1))
      → Q (on_error g m w)
  unfolding on_error
  on_error_rule g m w good bad = go (m w).0 refl
    where
      go :
          (r : Result A)
          → (m w).0 ≡ r
          → Q (elim r [ ok a ↦ (ok a, (m w).1) | err e ↦ (err (g e), (m w).1) ])
      go (ok a) h = good a h
      go (err e) h = bad e h

module _ {W A : Type 0} where
  pub on_error_world : (g : Error → Error) (m : Action W A) (w : W) → (on_error g m w).1 ≡ (m w).1
  unfolding on_error
  on_error_world g m w = ground arith

  pub on_error-eq-ok :
      (g : Error → Error) (m : Action W A) (w : W) (a : A)
      → (on_error g m w).0 ≡ ok a
      → (m w).0 ≡ ok a
  unfolding on_error
  on_error-eq-ok g m w a h = ground arith

-- Inversion of a bind that returns.
module _ {W A B : Type 0} where
  pub bind-eq-ok :
      (m : Action W A) (f : A → Action W B) (w : W) (b : B)
      → ((m >>= f) w).0 ≡ ok b
      → (a : A) × ((m w).0 ≡ ok a) × ((f a (m w).1).0 ≡ ok b) × (((m >>= f) w).1 ≡ (f a (m w).1).1)
  unfolding ◌>>=◌
  bind-eq-ok m f w b h = go (m w).0 refl h
    where
      go :
          (r : Result A)
          → (m w).0 ≡ r
          → (elim r as (λ _. Result B × W) [ ok a ↦ f a (m w).1 | err e ↦ (err e, (m w).1) ]).0
            ≡ ok b
          → (a : A) × ((m w).0 ≡ ok a)
            × ((f a (m w).1).0 ≡ ok b)
            × (((m >>= f) w).1 ≡ (f a (m w).1).1)
      go (ok a) e k = (a, e, k, rw (e, ◌>>=◌))
      go (err e) _ k = cc

module _ {W A : Type 0} where
  pub on_error-eq-err :
      (g : Error → Error) (m : Action W A) (w : W) (e : Error)
      → (on_error g m w).0 ≡ err e
      → (e' : Error) × ((m w).0 ≡ err e')
  unfolding on_error
  on_error-eq-err g m w e h = go (m w).0 refl h
    where
      go :
          (r : Result A)
          → (m w).0 ≡ r
          → (elim r as (λ _. Result A × W) [
            | ok a ↦ (ok a, (m w).1)
            | err e' ↦ (err (g e'), (m w).1)
          ]).0
            ≡ err e
          → (e' : Error) × ((m w).0 ≡ err e')
      go (ok a) h k = cc
      go (err e') h k = (e', h)

-- What holds if the action returned.
abbrev pub IfOk : {A : Type 0} → Result A → (A → Type 0) → Type 0
IfOk (ok a) P = P a
IfOk (err e) P = Unit

module _ {W A B : Type 0} (m : Action W A) (f : A → Action W B) (w : W) where
  pub bind-ok : (a : A) → (m w).0 ≡ ok a → (m >>= f) w ≡ f a (m w).1
  unfolding ◌>>=◌
  bind-ok a h = rw (h, ◌>>=◌)

  pub bind-err : (e : Error) → (m w).0 ≡ err e → (m >>= f) w ≡ (err e, (m w).1)
  unfolding ◌>>=◌
  bind-err e h = rw (h, ◌>>=◌)

-- The action answers with a value.
abbrev pub Returns : {W A : Type 0} → Action W A → W → Type 0
Returns {A = A} m w = (a : A) × ((m w).0 ≡ ok a)

module _ {W A B : Type 0} where
  pub bind-Returns :
      (m : Action W A) (f : A → Action W B) (w : W)
      → Returns m w
      → ((a : A) → (m w).0 ≡ ok a → Returns (f a) (m w).1)
      → Returns (m >>= f) w
  bind-Returns m f w (a, h) rest =
      let (b, e) = rest a h in (b, ap (λ (r : Result B × W). r.0) (bind-ok m f w a h) ∙ e)

module _ {W A : Type 0} where
  pub on_error-Returns :
      (g : Error → Error) (m : Action W A) (w : W) → Returns m w → Returns (on_error g m) w
  unfolding on_error
  on_error-Returns g m w (a, h) = (a, rw (h, on_error))

module _ {W A : Type 0} (g : Error → Error) (m : Action W A) (w : W) where
  pub on_error-ok : (a : A) → (m w).0 ≡ ok a → on_error g m w ≡ (ok a, (m w).1)
  unfolding on_error
  on_error-ok a h = rw (h, on_error)

  pub on_error-err : (e : Error) → (m w).0 ≡ err e → on_error g m w ≡ (err (g e), (m w).1)
  unfolding on_error
  on_error-err e h = rw (h, on_error)
