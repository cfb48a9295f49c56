-- ===== src/Middleware/Limits.antt =====
-- The rate limiter: what the requests of the other clients leave of a client's limiter.
use vpn_backend.Base.{
  subst, Bool, true, false, none, some, List, [], ◌∷◌, String, str_eq, eq_iff, ◌≡◌, refl, sym, ap,
  ◌∙◌, ◌+◌, ℕ, inl, inr, Bool-cases, if◌then◌else◌,
}
use vpn_backend.Text.{lookup}
use vpn_backend.Middleware.{RateLimiter, limiter_for, take_token}

-- The map of the limiters is kept by what stores it, and time passes without it.
pub record LawfulLimiter {W L : Type 0} (rl : RateLimiter W L) (wait : ℕ → W → W) : Type 0 where
  pub stored : (ls : List (String × L)) (w : W) → rl.limiters (rl.set_limiters ls w) ≡ ls
  pub clock : (ls : List (String × L)) (w : W) → rl.now (rl.set_limiters ls w) ≡ rl.now w
  pub kept : (n : ℕ) (w : W) → rl.limiters (wait n w) ≡ rl.limiters w
  pub passed : (n : ℕ) (w : W) → rl.now (wait n w) ≡ rl.now w + n

module _ {W L : Type 0} (rl : RateLimiter W L) (wait : ℕ → W → W) (key : String) where
  -- The answers that the client `key` gets among the requests of many clients, each of which comes
  -- some time after the one before.
  unfoldable pub answers_among : List (ℕ × String) → W → List Bool
  answers_among [] w = []
  answers_among ((n, k) ∷ rest) w =
      let (allowed, w') = take_token rl k (wait n w) in
      let later = answers_among rest w' in if str_eq k key then allowed ∷ later else later

  -- Those it gets if the others make no request.
  unfoldable pub answers_alone : List (ℕ × String) → W → List Bool
  answers_alone [] w = []
  answers_alone ((n, k) ∷ rest) w =
      let (allowed, w') = take_token rl k (wait n w) in
      let later = answers_alone rest (if str_eq k key then w' else wait n w) in
      if str_eq k key then allowed ∷ later else later

  pick : List (String × L) → L
  pick ls = elim (lookup key ls) [ none ↦ rl.new_limiter | some l ↦ l ]

  pick-cons :
      (k : String) (l : L) (ls : List (String × L))
      → pick ((k, l) ∷ ls) ≡ (if str_eq k key then l else pick ls)
  unfolding pick
  pick-cons k l ls = go (str_eq k key)
    where
      go :
          (b : Bool)
          → (elim (if b then some l else lookup key ls) as (λ _. L) [
            | none ↦ rl.new_limiter
            | some x ↦ x
          ])
            ≡ (if b then l else pick ls)
      go true = refl
      go false = refl

  module _ (lawful : LawfulLimiter rl wait) where
    limiter_after :
        (k : String) (w : W)
        → limiter_for rl key (take_token rl k w).1 ≡ (
            if str_eq k key
            then (rl.allow (rl.now w) (limiter_for rl k w)).1
            else limiter_for rl key w)
    unfolding limiter_for take_token pick
    limiter_after k w = ap pick (lawful.stored _ w) ∙ pick-cons k _ (rl.limiters w)

    limiter_later : (n : ℕ) (w : W) → limiter_for rl key (wait n w) ≡ limiter_for rl key w
    unfolding limiter_for pick
    limiter_later n w = ap pick (lawful.kept n w)

    clock_after : (k : String) (w : W) → rl.now (take_token rl k w).1 ≡ rl.now w
    unfolding take_token
    clock_after k w = lawful.clock _ w

    -- Worlds with one clock that agree on the client's limiter.
    record Agree (w w' : W) : Type 0 where
      pub time : rl.now w ≡ rl.now w'
      pub limiter : limiter_for rl key w ≡ limiter_for rl key w'

    wait-Agree : (n : ℕ) (w w' : W) → Agree w w' → Agree (wait n w) (wait n w')
    wait-Agree n w w' a = record {
      time = lawful.passed n w ∙ ap (λ t. t + n) a.time ∙ sym (lawful.passed n w');
      limiter = limiter_later n w ∙ a.limiter ∙ sym (limiter_later n w');
    }

    mine-Agree :
        (w w' : W)
        → Agree w w'
        → ((take_token rl key w).0 ≡ (take_token rl key w').0)
          × Agree (take_token rl key w).1 (take_token rl key w').1
    unfolding take_token
    mine-Agree w w' a =
        let same : rl.allow (rl.now w) (limiter_for rl key w)
            ≡ rl.allow (rl.now w') (limiter_for rl key w') =
          ap (λ t. rl.allow t (limiter_for rl key w)) a.time
          ∙ ap (rl.allow (rl.now w')) a.limiter in
        let me : str_eq key key ≡ true = (eq_iff key key).1 refl in
        let left = limiter_after key w in
        let right = limiter_after key w' in
        (
          ap (λ (x : Bool × L). x.0) same,
          record {
            time = clock_after key w ∙ a.time ∙ sym (clock_after key w');
            limiter = (rw me at left) ∙ ap (λ (x : Bool × L). x.1) same ∙ sym (rw me at right);
          },
        )

    other-Agree :
        (k : String) (w w' : W) → str_eq k key ≡ false → Agree w w' → Agree (take_token rl k w).1 w'
    other-Agree k w w' other a = record {
      time = clock_after k w ∙ a.time;
      limiter = let after = limiter_after k w in (rw other at after) ∙ a.limiter;
    }

    agree :
        (reqs : List (ℕ × String)) (w w' : W)
        → Agree w w'
        → answers_among reqs w ≡ answers_alone reqs w'
    unfolding answers_among answers_alone
    agree [] w w' a = refl
    agree ((n, k) ∷ rest) w w' a = elim (Bool-cases (str_eq k key)) [
      | inl mine ↦
          let (same, a') =
            subst
              (λ x.
                ((take_token rl x (wait n w)).0 ≡ (take_token rl x (wait n w')).0)
                × Agree (take_token rl x (wait n w)).1 (take_token rl x (wait n w')).1)
              (sym ((eq_iff k key).0 mine)) (mine-Agree _ _ (wait-Agree n w w' a)) in
          let later = agree rest _ _ a' in rw mine (cc (same, later))
      | inr other ↦ rw other (agree rest _ _ (other-Agree k _ _ other (wait-Agree n w w' a)))
    ]

    -- Whatever the other clients ask, and whenever, a client gets the answers that it would get if they
    -- asked nothing.
    pub answers-among :
        (reqs : List (ℕ × String)) (w : W) → answers_among reqs w ≡ answers_alone reqs w
    answers-among reqs w = agree reqs w w (record { time = refl; limiter = refl })
