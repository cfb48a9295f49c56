-- ===== src/Vpn/System/Ticks.antt =====
-- The wrap-around of the processor's counters, and the length of a sample.
use vpn_backend.Base.{
  ℕ, suc, false, ◌+◌, ◌-◌, ◌%◌, ◌≤◌, ◌<◌, Bool, List, [], ◌∷◌, String, str_eq, length, ltb, ◌||◌,
  not, ◌≡◌, refl, sym, ap, ◌∙◌, arith, if_eq_rule,
}
use vpn_backend.Base.Int.{full_range}
use vpn_backend.Action.{Result, ok, err}
use vpn_backend.Vpn.System.{Host, total_ticks, sub_uint64, sample_of, parse_values}

-- The sum, with no bound.
abbrev pub all_ticks : List ℕ → ℕ
all_ticks [] = 0
all_ticks (v ∷ vs) = v + all_ticks vs

total_ticks_from :
    (vs : List ℕ) (total : ℕ)
    → total < full_range
    → total_ticks vs total ≡ (total + all_ticks vs) % full_range
unfolding total_ticks
total_ticks_from [] total h = omega arith
total_ticks_from (v ∷ vs) total h =
    total_ticks_from vs ((total + v) % full_range) (omega arith) ∙ omega arith

-- However often the counters of the processor have wrapped around: the difference of the two totals is
-- the number of ticks between the samples, if that is less than 2 ^ 64.
pub total_ticks_delta :
    (before after : List ℕ)
    → all_ticks before ≤ all_ticks after
    → all_ticks after - all_ticks before < full_range
    → sub_uint64 (total_ticks after 0) (total_ticks before 0) ≡ all_ticks after - all_ticks before
total_ticks_delta before after h few =
    let a = total_ticks_from after 0 (omega arith) in
    let b = total_ticks_from before 0 (omega arith) in rw (a, b) (omega arith)

module _ {W : Type 0} (host : Host W) where
  parse_values-length :
      (fs : List String) (vs : List ℕ) → parse_values host fs ≡ ok vs → length vs ≡ length fs
  unfolding parse_values
  parse_values-length [] vs h = let e : [] ≡ vs = cc h in ap length (sym e)
  parse_values-length (f ∷ fs) vs h =
      go (host.parse_uint f) (parse_values host fs) (λ us same. parse_values-length fs us same) h
    where
      go :
          (v : Result ℕ) (rest : Result (List ℕ))
          → ((us : List ℕ) → rest ≡ ok us → length us ≡ length fs)
          → (elim v as (λ _. Result (List ℕ)) [
            | err e ↦ err e
            | ok v ↦ elim rest as (λ _. Result (List ℕ)) [ err e ↦ err e | ok vs ↦ ok (v ∷ vs) ]
          ])
            ≡ ok vs
          → length vs ≡ suc (length fs)
      go (err e) rest tail k = absurd (cc k)
      go (ok v) (err e) tail k = absurd (cc k)
      go (ok v) (ok us) tail k =
          let e : v ∷ us ≡ vs = cc k in ap length (sym e) ∙ ap suc (tail us refl)

  -- A sample that is read has four values at least, so that `values[3]` is one of them.
  pub sample_of_long : (fs : List String) (vs : List ℕ) → sample_of host fs ≡ ok vs → 4 ≤ length vs
  unfolding sample_of
  sample_of_long [] vs = λ h. absurd (cc h)
  sample_of_long (name ∷ rest) vs =
      if_eq_rule (λ r. r ≡ ok vs → 4 ≤ length vs) (ltb (length rest) 4 || not (str_eq name "cpu"))
        (λ _ h. absurd (cc h))
        (λ enough h.
          let same = parse_values-length rest vs h in
          let many : 4 ≤ length rest = long (length rest) (not (str_eq name "cpu")) enough in
          omega (arith, same, many))
    where
      long : (n : ℕ) (b : Bool) → (ltb n 4 || b) ≡ false → 4 ≤ n
      long n b h = ground arith
