-- ===== src/Testing/Codec.antt =====
-- A codec of texts and bytes: a character as its number, and a number as a run of characters.
use Prim.Native.Nat.{Ordering, compare}
use Prim.Native.Char.{Char, char, code, nul, IsLt, IsScalar}
use Prim.Native.String.{[] as []ˢ, ◌∷◌ as ◌∷ˢ◌}
use vpn_backend.Base.{
  ℕ, zero, suc, ◌+◌, [], ◌∷◌, Option, none, some, String, ◌≡◌, refl, ap, ◌∙◌, arith,
}
use vpn_backend.Action.{Result, ok, err}
use vpn_backend.Platform.{Bytes}

abbrev Both : Ordering → Ordering → Type 0
Both Ordering.lt o = IsLt o
Both Ordering.eq _ = ⊥
Both Ordering.gt _ = ⊥

abbrev Scalar : Ordering → Ordering → Ordering → Type 0
Scalar Ordering.lt _ _ = Unit
Scalar Ordering.eq o p = Both o p
Scalar Ordering.gt o p = Both o p

abbrev is_lt : (o : Ordering) → Option (IsLt o)
is_lt Ordering.lt = some tt
is_lt Ordering.eq = none
is_lt Ordering.gt = none

abbrev is_both : (o p : Ordering) → Option (Both o p)
is_both Ordering.lt p = is_lt p
is_both Ordering.eq _ = none
is_both Ordering.gt _ = none

abbrev is_scalar : (o p q : Ordering) → Option (Scalar o p q)
is_scalar Ordering.lt _ _ = some tt
is_scalar Ordering.eq p q = is_both p q
is_scalar Ordering.gt p q = is_both p q

is_lt_at : (o : Ordering) (h : IsLt o) → is_lt o ≡ some h
is_lt_at Ordering.lt h = refl
is_lt_at Ordering.eq h = elim h [ ]
is_lt_at Ordering.gt h = elim h [ ]

is_both_at : (o p : Ordering) (h : Both o p) → is_both o p ≡ some h
is_both_at Ordering.lt p h = is_lt_at p h
is_both_at Ordering.eq p h = elim h [ ]
is_both_at Ordering.gt p h = elim h [ ]

is_scalar_at : (o p q : Ordering) (h : Scalar o p q) → is_scalar o p q ≡ some h
is_scalar_at Ordering.lt p q h = refl
is_scalar_at Ordering.eq p q h = is_both_at p q h
is_scalar_at Ordering.gt p q h = is_both_at p q h

abbrev char_or_nul : (n : ℕ) → Option (IsScalar n) → Char
char_or_nul n none = nul
char_or_nul n (some h) = char n h

abbrev of_code : ℕ → Char
of_code n = char_or_nul n (is_scalar (compare n 55296) (compare 57343 n) (compare n 1114112))

of_code-code : (c : Char) → of_code (code c) ≡ c
of_code-code (char n h) =
    ap (char_or_nul n) (is_scalar_at (compare n 55296) (compare 57343 n) (compare n 1114112) h)

abbrev pub bytes_of : String → Bytes
bytes_of []ˢ = []
bytes_of (c ∷ˢ s) = code c ∷ bytes_of s

abbrev pub text_of : Bytes → String
text_of [] = []ˢ
text_of (b ∷ bs) = of_code b ∷ˢ text_of bs

pub text_of-bytes_of : (s : String) → text_of (bytes_of s) ≡ s
text_of-bytes_of []ˢ = refl
text_of-bytes_of (c ∷ˢ s) =
    ap (λ d. d ∷ˢ text_of (bytes_of s)) (of_code-code c) ∙ ap (λ t. c ∷ˢ t) (text_of-bytes_of s)

-- A number `n` is `n` characters 1 and a character 0.
abbrev run : ℕ → String → String
run zero s = char 0 tt ∷ˢ s
run (suc n) s = char 1 tt ∷ˢ run n s

abbrev pub runs : Bytes → String
runs [] = []ˢ
runs (b ∷ bs) = run b (runs bs)

abbrev closed : ℕ → Result Bytes → Result Bytes
closed n (ok bs) = ok (n ∷ bs)
closed n (err e) = err e

abbrev unrun : ℕ → String → Result Bytes
unrun n []ˢ = ok []
unrun n (char zero _ ∷ˢ s) = closed n (unrun zero s)
unrun n (char (suc _) _ ∷ˢ s) = unrun (suc n) s

abbrev pub unruns : String → Result Bytes
unruns s = unrun zero s

unrun-run : (m n k : ℕ) (s : String) → n + m ≡ k → unrun m (run n s) ≡ closed k (unrun zero s)
unrun-run m zero k s e = ap (λ x. closed x (unrun zero s)) (omega arith)
unrun-run m (suc n) k s e = unrun-run (suc m) n k s (omega arith)

pub unruns-runs : (bs : Bytes) → unruns (runs bs) ≡ ok bs
unruns-runs [] = refl
unruns-runs (b ∷ bs) = unrun-run zero b b (runs bs) (omega arith) ∙ ap (closed b) (unruns-runs bs)
