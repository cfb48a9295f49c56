-- ===== src/Config/RoundTrip.antt =====
-- `splitCSV` on lists that are joined by commas.
use Prim.Native.Char.{Char, code}
use Prim.Native.String.{[] as []ˢ, ◌∷◌ as ◌∷ˢ◌, ◌++◌ as ◌++ˢ◌}
use Prim.Native.String.append
use vpn_backend.Base.{
  Bool, true, false, List, [], ◌∷◌, String, str_eq, eq_iff, ◌==◌, ◌≡◌, ◌≢◌, refl, ap, ◌∙◌, All,
  if◌then◌else◌, Bool-cases, inl, inr,
}
use vpn_backend.Text.{trim_space, split, cons_part}
use vpn_backend.Config.{keep_parts, split_csv}

abbrev comma : Char
comma = ","

-- The parts with a comma between each two.
abbrev pub join : List String → String
join [] = ""
join (p ∷ []) = p
join (p ∷ q ∷ ps) = p ++ˢ (comma ∷ˢ join (q ∷ ps))

abbrev pub has_comma : String → Bool
has_comma []ˢ = false
has_comma (c ∷ˢ s) = if code c == 44 then true else has_comma s

-- A part that `splitCSV` leaves as it is.
pub record IsPart (s : String) : Type 0 where
  pub no_comma : has_comma s ≡ false
  pub trimmed : trim_space s ≡ s
  pub not_empty : s ≢ ""

split-append : (p s : String) → has_comma p ≡ false → split 44 (p ++ˢ (comma ∷ˢ s)) ≡ p ∷ split 44 s
unfolding split
split-append []ˢ s h = ap (split 44) (λ i. append.nil (comma ∷ˢ s) i)
split-append (c ∷ˢ p) s h = elim (Bool-cases (code c == 44)) [
  | inl e ↦ absurd (cc (rw e at h))
  | inr e ↦
      let rest = split-append p s (rw e at h) in
      ap (split 44) (λ i. append.cons c p (comma ∷ˢ s) i) ∙ rw e (ap (cons_part c) rest)
]

split_whole : (p : String) → has_comma p ≡ false → split 44 p ≡ p ∷ []
unfolding split
split_whole []ˢ h = refl
split_whole (c ∷ˢ p) h = elim (Bool-cases (code c == 44)) [
  | inl e ↦ absurd (cc (rw e at h))
  | inr e ↦ rw e (ap (cons_part c) (split_whole p (rw e at h)))
]

split-join :
    (p : String) (ps : List String) → All IsPart (p ∷ ps) → split 44 (join (p ∷ ps)) ≡ p ∷ ps
split-join p [] (h, _) = split_whole p h.no_comma
split-join p (q ∷ ps) (h, hs) =
    split-append p (join (q ∷ ps)) h.no_comma ∙ ap (λ qs. p ∷ qs) (split-join q ps hs)

keep_all : (ps : List String) → All IsPart ps → keep_parts ps ≡ ps
unfolding keep_parts
keep_all [] h = refl
keep_all (p ∷ ps) (h, hs) =
    let full : str_eq p "" ≡ false = elim (Bool-cases (str_eq p "")) [
      | inl e ↦ absurd (h.not_empty ((eq_iff p "").0 e))
      | inr e ↦ e
    ] in
    rw (h.trimmed, full) (ap (λ qs. p ∷ qs) (keep_all ps hs))

-- Parts that are not empty, with no comma and no white space around them: joined by commas, they are
-- read back as they were.
pub split_csv-join : (ps : List String) → All IsPart ps → split_csv (join ps) ≡ ps
unfolding split_csv keep_parts split trim_space
split_csv-join [] h = refl
split_csv-join (p ∷ ps) h = ap keep_parts (split-join p ps h) ∙ keep_all (p ∷ ps) h
