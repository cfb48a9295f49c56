-- ===== src/Text.antt =====
-- What the program uses of Go's package strings, and its maps by text: the first entry of a key counts.
use Prim.Native.Char.{Char, code}
use Prim.Native.String.{[] as []ˢ, ◌∷◌ as ◌∷ˢ◌}
use vpn_backend.Base.{
  eq_iff, ltb, refl, arith, ◌≡◌, ◌≢◌, ℕ, Bool, true, false, Option, none, some, List, [], ◌∷◌,
  String, str_eq, ◌==◌, ◌&&◌, ◌||◌, leb, if◌then◌else◌,
}

-- `unicode.IsSpace`
unfoldable pub is_space : ℕ → Bool
is_space c =
    (leb 9 c && leb c 13)
    || c == 32
    || c == 133
    || c == 160
    || c == 5760
    || (leb 8192 c && leb c 8202)
    || c == 8232
    || c == 8233
    || c == 8239
    || c == 8287
    || c == 12288

abbrev pub is_empty : String → Bool
is_empty []ˢ = true
is_empty (c ∷ˢ s) = false

unfoldable pub trim_left : String → String
trim_left []ˢ = []ˢ
trim_left (c ∷ˢ s) = if is_space (code c) then trim_left s else c ∷ˢ s

unfoldable pub trim_right : String → String
trim_right []ˢ = []ˢ
trim_right (c ∷ˢ s) =
    let rest = trim_right s in if is_empty rest && is_space (code c) then []ˢ else c ∷ˢ rest

-- `TrimSpace`
unfoldable pub trim_space : String → String
unfolding trim_left trim_right
trim_space s = trim_right (trim_left s)

-- What follows a prefix: `HasPrefix`, and then `TrimPrefix`.
unfoldable pub after_prefix : (prefix s : String) → Option String
after_prefix []ˢ s = some s
after_prefix (c ∷ˢ p) []ˢ = none
after_prefix (c ∷ˢ p) (d ∷ˢ s) = if code c == code d then after_prefix p s else none

-- A character in front of the first part.
abbrev pub cons_part : Char → List String → List String
cons_part c [] = (c ∷ˢ []ˢ) ∷ []
cons_part c (part ∷ parts) = (c ∷ˢ part) ∷ parts

-- `Split` at a separator of one character
unfoldable pub split : ℕ → String → List String
split sep []ˢ = []ˢ ∷ []
split sep (c ∷ˢ s) =
    let parts = split sep s in if code c == sep then []ˢ ∷ parts else cons_part c parts

-- Whether the text starts with a character that is not white space.
abbrev pub starts_word : String → Bool
starts_word []ˢ = false
starts_word (c ∷ˢ s) = if is_space (code c) then false else true

-- `Fields`
unfoldable pub fields : String → List String
fields []ˢ = []
fields (c ∷ˢ s) =
    let rest = fields s in
    if is_space (code c)
    then rest
    else if starts_word s
    then cons_part c rest
    else (c ∷ˢ []ˢ) ∷ rest

-- `TrimSuffix` of a colon
unfoldable pub before_colon : String → String
before_colon []ˢ = []ˢ
before_colon (c ∷ˢ s) = let rest = before_colon s in if str_eq (c ∷ˢ s) ":" then []ˢ else c ∷ˢ rest

module _ {A : Type 0} where
  abbrev pub lookup : String → List (String × A) → Option A
  lookup key [] = none
  lookup key ((k, a) ∷ rest) = if str_eq k key then some a else lookup key rest

pub str_eq-false : (s t : String) → str_eq s t ≡ false → s ≢ t
str_eq-false s t h e = let same = (eq_iff s t).1 e in absurd (cc (h, same))

-- The order of texts, character by character.
unfoldable pub leb_text : String → String → Bool
leb_text []ˢ t = true
leb_text (c ∷ˢ s) []ˢ = false
leb_text (c ∷ˢ s) (d ∷ˢ t) =
    let rest = leb_text s t in
    if ltb (code c) (code d) then true else if code c == code d then rest else false

pub leb_text_total : (s t : String) → leb_text s t ≡ false → leb_text t s ≡ true
unfolding leb_text
leb_text_total []ˢ t h = absurd (cc h)
leb_text_total (c ∷ˢ s) []ˢ h = refl
leb_text_total (c ∷ˢ s) (d ∷ˢ t) h = ground (arith, leb_text_total s t)
