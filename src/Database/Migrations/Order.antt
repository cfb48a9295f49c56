-- ===== src/Database/Migrations/Order.antt =====
-- The files of the migrations, in the order of their names.
use mathlib.Core.List.Permᴰ
use mathlib.Core.List.{Permᴰ}
use vpn_backend.Base.{true, List, [], ◌∷◌, String, ◌≡◌, refl, inl, inr, Bool-cases}
use vpn_backend.Text.{leb_text, leb_text_total}
use vpn_backend.Database.Migrations.{insert, sort_files}

-- No file comes before the one in front of it.
abbrev pub IsAfter : String × String → List (String × String) → Type 0
IsAfter x [] = Unit
IsAfter x (y ∷ ys) = leb_text x.0 y.0 ≡ true

abbrev pub IsSorted : List (String × String) → Type 0
IsSorted [] = Unit
IsSorted (x ∷ xs) = IsAfter x xs × IsSorted xs

insert-IsAfter :
    (x y : String × String) (ys : List (String × String))
    → leb_text y.0 x.0 ≡ true
    → IsAfter y ys
    → IsAfter y (insert x ys)
unfolding insert
insert-IsAfter x y [] before h = before
insert-IsAfter x y (z ∷ zs) before h = elim (Bool-cases (leb_text x.0 z.0)) [
  | inl first ↦ rw first before
  | inr later ↦ rw later h
]

insert-IsSorted :
    (x : String × String) (ys : List (String × String)) → IsSorted ys → IsSorted (insert x ys)
unfolding insert
insert-IsSorted x [] h = (tt, tt)
insert-IsSorted x (y ∷ ys) (after, rest) = elim (Bool-cases (leb_text x.0 y.0)) [
  | inl first ↦ rw first (first, (after, rest))
  | inr later ↦
      rw later
        (insert-IsAfter x y ys (leb_text_total x.0 y.0 later) after, insert-IsSorted x ys rest)
]

insert-Permᴰ : (x : String × String) (ys : List (String × String)) → Permᴰ (x ∷ ys) (insert x ys)
unfolding insert
insert-Permᴰ x [] = Permᴰ.refl (x ∷ [])
insert-Permᴰ x (y ∷ ys) = elim (Bool-cases (leb_text x.0 y.0)) [
  | inl first ↦ rw first (Permᴰ.refl (x ∷ y ∷ ys))
  | inr later ↦ rw later (Permᴰ.trans (Permᴰ.swap refl refl) (Permᴰ.cons refl (insert-Permᴰ x ys)))
]

pub sort_files-IsSorted : (fs : List (String × String)) → IsSorted (sort_files fs)
unfolding sort_files
sort_files-IsSorted [] = tt
sort_files-IsSorted (f ∷ fs) = insert-IsSorted f (sort_files fs) (sort_files-IsSorted fs)

pub sort_files-Permᴰ : (fs : List (String × String)) → Permᴰ fs (sort_files fs)
unfolding sort_files
sort_files-Permᴰ [] = Permᴰ.nil
sort_files-Permᴰ (f ∷ fs) =
    Permᴰ.trans (Permᴰ.cons refl (sort_files-Permᴰ fs)) (insert-Permᴰ f (sort_files fs))
