-- ===== src/Testing/Rows.antt =====
-- A table as a list of rows, of which the first with a given identifier counts.
use mathlib.Core.List.{Memᴰ}
use vpn_backend.Base.{
  Bool, true, none, some, List, [], ◌∷◌, map, ◌≡◌, ◌≢◌, refl, sym, ap, ◌∙◌, fun_ext, inl, inr,
  arith, Bool-cases, All, All-map, keep, ◌==◌, ==_iff, if◌then◌else◌,
}
use vpn_backend.Models.{Uuid}
use vpn_backend.Database.View.{Rows, remove, drop_rows, change_rows}
use vpn_backend.Database.Laws.{Selects, Distinct}

module _ {Row : Type 0} (id : Row → Uuid) where
  abbrev pub look : List Row → Rows Row
  look [] i = none
  look (r ∷ rs) i = if id r == i then some r else look rs i

  abbrev pub drop_id : Uuid → List Row → List Row
  drop_id i [] = []
  drop_id i (r ∷ rs) = if id r == i then drop_id i rs else r ∷ drop_id i rs

  -- Without the rows that pass, and those that they hide.
  abbrev pub drop_where : (Row → Bool) → List Row → List Row
  drop_where p [] = []
  drop_where p (r ∷ rs) =
      let rest = drop_where p rs in if p r then drop_id (id r) rest else r ∷ rest

  abbrev pub visible : List Row → List Row
  visible [] = []
  visible (r ∷ rs) = r ∷ drop_id (id r) (visible rs)

  abbrev pub amend : (Row → Bool) → (Row → Row) → List Row → List Row
  amend p f rs = map (λ r. if p r then f r else r) rs

  pub look_keyed : (rs : List Row) (i : Uuid) (r : Row) → look rs i ≡ some r → id r ≡ i
  look_keyed [] i r h = cc
  look_keyed (x ∷ rs) i r h = ground (arith, look_keyed rs i r)

  pub look-drop_id : (i : Uuid) (rs : List Row) → look (drop_id i rs) ≡ remove i (look rs)
  look-drop_id i rs = fun_ext (λ j. at rs j)
    where
      at : (rs : List Row) (j : Uuid) → look (drop_id i rs) j ≡ remove i (look rs) j
      at [] j = ground arith
      at (x ∷ rs) j = ground (arith, at rs j)

  pub look-drop_where :
      (p : Row → Bool) (rs : List Row) → look (drop_where p rs) ≡ drop_rows p (look rs)
  look-drop_where p rs = fun_ext (λ j. at rs j)
    where
      at : (rs : List Row) (j : Uuid) → look (drop_where p rs) j ≡ drop_rows p (look rs) j
      at [] j = refl
      at (x ∷ rs) j = elim (Bool-cases (p x)) [
        | inl pass ↦
            let dropped = ap (λ f. f j) (look-drop_id (id x) (drop_where p rs)) in
            rw (pass, dropped) (ground (arith, at rs j, pass))
        | inr fail ↦ rw fail (ground (arith, at rs j, fail))
      ]

  pub look-amend :
      (p : Row → Bool) (f : Row → Row)
      → ((r : Row) → id (f r) ≡ id r)
      → (rs : List Row) → look (amend p f rs) ≡ change_rows p f (look rs)
  look-amend p f same rs = fun_ext (λ j. at rs j)
    where
      at : (rs : List Row) (j : Uuid) → look (amend p f rs) j ≡ change_rows p f (look rs) j
      at [] j = refl
      at (x ∷ rs) j = ground (arith, at rs j, same x)

  drop_id-All {κ} :
      (P : Row → Type κ) (i : Uuid) (rs : List Row)
      → All P rs
      → All (λ r. P r × (id r ≢ i)) (drop_id i rs)
  drop_id-All P i [] _ = tt
  drop_id-All P i (x ∷ rs) (h, hs) = elim (Bool-cases (id x == i)) [
    | inl same ↦ rw same (drop_id-All P i rs hs)
    | inr other ↦ rw other ((h, λ e. ground (arith, other, e)), drop_id-All P i rs hs)
  ]

  keep-All {κ} :
      (P : Row → Type κ) (p : Row → Bool) (rs : List Row)
      → All P rs
      → All (λ r. P r × (p r ≡ true)) (keep p rs)
  keep-All P p [] _ = tt
  keep-All P p (x ∷ rs) (h, hs) = elim (Bool-cases (p x)) [
    | inl pass ↦ rw pass ((h, pass), keep-All P p rs hs)
    | inr fail ↦ rw fail (keep-All P p rs hs)
  ]

  drop_id-Mem : (i : Uuid) (rs : List Row) (r : Row) → Memᴰ r rs → id r ≢ i → Memᴰ r (drop_id i rs)
  drop_id-Mem i [] r m h = elim m [ ]
  drop_id-Mem i (x ∷ rs) r (Memᴰ.head e) h = elim (Bool-cases (id x == i)) [
    | inl same ↦ absurd (h (ap id e ∙ (==_iff (id x) i).0 same))
    | inr other ↦ rw other (Memᴰ.head e)
  ]
  drop_id-Mem i (x ∷ rs) r (Memᴰ.tail m) h = elim (Bool-cases (id x == i)) [
    | inl same ↦ rw same (drop_id-Mem i rs r m h)
    | inr other ↦ rw other (Memᴰ.tail (drop_id-Mem i rs r m h))
  ]

  keep-Mem :
      (p : Row → Bool) (rs : List Row) (r : Row) → Memᴰ r rs → p r ≡ true → Memᴰ r (keep p rs)
  keep-Mem p [] r m h = elim m [ ]
  keep-Mem p (x ∷ rs) r (Memᴰ.head e) h = rw (sym (ap p e) ∙ h) (Memᴰ.head e)
  keep-Mem p (x ∷ rs) r (Memᴰ.tail m) h = elim (Bool-cases (p x)) [
    | inl pass ↦ rw pass (Memᴰ.tail (keep-Mem p rs r m h))
    | inr fail ↦ rw fail (keep-Mem p rs r m h)
  ]

  drop_id-Distinct : (i : Uuid) (rs : List Row) → Distinct id rs → Distinct id (drop_id i rs)
  drop_id-Distinct i [] _ = tt
  drop_id-Distinct i (x ∷ rs) (h, hs) = elim (Bool-cases (id x == i)) [
    | inl same ↦ rw same (drop_id-Distinct i rs hs)
    | inr other ↦ rw other (
      All-map (drop_id i rs) (λ r q. q.0) (drop_id-All (λ s. id x ≢ id s) i rs h),
      drop_id-Distinct i rs hs,
    )
  ]

  keep-Distinct : (p : Row → Bool) (rs : List Row) → Distinct id rs → Distinct id (keep p rs)
  keep-Distinct p [] _ = tt
  keep-Distinct p (x ∷ rs) (h, hs) = elim (Bool-cases (p x)) [
    | inl pass ↦ rw pass (
      All-map (keep p rs) (λ r q. q.0) (keep-All (λ s. id x ≢ id s) p rs h),
      keep-Distinct p rs hs,
    )
    | inr fail ↦ rw fail (keep-Distinct p rs hs)
  ]

  visible_sound : (rs : List Row) → All (λ r. look rs (id r) ≡ some r) (visible rs)
  visible_sound [] = tt
  visible_sound (x ∷ rs) = (
    rw ((==_iff (id x) (id x)).1 refl) refl,
    All-map (drop_id (id x) (visible rs)) (λ r q. ground (arith, q.0, q.1))
        (drop_id-All (λ r. look rs (id r) ≡ some r) (id x) (visible rs) (visible_sound rs)),
  )

  visible_complete : (rs : List Row) (i : Uuid) (r : Row) → look rs i ≡ some r → Memᴰ r (visible rs)
  visible_complete [] i r h = absurd (cc h)
  visible_complete (x ∷ rs) i r h = elim (Bool-cases (id x == i)) [
    | inl same ↦ Memᴰ.head (ground arith)
    | inr other ↦
        let h' : look rs i ≡ some r = ground arith in
        let at = look_keyed rs i r h' in
        Memᴰ.tail (
          drop_id-Mem (id x) (visible rs) r (visible_complete rs i r h')
            (λ e. ground (arith, other, e, at)))
  ]

  visible-Distinct : (rs : List Row) → Distinct id (visible rs)
  visible-Distinct [] = tt
  visible-Distinct (x ∷ rs) = (
    All-map (drop_id (id x) (visible rs)) (λ r q e. q.1 (sym e))
        (drop_id-All (λ r. look rs (id r) ≡ some r) (id x) (visible rs) (visible_sound rs)),
    drop_id-Distinct (id x) (visible rs) (visible-Distinct rs),
  )

  pub keep-Selects : (p : Row → Bool) (rs : List Row) → Selects id p (look rs) (keep p (visible rs))
  keep-Selects p rs = record {
    sound = keep-All (λ r. look rs (id r) ≡ some r) p (visible rs) (visible_sound rs);
    complete = λ i r stored pass. keep-Mem p (visible rs) r (visible_complete rs i r stored) pass;
    distinct = keep-Distinct p (visible rs) (visible-Distinct rs);
  }
