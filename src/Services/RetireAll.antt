-- ===== src/Services/RetireAll.antt =====
-- The effect of taking a list of keys out of service one after the other, as a function on views,
-- and what it comes to when the list was selected from the table.
use mathlib.Core.List.{Memᴰ}
use vpn_backend.Base.{
  true, false, some, List, [], ◌∷◌, String, eq_iff, ◌≡◌, ◌≢◌, refl, sym, ap, ◌∙◌, subst, inl, inr,
  arith, Bool-cases, All, ◌==◌, ==_iff, if◌then◌else◌,
}
use vpn_backend.Models.{Uuid, AccessKey, is_active_key}
use vpn_backend.Database.View.{View}
use vpn_backend.Database.Laws.{Distinct}
use vpn_backend.Database.Backing.{IsBacked}
use vpn_backend.Services.Retire.{retired, retired-IsBacked}

-- The write of a loop changes the status of the row and leaves what identifies it.
pub record IsMark (mark : AccessKey → AccessKey) : Type 0 where
  pub keeps_id : (k : AccessKey) → (mark k).id ≡ k.id
  pub keeps_reference : (k : AccessKey) → (mark k).secret_reference ≡ k.secret_reference

-- The row at the identifier of `x` refers to the data plane's key that `x` refers to.
abbrev pub IsCurrent : View → AccessKey → Type 0
IsCurrent v x =
    (k : AccessKey) × (v.access_keys x.id ≡ some k) × (k.secret_reference ≡ x.secret_reference)

module _ (mark : AccessKey → AccessKey) where
  abbrev pub retire_one : AccessKey → View → View
  retire_one k v = retired k.secret_reference (mark k) v

  abbrev pub retire_all : List AccessKey → View → View
  retire_all [] v = v
  retire_all (k ∷ ks) v = retire_all ks (if is_active_key k.status then retire_one k v else v)

  module _ (is_mark : IsMark mark) where
    pub retire_one-IsBacked :
        (k : AccessKey) (v : View) → IsCurrent v k → IsBacked v → IsBacked (retire_one k v)
    retire_one-IsBacked k v (k₀, stored, same) h =
        subst (λ r. IsBacked (retired r (mark k) v)) same
          (retired-IsBacked k₀ (mark k) v (ap v.access_keys (is_mark.keeps_id k) ∙ stored) h)

    retire_one-IsCurrent :
        (k x : AccessKey) (v : View) → IsCurrent v k → IsCurrent v x → IsCurrent (retire_one k v) x
    retire_one-IsCurrent k x v (k₀, at_k, same_k) (x₀, at_x, same_x) =
        elim (Bool-cases ((mark k).id == x.id)) [
          | inl here ↦
              let e : k.id ≡ x.id = sym (is_mark.keeps_id k) ∙ (==_iff (mark k).id x.id).0 here in
              let one : k₀ ≡ x₀ = cc (ap v.access_keys e, at_k, at_x) in
              (
                mark k,
                rw here refl,
                is_mark.keeps_reference k
                    ∙ sym same_k
                    ∙ ap (λ (y : AccessKey). y.secret_reference) one
                    ∙ same_x,
              )
          | inr there ↦ (x₀, rw there at_x, same_x)
        ]

    pub retire_one-All :
        (k : AccessKey) (ks : List AccessKey) (v : View)
        → IsCurrent v k
        → All (IsCurrent v) ks
        → All (IsCurrent (retire_one k v)) ks
    retire_one-All k [] v h _ = tt
    retire_one-All k (x ∷ ks) v h (hx, hs) =
        (retire_one-IsCurrent k x v h hx, retire_one-All k ks v h hs)

    -- A row whose key no list entry takes out of service stays.
    pub retire_all-other :
        (ks : List AccessKey) (v : View) (i : Uuid)
        → All (λ x. x.id ≡ i → is_active_key x.status ≡ false) ks
        → (retire_all ks v).access_keys i ≡ v.access_keys i
    retire_all-other [] v i _ = refl
    retire_all-other (k ∷ ks) v i (idle, rest) = elim (Bool-cases (is_active_key k.status)) [
      | inl on ↦
          rw (on, retire_all)
            (retire_all-other ks (retire_one k v) i rest ∙ elim (Bool-cases ((mark k).id == i)) [
              | inl here ↦
                  let e : k.id ≡ i = sym (is_mark.keeps_id k) ∙ (==_iff (mark k).id i).0 here in
                  absurd (cc (sym on ∙ idle e))
              | inr there ↦ rw there
            ])
      | inr off ↦ rw (off, retire_all) (retire_all-other ks v i rest)
    ]

    distinct_other :
        (k : AccessKey) (ks : List AccessKey)
        → All (λ x. k.id ≢ x.id) ks
        → All (λ x. x.id ≡ k.id → is_active_key x.status ≡ false) ks
    distinct_other k [] _ = tt
    distinct_other k (x ∷ ks) (other, rest) =
        ((λ e. absurd (other (sym e))), distinct_other k ks rest)

    -- An ACTIVE entry of the list has its row marked.
    pub retire_all-marked :
        (ks : List AccessKey) (v : View) (k : AccessKey)
        → Distinct (λ x. x.id) ks
        → Memᴰ k ks
        → is_active_key k.status ≡ true
        → (retire_all ks v).access_keys k.id ≡ some (mark k)
    retire_all-marked [] v k _ m on = elim m [ ]
    retire_all-marked (x ∷ ks) v k (other, distinct) (Memᴰ.head e) on =
        rw (e, subst (λ y. is_active_key y.status ≡ true) e on, retire_all)
          (retire_all-other ks (retire_one x v) x.id (distinct_other x ks other)
            ∙ rw ((==_iff (mark x).id x.id).1 (is_mark.keeps_id x)))
    retire_all-marked (x ∷ ks) v k (other, distinct) (Memᴰ.tail m) on =
        retire_all-marked ks _ k distinct m on

  -- The data plane only loses keys.
  pub retire_all-live :
      (ks : List AccessKey) (v : View) (r : String)
      → (retire_all ks v).live r ≡ true
      → v.live r ≡ true
  retire_all-live [] v r h = h
  retire_all-live (k ∷ ks) v r h =
      let before = retire_all-live ks (if is_active_key k.status then retire_one k v else v) r h in
      elim (Bool-cases (is_active_key k.status)) [
        | inl on ↦ ground (arith, before, on)
        | inr off ↦ ground (arith, before, off)
      ]

  -- It loses the credential of each ACTIVE entry.
  pub retire_all-cut :
      (ks : List AccessKey) (v : View) (k : AccessKey)
      → Memᴰ k ks
      → is_active_key k.status ≡ true
      → (retire_all ks v).live k.secret_reference ≡ false
  retire_all-cut [] v k m on = elim m [ ]
  retire_all-cut (x ∷ ks) v k (Memᴰ.head e) on =
      elim (Bool-cases ((retire_all (x ∷ ks) v).live k.secret_reference)) [
        | inl served ↦
            let on' = subst (λ y. is_active_key y.status ≡ true) e on in
            let before =
              retire_all-live ks (retire_one x v) k.secret_reference
                (rw (on', retire_all) at served) in
            ground (
              arith,
              before,
              ap (λ (y : AccessKey). y.secret_reference) e,
              eq_iff x.secret_reference k.secret_reference,
            )
        | inr cut ↦ cut
      ]
  retire_all-cut (x ∷ ks) v k (Memᴰ.tail m) on = retire_all-cut ks _ k m on

  -- It keeps every credential that no ACTIVE entry refers to.
  pub retire_all-spared :
      (ks : List AccessKey) (v : View) (r : String)
      → All (λ x. is_active_key x.status ≡ true → x.secret_reference ≢ r) ks
      → (retire_all ks v).live r ≡ v.live r
  retire_all-spared [] v r _ = refl
  retire_all-spared (k ∷ ks) v r (other, rest) = elim (Bool-cases (is_active_key k.status)) [
    | inl on ↦
        rw (on, retire_all)
          (retire_all-spared ks (retire_one k v) r rest
            ∙ ground (arith, eq_iff k.secret_reference r, other on))
    | inr off ↦ rw (off, retire_all) (retire_all-spared ks v r rest)
  ]
