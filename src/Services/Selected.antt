-- ===== src/Services/Selected.antt =====
-- Taking out of service a list of keys that was selected from the table by a test: row by row, the
-- ACTIVE rows that pass the test are marked and the others stay.
use vpn_backend.Base.{
  Bool, true, false, Option, none, some, List, String, ◌≡◌, ◌≢◌, refl, sym, ap, ◌∙◌, inl, inr,
  arith, Bool-cases, All, All-map, ◌&&◌,
}
use vpn_backend.Models.{Uuid, AccessKey, is_active_key}
use vpn_backend.Database.View.{View, change}
use vpn_backend.Database.Laws.{Selects}
use vpn_backend.Services.RetireAll.{
  IsMark, IsCurrent, retire_all, retire_all-other, retire_all-marked, retire_all-cut,
  retire_all-spared,
}

abbrev pub marks : (AccessKey → Bool) → AccessKey → Bool
marks p k = p k && is_active_key k.status

module _ (mark : AccessKey → AccessKey) (is_mark : IsMark mark) (p : AccessKey → Bool) (v : View)
    (ks : List AccessKey) (selected : Selects (λ k. k.id) p v.access_keys ks)
    (keyed : (i : Uuid) (k : AccessKey) → v.access_keys i ≡ some k → k.id ≡ i) where
  pub selected-IsCurrent : All (IsCurrent v) ks
  selected-IsCurrent = All-map ks (λ x h. (x, h.0, refl)) selected.sound

  same_row :
      (i : Uuid) (o : Option AccessKey)
      → v.access_keys i ≡ o
      → All (λ x. x.id ≡ i → o ≡ some x × (p x ≡ true)) ks
  same_row i o e =
      All-map ks (λ x h at. (sym e ∙ ap v.access_keys (sym at) ∙ h.0, h.1)) selected.sound

  -- The rows after the loop.
  pub retire_selected :
      (i : Uuid) → (retire_all mark ks v).access_keys i ≡ change (marks p) mark (v.access_keys i)
  retire_selected i = go (v.access_keys i) refl
    where
      kept :
          (k : AccessKey)
          → v.access_keys i ≡ some k
          → marks p k ≡ false
          → (retire_all mark ks v).access_keys i ≡ some k
      kept k e off =
          retire_all-other mark is_mark ks v i
            (All-map ks (λ x h at. ground (arith, (h at).0, (h at).1)) (same_row i (some k) e))
          ∙ e

      go :
          (o : Option AccessKey)
          → v.access_keys i ≡ o
          → (retire_all mark ks v).access_keys i ≡ change (marks p) mark o
      go none e =
          retire_all-other mark is_mark ks v i
            (All-map ks (λ x h at. absurd (cc (h at).0)) (same_row i none e))
          ∙ e
      go (some k) e = elim (Bool-cases (marks p k)) [
        | inl on ↦
            let passes : (p k ≡ true) × (is_active_key k.status ≡ true) = ground arith in
            let member = selected.complete i k e passes.0 in
            rw on (
              ap (retire_all mark ks v).access_keys (sym (keyed i k e))
              ∙ retire_all-marked mark is_mark ks v k selected.distinct member passes.1)
        | inr off ↦ rw off (kept k e off)
      ]

  -- The data plane after the loop: without the credentials of the ACTIVE rows that pass.
  pub retire_selected-cut :
      (i : Uuid) (k : AccessKey)
      → v.access_keys i ≡ some k
      → p k ≡ true
      → is_active_key k.status ≡ true
      → (retire_all mark ks v).live k.secret_reference ≡ false
  retire_selected-cut i k stored pass on =
      retire_all-cut mark ks v k (selected.complete i k stored pass) on

  -- With all others.
  pub retire_selected-spared :
      (r : String)
      → ((i : Uuid) (k : AccessKey)
          → v.access_keys i ≡ some k
          → marks p k ≡ true
          → k.secret_reference ≢ r)
      → (retire_all mark ks v).live r ≡ v.live r
  retire_selected-spared r other =
      retire_all-spared mark ks v r
        (All-map ks (λ x h on. other x.id x h.0 (rw (h.1, on) refl)) selected.sound)
