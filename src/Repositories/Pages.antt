-- ===== src/Repositories/Pages.antt =====
-- What `normalize` of repositories.go makes of a request for a page.
use vpn_backend.Base.{
  ℕ, ◌-◌, ◌*◌, ◌≤◌, ◌<◌, ◌≡◌, ap, ◌∙◌, arith, inl, inr, Bool-cases, ltb, if◌then◌else◌,
}
use native.Mathlib.Nat.{mul-le-mul}
use vpn_backend.Base.Int.{ℤ, pos, negsuc, ltb_ℤ, ◌≤ℤ◌, half_range, ◌-64◌, ◌*64◌, -64-pos, *64-pos}
use vpn_backend.Repositories.{Pagination, normalize}

-- Whatever page and size a request asks for, the page is 1 at least and the size from 1 to 200.
pub normalize-bounds :
    (p : Pagination)
    → (pos 1 ≤ℤ (normalize p).page)
      × (pos 1 ≤ℤ (normalize p).page_size)
      × ((normalize p).page_size ≤ℤ pos 200)
unfolding normalize
normalize-bounds p = let (low, high) = clamped p.page_size in (from_one p.page, low, high)
  where
    from_one : (n : ℤ) → pos 1 ≤ℤ (if ltb_ℤ n (pos 1) then pos 1 else n)
    from_one (pos n) = ground arith
    from_one (negsuc n) = ground arith

    clamped :
        (n : ℤ)
        → let size = if ltb_ℤ n (pos 1) then pos 20 else n in
          let size = if ltb_ℤ (pos 200) size then pos 200 else size in
          (pos 1 ≤ℤ size) × (size ≤ℤ pos 200)
    clamped (pos n) = ground arith
    clamped (negsuc n) = ground arith

-- If the page asked for is at least 1 and no more than 2 ^ 63 / 200, the offset is the number of rows
-- on the pages before it, and its 64-bit arithmetic does not wrap around.
pub normalize-offset :
    (n : ℕ) (size : ℤ)
    → 1 ≤ n
    → n * 200 < half_range
    → (k : ℕ) × (1 ≤ k)
      × (k ≤ 200)
      × ((normalize (record { page = pos n; page_size = size })).page_size ≡ pos k)
      × ((normalize (record { page = pos n; page_size = size })).offset ≡ pos ((n - 1) * k))
unfolding normalize
normalize-offset n size h bound =
    let page : (if ltb_ℤ (pos n) (pos 1) then pos 1 else pos n) ≡ pos n = ground arith in
    let (k, low, high, same) = clamped size in
    let before : pos n -64 pos 1 ≡ pos (n - 1) = -64-pos n 1 h (omega arith) in
    let room : (n - 1) * k < half_range = omega (arith, product n k high) in
    let few : n - 1 < half_range = omega arith in
    let small : k < half_range = omega arith in
    let offset = *64-pos (n - 1) k few small room in
    (
      k,
      low,
      high,
      same,
      ap (λ x. (x -64 pos 1) *64 page_size_of size) page
          ∙ ap (λ x. x *64 page_size_of size) before
          ∙ ap (λ x. pos (n - 1) *64 x) same
          ∙ offset,
    )
  where
    page_size_of : ℤ → ℤ
    page_size_of n =
        let size = if ltb_ℤ n (pos 1) then pos 20 else n in
        if ltb_ℤ (pos 200) size then pos 200 else size

    product : (n k : ℕ) → k ≤ 200 → (n - 1) * k ≤ n * 200
    product n k h = mul-le-mul (omega arith) h

    clamped : (n : ℤ) → (k : ℕ) × (1 ≤ k) × (k ≤ 200) × (page_size_of n ≡ pos k)
    clamped (pos n) = elim (Bool-cases (ltb n 1)) [
      | inl small ↦ (20, omega arith, omega arith, ground arith)
      | inr fine ↦ elim (Bool-cases (ltb 200 n)) [
        | inl large ↦ (200, omega arith, omega arith, ground arith)
        | inr fits ↦ (n, ground arith, ground arith, ground arith)
      ]
    ]
    clamped (negsuc n) = (20, omega arith, omega arith, ground arith)
