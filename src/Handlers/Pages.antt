-- ===== src/Handlers/Pages.antt =====
-- The metadata of a list (`metaFromPagination`) against the page that the repository reads
-- (`normalize`).
use vpn_backend.Base.{ℕ, ◌+◌, ◌-◌, ◌*◌, ◌/◌, ◌≤◌, ◌<◌, ◌≡◌, refl, ap, ◌∙◌, arith, if◌then◌else◌}
use native.Mathlib.Nat.{div-add-mod', mod-lt, div-eq_of_lt-le}
use vpn_backend.Base.Int.{ℤ, pos, pos_part, ltb_ℤ, half_range, ◌+64◌, ◌-64◌, quot, +64-pos, -64-pos}
use vpn_backend.Repositories.{Pagination, normalize}
use vpn_backend.Handlers.{meta_from_pagination}

-- The rounding up of `(total + page_size - 1) / page_size`.
pages_of :
    (t k : ℕ)
    → 1 ≤ k
    → t + k < half_range
    → quot (pos t +64 pos k -64 pos 1) k ≡ pos ((t + k - 1) / k)
unfolding quot
pages_of t k h room =
    ap (λ x. quot x k)
      (ap (λ x. x -64 pos 1) (+64-pos t k room) ∙ -64-pos (t + k) 1 (omega arith) room)

enough : (t k : ℕ) → 1 ≤ k → t ≤ (t + k - 1) / k * k
enough t k h = omega (arith, div-add-mod' (t + k - 1) k, mod-lt (t + k - 1) h)

tight : (t k : ℕ) → 1 ≤ k → (t + k - 1) / k * k < t + k
tight t k h = omega (arith, div-add-mod' (t + k - 1) k)

-- With a page size from 1 to 200: whatever the page asked for, the metadata names the page and the
-- size that the repository reads, and its number of pages is the least that holds all the rows.
pub meta-normalize :
    (page : ℤ) (k t : ℕ)
    → 1 ≤ k
    → k ≤ 200
    → t + k < half_range
    → let p : Pagination = record { page = page; page_size = pos k } in
      ((meta_from_pagination p (pos t)).page ≡ (normalize p).page)
      × ((meta_from_pagination p (pos t)).page_size ≡ pos k)
      × ((normalize p).page_size ≡ pos k)
      × ((n : ℕ) × ((meta_from_pagination p (pos t)).total_pages ≡ pos n)
          × (t ≤ n * k)
          × (n * k < t + k))
unfolding meta_from_pagination normalize
meta-normalize page k t h high room =
    let size : (if ltb_ℤ (pos k) (pos 1) then pos 20 else pos k) ≡ pos k = ground arith in
    let capped : (if ltb_ℤ (pos 200) (pos k) then pos 200 else pos k) ≡ pos k = ground arith in
    (
      refl,
      size,
      ap (λ x. if ltb_ℤ (pos 200) x then pos 200 else x) size ∙ capped,
      (
        (t + k - 1) / k,
        ap (λ x. quot (pos t +64 x -64 pos 1) (pos_part x)) size ∙ pages_of t k h room,
        enough t k h,
        tight t k h,
      ),
    )

-- With a page size above 200 that the rows do not exceed, but 200 do not hold them: the metadata says
-- that one page has them all, and the repository reads pages of 200.
pub meta_too_large :
    (page : ℤ) (k t : ℕ)
    → 200 < t
    → t ≤ k
    → t + k < half_range
    → let p : Pagination = record { page = page; page_size = pos k } in
      ((meta_from_pagination p (pos t)).total_pages ≡ pos 1) × ((normalize p).page_size ≡ pos 200)
unfolding meta_from_pagination normalize
meta_too_large page k t many fits room =
    let size : (if ltb_ℤ (pos k) (pos 1) then pos 20 else pos k) ≡ pos k = ground arith in
    let capped : (if ltb_ℤ (pos 200) (pos k) then pos 200 else pos k) ≡ pos 200 = ground arith in
    let one : (t + k - 1) / k ≡ 1 = div-eq_of_lt-le k (omega arith) (omega arith) in
    (
      ap (λ x. quot (pos t +64 x -64 pos 1) (pos_part x)) size
          ∙ pages_of t k (omega arith) room
          ∙ ap pos one,
      ap (λ x. if ltb_ℤ (pos 200) x then pos 200 else x) size ∙ capped,
    )
