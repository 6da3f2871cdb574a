-- ===== src/Apps/Estimate.antt =====
-- The estimate of chain/x/apps/types/hll.go runs on uint64 without overflow and without a panic.
use native.Mathlib.Nat.{div-mul-le_self, le-div_iff_mul-le, pow-le-pow_right}
use vapor_chain.Prelude.{
  ℕ, zero, suc, ◌+◌, ◌-◌, ◌*◌, ◌/◌, ◌%◌, ◌^◌, ◌≤◌, ◌<◌, ◌≡◌, refl, ◌∙◌, Bool, true, false, ◌&&◌,
  List, [], ◌∷◌, ltb, leb, ◌==◌, arith, length, All, Bool-cases, inl, inr, ==_iff, ok, mul_mono,
  &&_split, leb→le,
}
use vapor_chain.Apps.Hll.{
  hll_size, hll_max_rank, linear_counting, share_of_register, count_zeros, sum_shares, entry_at,
  estimate_from, hll_estimate,
}
use vapor_chain.Apps.Sketch.{IsSketch}

-- The sum of the shares, without wrapping.
abbrev pub shares : List ℕ → ℕ
shares [] = 0
shares (r ∷ rs) = share_of_register r + shares rs

-- The largest estimate: all registers at 32.
abbrev pub max_estimate : ℕ
max_estimate = 709 * 4096 * 2 ^ 32 / 64000

pow_bounds : (n : ℕ) → n ≤ 32 → (1 ≤ 2 ^ (32 - n)) × (2 ^ (32 - n) ≤ 2 ^ 32)
pow_bounds n h = (
  pow-le-pow_right {n = 2} (omega arith) {i = 0} {j = 32 - n} (omega arith),
  pow-le-pow_right {n = 2} (omega arith) {i = 32 - n} {j = 32} (omega arith),
)

share_bounds :
    (r : ℕ) → r ≤ hll_max_rank → (1 ≤ share_of_register r) × (share_of_register r ≤ 2 ^ 32)
unfolding share_of_register
share_bounds r h = let small : leb r 32 ≡ true = ground arith in rw small (pow_bounds r h)

shares_bounds :
    (s : List ℕ)
    → All (λ r. r ≤ hll_max_rank) s
    → (length s ≤ shares s) × (shares s ≤ length s * 2 ^ 32)
shares_bounds [] h = (omega arith, omega arith)
shares_bounds (r ∷ rs) h =
    let (low, high) = share_bounds r h.0 in
    let (least, most) = shares_bounds rs h.1 in (omega arith, omega arith)

sum_shares-exact : (z : ℕ) (s : List ℕ) → z + shares s < 2 ^ 64 → sum_shares z s ≡ z + shares s
unfolding sum_shares
sum_shares-exact z [] h = omega arith
sum_shares-exact z (r ∷ rs) h =
    let step : (z + share_of_register r) % 2 ^ 64 ≡ z + share_of_register r = omega arith in
    rw step (sum_shares-exact (z + share_of_register r) rs (omega arith) ∙ omega arith)

count_zeros-le : (s : List ℕ) → count_zeros s ≤ length s
unfolding count_zeros
count_zeros-le [] = omega arith
count_zeros-le (r ∷ rs) = ground (arith, count_zeros-le rs)

entry_at-ok :
    (i bound : ℕ) (xs : List ℕ)
    → i < length xs
    → All (λ x. x ≤ bound) xs
    → (e : ℕ) × ((entry_at i xs ≡ ok e) × (e ≤ bound))
unfolding entry_at
entry_at-ok i bound [] h a = absurd (omega arith)
entry_at-ok zero bound (x ∷ xs) h a = (x, (refl, a.0))
entry_at-ok (suc i) bound (x ∷ xs) h a = entry_at-ok i bound xs (omega arith) a.1

-- A larger divisor gives no larger quotient.
div_antitone : (a k n : ℕ) → 0 < n → n ≤ k → a / k ≤ a / n
div_antitone a k n pos le =
    let whole : a / k * k ≤ a = div-mul-le_self a k in
    let less : n * (a / k) ≤ k * (a / k) = mul_mono n k (a / k) le in
    let fits : a / k * n ≤ a = omega (arith, less) in (le-div_iff_mul-le pos).1 fits

all_le : ℕ → List ℕ → Bool
all_le n [] = true
all_le n (x ∷ xs) = leb x n && all_le n xs

all_le-All : (n : ℕ) (xs : List ℕ) → all_le n xs ≡ true → All (λ x. x ≤ n) xs
unfolding all_le
all_le-All n [] h = tt
all_le-All n (x ∷ xs) h =
    let both = &&_split (leb x n) (all_le n xs) h in (leb→le x n both.0, all_le-All n xs both.1)

linear_counting-small : All (λ x. x ≤ 266) linear_counting
unfolding all_le
linear_counting-small = all_le-All 266 linear_counting refl

-- The estimate from a sum that some sketch has.
estimate_from-ok :
    (z zeros : ℕ)
    → hll_size ≤ z
    → z ≤ hll_size * 2 ^ 32
    → zeros ≤ hll_size
    → (e : ℕ) × ((estimate_from z zeros ≡ ok e) × (e ≤ max_estimate))
unfolding estimate_from
estimate_from-ok z zeros least most few =
    let exact : 1000 * z % 2 ^ 64 ≡ 1000 * z = omega arith in
    let some_z : (1000 * z == 0) ≡ false = nonzero (1000 * z) (omega arith) in
    let est = 709 * 4096 * 2 ^ 32 / (1000 * z) in
    let bound : est ≤ max_estimate =
      div_antitone (709 * 4096 * 2 ^ 32) (1000 * z) 64000 (omega arith) (omega arith) in
    rw (exact, some_z)
      (elim (Bool-cases (leb est 160 && ltb 0 zeros)) [
        | inl small ↦ rw small (
            let (e, (found, low)) =
              entry_at-ok zeros 266 linear_counting (omega arith) linear_counting-small in
            (e, (found, omega arith)))
        | inr large ↦ rw large (est, (refl, bound))
      ])
  where
    nonzero : (n : ℕ) → 0 < n → (n == 0) ≡ false
    nonzero n h = ground arith

-- The estimate of a sketch of 64 registers of at most 32 never panics and is at most the estimate of
-- a sketch whose registers are all 32; no sum or product on the way passes 2^64.
pub hll_estimate-ok :
    (s : List ℕ)
    → IsSketch s
    → (e : ℕ) × ((hll_estimate s ≡ ok e)
        × ((e ≤ max_estimate) × ((sum_shares 0 s ≡ shares s) × (1000 * shares s < 2 ^ 64))))
unfolding hll_estimate
hll_estimate-ok s (long, small) =
    let (least, most) = shares_bounds s small in
    let exact : sum_shares 0 s ≡ shares s = omega (arith, sum_shares-exact 0 s (omega arith)) in
    let full : (length s == hll_size) ≡ true = (==_iff (length s) hll_size).1 long in
    let fits : 1000 * shares s < 2 ^ 64 = omega arith in
    rw full (elim (Bool-cases (count_zeros s == hll_size)) [
      | inl none_seen ↦ rw none_seen (0, (refl, (omega arith, (exact, fits))))
      | inr seen ↦
          let (e, (runs, bound)) =
            estimate_from-ok (sum_shares 0 s) (count_zeros s) (omega arith) (omega arith)
              (omega (arith, count_zeros-le s)) in
          rw seen (e, (runs, (bound, (exact, fits))))
    ])
