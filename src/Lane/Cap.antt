-- ===== src/Lane/Cap.antt =====
-- The cap of the sponsored lane (`Cap` of chain/lane/lane.go) is the part of the block's gas that it
-- stands for.
use vapor_chain.Prelude.{
  ℕ, ◌+◌, ◌*◌, ◌/◌, ◌%◌, ◌^◌, ◌≤◌, ◌<◌, ◌≡◌, ap, ◌∙◌, inl, inr, Bool-cases, arith, ◌==◌, ==_iff,
}
use vapor_chain.Lane.Policy.{cap}

distribute_bps : (q r bps : ℕ) → (10000 * q + r) * bps ≡ 10000 * (q * bps) + r * bps
distribute_bps q r bps = omega arith

split_bps : (m bps : ℕ) → m * bps ≡ 10000 * (m / 10000 * bps) + m % 10000 * bps
split_bps m bps =
    let parts : m ≡ 10000 * (m / 10000) + m % 10000 = omega arith in
    ap (λ k. k * bps) parts ∙ distribute_bps (m / 10000) (m % 10000) bps

times_share : (q bps : ℕ) → bps ≤ 10000 → q * bps ≤ q * 10000
times_share q bps h = grind arith

-- The two products of the code stay in 64 bits, and their sum is the exact quotient.
no_wrap :
    (m a b c : ℕ)
    → m < 2 ^ 64
    → c ≡ 10000 * a + b
    → c ≤ m * 10000
    → b ≤ 10000 * 10000
    → (a % 2 ^ 64 + (b % 2 ^ 64) / 10000) % 2 ^ 64 ≡ c / 10000
no_wrap m a b c fits sum whole small = omega arith

-- For a block's gas below 2^64 and a share of at most 10,000 basis points the cap is that share of
-- the block's gas, rounded down, and nothing overflows on the way.
pub cap-share : (m bps : ℕ) → m < 2 ^ 64 → bps ≤ 10000 → cap m bps ≡ m * bps / 10000
unfolding cap
cap-share m bps fits share = elim (Bool-cases (m == 0)) [
  | inl zero_gas ↦
      let zero : m ≡ 0 = (==_iff m 0).0 zero_gas in
      let none_left : m * bps ≡ 0 = ap (λ k. k * bps) zero ∙ omega arith in
      rw zero_gas (omega (arith, none_left))
  | inr some_gas ↦
      let rest : m % 10000 * bps ≤ 10000 * 10000 =
        omega (arith, times_share (m % 10000) bps share) in
      rw some_gas (
        no_wrap m (m / 10000 * bps) (m % 10000 * bps) (m * bps) fits (split_bps m bps)
          (times_share m bps share) rest)
]

pub cap_le : (m bps : ℕ) → m < 2 ^ 64 → bps ≤ 10000 → cap m bps ≤ m
cap_le m bps fits share = omega (arith, cap-share m bps fits share, times_share m bps share)
