-- ===== src/Settle/Fees/Bounds.antt =====
-- The bounds of `compute_fee` (chain/x/settle/types/fees.go).
use Prim.Native.Nat.{min, max}
use vapor_chain.Prelude.{
  mul_mono, pos_part, ℕ, ◌*◌, ◌/◌, ◌≤◌, ◌≡◌, Option, some, none, arith, leb, ltb, if◌then◌else◌, ℤ,
  pos, ◌≤ℤ◌, *ℤ_pos, /ℤ_pos,
}
use vapor_chain.Settle.Types.{FeeAsset, max_bps}
use vapor_chain.Settle.Fees.{bps_of, raise_to_floor, lower_to_cap, lower_to_amount, compute_fee}

pub bps_of-pos : (n b : ℕ) → bps_of (pos n) b ≡ pos (n * b / max_bps)
unfolding bps_of
bps_of-pos n b = rw (*ℤ_pos n b, /ℤ_pos (n * b) max_bps)

raise_nonneg :
    (amount : ℤ) (micro floor : Option ℤ) (fee : ℤ)
    → pos 0 ≤ℤ fee
    → pos 0 ≤ℤ raise_to_floor amount micro floor fee
unfolding raise_to_floor
raise_nonneg amount (some micro) (some floor) fee h = ground arith
raise_nonneg amount _ _ fee h = h

cap_nonneg : (cap : Option ℤ) (fee : ℤ) → pos 0 ≤ℤ fee → pos 0 ≤ℤ lower_to_cap cap fee
unfolding lower_to_cap
cap_nonneg (some cap) fee h = ground arith
cap_nonneg none fee h = h

amount_bounds :
    (amount fee : ℤ)
    → pos 0 ≤ℤ amount
    → pos 0 ≤ℤ fee
    → (pos 0 ≤ℤ lower_to_amount amount fee)
      × (lower_to_amount amount fee ≤ℤ amount)
      × (lower_to_amount amount fee ≤ℤ fee)
unfolding lower_to_amount
amount_bounds amount fee p h = ground arith

bps_of_nonneg : (n b : ℕ) → pos 0 ≤ℤ bps_of (pos n) b
bps_of_nonneg n b = rw bps_of-pos (omega arith)

-- For every amount and every configuration, nil and negative bounds included, the fee is not
-- negative, and it is at most the amount, or zero where the amount is negative.
pub compute_fee_bounds :
    (amount : ℤ) (asset : FeeAsset) (fee_bps : ℕ)
    → (pos 0 ≤ℤ compute_fee amount asset fee_bps)
      × (compute_fee amount asset fee_bps ≤ℤ pos (pos_part amount))
unfolding compute_fee
compute_fee_bounds (ℤ.negsuc n) asset fee_bps = ground arith
compute_fee_bounds (ℤ.pos n) asset fee_bps =
    let raised =
      raise_nonneg (pos n) asset.micro_threshold asset.min_fee (bps_of (pos n) fee_bps)
        (bps_of_nonneg n fee_bps) in
    let capped = cap_nonneg asset.max_fee _ raised in
    let bounded = amount_bounds (pos n) _ (omega arith) capped in ground arith

-- The percentage, raised to the floor from the micro threshold upwards.
abbrev pub floored_fee : (amount fee_bps micro floor : ℕ) → ℕ
floored_fee amount fee_bps micro floor =
    let percentage : ℕ = amount * fee_bps / max_bps in
    if leb micro amount then max percentage floor else percentage

-- The formula of the comment above `ComputeFee`, for bounds that are set and not negative.
abbrev pub documented_fee : (amount fee_bps micro floor cap : ℕ) → ℕ
documented_fee amount fee_bps micro floor cap =
    min (min (floored_fee amount fee_bps micro floor) cap) amount

-- The same without the cap.
abbrev pub uncapped_fee : (amount fee_bps micro floor : ℕ) → ℕ
uncapped_fee amount fee_bps micro floor = min (floored_fee amount fee_bps micro floor) amount

raise_pos :
    (amount micro floor fee : ℕ)
    → raise_to_floor (pos amount) (some (pos micro)) (some (pos floor)) (pos fee)
      ≡ pos (if leb micro amount then max fee floor else fee)
unfolding raise_to_floor
raise_pos amount micro floor fee = ground arith

cap_pos :
    (cap fee : ℕ)
    → lower_to_cap (some (pos cap)) (pos fee) ≡ pos (if ltb 0 cap then min fee cap else fee)
unfolding lower_to_cap
cap_pos cap fee = ground arith

amount_pos : (amount fee : ℕ) → lower_to_amount (pos amount) (pos fee) ≡ pos (min fee amount)
unfolding lower_to_amount
amount_pos amount fee = ground arith

percentage_mono : (a b k : ℕ) → a ≤ b → a * k / max_bps ≤ b * k / max_bps
percentage_mono a b k h = omega (arith, mul_mono a b k h)

-- The fee of the code: a cap of zero is no cap.
abbrev pub code_fee : (amount fee_bps micro floor cap : ℕ) → ℕ
code_fee amount fee_bps micro floor cap =
    if ltb 0 cap
    then documented_fee amount fee_bps micro floor cap
    else uncapped_fee amount fee_bps micro floor

code_fee_mono :
    (a b fee_bps micro floor cap : ℕ)
    → a ≤ b
    → code_fee a fee_bps micro floor cap ≤ code_fee b fee_bps micro floor cap
code_fee_mono a b fee_bps micro floor cap h = ground (arith, percentage_mono a b fee_bps h)

module _ (asset : FeeAsset) (fee_bps micro floor cap : ℕ)
    (has_micro : asset.micro_threshold ≡ some (pos micro))
    (has_floor : asset.min_fee ≡ some (pos floor)) (has_cap : asset.max_fee ≡ some (pos cap)) where
  -- With bounds that are set and not negative, and an amount that is not negative: under a positive cap
  -- the fee is exactly the one of the comment above `ComputeFee`, the percentage raised to the floor
  -- from the micro threshold upwards and lowered to the cap and to the amount; under a cap of zero,
  -- where that comment says zero, the fee is the one without a cap.
  pub compute_fee-formula :
      (amount : ℕ)
      → compute_fee (pos amount) asset fee_bps
        ≡ pos (
            if ltb 0 cap
            then documented_fee amount fee_bps micro floor cap
            else uncapped_fee amount fee_bps micro floor)
  unfolding compute_fee
  compute_fee-formula amount =
      rw (has_micro, has_floor, has_cap, bps_of-pos amount fee_bps, raise_pos, cap_pos, amount_pos)
        (ground arith)

  -- With such bounds a larger payment never pays a smaller fee.
  pub compute_fee_mono :
      (a b : ℕ) → a ≤ b → compute_fee (pos a) asset fee_bps ≤ℤ compute_fee (pos b) asset fee_bps
  compute_fee_mono a b h =
      rw (compute_fee-formula a, compute_fee-formula b)
        (omega (arith, code_fee_mono a b fee_bps micro floor cap h))
