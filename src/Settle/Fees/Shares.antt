-- ===== src/Settle/Fees/Shares.antt =====
-- The shares of a fee (`ComputeSplit` of chain/x/settle/types/fees.go).
use vapor_chain.Prelude.{
  mul_mono, ℕ, ◌+◌, ◌*◌, ◌/◌, ◌≤◌, ◌≡◌, Bool, true, false, ◌-◌, refl, ap, ◌∙◌, inl, inr,
  if◌then◌else◌, ltb, Bool-cases, arith, ℤ, pos, ◌+ℤ◌, ◌-ℤ◌, ◌≤ℤ◌, int_laws,
}
use vapor_chain.Settle.Types.{Split, SplitResult, max_bps}
use vapor_chain.Settle.Fees.{split_total, base_split, to_treasury, carve_referrer, compute_split}
use vapor_chain.Settle.Fees.Bounds.{bps_of-pos}

base_total : (fee : ℤ) (split : Split) → split_total (base_split fee split) ≡ fee
unfolding split_total base_split
base_total fee split = omega int_laws

treasury_total :
    (r : SplitResult) → split_total (to_treasury r) ≡ split_total r -ℤ r.referrer +ℤ r.referrer
unfolding split_total to_treasury
treasury_total r = omega int_laws

carve_total :
    (b : ℕ) (r : SplitResult)
    → r.referrer ≡ pos 0
    → split_total (carve_referrer b r) ≡ split_total r
unfolding split_total carve_referrer
carve_total b r none_yet = omega int_laws

-- The five shares add up to the fee exactly, whatever the split, the attribution and the rounding.
pub split_total-compute_split :
    (fee : ℤ) (split : Split) (has_app has_referrer : Bool) (referrer_bps : ℕ)
    → split_total (compute_split fee split has_app has_referrer referrer_bps) ≡ fee
unfolding compute_split
split_total-compute_split fee split false has_referrer b =
    omega (int_laws, treasury_total (base_split fee split), base_total fee split)
split_total-compute_split fee split true false b = base_total fee split
split_total-compute_split fee split true true b = elim (Bool-cases (ltb 0 b)) [
  | inl positive ↦
      rw positive (carve_total b (base_split fee split) no_referrer ∙ base_total fee split)
  | inr zero_bps ↦ rw zero_bps (base_total fee split)
]
  where
    no_referrer : (base_split fee split).referrer ≡ pos 0
    no_referrer = unfold base_split in refl

-- The parts of a percentage that adds up to 100%.
shares_le :
    (f a v r t : ℕ)
    → a + v + r + t ≡ max_bps
    → f * a / max_bps + f * v / max_bps + f * r / max_bps + f * t / max_bps ≤ f
shares_le f a v r t h = omega (arith, ap (λ (n : ℕ). f * n) h)

share_le : (x b : ℕ) → b ≤ max_bps → x * b / max_bps ≤ x
share_le x b h = omega (arith, mul_mono b max_bps x h)

abbrev pub IsShares : SplitResult → Type 0
IsShares r =
    (pos 0 ≤ℤ r.app)
    × (pos 0 ≤ℤ r.referrer)
    × (pos 0 ≤ℤ r.validator)
    × (pos 0 ≤ℤ r.relayer)
    × (pos 0 ≤ℤ r.treasury)

module _ (f : ℕ) (split : Split)
    (whole : split.app_bps + split.validator_bps + split.relayer_bps + split.treasury_bps
      ≡ max_bps) where
  shares_fit :
      f * split.app_bps / max_bps
        + f * split.validator_bps / max_bps
        + f * split.relayer_bps / max_bps
        + f * split.treasury_bps / max_bps
      ≤ f
  shares_fit =
      shares_le f split.app_bps split.validator_bps split.relayer_bps split.treasury_bps whole

  rest_pos :
      pos f
        -ℤ pos (f * split.app_bps / max_bps)
        -ℤ pos (f * split.validator_bps / max_bps)
        -ℤ pos (f * split.relayer_bps / max_bps)
      ≡ pos (
          f
          - f * split.app_bps / max_bps
          - f * split.validator_bps / max_bps
          - f * split.relayer_bps / max_bps)
  rest_pos = omega (int_laws, shares_fit)

  base_split-pos : base_split (pos f) split ≡ record {
    app = pos (f * split.app_bps / max_bps);
    referrer = pos 0;
    validator = pos (f * split.validator_bps / max_bps);
    relayer = pos (f * split.relayer_bps / max_bps);
    treasury = pos (
        f
        - f * split.app_bps / max_bps
        - f * split.validator_bps / max_bps
        - f * split.relayer_bps / max_bps);
  }
  unfolding base_split
  base_split-pos = rw (
    bps_of-pos f split.app_bps,
    bps_of-pos f split.validator_bps,
    bps_of-pos f split.relayer_bps,
    rest_pos,
  )

  abbrev app_share : ℕ
  app_share = f * split.app_bps / max_bps

  -- For a fee that is not negative, a split that adds up to 100% and a referrer's cut of at most
  -- 100%: no share is negative; the treasury gets at least its percentage, so it bears no rounding;
  -- the referrer is paid out of the app's percentage and out of nothing else; without an app the
  -- app and the referrer get nothing.
  pub compute_split-IsShares :
      (has_app has_referrer : Bool) (referrer_bps : ℕ)
      → referrer_bps ≤ max_bps
      → let r = compute_split (pos f) split has_app has_referrer referrer_bps in
        IsShares r
        × (pos (f * split.treasury_bps / max_bps) ≤ℤ r.treasury)
        × (r.app +ℤ r.referrer ≡ (if has_app then pos (f * split.app_bps / max_bps) else pos 0))
        × (r.validator ≡ pos (f * split.validator_bps / max_bps))
        × (r.relayer ≡ pos (f * split.relayer_bps / max_bps))
  unfolding compute_split to_treasury carve_referrer
  compute_split-IsShares false has_referrer b h = rw base_split-pos (omega (int_laws, shares_fit))
  compute_split-IsShares true false b h = rw base_split-pos (omega (int_laws, shares_fit))
  compute_split-IsShares true true b h = rw base_split-pos (elim (Bool-cases (ltb 0 b)) [
    | inl positive ↦
        rw (positive, bps_of-pos app_share b) (omega (int_laws, shares_fit, share_le app_share b h))
    | inr zero_bps ↦ rw zero_bps (omega (int_laws, shares_fit))
  ])
