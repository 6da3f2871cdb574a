-- ===== src/Settle/Fees.antt =====
-- chain/x/settle/types/fees.go: the fee of a payment and its division.
pub mod Bounds
pub mod Shares
use vapor_chain.Prelude.{
  ℕ, Bool, true, false, ◌&&◌, not, Option, none, some, ltb, if◌then◌else◌, ℤ, pos, ◌+ℤ◌, ◌-ℤ◌, ◌*ℤ◌,
  ◌/ℤ◌, ltb_ℤ, leb_ℤ, is_positive,
}
use vapor_chain.Settle.Types.{FeeAsset, Split, SplitResult, max_bps}

-- `bps` of an amount, rounded towards zero.
unfoldable pub bps_of : ℤ → ℕ → ℤ
bps_of x b = x *ℤ pos b /ℤ max_bps

-- From the micro threshold upwards, a fee below the floor is raised to it. A nil bound counts for
-- nothing.
unfoldable pub raise_to_floor : ℤ → Option ℤ → Option ℤ → ℤ → ℤ
raise_to_floor amount (some micro) (some floor) fee =
    if leb_ℤ micro amount && ltb_ℤ fee floor then floor else fee
raise_to_floor amount _ _ fee = fee

unfoldable pub lower_to_cap : Option ℤ → ℤ → ℤ
lower_to_cap (some cap) fee = if is_positive cap && ltb_ℤ cap fee then cap else fee
lower_to_cap none fee = fee

unfoldable pub lower_to_amount : ℤ → ℤ → ℤ
lower_to_amount amount fee = if ltb_ℤ amount fee then amount else fee

-- `ComputeFee`.
unfoldable pub compute_fee : ℤ → FeeAsset → ℕ → ℤ
compute_fee amount asset fee_bps =
    if not (is_positive amount)
    then pos 0
    else lower_to_amount amount (
        lower_to_cap asset.max_fee
          (raise_to_floor amount asset.micro_threshold asset.min_fee (bps_of amount fee_bps)))

-- `SplitResult.Total`.
unfoldable pub split_total : SplitResult → ℤ
split_total r = r.app +ℤ r.referrer +ℤ r.validator +ℤ r.relayer +ℤ r.treasury

-- `ComputeSplit`, up to the two corrections below: dust goes to the treasury.
unfoldable pub base_split : ℤ → Split → SplitResult
base_split fee split = record {
  app = bps_of fee split.app_bps;
  referrer = pos 0;
  validator = bps_of fee split.validator_bps;
  relayer = bps_of fee split.relayer_bps;
  treasury =
      fee
      -ℤ bps_of fee split.app_bps
      -ℤ bps_of fee split.validator_bps
      -ℤ bps_of fee split.relayer_bps;
}

-- Without an app its share goes to the treasury.
unfoldable pub to_treasury : SplitResult → SplitResult
to_treasury r = record r { treasury = r.treasury +ℤ r.app; app = pos 0 }

-- The referrer's share is carved out of the app's.
unfoldable pub carve_referrer : ℕ → SplitResult → SplitResult
carve_referrer referrer_bps r = record r {
  referrer = bps_of r.app referrer_bps;
  app = r.app -ℤ bps_of r.app referrer_bps;
}

-- `ComputeSplit`.
unfoldable pub compute_split : ℤ → Split → Bool → Bool → ℕ → SplitResult
compute_split fee split has_app has_referrer referrer_bps =
    if not has_app
    then to_treasury (base_split fee split)
    else if has_referrer && ltb 0 referrer_bps
    then carve_referrer referrer_bps (base_split fee split)
    else base_split fee split
