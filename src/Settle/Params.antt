-- ===== src/Settle/Params.antt =====
-- chain/x/settle/types/params.go: defaults, validation and the lookups in the parameters.
use vapor_chain.Prelude.{
  ℕ, ◌+◌, Bool, true, false, ◌&&◌, ◌||◌, not, Option, none, some, List, [], ◌∷◌, leb, ◌==◌,
  if◌then◌else◌, contains, ℤ, pos, ltb_ℤ, leb_ℤ, is_positive, is_negative, Result, ok, err, Error,
}
use vapor_chain.Settle.Types.{
  Addr, Denom, Split, FeeAsset, Params, max_bps, empty, pool_validator, pool_relayer, pool_treasury,
}
use vapor_chain.Host.{Texts}

abbrev pub max_fee_bps : ℕ
max_fee_bps = 1000

abbrev pub max_sponsored_lane_bps : ℕ
max_sponsored_lane_bps = 9000

-- `DefaultParams`.
abbrev pub default_params : Params
default_params = record {
  fee_bps = 100;
  split = record { app_bps = 5000; validator_bps = 2000; relayer_bps = 1000; treasury_bps = 2000 };
  assets = [];
  treasury_admin = empty;
  relayer_admin = empty;
  relayer_recipients = [];
  relayer_payout_cap = [];
  sponsored_senders = [];
  sponsored_lane_max_bps = 5000;
  validator_payout_interval_blocks = pos 86400;
  credits_enabled = true;
  max_tab_age_blocks = pos 604800;
  gas_burn_bps = max_bps;
}

-- `ValidPool`.
unfoldable pub valid_pool : ℕ → Bool
valid_pool p = p == pool_validator || p == pool_relayer || p == pool_treasury

-- `Split.Validate`.
unfoldable pub valid_split : Split → Bool
valid_split s = s.app_bps + s.validator_bps + s.relayer_bps + s.treasury_bps == max_bps

-- The tests on one amount of an asset: it is set, and not negative.
unfoldable pub set_nonneg : Option ℤ → Bool
set_nonneg none = false
set_nonneg (some x) = not (is_negative x)

-- A positive cap is not below the floor.
floor_under_cap : Option ℤ → Option ℤ → Bool
floor_under_cap (some floor) (some cap) = not (is_positive cap && ltb_ℤ cap floor)
floor_under_cap _ _ = false

set_positive : Option ℤ → Bool
set_positive none = false
set_positive (some x) = is_positive x

module _ (T : Texts) where
  -- `FeeAsset.Validate`.
  unfoldable pub valid_asset : FeeAsset → Bool
  unfolding set_nonneg floor_under_cap set_positive
  valid_asset a =
      T.valid_denom a.denom
      && not (T.has_erc20_prefix a.denom)
      && set_nonneg a.min_fee
      && set_nonneg a.max_fee
      && set_nonneg a.micro_threshold
      && set_nonneg a.tab_settle_threshold
      && set_nonneg a.quota_weight
      && set_nonneg a.credit_price
      && floor_under_cap a.min_fee a.max_fee
      && set_positive a.tab_settle_threshold
      && leb a.decimals 36

  -- `validateOptionalBech32`.
  unfoldable pub optional_bech32 : Addr → Bool
  optional_bech32 v = v == empty || T.is_bech32 v

  -- The loop over the assets, with the denominations seen so far.
  unfoldable pub valid_assets : List Denom → List FeeAsset → Bool
  valid_assets seen [] = true
  valid_assets seen (a ∷ rest) =
      valid_asset a && not (contains seen a.denom) && valid_assets (a.denom ∷ seen) rest

  unfoldable pub all_bech32 : List Addr → Bool
  all_bech32 [] = true
  all_bech32 (a ∷ rest) = T.is_bech32 a && all_bech32 rest

  -- The loop over the sponsored senders, with the addresses seen so far.
  unfoldable pub valid_senders : List Addr → List ℕ → Bool
  valid_senders seen [] = true
  valid_senders seen (s ∷ rest) =
      T.is_hex_address s
      && not (contains seen (T.hex_address s))
      && valid_senders (T.hex_address s ∷ seen) rest

  -- `Params.Validate`. Every refusal is the same error.
  unfoldable pub valid_params : Params → Bool
  unfolding valid_split
  valid_params p =
      leb p.fee_bps max_fee_bps
      && valid_split p.split
      && valid_assets [] p.assets
      && optional_bech32 p.treasury_admin
      && optional_bech32 p.relayer_admin
      && all_bech32 p.relayer_recipients
      && T.valid_coins p.relayer_payout_cap
      && valid_senders [] p.sponsored_senders
      && leb p.sponsored_lane_max_bps max_sponsored_lane_bps
      && leb_ℤ (pos 10) p.validator_payout_interval_blocks
      && leb_ℤ (pos 1) p.max_tab_age_blocks
      && leb p.gas_burn_bps max_bps

  unfoldable pub validate_params : Params → Result (Unit {0})
  validate_params p = if valid_params p then ok tt else err Error.invalid_params

-- `Params.Asset`: the first asset of the denomination.
unfoldable pub find_asset : List FeeAsset → Denom → Option FeeAsset
find_asset [] d = none
find_asset (a ∷ rest) d = if a.denom == d then some a else find_asset rest d

-- `Params.IsRelayerRecipient`.
unfoldable pub is_relayer_recipient : Params → Addr → Bool
is_relayer_recipient p a = contains p.relayer_recipients a
