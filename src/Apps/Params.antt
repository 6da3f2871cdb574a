-- ===== src/Apps/Params.antt =====
-- chain/x/apps/types/params.go: the defaults and the checks of the parameters.
use vapor_chain.Prelude.{ℕ, ◌*◌, ◌^◌, Bool, not, ◌&&◌, ◌||◌, ◌==◌, ltb, ℤ, pos, ltb_ℤ, is_negative}
use vapor_chain.Settle.Types.{Denom, max_bps}
use vapor_chain.Apps.Types.{Params}

abbrev pub max_metadata_uri_len : ℕ
max_metadata_uri_len = 512

abbrev pub max_domain_len : ℕ
max_domain_len = 253

-- `DefaultParams`, given the denomination of the credits and the text `uusdc`.
abbrev pub default_params : Denom → Denom → Params
default_params credit_denom uusdc = record {
  registration_fee = (credit_denom, pos (2 * 10 ^ 17));
  max_contracts_per_app = 100;
  contract_move_delay_blocks = pos 604800;
  epoch_length_blocks = pos 86400;
  max_gas_per_epoch = 5000000000;
  diversity_target = 5;
  max_referrer_bps = 1000;
  bond_denom = uusdc;
  gas_per_bonded_unit = 2500;
  unbonding_blocks = pos 1814400;
}

module _ (valid_denom : Denom → Bool) where
  -- `Coin.Validate`, for an amount that is not nil.
  unfoldable pub valid_coin : Denom × ℤ → Bool
  valid_coin (d, x) = valid_denom d && not (is_negative x)

  -- The bond's denomination and its lock.
  unfoldable pub valid_bonding : Params → Bool
  valid_bonding p =
      p.bond_denom == 0
      || (valid_denom p.bond_denom && not (ltb_ℤ p.unbonding_blocks p.epoch_length_blocks))

  -- `Params.Validate`.
  unfoldable pub valid_params : Params → Bool
  valid_params p =
      valid_coin p.registration_fee
      && not (p.max_contracts_per_app == 0 || ltb 10000 p.max_contracts_per_app)
      && not (is_negative p.contract_move_delay_blocks)
      && not (ltb_ℤ p.epoch_length_blocks (pos 10))
      && not (p.diversity_target == 0 || ltb 10000 p.diversity_target)
      && not (ltb max_bps p.max_referrer_bps)
      && valid_bonding p
