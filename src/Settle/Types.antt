-- ===== src/Settle/Types.antt =====
-- The data of chain/x/settle (types/settle.pb.go, keys.go, fees.go). Addresses, denominations and
-- other texts that the code only compares are named by numbers, one number for each text, and the
-- empty text (an empty address, an optional field left out) is named 0.
use vapor_chain.Prelude.{ℕ, Bool, Option, List, ℤ, pos, ◌+ℤ◌, [], ◌∷◌, ◌==◌, if◌then◌else◌}

abbrev pub Addr : Type 0
Addr = ℕ

abbrev pub Denom : Type 0
Denom = ℕ

abbrev pub empty : ℕ
empty = 0

abbrev pub max_bps : ℕ
max_bps = 10000

-- The pools, `PoolValidator`, `PoolRelayer` and `PoolTreasury`.
abbrev pub pool_validator : ℕ
pool_validator = 1

abbrev pub pool_relayer : ℕ
pool_relayer = 2

abbrev pub pool_treasury : ℕ
pool_treasury = 3

abbrev pub Coins : Type 0
Coins = List (Denom × ℤ)

-- `Coins.AmountOf`.
abbrev pub amount_of : Coins → Denom → ℤ
amount_of [] d = pos 0
amount_of ((e, x) ∷ cs) d = (if d == e then x else pos 0) +ℤ amount_of cs d

pub record Split : Type 0 where
  pub app_bps : ℕ
  pub validator_bps : ℕ
  pub relayer_bps : ℕ
  pub treasury_bps : ℕ

-- A `math.Int` that may be nil is an `Option`.
pub record FeeAsset : Type 0 where
  pub denom : Denom
  pub enabled : Bool
  pub decimals : ℕ
  pub min_fee : Option ℤ
  pub max_fee : Option ℤ
  pub micro_threshold : Option ℤ
  pub tab_settle_threshold : Option ℤ
  pub quota_weight : Option ℤ
  pub credit_price : Option ℤ

pub record Params : Type 0 where
  pub fee_bps : ℕ
  pub split : Split
  pub assets : List FeeAsset
  pub treasury_admin : Addr
  pub relayer_admin : Addr
  pub relayer_recipients : List Addr
  pub relayer_payout_cap : Coins
  pub sponsored_senders : List Addr
  pub sponsored_lane_max_bps : ℕ
  pub validator_payout_interval_blocks : ℤ
  pub credits_enabled : Bool
  pub max_tab_age_blocks : ℤ
  pub gas_burn_bps : ℕ

pub record Tab : Type 0 where
  pub app_id : ℕ
  pub payer : Addr
  pub payee : Addr
  pub denom : Denom
  pub amount : ℤ
  pub opened_height : ℕ
  pub entries : ℕ

pub record Totals : Type 0 where
  pub denom : Denom
  pub volume : ℤ
  pub fees : ℤ
  pub payments : ℕ

-- The division of one fee.
pub record SplitResult : Type 0 where
  pub app : ℤ
  pub referrer : ℤ
  pub validator : ℤ
  pub relayer : ℤ
  pub treasury : ℤ
