-- ===== src/Apps/Quota.antt =====
-- chain/x/apps/keeper/keeper.go: the quota engine, its epochs and what an epoch's payments earn.
use vapor_chain.Prelude.{
  ℕ, ◌+◌, ◌-◌, ◌*◌, ◌/◌, ◌%◌, ◌^◌, Bool, false, not, ◌&&◌, ◌||◌, Option, none, some, [], ◌∷◌, ◌==◌,
  ltb, if◌then◌else◌, nat_eq, pair_eq, ℤ, pos, pos_part, ◌+ℤ◌, ◌-ℤ◌, ◌*ℤ◌, ◌/ℤ◌, ltb_ℤ, is_positive,
  is_negative, Result, ok, err, Error, ◌>>=◌, ◌>>◌, pure, gets, modify, lift, when,
}
use vapor_chain.Store.{Map, get, set, remove}
use vapor_chain.Store.Order.{walk, select}
use vapor_chain.Settle.Types.{Addr, max_bps}
use vapor_chain.Apps.Types.{App, EpochStats, Quota, Params, no_app}
use vapor_chain.Apps.Hll.{new_hll, hll_add, hll_estimate}
use vapor_chain.Apps.Env.{Env, State, M, get_params, wrap_int64}
use vapor_chain.Apps.Registry.{get_app, is_active}

abbrev pub bond_unit : ℕ
bond_unit = 1000000

-- `Int.Uint64`, which panics out of range.
unfoldable pub to_uint64 : ℤ → Result ℕ
to_uint64 x =
    if is_negative x || not (ltb (pos_part x) (2 ^ 64)) then err Error.panicked else ok (pos_part x)

abbrev pub magnitude : ℤ → ℕ
magnitude (ℤ.pos n) = n
magnitude (ℤ.negsuc n) = n + 1

-- `Int.Mul`, which panics where the product has more than 256 bits.
unfoldable pub int_mul : ℤ → ℤ → Result ℤ
int_mul x y = if ltb (magnitude (x *ℤ y)) (2 ^ 256) then ok (x *ℤ y) else err Error.panicked

-- A gas of a base quota, at most the limit.
unfoldable pub capped : ℕ → ℤ → Result ℕ
capped limit gas = if ltb_ℤ (pos limit) gas then ok limit else to_uint64 gas

-- `BaseQuota`, for a bond that is not nil.
unfoldable pub base_quota : Params → ℤ → Result ℕ
base_quota p bonded =
    if p.bond_denom == 0 || not (is_positive bonded)
    then ok 0
    else elim (int_mul bonded (pos p.gas_per_bonded_unit)) [
      | err e ↦ err e
      | ok product ↦ capped p.max_gas_per_epoch (product /ℤ bond_unit)
    ]

-- The payers that count: no more than there were payments.
unfoldable pub unique_payers : ℕ → ℕ → ℕ
unique_payers estimate payments = if ltb payments estimate then payments else estimate

-- The diversity, in uint64 arithmetic.
unfoldable pub diversity_of : ℕ → ℕ → ℕ → ℕ
diversity_of target unique payments =
    if ltb 0 payments
    then (let bps = unique * target % 2 ^ 64 * max_bps % 2 ^ 64 / payments in
        if ltb max_bps bps then max_bps else bps)
    else 0

-- The base and what was earned, at most the limit.
unfoldable pub total_gas : ℕ → ℕ → ℤ → ℤ
total_gas limit base earned =
    let total = pos base +ℤ earned in if ltb_ℤ (pos limit) total then pos limit else total

-- The quota of an epoch's statistics, from what they earned before the division.
unfoldable pub quota_from : Params → EpochStats → ℕ → ℕ → ℕ → ℤ → Result Quota
quota_from p st base unique bps product =
    elim (to_uint64 (total_gas p.max_gas_per_epoch base (product /ℤ max_bps))) [
      | err e ↦ err e
      | ok gas ↦ ok (record {
        app_id = st.app_id;
        epoch = 0;
        gas = gas;
        unique_payers_estimate = unique;
        diversity_bps = bps;
      })
    ]

unfoldable pub quota_with : Params → EpochStats → ℕ → ℕ → Result Quota
quota_with p st base unique =
    let bps = diversity_of p.diversity_target unique st.payments in
    elim (int_mul st.fee_weight (pos bps)) [
      | err e ↦ err e
      | ok product ↦ quota_from p st base unique bps product
    ]

-- `ComputeQuota`.
unfoldable pub compute_quota : Params → EpochStats → ℕ → Result Quota
compute_quota p st base = elim (hll_estimate st.hll) [
  | err e ↦ err e
  | ok estimate ↦ quota_with p st base (unique_payers estimate st.payments)
]

abbrev pub with_epoch : ℕ → Quota → Quota
with_epoch epoch q = record q { epoch = epoch }

abbrev pub no_quota : ℕ → ℕ → ℕ → Quota
no_quota id epoch gas = record {
  app_id = id;
  epoch = epoch;
  gas = gas;
  unique_payers_estimate = 0;
  diversity_bps = 0;
}

abbrev pub fresh_stats : ℕ → ℕ → EpochStats
fresh_stats id epoch = record {
  app_id = id;
  epoch = epoch;
  fee_weight = pos 0;
  payments = 0;
  hll = new_hll;
}

abbrev pub stats_or : EpochStats → Option EpochStats → EpochStats
stats_or fresh none = fresh
stats_or fresh (some st) = st

abbrev pub counted : ℤ → ℕ → EpochStats → EpochStats
counted weight hash st = record st {
  fee_weight = st.fee_weight +ℤ weight;
  payments = (st.payments + 1) % 2 ^ 64;
  hll = hll_add st.hll hash;
}

module _ (E : Env) where
  -- `CurrentEpoch`, at a block's height.
  unfoldable pub epoch_of : State E → ℕ
  epoch_of s = elim s.epoch_number [ none ↦ 0 | some n ↦ n ]

  unfoldable pub start_of : ℕ → State E → ℤ
  start_of height s = elim s.epoch_start [ none ↦ pos height | some h ↦ h ]

  abbrev pub stats_at : ℕ → ℕ → State E → EpochStats
  stats_at epoch id s = stats_or (fresh_stats id epoch) (get (epoch, id) s.epoch_stats)

  -- `RecordSettlement`.
  unfoldable pub record_settlement : ℕ → Addr → ℤ → State E → State E
  record_settlement id payer weight s = if id == no_app then s else record s {
    epoch_stats =
        set (epoch_of s, id) (counted weight (E.payer_hash payer) (stats_at (epoch_of s) id s))
          s.epoch_stats;
  }

  -- `BondOf`.
  unfoldable pub bond_of : State E → ℕ → ℤ
  bond_of s id = elim (get id s.bonds) [ none ↦ pos 0 | some x ↦ x ]

  -- `BondInfo`.
  unfoldable pub bond_info : State E → ℕ → ℤ × Result ℕ
  bond_info s id = (bond_of s id, base_quota (get_params E s) (bond_of s id))

  unfoldable pub is_live : Result App → Bool
  is_live (ok a) = is_active a.status
  is_live (err e) = false

  -- The quota that was computed for this epoch, if there is one.
  unfoldable pub earned_quota : ℕ → Option Quota → Option Quota
  earned_quota epoch none = none
  earned_quota epoch (some q) = if q.epoch == epoch then some q else none

  unfoldable pub base_as_quota : ℕ → ℕ → Result ℕ → Result Quota
  base_as_quota id epoch (ok gas) = ok (no_quota id epoch gas)
  base_as_quota id epoch (err e) = err e

  -- `QuotaFor`.
  unfoldable pub quota_for : State E → ℕ → Result Quota
  quota_for s id =
      if is_live (get_app E s id)
      then elim (earned_quota (epoch_of s) (get id s.quotas)) [
        | some q ↦ ok q
        | none ↦ base_as_quota id (epoch_of s) (base_quota (get_params E s) (bond_of s id))
      ]
      else ok (no_quota id (epoch_of s) 0)

  -- The quota that one app's statistics give it for the next epoch.
  unfoldable pub grant_quota : Params → ℕ → EpochStats → M E (Unit {0})
  grant_quota p next st = do
    s ← gets (λ s. s)
    when (is_live (get_app E s st.app_id)) (do
      base ← lift (base_quota p (bond_of s st.app_id))
      q ← lift (compute_quota p st base)
      modify (λ s. record s { quotas = set st.app_id (with_epoch next q) s.quotas }))

  unfoldable pub grant_each : Params → ℕ → Map (ℕ × ℕ) EpochStats → M E (Unit {0})
  grant_each p next [] = pure tt
  grant_each p next ((key, st) ∷ rest) = grant_quota p next st >> grant_each p next rest

  -- The statistics of an epoch, in the order of their apps.
  unfoldable pub key_before : ℕ × ℕ → ℕ × ℕ → Bool
  key_before (e, i) (f, j) = ltb e f || (e == f && ltb i j)

  unfoldable pub stats_of : ℕ → Map (ℕ × ℕ) EpochStats → Map (ℕ × ℕ) EpochStats
  stats_of epoch m = select (λ (key : ℕ × ℕ). key.0 == epoch) (walk key_before m)

  unfoldable pub remove_stats :
      Map (ℕ × ℕ) EpochStats → Map (ℕ × ℕ) EpochStats → Map (ℕ × ℕ) EpochStats
  remove_stats [] m = m
  remove_stats ((key, st) ∷ stale) m = remove_stats stale (remove key m)

  -- The statistics of the epoch before the one that ends are removed.
  unfoldable pub prune_stats : ℕ → Map (ℕ × ℕ) EpochStats → Map (ℕ × ℕ) EpochStats
  prune_stats epoch m = if epoch == 0 then m else remove_stats (stats_of (epoch - 1) m) m

  -- `start + params.EpochLengthBlocks - 1`, in int64.
  unfoldable pub last_of : ℤ → Params → ℤ
  last_of start p = wrap_int64 (wrap_int64 (start +ℤ p.epoch_length_blocks) -ℤ pos 1)

  abbrev pub rolled : ℕ → ℕ → State E → State E
  rolled height epoch s = record s {
    epoch_stats = prune_stats epoch s.epoch_stats;
    epoch_number = some ((epoch + 1) % 2 ^ 64);
    epoch_start = some (wrap_int64 (pos height +ℤ pos 1));
  }

  -- `rolloverEpoch`, at a block's height.
  unfoldable pub rollover_epoch : ℕ → M E (Unit {0})
  rollover_epoch height = do
    s ← gets (λ s. s)
    let p = get_params E s
    let epoch = epoch_of s
    when (not (ltb_ℤ (pos height) (last_of (start_of height s) p))) (do
      grant_each p ((epoch + 1) % 2 ^ 64) (stats_of epoch s.epoch_stats)
      modify (rolled height epoch))
