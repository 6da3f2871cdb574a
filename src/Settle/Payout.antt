-- ===== src/Settle/Payout.antt =====
-- chain/x/settle/keeper/payout.go: the validator pool is paid out by power and uptime.
pub mod Bounds
use vapor_chain.Prelude.{
  ℕ, ◌||◌, Option, none, some, List, [], ◌∷◌, ◌==◌, if◌then◌else◌, ℤ, pos, ◌+ℤ◌, ◌-ℤ◌, ◌*ℤ◌, ◌/ℤ◌,
  pos_part, neg, ltb_ℤ, is_positive, sub_ℕ, Result, ok, err, ◌>>=◌, ◌>>◌, pure, gets, modify, lift,
  not,
}
use vapor_chain.Store.{Map}
use vapor_chain.Settle.Types.{Addr, Denom, max_bps, pool_validator}
use vapor_chain.Settle.Env.{Env, State, M, Validator, get_params}
use vapor_chain.Settle.Ledger.{add_pool}
use vapor_chain.Settle.Pay.{send_positive}

-- The signing window: 1 where it cannot be read or is not positive.
unfoldable pub window_of : Result ℤ → ℤ
window_of (ok w) = if is_positive w then w else pos 1
window_of (err e) = pos 1

-- The uptime in basis points. A validator without a signing record counts as always up.
unfoldable pub uptime_bps : ℤ → Option ℤ → ℤ
uptime_bps window none = pos max_bps
uptime_bps window (some missed) =
    pos max_bps
    -ℤ (if ltb_ℤ window missed then window else missed) *ℤ pos max_bps /ℤ pos_part window

-- The payee and the weight of a validator, power times uptime, if it is to be paid.
unfoldable pub payee_of : ℤ → Validator → Option (Addr × ℤ)
payee_of window v =
    if not (is_positive v.power) || not (is_positive (uptime_bps window v.missed))
    then none
    else (elim v.account [ none ↦ none | some a ↦ some (a, v.power *ℤ uptime_bps window v.missed) ])

unfoldable pub payees_of : ℤ → List Validator → List (Addr × ℤ)
payees_of window [] = []
payees_of window (v ∷ vs) = elim (payee_of window v) [
  | none ↦ payees_of window vs
  | some p ↦ p ∷ payees_of window vs
]

unfoldable pub total_weight : List (Addr × ℤ) → ℤ
total_weight [] = pos 0
total_weight ((a, w) ∷ ps) = w +ℤ total_weight ps

-- The denominations of the validator pool with their balances.
unfoldable pub validator_balances : Map (ℕ × Denom) ℤ → List (Denom × ℤ)
validator_balances [] = []
validator_balances (((pool, d), x) ∷ m) =
    let rest = validator_balances m in if pool == pool_validator then (d, x) ∷ rest else rest

-- A payee's share of a balance, rounded down.
unfoldable pub share_of : ℤ → ℤ → ℤ → ℤ
share_of bal total w = bal *ℤ w /ℤ pos_part total

module _ (E : Env) where
  -- The loop over the payees: what was paid in all. A share that is not positive is left out.
  unfoldable pub pay_each : Denom → ℤ → ℤ → List (Addr × ℤ) → ℤ → M E ℤ
  pay_each d bal total [] paid = pure paid
  pay_each d bal total ((a, w) ∷ rest) paid = do
    send_positive E a d (share_of bal total w)
    pay_each d bal total rest
        (if is_positive (share_of bal total w) then paid +ℤ share_of bal total w else paid)

  -- The loop over the balances. The pool is debited only after all its payees were paid.
  unfoldable pub pay_balances : ℤ → List (Addr × ℤ) → List (Denom × ℤ) → M E (Unit {0})
  pay_balances total payees [] = pure tt
  pay_balances total payees ((d, bal) ∷ rest) = do
    paid ← pay_each d bal total payees (pos 0)
    add_pool E pool_validator d (neg paid)
    pay_balances total payees rest

  -- The payment of the pool to a set of payees.
  unfoldable pub pay_pool : List (Addr × ℤ) → M E (Unit {0})
  pay_pool payees =
      if is_positive (total_weight payees)
      then (do
        pools ← gets (λ s. s.pools)
        pay_balances (total_weight payees) payees (validator_balances pools))
      else pure tt

  abbrev pub last_payout_of : State E → ℕ
  last_payout_of s = elim s.last_payout [ none ↦ 0 | some h ↦ h ]

  -- A payout that is due: a new interval begins for the relayers too.
  unfoldable pub payout_now : ℕ → M E (Unit {0})
  payout_now height = do
    modify (λ s. record s { last_payout = some height; relayer_paid = [] })
    w ← gets (λ s. s.world)
    vals ← lift (E.bonded_validators w)
    pay_pool (payees_of (window_of (E.signed_blocks_window w)) vals)

  -- `PayoutValidators`, at a block's height.
  unfoldable pub payout_validators : ℕ → M E (Unit {0})
  payout_validators height = do
    s ← gets (λ s. s)
    if ltb_ℤ (sub_ℕ height (last_payout_of s)) (get_params E s).validator_payout_interval_blocks
        then pure tt
        else payout_now height
