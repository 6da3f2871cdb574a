-- ===== src/Settle/Ledger.antt =====
-- chain/x/settle/keeper/keeper.go: the ledgers (claimables, pools, the running total), and the checks
-- that every operation begins with.
use vapor_chain.Prelude.{
  ℕ, Bool, ◌&&◌, not, Option, none, some, ◌==◌, if◌then◌else◌, Eq, nat_eq, pair_eq, ℤ, pos, ◌+ℤ◌,
  is_negative, is_zero, Result, ok, err, Error, ◌>>=◌, ◌>>◌, pure, gets, modify, lift,
}
use vapor_chain.Store.{Map, get, set, remove}
use vapor_chain.Settle.Types.{Addr, Denom, FeeAsset, Params, empty}
use vapor_chain.Settle.Params.{find_asset}
use vapor_chain.Settle.Env.{Env, State, M}

abbrev pub int_of : Option ℤ → ℤ
int_of none = pos 0
int_of (some v) = v

module _ {K : Type 0} ⦃e : Eq K⦄ where
  -- `getInt`: a missing entry is zero.
  unfoldable pub get_int : K → Map K ℤ → ℤ
  get_int k m = int_of (get k m)

  -- `addInt`: refuses to go below zero, and keeps no entry of zero.
  unfoldable pub add_int : K → ℤ → Map K ℤ → Result (Map K ℤ)
  add_int k delta m =
      let next = get_int k m +ℤ delta in
      if is_negative next
      then err Error.insufficient_pool
      else ok (if is_zero next then remove k m else set k next m)

module _ (E : Env) where
  -- `ledger`.
  unfoldable pub ledger : Denom → ℤ → M E (Unit {0})
  ledger d delta = do
    m ← gets (λ s. s.ledger_total)
    m' ← lift (add_int d delta m)
    modify (λ s. record s { ledger_total = m' })

  -- `addPool`.
  unfoldable pub add_pool : ℕ → Denom → ℤ → M E (Unit {0})
  add_pool pool d delta = if is_zero delta then pure tt else do
    m ← gets (λ s. s.pools)
    m' ← lift (add_int (pool, d) delta m)
    modify (λ s. record s { pools = m' })
    ledger d delta

  -- `addClaimable`.
  unfoldable pub add_claimable : ℕ → Denom → ℤ → M E (Unit {0})
  add_claimable id d delta = if is_zero delta then pure tt else do
    m ← gets (λ s. s.claimables)
    m' ← lift (add_int (id, d) delta m)
    modify (λ s. record s { claimables = m' })
    ledger d delta

  -- `PoolBalance`.
  unfoldable pub pool_balance : State E → ℕ → Denom → ℤ
  pool_balance s pool d = get_int (pool, d) s.pools

  -- `ClaimableOf`.
  unfoldable pub claimable_of : State E → ℕ → Denom → ℤ
  claimable_of s id d = get_int (id, d) s.claimables

  -- `checkAsset`: the enabled asset, unless its settlement is paused.
  unfoldable pub check_asset : ℕ → Params → Denom → M E FeeAsset
  check_asset height params d s = elim (find_asset params.assets d) [
    | none ↦ (err Error.asset_not_allowed, s)
    | some a ↦
        if not a.enabled
        then (err Error.asset_not_allowed, s)
        else if E.is_settle_paused s.world height d
        then (err Error.paused, s)
        else (ok a, s)
  ]

  -- `validRecipient`.
  unfoldable pub valid_recipient : Addr → Bool
  valid_recipient a = not (a == empty) && not (E.bank.blocked a) && not (a == E.settle_account)
