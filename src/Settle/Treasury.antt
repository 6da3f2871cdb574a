-- ===== src/Settle/Treasury.antt =====
-- chain/x/settle/keeper/treasury.go: revenue claims, gas credits, the treasury and relayer pools, and
-- the burning of gas fees.
use vapor_chain.Prelude.{
  ℕ, Bool, true, false, ◌&&◌, ◌||◌, not, Option, none, some, List, [], ◌∷◌, map, ◌==◌, ltb,
  if◌then◌else◌, contains, nat_eq, pair_eq, ℤ, pos, ◌+ℤ◌, ◌*ℤ◌, neg, ltb_ℤ, is_positive, Result, ok,
  err, Error, ◌>>=◌, ◌>>◌, pure, gets, modify, require, lift, when,
}
use vapor_chain.Settle.Types.{
  Addr, Denom, Coins, amount_of, FeeAsset, Params, empty, max_bps, pool_relayer, pool_treasury,
}
use vapor_chain.Settle.Fees.{bps_of}
use vapor_chain.Settle.Params.{find_asset, is_relayer_recipient}
use vapor_chain.Settle.Env.{Env, State, M, call, get_params}
use vapor_chain.Settle.Ledger.{
  get_int, add_int, add_pool, add_claimable, pool_balance, claimable_of, valid_recipient,
}
use vapor_chain.Apps.Types.{AppStatus}

abbrev pub is_revoked : AppStatus → Bool
is_revoked AppStatus.revoked = true
is_revoked _ = false

module _ (E : Env) where
  -- The claim of one denomination, unless it was claimed already or nothing is claimable.
  unfoldable pub claim_one : ℕ → List Denom → Denom → Coins → M E Coins
  claim_one id seen d claimed = do
    amt ← gets (λ s. claimable_of E s id d)
    if contains seen d || not (is_positive amt)
        then pure claimed
        else (do add_claimable E id d (neg amt); pure ((d, amt) ∷ claimed))

  -- The loop over the denominations of a claim.
  unfoldable pub claim_each : ℕ → List Denom → List Denom → Coins → M E Coins
  claim_each id seen [] claimed = pure claimed
  claim_each id seen (d ∷ rest) claimed = do
    claimed' ← claim_one id seen d claimed
    claim_each id (d ∷ seen) rest claimed'

  -- The denominations of a claim that names none: all assets'.
  unfoldable pub claim_denoms : List Denom → Params → List Denom
  claim_denoms [] params = map (λ a. a.denom) params.assets
  claim_denoms (d ∷ ds) params = d ∷ ds

  abbrev pub any_claimed : Coins → Bool
  any_claimed [] = false
  any_claimed (c ∷ cs) = true

  -- `ClaimRevenue`. A recipient that does not parse is refused.
  unfoldable pub claim_revenue : ℕ → List Denom → M E Coins
  claim_revenue id denoms = do
    w ← gets (λ s. s.world)
    app ← lift (E.get_app w id)
    require (not (is_revoked app.status)) Error.app_revoked
    require (E.texts.is_bech32 app.revenue_recipient) Error.bad_address
    params ← gets (get_params E)
    claimed ← claim_each id [] (claim_denoms denoms params) []
    require (any_claimed claimed) Error.nothing_to_claim
    call E (E.bank.module_to_account E.settle_account app.revenue_recipient claimed)
    pure claimed

  -- The credits that an amount buys at an asset's price.
  unfoldable pub quote : Bool → Option FeeAsset → ℤ → Result ℤ
  quote enabled none amount = err Error.credits_disabled
  quote enabled (some a) amount = elim a.credit_price [
    | none ↦ if a.enabled && enabled then err Error.panicked else err Error.credits_disabled
    | some price ↦
        if a.enabled && enabled && is_positive price
        then ok (amount *ℤ price)
        else err Error.credits_disabled
  ]

  -- `QuoteCredits`.
  unfoldable pub quote_credits : State E → Denom → ℤ → Result ℤ
  unfolding quote
  quote_credits s d amount =
      let params = get_params E s in
      quote params.credits_enabled (find_asset params.assets d) amount

  abbrev minted_so_far : State E → ℤ
  minted_so_far s = elim s.credits_minted [ none ↦ pos 0 | some x ↦ x ]

  -- `mintCredits`: the amount minted.
  unfoldable pub mint_credits : Addr → ℤ → M E ℤ
  mint_credits to amount = do
    call E (E.bank.mint_coins E.settle_account ((E.credit_denom, amount) ∷ []))
    call E (E.bank.module_to_account E.settle_account to ((E.credit_denom, amount) ∷ []))
    modify (λ s. record s { credits_minted = some (minted_so_far s +ℤ amount) })
    pure amount

  -- `BuyCredits`: the credits bought. Without a recipient they go to the buyer.
  unfoldable pub buy_credits : ℕ → Addr → Addr → Denom → ℤ → M E ℤ
  buy_credits height buyer recipient d x = do
    require (is_positive x) Error.invalid_amount
    s ← gets (λ s. s)
    require (not (E.is_settle_paused s.world height d)) Error.paused
    credits ← lift (quote_credits s d x)
    let to = if recipient == empty then buyer else recipient
    require (valid_recipient E to) Error.invalid_recipient
    call E (E.bank.account_to_module buyer E.settle_account ((d, x) ∷ []))
    add_pool E pool_treasury d x
    mint_credits to credits

  -- The loop of `WithdrawTreasury` over the coins.
  unfoldable pub withdraw_each : Coins → M E (Unit {0})
  withdraw_each [] = pure tt
  withdraw_each ((d, x) ∷ rest) = do
    have ← gets (λ s. pool_balance E s pool_treasury d)
    require (not (ltb_ℤ have x)) Error.insufficient_pool
    add_pool E pool_treasury d (neg x)
    withdraw_each rest

  -- Governance, or the holder of an optional office.
  unfoldable pub is_officer : Addr → Addr → Bool
  is_officer signer office = signer == E.authority || (not (office == empty) && signer == office)

  -- `WithdrawTreasury`.
  unfoldable pub withdraw_treasury : Addr → Addr → Coins → M E (Unit {0})
  withdraw_treasury signer recipient amount = do
    params ← gets (get_params E)
    require (is_officer signer params.treasury_admin) Error.unauthorized
    require (E.texts.valid_coins amount && any_claimed amount) Error.invalid_amount
    require (valid_recipient E recipient) Error.invalid_recipient
    withdraw_each amount
    call E (E.bank.module_to_account E.settle_account recipient amount)

  -- The cap of the interval, which binds all but governance.
  unfoldable pub count_relayer : Bool → Params → Denom → ℤ → M E (Unit {0})
  count_relayer true params d x = pure tt
  count_relayer false params d x = do
    paid ← gets (λ s. s.relayer_paid)
    require (not (ltb_ℤ (amount_of params.relayer_payout_cap d) (get_int d paid +ℤ x)))
        Error.relayer_cap
    paid' ← lift (add_int d x paid)
    modify (λ s. record s { relayer_paid = paid' })

  -- The payment of a relayer, in the pool's coin or as credits that the pool buys.
  unfoldable pub pay_relayer : Bool → Addr → Denom → ℤ → M E ℤ
  pay_relayer true recipient d x = do
    s ← gets (λ s. s)
    credits ← lift (quote_credits s d x)
    add_pool E pool_treasury d x
    mint_credits recipient credits
  pay_relayer false recipient d x = do
    call E (E.bank.module_to_account E.settle_account recipient ((d, x) ∷ []))
    pure x

  -- `DisburseRelayerPool`: the amount paid, in credits or in the coin.
  unfoldable pub disburse_relayer_pool : Addr → Addr → Denom → ℤ → Bool → M E ℤ
  disburse_relayer_pool signer recipient d x as_credits = do
    params ← gets (get_params E)
    require (is_officer signer params.relayer_admin) Error.unauthorized
    require (is_positive x) Error.invalid_amount
    require (is_relayer_recipient params recipient) Error.invalid_recipient
    have ← gets (λ s. pool_balance E s pool_relayer d)
    require (not (ltb_ℤ have x)) Error.insufficient_pool
    count_relayer (signer == E.authority) params d x
    add_pool E pool_relayer d (neg x)
    pay_relayer as_credits recipient d x

  -- The part of the collected fees that is burned.
  unfoldable pub burn_share : ℕ → ℤ → ℤ
  burn_share bps bal = if ltb bps max_bps then bps_of bal bps else bal

  -- The moves of a burn. An error is logged, and what was done before it stays.
  unfoldable pub burn_from : Addr → ℤ → M E (Unit {0})
  burn_from collector burn = when (is_positive burn) (do
    call E (E.bank.module_to_module collector E.settle_account ((E.credit_denom, burn) ∷ []))
    call E (E.bank.burn_coins E.settle_account ((E.credit_denom, burn) ∷ [])))

  -- `BurnGasFees`: the state after it; it never fails.
  unfoldable pub burn_gas_fees : State E → State E
  burn_gas_fees s =
      let bps = (get_params E s).gas_burn_bps in
      elim E.fee_collector [
        | none ↦ s
        | some collector ↦
            let bal = E.bank.balance s.world collector E.credit_denom in
            if bps == 0 || not (is_positive bal)
            then s
            else (burn_from collector (burn_share bps bal) s).1
      ]
