-- ===== src/Settle/Msgs.antt =====
-- chain/x/settle/keeper/msg_server.go: the messages of accounts. A coin of a reply is made by `NewCoin`,
-- which panics for a denomination that is not valid or an amount below zero.
use vapor_chain.Prelude.{
  ℕ, Bool, false, not, ◌&&◌, ◌||◌, none, some, List, ◌==◌, nat_eq, ℤ, is_negative, Error, ◌>>=◌,
  ◌>>◌, pure, modify, require, lift,
}
use vapor_chain.Settle.Types.{Addr, Denom, Coins, Params}
use vapor_chain.Settle.Params.{validate_params}
use vapor_chain.Settle.Env.{Env, M}
use vapor_chain.Settle.Pay.{PayRequest, PayResult, pay}
use vapor_chain.Settle.Tabs.{close_tab}
use vapor_chain.Settle.Treasury.{
  claim_revenue, buy_credits, withdraw_treasury, disburse_relayer_pool,
}

module _ (E : Env) where
  -- `AccAddressFromBech32`.
  unfoldable pub address : Addr → M E Addr
  address a = do require (E.texts.is_bech32 a) Error.bad_address; pure a

  -- `NewCoin`.
  unfoldable pub new_coin : Denom → ℤ → M E (Denom × ℤ)
  new_coin d x = do
    require (E.texts.valid_denom d && not (is_negative x)) Error.panicked
    pure (d, x)

  unfoldable pub reply_coins : Denom → PayResult → M E ((Denom × ℤ) × (Denom × ℤ))
  reply_coins d res = do fee ← new_coin d res.fee; net ← new_coin d res.net; pure (fee, net)

  -- A payment of no app and no referrer, out of the account of the payer.
  abbrev pub plain_request : Addr → Addr → Denom → ℤ → PayRequest
  plain_request payer payee d x = record {
    payer = payer;
    payee = payee;
    denom = d;
    amount = x;
    app = none;
    referrer = 0;
    funds_in_module = false;
  }

  -- `MsgPay`, at a block's height.
  unfoldable pub pay_msg : ℕ → Addr → Addr → Denom → ℤ → M E ((Denom × ℤ) × (Denom × ℤ))
  pay_msg height payer payee d x = do
    from ← address payer
    to ← address payee
    res ← pay E height (plain_request from to d x)
    reply_coins d res

  -- `MsgClaimRevenue`.
  unfoldable pub claim_revenue_msg : ℕ → List Denom → M E Coins
  claim_revenue_msg id denoms = claim_revenue E id denoms

  -- The recipient of `MsgBuyCredits`, which may be empty.
  unfoldable pub recipient_or_empty : Addr → M E Addr
  recipient_or_empty recipient = do
    require (recipient == 0 || E.texts.is_bech32 recipient) Error.bad_address
    pure recipient

  -- `MsgBuyCredits`.
  unfoldable pub buy_credits_msg : ℕ → Addr → Addr → Denom → ℤ → M E ℤ
  buy_credits_msg height buyer recipient d x = do
    from ← address buyer
    to ← recipient_or_empty recipient
    buy_credits E height from to d x

  -- `MsgCloseTab`.
  unfoldable pub close_tab_msg :
      ℕ → Addr → ℕ → Addr → Addr → Denom → M E ((Denom × ℤ) × (Denom × ℤ))
  close_tab_msg height sender id payer payee d = do
    by ← address sender
    from ← address payer
    to ← address payee
    res ← close_tab E height by id from to d
    reply_coins d res

  -- `MsgWithdrawTreasury`.
  unfoldable pub withdraw_treasury_msg : Addr → Addr → Coins → M E (Unit {0})
  withdraw_treasury_msg signer recipient cs = do
    to ← address recipient
    withdraw_treasury E signer to cs

  -- `MsgDisburseRelayerPool`.
  unfoldable pub disburse_relayer_pool_msg : Addr → Addr → Denom → ℤ → Bool → M E ℤ
  disburse_relayer_pool_msg signer recipient d x as_credits = do
    to ← address recipient
    disburse_relayer_pool E signer to d x as_credits

  -- `MsgUpdateParams`.
  unfoldable pub update_params_msg : Addr → Params → M E (Unit {0})
  update_params_msg authority p = do
    require (authority == E.authority) Error.unauthorized
    lift (validate_params E.texts p)
    modify (λ s. record s { params = some p })
