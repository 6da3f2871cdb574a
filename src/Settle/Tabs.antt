-- ===== src/Settle/Tabs.antt =====
-- chain/x/settle/keeper/tabs.go: micro-payments gathered in escrow, and settled as one payment.
use vapor_chain.Prelude.{
  ℕ, ◌+◌, ◌%◌, ◌^◌, Bool, true, false, ◌&&◌, ◌||◌, not, Option, none, some, [], ◌∷◌, ◌==◌,
  if◌then◌else◌, nat_eq, pair_eq, ℤ, pos, ◌+ℤ◌, neg, leb_ℤ, is_positive, sub_ℕ, Result, ok, err,
  Error, ◌>>=◌, ◌>>◌, pure, gets, modify, require, lift, or_err,
}
use vapor_chain.Store.{get, set, remove}
use vapor_chain.Settle.Types.{Addr, Denom, FeeAsset, Params, Tab, SplitResult}
use vapor_chain.Settle.Params.{find_asset}
use vapor_chain.Settle.Env.{Env, State, M, TabKey, call, get_params}
use vapor_chain.Settle.Ledger.{ledger, check_asset, valid_recipient}
use vapor_chain.Settle.Pay.{PayRequest, PayResult, app_id_of, distribute, pull}
use vapor_chain.Apps.Types.{App, AppStatus, no_app}

-- `TabKey`.
abbrev pub tab_key : ℕ → Addr → Addr → Denom → TabKey
tab_key id payer payee d = (id, (payer, (payee, d)))

abbrev pub no_shares : SplitResult
no_shares = record {
  app = pos 0;
  referrer = pos 0;
  validator = pos 0;
  relayer = pos 0;
  treasury = pos 0;
}

-- The result of a call that settles nothing.
abbrev pub no_result : PayResult
no_result = record { fee = pos 0; net = pos 0; split = no_shares; app_id = no_app }

abbrev is_active : AppStatus → Bool
is_active AppStatus.active = true
is_active _ = false

-- The app, if it was found and is active.
unfoldable pub active_app : Result App → Option App
active_app (ok a) = if is_active a.status then some a else none
active_app (err e) = none

-- The app owner may close a tab of the app.
unfoldable pub owns_app : Addr → Result App → Bool
owns_app sender (ok a) = a.owner == sender
owns_app sender (err e) = false

abbrev pub tab_or : Tab → Option Tab → Tab
tab_or fresh none = fresh
tab_or fresh (some t) = t

module _ (E : Env) where
  -- The app that a tab is settled for: the caller's, or the tab's own if it is active.
  unfoldable pub app_of_tab : Option App → ℕ → State E → Option App
  app_of_tab (some a) id s = some a
  app_of_tab none id s = if id == no_app then none else active_app (E.get_app s.world id)

  -- The refund of a tab whose asset is no longer listed.
  unfoldable pub refund : Tab → M E PayResult
  refund tab = do
    call E (E.bank.module_to_account E.settle_account tab.payer ((tab.denom, tab.amount) ∷ []))
    pure no_result

  unfoldable pub tab_request : Tab → Option App → PayRequest
  tab_request tab app = record {
    payer = tab.payer;
    payee = tab.payee;
    denom = tab.denom;
    amount = tab.amount;
    app = app;
    referrer = 0;
    funds_in_module = true;
  }

  -- The payment of a closed tab: a refund if the asset is gone, else a distribution.
  unfoldable pub pay_tab : Params → Option FeeAsset → Option App → Tab → M E PayResult
  pay_tab params none app tab = refund tab
  pay_tab params (some asset) app tab = do
    own ← gets (app_of_tab app tab.app_id)
    distribute E params asset (tab_request tab own)

  -- `settleTab`.
  unfoldable pub settle_tab : TabKey → Tab → Option App → M E PayResult
  settle_tab key tab app = do
    modify (λ s. record s { tabs = remove key s.tabs })
    ledger E tab.denom (neg tab.amount)
    params ← gets (get_params E)
    pay_tab params (find_asset params.assets tab.denom) app tab

  abbrev pub opened_tab : ℕ → ℕ → Addr → Addr → Denom → Tab
  opened_tab height id payer payee d = record {
    app_id = id;
    payer = payer;
    payee = payee;
    denom = d;
    amount = pos 0;
    opened_height = height;
    entries = 0;
  }

  -- The tab of the store, or a new one.
  abbrev pub tab_at : ℕ → ℕ → Addr → Addr → Denom → State E → Tab
  tab_at height id payer payee d s =
      tab_or (opened_tab height id payer payee d) (get (tab_key id payer payee d) s.tabs)

  -- The end of `TabDeposit`: the grown tab is settled from the threshold on, else stored.
  unfoldable pub store_or_settle : TabKey → Tab → ℤ → Option App → M E (Bool × PayResult)
  store_or_settle key tab threshold app =
      if leb_ℤ threshold tab.amount
      then (do res ← settle_tab key tab app; pure (true, res))
      else do modify (λ s. record s { tabs = set key tab s.tabs }); pure (false, no_result)

  -- A tab after a deposit.
  abbrev pub grown : Tab → ℤ → Tab
  grown old x = record old { amount = old.amount +ℤ x; entries = (old.entries + 1) % 2 ^ 64 }

  -- `TabDeposit`, at a block's height. The count of entries is a uint64.
  unfoldable pub tab_deposit :
      ℕ → Option App → Addr → Addr → Denom → ℤ → Bool → M E (Bool × PayResult)
  tab_deposit height app payer payee d x pull_from_payer = do
    params ← gets (get_params E)
    asset ← check_asset E height params d
    require (is_positive x) Error.invalid_amount
    require (valid_recipient E payee && not (payer == payee)) Error.invalid_recipient
    pull E pull_from_payer payer d x
    old ← gets (tab_at height (app_id_of app) payer payee d)
    ledger E d x
    threshold ← lift (or_err asset.tab_settle_threshold Error.panicked)
    store_or_settle (tab_key (app_id_of app) payer payee d) (grown old x) threshold app

  -- `CloseTab`, at a block's height.
  unfoldable pub close_tab : ℕ → Addr → ℕ → Addr → Addr → Denom → M E PayResult
  close_tab height sender id payer payee d = do
    s ← gets (λ s. s)
    tab ← lift (or_err (get (tab_key id payer payee d) s.tabs) Error.tab_not_found)
    let app = if id == no_app then err Error.app_not_found else E.get_app s.world id
    let old_enough = leb_ℤ (get_params E s).max_tab_age_blocks (sub_ℕ height tab.opened_height)
    require (sender == payer || sender == payee || owns_app sender app || old_enough)
        Error.unauthorized
    settle_tab (tab_key id payer payee d) tab (active_app app)
