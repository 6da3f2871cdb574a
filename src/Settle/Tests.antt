-- ===== src/Settle/Tests.antt =====
-- A bank and a settlement small enough to run, and the theorems at work on them.
use vapor_chain.Prelude.{
  Ensures, ◌*◌, ◌/◌, ◌≡◌, refl, sym, ap, nat_eq, Bool, true, false, not, ◌&&◌, ◌||◌, none, some, [],
  ◌∷◌, arith, ◌==◌, if◌then◌else◌, ℤ, pos, ◌+ℤ◌, ◌-ℤ◌, ltb_ℤ, int_laws, ◌↔◌, ◌≤ℤ◌, pos_part, ltb,
  Result, ok, err, Error, atomically,
}
use vapor_chain.Store.Every.{Every}
use vapor_chain.Host.{Texts, Bank, at_addr}
use vapor_chain.Settle.Types.{Addr, Denom, Coins, amount_of, FeeAsset, Params, Split, max_bps}
use vapor_chain.Settle.Params.{default_params}
use vapor_chain.Settle.Env.{Env, State}
use vapor_chain.Settle.Pay.{PayRequest, pay}
use vapor_chain.Settle.Tabs.{tab_deposit, close_tab}
use vapor_chain.Settle.Treasury.{
  claim_revenue, buy_credits, withdraw_treasury, disburse_relayer_pool,
}
use vapor_chain.Settle.Payout.{payout_validators, pay_each, total_weight}
use vapor_chain.Settle.Payout.Bounds.{weighted, pay_each-bounded}
use vapor_chain.Settle.Blocks.{recount, insolvencies, credit_breach, check_invariants}
use vapor_chain.Settle.Fees.{compute_fee, compute_split, split_total}
use vapor_chain.Settle.Fees.Bounds.{
  compute_fee_bounds, compute_fee-formula, compute_fee_mono, documented_fee, uncapped_fee,
}
use vapor_chain.Settle.Fees.Shares.{split_total-compute_split, compute_split-IsShares, IsShares}
use vapor_chain.Settle.Checks.{insolvencies-nil, IsCovered, check_invariants-IsSound}
use vapor_chain.Settle.Msgs.{pay_msg}
use vapor_chain.Settle.Attribution.{pay_msg-credits_no_app}
use vapor_chain.Settle.Conservation.{Keeps}
use vapor_chain.Settle.Conservation.Payments.{pay-Keeps}
use vapor_chain.Settle.Conservation.Deposits.{tab_deposit-Keeps}
use vapor_chain.Settle.Conservation.Escrow.{close_tab-Keeps}
use vapor_chain.Settle.Conservation.Claims.{claim_revenue-Keeps}
use vapor_chain.Settle.Conservation.Credits.{buy_credits-Keeps}
use vapor_chain.Settle.Conservation.Pools.{withdraw_treasury-Keeps, disburse_relayer_pool-Keeps}
use vapor_chain.Settle.Conservation.Payouts.{payout_validators-Keeps}
use vapor_chain.Settle.Conservation.Solvency.{IsSound}
use vapor_chain.Settle.Conservation.Reached.{Step, Reach, Reach-IsSound}
use vapor_chain.Apps.Types.{App, AppStatus}

abbrev module_account : Addr
module_account = 100

abbrev collector : Addr
collector = 101

abbrev World : Type 0
World = Addr → Denom → ℤ

abbrev is_blocked : Addr → Bool
is_blocked a = a == module_account || a == collector

abbrev covers : World → Addr → Coins → Bool
covers w from [] = true
covers w from ((d, x) ∷ cs) = not (ltb_ℤ (w from d) x) && covers w from cs

abbrev moved : Addr → Addr → Coins → World → World
moved from to cs w a d = w a d -ℤ at_addr a from (amount_of cs d) +ℤ at_addr a to (amount_of cs d)

abbrev minted_to : Addr → Coins → World → World
minted_to to cs w a d = w a d +ℤ at_addr a to (amount_of cs d)

abbrev burned_from : Addr → Coins → World → World
burned_from from cs w a d = w a d -ℤ at_addr a from (amount_of cs d)

abbrev unless : Bool → World → Result World
unless true w = err Error.bank_failure
unless false w = ok w

abbrev account_send : Addr → Addr → Coins → World → Result World
account_send from to cs w = unless (not (covers w from cs)) (moved from to cs w)

abbrev module_send : Addr → Addr → Coins → World → Result World
module_send from to cs w = unless (is_blocked to || not (covers w from cs)) (moved from to cs w)

abbrev value_of : World → Result World → World
value_of d (ok w) = w
value_of d (err e) = d

pub unless_lem :
    (b : Bool) (w t : World) → unless b w ≡ ok t → (a : Addr) (d : Denom) → t a d ≡ w a d
unless_lem true w t h a d = cc
unless_lem false w t h a d = ap (λ r. value_of w r a d) (sym h)

pub unless-false : (b c : Bool) (w t : World) → unless (b || c) w ≡ ok t → b ≡ false
unless-false true c w t h = cc
unless-false false c w t h = refl

abbrev pub small_bank : Bank
small_bank = record {
  World = World;
  balance = λ w a d. w a d;
  supply = λ w d. pos 0;
  blocked = is_blocked;
  account_to_module = account_send;
  module_to_account = module_send;
  module_to_module = account_send;
  mint_coins = λ to cs w. ok (minted_to to cs w);
  burn_coins = λ from cs w. unless (not (covers w from cs)) (burned_from from cs w);
  account_to_module_lem =
      λ from to cs w t h. unless_lem (not (covers w from cs)) (moved from to cs w) t h;
  module_to_account_lem = λ from to cs w t h.
      unless_lem (is_blocked to || not (covers w from cs)) (moved from to cs w) t h;
  module_to_account_unblocked = λ from to cs w t h.
      unless-false (is_blocked to) (not (covers w from cs)) (moved from to cs w) t h;
  module_to_module_lem =
      λ from to cs w t h. unless_lem (not (covers w from cs)) (moved from to cs w) t h;
  mint_coins_lem = λ to cs w t h. unless_lem false (minted_to to cs w) t h;
  burn_coins_lem = λ from cs w t h. unless_lem (not (covers w from cs)) (burned_from from cs w) t h;
}

abbrev payer : Addr
payer = 20

abbrev payee : Addr
payee = 30

abbrev usdc : Denom
usdc = 5

abbrev pub small_texts : Texts
small_texts = record {
  is_bech32 = λ a. not (a == 0);
  valid_denom = λ d. not (d == 0);
  has_erc20_prefix = λ d. false;
  is_hex_address = λ a. false;
  hex_address = λ a. a;
  valid_coins = λ cs. true;
}

abbrev small_app : App
small_app = record {
  app_id = 1;
  owner = 40;
  pending_owner = 0;
  revenue_recipient = 41;
  metadata_uri = 0;
  domain = 0;
  referrer_bps = 1000;
  status = AppStatus.active;
  version = 1;
  created_height = 1;
  contract_count = 1;
}

abbrev small_env : Env
small_env = record {
  bank = small_bank;
  texts = small_texts;
  authority = 50;
  credit_denom = 9;
  settle_account = module_account;
  fee_collector = some collector;
  get_app = λ w id. if id == 1 then ok small_app else err Error.app_not_found;
  record_settlement = λ id who x w. ok w;
  is_settle_paused = λ w height d. false;
  set_pause_settle = λ height w. ok w;
  bonded_validators =
      λ w. ok (record { power = pos 10; missed = some (pos 0); account = some 60 } ∷ []);
  signed_blocks_window = λ w. ok (pos 100);
  settle_account_blocked = refl;
  record_settlement_lem = λ id who x w t h. unless_lem false w t h;
  set_pause_settle_lem = λ height w t h. unless_lem false w t h;
}

abbrev usdc_asset : FeeAsset
usdc_asset = record {
  denom = usdc;
  enabled = true;
  decimals = 6;
  min_fee = some (pos 10);
  max_fee = some (pos 5000);
  micro_threshold = some (pos 1000);
  tab_settle_threshold = some (pos 5000);
  quota_weight = some (pos 1);
  credit_price = some (pos 2);
}

abbrev small_params : Params
small_params = record default_params {
  assets = usdc_asset ∷ [];
  credits_enabled = true;
  validator_payout_interval_blocks = pos 10;
}

abbrev start : State small_env
start = record {
  world = λ a d. if a == payer && d == usdc then pos 1000000 else pos 0;
  params = some small_params;
  claimables = [];
  pools = [];
  tabs = [];
  allowances = [];
  totals = [];
  credits_minted = none;
  genesis_credit_supply = none;
  ledger_total = [];
  relayer_paid = [];
  last_payout = none;
}

abbrev request : PayRequest
request = record {
  payer = payer;
  payee = payee;
  denom = usdc;
  amount = pos 200000;
  app = some small_app;
  referrer = 31;
  funds_in_module = false;
}

start-IsSound : IsSound small_env start
start-IsSound =
    unfold recount in
    record { solvent = λ e. omega int_laws; agrees = λ e. omega int_laws; keyed = tt; tabbed = tt }

-- A payment of 0.2 tokens, and the state after it.
abbrev after_pay : State small_env
after_pay = (atomically (pay small_env 3 request) start).1

abbrev after_deposit : State small_env
after_deposit =
    (atomically (tab_deposit small_env 4 (some small_app) payer payee usdc (pos 3000) true)
      after_pay).1

Reach-IsSound_example : IsSound small_env after_deposit
Reach-IsSound_example = Reach-IsSound small_env {s = start} {t = after_deposit} start-IsSound (
    Reach.next (Reach.next Reach.here (Step.pays 3 request start refl refl))
      (Step.deposits 4 (some small_app) payer payee usdc (pos 3000) after_pay refl))

pay-Keeps_example : Keeps small_env usdc start (pay small_env 3 request start)
pay-Keeps_example = pay-Keeps small_env usdc 3 request start refl refl

pay_msg-credits_no_app_example :
    (pay_msg small_env 3 payer payee usdc (pos 100000) start).1.claimables ≡ start.claimables
pay_msg-credits_no_app_example =
    pay_msg-credits_no_app small_env 3 payer payee usdc (pos 100000) start

tab_deposit-Keeps_example :
    Keeps small_env usdc start
      (tab_deposit small_env 4 (some small_app) payer payee usdc (pos 3000) true start)
tab_deposit-Keeps_example =
    tab_deposit-Keeps small_env usdc 4 (some small_app) payer payee usdc (pos 3000) start refl tt

-- A tab in escrow, with its money in the module.
abbrev escrowed : State small_env
escrowed = record start {
  world = λ a d. if a == module_account && d == usdc then pos 3000 else pos 0;
  tabs =
      (
        (1, (payer, (payee, usdc))),
        record {
          app_id = 1;
          payer = payer;
          payee = payee;
          denom = usdc;
          amount = pos 3000;
          opened_height = 4;
          entries = 1;
        },
      )
      ∷ [];
  ledger_total = (usdc, pos 3000) ∷ [];
}

close_tab-Keeps_example :
    Keeps small_env usdc escrowed (close_tab small_env 9 payee 1 payer payee usdc escrowed)
close_tab-Keeps_example =
    close_tab-Keeps small_env usdc 9 payee 1 payer payee usdc escrowed ((refl, omega arith), tt)

-- Revenue, pools and their money in the module.
abbrev earned : State small_env
earned = record start {
  params = some (record small_params { relayer_recipients = 60 ∷ [] });
  world = λ a d. if a == module_account && d == usdc then pos 900 else pos 0;
  claimables = ((1, usdc), pos 500) ∷ [];
  pools = ((1, usdc), pos 100) ∷ ((2, usdc), pos 100) ∷ ((3, usdc), pos 200) ∷ [];
  ledger_total = (usdc, pos 900) ∷ [];
}

claim_revenue-Keeps_example :
    Keeps small_env usdc earned (claim_revenue small_env 1 (usdc ∷ []) earned)
claim_revenue-Keeps_example = claim_revenue-Keeps small_env usdc 1 (usdc ∷ []) earned

buy_credits-Keeps_example :
    Keeps small_env usdc start (buy_credits small_env 3 payer 0 usdc (pos 100) start)
buy_credits-Keeps_example = buy_credits-Keeps small_env usdc 3 payer 0 usdc (pos 100) start refl

withdraw_treasury-Keeps_example :
    Keeps small_env usdc earned (withdraw_treasury small_env 50 60 ((usdc, pos 150) ∷ []) earned)
withdraw_treasury-Keeps_example =
    withdraw_treasury-Keeps small_env usdc 50 60 ((usdc, pos 150) ∷ []) earned

-- The governance pays 40 of the relayer pool to the listed recipient 60, as 80 credits.
disburse_relayer_pool-Keeps_example :
    Keeps small_env usdc earned (disburse_relayer_pool small_env 50 60 usdc (pos 40) true earned)
disburse_relayer_pool-Keeps_example =
    disburse_relayer_pool-Keeps small_env usdc 50 60 usdc (pos 40) true earned

payout_validators-Keeps_example :
    Keeps small_env usdc earned (payout_validators small_env 20 earned)
payout_validators-Keeps_example = payout_validators-Keeps small_env usdc 20 earned

check_invariants-IsSound_example : check_invariants small_env start ≡ credit_breach small_env start
check_invariants-IsSound_example = check_invariants-IsSound small_env start start-IsSound

insolvencies-nil_example :
    (insolvencies small_env earned.world earned.ledger_total ≡ [])
    ↔ Every (IsCovered small_env earned.world) earned.ledger_total
insolvencies-nil_example = insolvencies-nil small_env earned.world earned.ledger_total

compute_fee_bounds_example :
    (pos 0 ≤ℤ compute_fee (pos 200000) usdc_asset 50)
    × (compute_fee (pos 200000) usdc_asset 50 ≤ℤ pos (pos_part (pos 200000)))
compute_fee_bounds_example = compute_fee_bounds (pos 200000) usdc_asset 50

compute_fee-formula_example :
    compute_fee (pos 200000) usdc_asset 50
    ≡ pos (
        if ltb 0 5000
        then documented_fee 200000 50 1000 10 5000
        else uncapped_fee 200000 50 1000 10)
compute_fee-formula_example = compute_fee-formula usdc_asset 50 1000 10 5000 refl refl refl 200000

compute_fee_mono_example :
    compute_fee (pos 100) usdc_asset 50 ≤ℤ compute_fee (pos 200000) usdc_asset 50
compute_fee_mono_example =
    compute_fee_mono usdc_asset 50 1000 10 5000 refl refl refl 100 200000 (omega arith)

abbrev small_split : Split
small_split = record {
  app_bps = 5000;
  validator_bps = 2500;
  relayer_bps = 1000;
  treasury_bps = 1500;
}

split_total-compute_split_example :
    split_total (compute_split (pos 999) small_split true true 1000) ≡ pos 999
split_total-compute_split_example = split_total-compute_split (pos 999) small_split true true 1000

compute_split-IsShares_example :
    let r = compute_split (pos 999) small_split true true 1000 in
    IsShares r
    × (pos (999 * small_split.treasury_bps / max_bps) ≤ℤ r.treasury)
    × (r.app +ℤ r.referrer ≡ (if true then pos (999 * small_split.app_bps / max_bps) else pos 0))
    × (r.validator ≡ pos (999 * small_split.validator_bps / max_bps))
    × (r.relayer ≡ pos (999 * small_split.relayer_bps / max_bps))
compute_split-IsShares_example =
    compute_split-IsShares 999 small_split refl true true 1000 (omega arith)

pay_each-bounded_example :
    Ensures
      (λ paid _. (pos 0 ≤ℤ paid) × (paid ≤ℤ pos 100))
      (pay_each small_env usdc
        (pos 100)
        (total_weight (weighted ((60, 7) ∷ (61, 5) ∷ [])))
        (weighted ((60, 7) ∷ (61, 5) ∷ []))
        (pos 0)
        earned)
pay_each-bounded_example =
    pay_each-bounded small_env usdc 100 ((60, 7) ∷ (61, 5) ∷ []) earned (omega arith)
