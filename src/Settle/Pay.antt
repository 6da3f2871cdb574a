-- ===== src/Settle/Pay.antt =====
-- chain/x/settle/keeper/pay.go: a payment, the distribution of its fee, and the allowances of apps.
-- Events are not modelled.
use vapor_chain.Prelude.{
  ℕ, ◌+◌, ◌%◌, ◌^◌, Bool, true, false, ◌&&◌, not, Option, none, some, [], ◌∷◌, ◌==◌, if◌then◌else◌,
  nat_eq, pair_eq, ℤ, pos, ◌+ℤ◌, ◌-ℤ◌, ◌*ℤ◌, ltb_ℤ, leb_ℤ, eqb_ℤ, is_positive, is_negative, is_zero,
  Error, ◌>>=◌, ◌>>◌, pure, gets, modify, require, lift, when, or_err,
}
use vapor_chain.Store.{get, set, remove}
use vapor_chain.Settle.Types.{
  Addr, Denom, FeeAsset, Params, Totals, SplitResult, empty, pool_validator, pool_relayer,
  pool_treasury,
}
use vapor_chain.Settle.Fees.{compute_fee, compute_split, split_total}
use vapor_chain.Settle.Env.{Env, State, M, call, get_params}
use vapor_chain.Settle.Ledger.{get_int, add_pool, add_claimable, check_asset, valid_recipient}
use vapor_chain.Apps.Types.{App, no_app}

pub record PayRequest : Type 0 where
  pub payer : Addr
  pub payee : Addr
  pub denom : Denom
  pub amount : ℤ
  pub app : Option App
  pub referrer : Addr
  pub funds_in_module : Bool

pub record PayResult : Type 0 where
  pub fee : ℤ
  pub net : ℤ
  pub split : SplitResult
  pub app_id : ℕ

abbrev pub app_id_of : Option App → ℕ
app_id_of none = no_app
app_id_of (some a) = a.app_id

abbrev pub is_some : {A : Type 0} → Option A → Bool
is_some none = false
is_some (some a) = true

abbrev pub referrer_bps_of : Option App → ℕ
referrer_bps_of none = 0
referrer_bps_of (some a) = a.referrer_bps

module _ (E : Env) where
  -- `SendCoinsFromModuleToAccount` of one coin, where there is something to send.
  unfoldable pub send_positive : Addr → Denom → ℤ → M E (Unit {0})
  send_positive to d x =
      when (is_positive x) (call E (E.bank.module_to_account E.settle_account to ((d, x) ∷ [])))

  -- The shares that stay in the module, booked on its ledgers.
  unfoldable pub book_shares : ℕ → Denom → SplitResult → M E (Unit {0})
  book_shares id d r = do
    add_claimable E id d r.app
    add_pool E pool_validator d r.validator
    add_pool E pool_relayer d r.relayer
    add_pool E pool_treasury d r.treasury

  abbrev pub no_totals : Denom → Totals
  no_totals d = record { denom = d; volume = pos 0; fees = pos 0; payments = 0 }

  abbrev pub totals_of : State E → Denom → Totals
  totals_of s d = elim (get d s.totals) [ none ↦ no_totals d | some t ↦ t ]

  -- The lifetime totals; the count is a uint64.
  unfoldable pub count_payment : Denom → ℤ → ℤ → M E (Unit {0})
  count_payment d amount fee = modify λ s.
      let t = totals_of s d in
      record s {
        totals =
            set d
              (record t {
                volume = t.volume +ℤ amount;
                fees = t.fees +ℤ fee;
                payments = (t.payments + 1) % 2 ^ 64;
              })
              s.totals;
      }

  -- The quota engine hears of the fee of an attributed payment.
  unfoldable pub record_quota : Option App → FeeAsset → Addr → ℤ → M E (Unit {0})
  record_quota none asset payer fee = pure tt
  record_quota (some a) asset payer fee = do
    weight ← lift (or_err asset.quota_weight Error.panicked)
    call E (E.record_settlement a.app_id payer (fee *ℤ weight))

  -- A referrer counts if it can be paid and is not the payer.
  unfoldable pub has_referrer : PayRequest → Bool
  has_referrer req =
      not (req.referrer == empty)
      && valid_recipient E req.referrer
      && not (req.referrer == req.payer)

  -- `distribute`: the amount is in the module and on no ledger.
  unfoldable pub distribute : Params → FeeAsset → PayRequest → M E PayResult
  distribute params asset req = do
    let fee = compute_fee req.amount asset params.fee_bps
    let net = req.amount -ℤ fee
    let split =
        compute_split fee params.split (is_some req.app) (has_referrer req)
          (referrer_bps_of req.app)
    require (eqb_ℤ (split_total split) fee) Error.invariant_violation
    send_positive req.payee req.denom net
    send_positive req.referrer req.denom split.referrer
    book_shares (app_id_of req.app) req.denom split
    count_payment req.denom req.amount fee
    record_quota req.app asset req.payer fee
    pure (record { fee = fee; net = net; split = split; app_id = app_id_of req.app })

  -- The pull of the payer's funds, unless they are escrowed.
  unfoldable pub pull : Bool → Addr → Denom → ℤ → M E (Unit {0})
  pull needed payer d x =
      when needed (call E (E.bank.account_to_module payer E.settle_account ((d, x) ∷ [])))

  -- `Pay`, at a block's height.
  unfoldable pub pay : ℕ → PayRequest → M E PayResult
  pay height req = do
    params ← gets (get_params E)
    asset ← check_asset E height params req.denom
    require (is_positive req.amount) Error.invalid_amount
    require (valid_recipient E req.payee) Error.invalid_recipient
    require (not (req.payer == req.payee)) Error.self_payment
    pull (not req.funds_in_module) req.payer req.denom req.amount
    distribute params asset req

  -- `MaxAllowance`: an allowance from here on is never used up.
  abbrev pub max_allowance : ℤ
  max_allowance = pos (2 ^ 255)

  -- `Allowance`.
  unfoldable pub allowance : State E → Addr → ℕ → Denom → ℤ
  allowance s owner id d = get_int (owner, (id, d)) s.allowances

  -- `ApproveApp`.
  unfoldable pub approve_app : Addr → ℕ → Denom → ℤ → M E (Unit {0})
  approve_app owner id d amount = do
    require (not (is_negative amount)) Error.invalid_amount
    w ← gets (λ s. s.world)
    lift (E.get_app w id)
    modify λ s. record s {
      allowances =
          if is_zero amount
          then remove (owner, (id, d)) s.allowances
          else set (owner, (id, d)) amount s.allowances;
    }

  -- `SpendAllowance`.
  unfoldable pub spend_allowance : Addr → ℕ → Denom → ℤ → M E (Unit {0})
  spend_allowance owner id d amount = do
    cur ← gets (λ s. allowance s owner id d)
    require (not (ltb_ℤ cur amount)) Error.allowance_exceeded
    modify λ s. if leb_ℤ max_allowance cur then s else record s {
      allowances =
          if is_zero (cur -ℤ amount)
          then remove (owner, (id, d)) s.allowances
          else set (owner, (id, d)) (cur -ℤ amount) s.allowances;
    }
