-- ===== src/Settle/Conservation/Payments.antt =====
-- A payment (chain/x/settle/keeper/pay.go) conserves the money of every denomination.
use vapor_chain.Prelude.{
  one_part, ℕ, ◌≡◌, ap, inl, inr, Bool, true, false, not, Option, none, some, [], ◌∷◌, arith, ◌==◌,
  ltb, Bool-cases, if◌then◌else◌, Error, ℤ, pos, ◌+ℤ◌, ◌-ℤ◌, ◌*ℤ◌, ◌≤ℤ◌, neg, eqb_ℤ, is_positive,
  int_laws, ◌>>◌, pure, require, Option-cases,
}
use vapor_chain.Settle.Types.{
  Addr, Denom, Split, SplitResult, FeeAsset, Params, pool_validator, pool_relayer, pool_treasury,
}
use vapor_chain.Settle.Fees.{
  bps_of, compute_fee, compute_split, base_split, to_treasury, carve_referrer, split_total,
}
use vapor_chain.Settle.Fees.Bounds.{compute_fee_bounds, bps_of-pos}
use vapor_chain.Settle.Fees.Shares.{split_total-compute_split}
use vapor_chain.Settle.Params.{find_asset}
use vapor_chain.Settle.Env.{Env, State, get_params}
use vapor_chain.Settle.Ledger.{check_asset, valid_recipient, add_pool, add_claimable}
use vapor_chain.Settle.Pay.{
  PayRequest, PayResult, is_some, app_id_of, referrer_bps_of, send_positive, book_shares,
  count_payment, record_quota, has_referrer, distribute, pull, pay,
}
use vapor_chain.Apps.Types.{App}
use vapor_chain.Settle.Blocks.{at_denom, recount}
use vapor_chain.Settle.Conservation.{
  Delta, still, booked, ◌⊕◌, Shifts-refl, Moves, Moves-eq, >>=_Moves, after_reading, require-Moves,
  Keeps, Moves-Keeps, guard_Keeps, reading_Keeps,
}
use vapor_chain.Settle.Conservation.Steps.{
  at_denom-+ℤ, amount_of-one, both, banked_only, call-Moves, add_pool-Moves, add_claimable-Moves,
  pay_in-Moves, send_positive-Moves,
}

-- A percentage of what is not negative is not negative.
bps_of_nonneg : (x : ℤ) (b : ℕ) → pos 0 ≤ℤ x → pos 0 ≤ℤ bps_of x b
bps_of_nonneg (ℤ.pos n) b h = rw (bps_of-pos n b) (omega arith)
bps_of_nonneg (ℤ.negsuc n) b h = absurd (omega arith)

pub referrer_nonneg :
    (fee : ℤ) (split : Split) (has_app has_ref : Bool) (b : ℕ)
    → pos 0 ≤ℤ fee
    → pos 0 ≤ℤ (compute_split fee split has_app has_ref b).referrer
unfolding compute_split base_split to_treasury carve_referrer
referrer_nonneg fee split false has_ref b h = omega arith
referrer_nonneg fee split true false b h = omega arith
referrer_nonneg fee split true true b h = elim (Bool-cases (ltb 0 b)) [
  | inl positive ↦
      rw (positive, compute_split)
        (bps_of_nonneg (bps_of fee split.app_bps) b (bps_of_nonneg fee split.app_bps h))
  | inr zero_bps ↦ rw (zero_bps, compute_split) (omega arith)
]

pub nonneg_of_positive : (x : ℤ) → is_positive x ≡ true → pos 0 ≤ℤ x
nonneg_of_positive x h = ground arith

module _ (E : Env) (e : Denom) where
  book_shares-Moves :
      (id : ℕ) (d : Denom) (r : SplitResult) (s : State E)
      → Moves E e
          (both E e d r.app
            ⊕ (both E e d r.validator ⊕ (both E e d r.relayer ⊕ both E e d r.treasury)))
          s
          (book_shares E id d r s)
  unfolding book_shares
  book_shares-Moves id d r s =
      >>=_Moves E e (both E e d r.app) _ (add_claimable E id d r.app) _ s
        (add_claimable-Moves E e id d r.app s)
        (λ a t.
          >>=_Moves E e (both E e d r.validator) _ (add_pool E pool_validator d r.validator) _ t
            (add_pool-Moves E e pool_validator d r.validator t)
            (λ a u.
              >>=_Moves E e (both E e d r.relayer) _ (add_pool E pool_relayer d r.relayer) _ u
                (add_pool-Moves E e pool_relayer d r.relayer u)
                (λ a v. add_pool-Moves E e pool_treasury d r.treasury v)))

  count_payment-Moves :
      (d : Denom) (x fee : ℤ) (s : State E) → Moves E e still s (count_payment E d x fee s)
  unfolding count_payment recount
  count_payment-Moves d x fee s = record {
    banked = omega int_laws;
    owed = omega int_laws;
    counted = omega int_laws;
    keyed = λ v. v;
    tabbed = λ v. v;
  }

  record_quota-Moves :
      (app : Option App) (asset : FeeAsset) (payer : Addr) (fee : ℤ) (s : State E)
      → Moves E e still s (record_quota E app asset payer fee s)
  unfolding record_quota
  record_quota-Moves none asset payer fee s = Shifts-refl E e s
  record_quota-Moves (some a) asset payer fee s = elim (Option-cases asset.quota_weight) [
    | inl unset ↦ rw (unset, record_quota) tt
    | inr (w, set_to) ↦
        rw (set_to, record_quota)
          (call-Moves E e (E.record_settlement a.app_id payer (fee *ℤ w)) (pos 0) s (λ t done.
            rw (E.record_settlement_lem a.app_id payer (fee *ℤ w) s.world t done E.settle_account e)
              (omega int_laws)))
  ]

  -- What a distribution leaves on the ledgers: the fee less the referrer's share.
  abbrev pub kept_of : Params → FeeAsset → PayRequest → ℤ
  kept_of params asset req =
      let fee = compute_fee req.amount asset params.fee_bps in
      fee
      -ℤ (compute_split fee params.split (is_some req.app) (has_referrer E req)
          (referrer_bps_of req.app)).referrer

  -- A distribution books what it keeps, and pays out the rest of the amount.
  abbrev pub distributed : Params → FeeAsset → PayRequest → Delta
  distributed params asset req = record {
    bank = at_denom e req.denom (kept_of params asset req) -ℤ at_denom e req.denom req.amount;
    owed = at_denom e req.denom (kept_of params asset req);
    counted = at_denom e req.denom (kept_of params asset req);
  }

  -- The shares booked are what is kept.
  shares_sum :
      (fee : ℤ) (split : Split) (has_app has_ref : Bool) (b : ℕ) (d : Denom)
      → let r = compute_split fee split has_app has_ref b in
        at_denom e d r.app
          +ℤ (at_denom e d r.validator +ℤ (at_denom e d r.relayer +ℤ at_denom e d r.treasury))
        ≡ at_denom e d (fee -ℤ r.referrer)
  shares_sum fee split has_app has_ref b d =
      let r = compute_split fee split has_app has_ref b in
      let sum : fee -ℤ r.referrer ≡ r.app +ℤ (r.validator +ℤ (r.relayer +ℤ r.treasury)) =
        unfold split_total in
        omega (int_laws, split_total-compute_split fee split has_app has_ref b) in
      rw (
        sum,
        at_denom-+ℤ e d r.app (r.validator +ℤ (r.relayer +ℤ r.treasury)),
        at_denom-+ℤ e d r.validator (r.relayer +ℤ r.treasury),
        at_denom-+ℤ e d r.relayer r.treasury,
      )

  -- What is kept, what the referrer gets and what the payee gets make up the amount.
  parts_sum :
      (amount fee ref : ℤ) (d : Denom)
      → neg (at_denom e d (amount -ℤ fee)) +ℤ neg (at_denom e d ref)
        ≡ at_denom e d (fee -ℤ ref) -ℤ at_denom e d amount
  parts_sum amount fee ref d =
      let net = at_denom-+ℤ e d (amount -ℤ fee) fee in
      let kept = at_denom-+ℤ e d (fee -ℤ ref) ref in
      let whole : amount -ℤ fee +ℤ fee ≡ amount = omega int_laws in
      let cut : fee -ℤ ref +ℤ ref ≡ fee = omega int_laws in
      omega (int_laws, rw whole at net, rw cut at kept)

  module _ (params : Params) (asset : FeeAsset) (req : PayRequest) where
    abbrev the_fee : ℤ
    the_fee = compute_fee req.amount asset params.fee_bps

    abbrev the_split : SplitResult
    the_split =
        compute_split the_fee params.split (is_some req.app) (has_referrer E req)
          (referrer_bps_of req.app)

    abbrev sent : ℤ → Delta
    sent x = banked_only E e (neg (at_denom e req.denom x))

    abbrev shares : Delta
    shares =
        both E e req.denom the_split.app
        ⊕ (both E e req.denom the_split.validator
            ⊕ (both E e req.denom the_split.relayer ⊕ both E e req.denom the_split.treasury))

    net_nonneg : pos 0 ≤ℤ req.amount → pos 0 ≤ℤ req.amount -ℤ the_fee
    net_nonneg h =
        omega
          (int_laws, (compute_fee_bounds req.amount asset params.fee_bps).1, h, one_part req.amount)

    result : PayResult
    result = record {
      fee = the_fee;
      net = req.amount -ℤ the_fee;
      split = the_split;
      app_id = app_id_of req.app;
    }

    -- The totals and the quota move no money.
    bookkeeping-Moves :
        (w : State E)
        → Moves E e still w (
            (do
              count_payment E req.denom req.amount the_fee
              record_quota E req.app asset req.payer the_fee
              pure result)
              w)
    bookkeeping-Moves w =
        after_reading E e still (count_payment E req.denom req.amount the_fee)
          (λ _. record_quota E req.app asset req.payer the_fee >> pure result) w
          (count_payment-Moves req.denom req.amount the_fee w)
          (λ a x.
            after_reading E e still (record_quota E req.app asset req.payer the_fee)
              (λ _. pure result) x (record_quota-Moves req.app asset req.payer the_fee x)
              (λ a y. Shifts-refl E e y))

    pub distribute-Moves :
        (s : State E)
        → pos 0 ≤ℤ req.amount
        → Moves E e (distributed params asset req) s (distribute E params asset req s)
    unfolding distribute result
    distribute-Moves s h =
        let bounds = compute_fee_bounds req.amount asset params.fee_bps in
        let ref =
          referrer_nonneg the_fee params.split (is_some req.app) (has_referrer E req)
            (referrer_bps_of req.app) bounds.0 in
        let sum =
          shares_sum the_fee params.split (is_some req.app) (has_referrer E req)
            (referrer_bps_of req.app) req.denom in
        let parts = parts_sum req.amount the_fee the_split.referrer req.denom in
        Moves-eq E e (sent (req.amount -ℤ the_fee) ⊕ (sent the_split.referrer ⊕ (shares ⊕ still)))
          (distributed params asset req) s _ (omega (int_laws, parts)) (omega (int_laws, sum))
          (omega (int_laws, sum))
          (after_reading E e
            (sent (req.amount -ℤ the_fee) ⊕ (sent the_split.referrer ⊕ (shares ⊕ still)))
            (require (eqb_ℤ (split_total the_split) the_fee) Error.invariant_violation) _ s
            (require-Moves E e _ _ s)
            (λ a t.
              >>=_Moves E e (sent (req.amount -ℤ the_fee)) _
                (send_positive E req.payee req.denom (req.amount -ℤ the_fee)) _ t
                (send_positive-Moves E e req.payee req.denom _ t (net_nonneg h))
                (λ a u.
                  >>=_Moves E e (sent the_split.referrer) _
                    (send_positive E req.referrer req.denom the_split.referrer) _ u
                    (send_positive-Moves E e req.referrer req.denom _ u ref)
                    (λ a v.
                      >>=_Moves E e shares still
                        (book_shares E (app_id_of req.app) req.denom the_split) _ v
                        (book_shares-Moves (app_id_of req.app) req.denom the_split v)
                        (λ a w. bookkeeping-Moves w)))))

  pub pull-Moves :
      (needed : Bool) (payer : Addr) (d : Denom) (x : ℤ) (s : State E)
      → (payer == E.settle_account) ≡ false
      → Moves E e
          (if needed then banked_only E e (at_denom e d x) else still)
          s
          (pull E needed payer d x s)
  unfolding pull
  pull-Moves true payer d x s other =
      rw (← amount_of-one e d x) (pay_in-Moves E e payer ((d, x) ∷ []) s other)
  pull-Moves false payer d x s other = Shifts-refl E e s

  pub check_asset-Moves :
      (height : ℕ) (params : Params) (d : Denom) (s : State E)
      → Moves E e still s (check_asset E height params d s)
  unfolding check_asset
  check_asset-Moves height params d s = elim (Option-cases (find_asset params.assets d)) [
    | inl missing ↦ rw (missing, check_asset) tt
    | inr (a, found) ↦ elim (Bool-cases a.enabled) [
      | inl enabled ↦ elim (Bool-cases (E.is_settle_paused s.world height d)) [
        | inl halted ↦ rw (found, check_asset, enabled, halted) tt
        | inr running ↦ rw (found, check_asset, enabled, running) (Shifts-refl E e s)
      ]
      | inr disabled ↦ rw (found, check_asset, disabled) tt
    ]
  ]

  -- The pull and the distribution of one amount book what the distribution keeps.
  pull-distribute-Keeps :
      (needed : Bool) (params : Params) (asset : FeeAsset) (req : PayRequest) (s : State E)
      → needed ≡ true
      → (req.payer == E.settle_account) ≡ false
      → pos 0 ≤ℤ req.amount
      → Keeps E e s
          ((pull E needed req.payer req.denom req.amount >> distribute E params asset req) s)
  pull-distribute-Keeps false params asset req s n other h = cc
  pull-distribute-Keeps true params asset req s n other h =
      let into = banked_only E e (at_denom e req.denom req.amount) in
      let kept = at_denom e req.denom (kept_of params asset req) in
      Moves-Keeps E e kept s _ (
        Moves-eq E e (into ⊕ distributed params asset req) (booked kept) s _ (omega int_laws)
          (omega int_laws) (omega int_laws)
          (>>=_Moves E e into (distributed params asset req)
            (pull E true req.payer req.denom req.amount) _ s
            (pull-Moves true req.payer req.denom req.amount s other)
            (λ a t. distribute-Moves params asset req t h)))

  -- A payment that succeeds, and that pulls its funds from the payer, another account than the
  -- module's, moves the module's balance, the running total and the recount of every denomination
  -- by the same amount.
  pub pay-Keeps :
      (height : ℕ) (req : PayRequest) (s : State E)
      → req.funds_in_module ≡ false
      → (req.payer == E.settle_account) ≡ false
      → Keeps E e s (pay E height req s)
  unfolding pay
  pay-Keeps height req s pulled other =
      let funds = not req.funds_in_module in
      let params = get_params E s in
      let settle = λ (asset : FeeAsset).
        pull E funds req.payer req.denom req.amount >> distribute E params asset req in
      let ok_payer = not (req.payer == req.payee) in
      let ok_payee = valid_recipient E req.payee in
      let from_payer = λ (asset : FeeAsset). require ok_payer Error.self_payment >> settle asset in
      let from_payee =
        λ (asset : FeeAsset). require ok_payee Error.invalid_recipient >> from_payer asset in
      let from_amount = λ (asset : FeeAsset).
        require (is_positive req.amount) Error.invalid_amount >> from_payee asset in
      reading_Keeps E e (check_asset E height params req.denom) from_amount s
        (check_asset-Moves height params req.denom s)
        (λ asset t.
          guard_Keeps E e (is_positive req.amount) Error.invalid_amount (from_payee asset) t
            (λ positive.
              guard_Keeps E e ok_payee Error.invalid_recipient (from_payer asset) t (λ payable.
                guard_Keeps E e ok_payer Error.self_payment (settle asset) t (λ distinct.
                  pull-distribute-Keeps funds params asset req t (ap not pulled) other
                    (nonneg_of_positive req.amount positive)))))
