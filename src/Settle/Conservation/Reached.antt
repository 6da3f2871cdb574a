-- ===== src/Settle/Conservation/Reached.antt =====
-- The steps of chain/x/settle, the ends of a block (keeper/invariants.go) among them, and what they
-- reach: the module stays sound.
use vapor_chain.Prelude.{
  ℕ, ◌≡◌, inl, inr, Bool, true, false, not, Option, List, [], ◌∷◌, some, ◌==◌, if◌then◌else◌,
  Bool-cases, ℤ, ◌-ℤ◌, ◌≤ℤ◌, ltb_ℤ, int_laws, nat_eq, pair_eq, ok, Result-cases, Ensures,
  atomically, atomically-Ensures, guard_Ensures, lift-Ensures, subst, ◌%◌, ◌>>=◌, gets, modify,
  lift, is_zero, is_negative, leb_ℤ, Error,
}
use vapor_chain.Store.{Map, set, remove}
use vapor_chain.Settle.Types.{Addr, Denom, Coins, Params}
use vapor_chain.Settle.Env.{Env, State, call}
use vapor_chain.Settle.Pay.{PayRequest, pay, approve_app, spend_allowance, allowance, max_allowance}
use vapor_chain.Settle.Tabs.{tab_deposit, close_tab}
use vapor_chain.Settle.Treasury.{
  claim_revenue, buy_credits, withdraw_treasury, disburse_relayer_pool,
}
use vapor_chain.Settle.Msgs.{update_params_msg}
use vapor_chain.Settle.Params.{validate_params}
use vapor_chain.Settle.Payout.{payout_validators}
use vapor_chain.Settle.Blocks.{
  recount, invariant_check_interval, Violation, check_invariants, begin_block, run_invariants,
  end_block,
}
use vapor_chain.Apps.Types.{App}
use vapor_chain.Settle.Conservation.{bank_of}
use vapor_chain.Settle.Conservation.Payments.{pay-Keeps}
use vapor_chain.Settle.Conservation.Escrow.{close_tab-Keeps}
use vapor_chain.Settle.Conservation.Deposits.{tab_deposit-Keeps}
use vapor_chain.Settle.Conservation.Claims.{claim_revenue-Keeps}
use vapor_chain.Settle.Conservation.Credits.{buy_credits-Keeps}
use vapor_chain.Settle.Conservation.Pools.{withdraw_treasury-Keeps, disburse_relayer_pool-Keeps}
use vapor_chain.Settle.Conservation.Solvency.{
  IsSound, Keeps-IsSound, atomically-IsSound, richer-IsSound,
}
use vapor_chain.Settle.Conservation.Burns.{burn_gas_fees-IsSound}
use vapor_chain.Settle.Conservation.Payouts.{payout_validators-Keeps}

module _ (E : Env) where
  -- The steps of the module: its operations, each under the rollback of its caller's cached context,
  -- the ends of a block, and what the rest of the chain does, which takes no coin from the module.
  -- A payout counts as a step if it succeeds.
  pub data Step : State E → State E → Type 0 where
    pays :
        (height : ℕ) (req : PayRequest) (s : State E)
        → req.funds_in_module ≡ false
        → (req.payer == E.settle_account) ≡ false
        → Step s (atomically (pay E height req) s).1
    deposits :
        (height : ℕ) (app : Option App) (payer payee : Addr) (d : Denom) (x : ℤ) (s : State E)
        → (payer == E.settle_account) ≡ false
        → Step s (atomically (tab_deposit E height app payer payee d x true) s).1
    closes :
        (height : ℕ) (sender : Addr) (id : ℕ) (payer payee : Addr) (d : Denom) (s : State E)
        → Step s (atomically (close_tab E height sender id payer payee d) s).1
    claims :
        (id : ℕ) (denoms : List Denom) (s : State E)
        → Step s (atomically (claim_revenue E id denoms) s).1
    buys :
        (height : ℕ) (buyer recipient : Addr) (d : Denom) (x : ℤ) (s : State E)
        → (buyer == E.settle_account) ≡ false
        → Step s (atomically (buy_credits E height buyer recipient d x) s).1
    withdraws :
        (signer recipient : Addr) (cs : Coins) (s : State E)
        → Step s (atomically (withdraw_treasury E signer recipient cs) s).1
    disburses :
        (signer recipient : Addr) (d : Denom) (x : ℤ) (as_credits : Bool) (s : State E)
        → Step s (atomically (disburse_relayer_pool E signer recipient d x as_credits) s).1
    approves :
        (owner : Addr) (id : ℕ) (d : Denom) (x : ℤ) (s : State E)
        → Step s (atomically (approve_app E owner id d x) s).1
    spends :
        (owner : Addr) (id : ℕ) (d : Denom) (x : ℤ) (s : State E)
        → Step s (atomically (spend_allowance E owner id d x) s).1
    governs :
        (authority : Addr) (p : Params) (s : State E)
        → Step s (atomically (update_params_msg E authority p) s).1
    begins :
        (s : State E)
        → ((collector : Addr)
            → E.fee_collector ≡ some collector
            → (collector == E.settle_account) ≡ false)
        → Step s (begin_block E s)
    ends :
        (height : ℕ) (s t : State E)
        → payout_validators E height s ≡ (ok tt, t)
        → Step s (end_block E height s)
    elsewhere :
        (w : E.bank.World) (s : State E)
        → ((e : Denom) → bank_of E e s ≤ℤ bank_of E e (record s { world = w }))
        → Step s (record s { world = w })

  -- What the steps reach from a state.
  pub data Reach (s : State E) : State E → Type 0 where
    here : Reach s s
    next : {t u : State E} → Reach s t → Step t u → Reach s u

  pub pause-IsSound :
      (height : ℕ) (s : State E) → IsSound E s → IsSound E (run_invariants E height s)
  unfolding run_invariants call
  pause-IsSound height s v = elim (Bool-cases (height % invariant_check_interval == 0)) [
    | inr between ↦ rw (between, run_invariants) v
    | inl on_time ↦ rw (on_time, run_invariants) (on (check_invariants E s))
  ]
    where
      halted : IsSound E (call E (E.set_pause_settle height) s).1
      halted = elim (Result-cases (E.set_pause_settle height s.world)) [
        | inl (w, done) ↦
            rw (done, call)
              (richer-IsSound E w s
                (λ e.
                  omega (int_laws, E.set_pause_settle_lem height s.world w done E.settle_account e))
                v)
        | inr (f, failed) ↦ rw (failed, call) v
      ]

      on :
          (broken : List Violation)
          → IsSound E (elim broken [ [] ↦ s | _ ∷ _ ↦ (call E (E.set_pause_settle height) s).1 ])
      on [] = v
      on (b ∷ bs) = halted

  allowances-IsSound :
      (m : Map (Addr × (ℕ × Denom)) ℤ) (s : State E)
      → IsSound E s
      → IsSound E (record s { allowances = m })
  unfolding recount
  allowances-IsSound m s v = record {
    solvent = v.solvent;
    agrees = v.agrees;
    keyed = v.keyed;
    tabbed = v.tabbed;
  }

  approve_app-IsSound :
      (owner : Addr) (id : ℕ) (d : Denom) (x : ℤ) (s : State E)
      → IsSound E s
      → IsSound E (atomically (approve_app E owner id d x) s).1
  unfolding approve_app
  approve_app-IsSound owner id d x s v =
      let Q = λ (_ : Unit {0}) (t : State E). IsSound E t in
      let m =
        if is_zero x
        then remove (owner, (id, d)) s.allowances
        else set (owner, (id, d)) x s.allowances in
      let write = λ (_ : App). modify (λ (t : State E). record t {
        allowances =
            if is_zero x
            then remove (owner, (id, d)) t.allowances
            else set (owner, (id, d)) x t.allowances;
      }) in
      let found = gets (λ (t : State E). t.world) >>= λ w. lift (E.get_app w id) >>= write in
      atomically-Ensures (approve_app E owner id d x) (IsSound E) s v (
        guard_Ensures (not (is_negative x)) Error.invalid_amount found Q s
          (λ _. lift-Ensures (E.get_app s.world id) write Q s (λ a _. allowances-IsSound m s v)))

  spend_allowance-IsSound :
      (owner : Addr) (id : ℕ) (d : Denom) (x : ℤ) (s : State E)
      → IsSound E s
      → IsSound E (atomically (spend_allowance E owner id d x) s).1
  unfolding spend_allowance
  spend_allowance-IsSound owner id d x s v =
      let Q = λ (_ : Unit {0}) (t : State E). IsSound E t in
      let cur = allowance E s owner id d in
      let write = modify (λ (t : State E). if leb_ℤ (max_allowance E) cur then t else record t {
        allowances =
            if is_zero (cur -ℤ x)
            then remove (owner, (id, d)) t.allowances
            else set (owner, (id, d)) (cur -ℤ x) t.allowances;
      }) in
      atomically-Ensures (spend_allowance E owner id d x) (IsSound E) s v (
        guard_Ensures (not (ltb_ℤ cur x)) Error.allowance_exceeded write Q s
          (λ _. spent (leb_ℤ (max_allowance E) cur) _))
    where
      spent :
          (b : Bool) (m : Map (Addr × (ℕ × Denom)) ℤ)
          → IsSound E (if b then s else record s { allowances = m })
      spent true m = v
      spent false m = allowances-IsSound m s v

  governs-IsSound :
      (authority : Addr) (p : Params) (s : State E)
      → IsSound E s
      → IsSound E (atomically (update_params_msg E authority p) s).1
  unfolding update_params_msg recount
  governs-IsSound authority p s v =
      let Q = λ (_ : Unit {0}) (t : State E). IsSound E t in
      let write = λ (_ : Unit {0}). modify (λ (t : State E). record t { params = some p }) in
      let validated = validate_params E.texts p in
      atomically-Ensures (update_params_msg E authority p) (IsSound E) s v (
        guard_Ensures (authority == E.authority) Error.unauthorized (lift validated >>= write) Q s
          (λ _. lift-Ensures validated write Q s (λ _ _. record {
            solvent = v.solvent;
            agrees = v.agrees;
            keyed = v.keyed;
            tabbed = v.tabbed;
          })))

  end_block-IsSound :
      (height : ℕ) (s t : State E)
      → payout_validators E height s ≡ (ok tt, t)
      → IsSound E s
      → IsSound E (end_block E height s)
  unfolding end_block
  end_block-IsSound height s t done v =
      let paid =
        Keeps-IsSound E s (payout_validators E height s) (λ e. payout_validators-Keeps E e height s)
          v in
      rw done (pause-IsSound height t (subst (Ensures (λ _ u. IsSound E u)) done paid))

  -- Every step of the module keeps it solvent and its running total right.
  pub Step-IsSound : {s t : State E} → Step s t → IsSound E s → IsSound E t
  Step-IsSound (pays height req s pulled other) v =
      atomically-IsSound E (pay E height req) s (λ e. pay-Keeps E e height req s pulled other) v
  Step-IsSound (deposits height app payer payee d x s other) v =
      atomically-IsSound E (tab_deposit E height app payer payee d x true) s
        (λ e. tab_deposit-Keeps E e height app payer payee d x s other v.tabbed) v
  Step-IsSound (closes height sender id payer payee d s) v =
      atomically-IsSound E (close_tab E height sender id payer payee d) s
        (λ e. close_tab-Keeps E e height sender id payer payee d s v.tabbed) v
  Step-IsSound (claims id denoms s) v =
      atomically-IsSound E (claim_revenue E id denoms) s (λ e. claim_revenue-Keeps E e id denoms s)
        v
  Step-IsSound (buys height buyer recipient d x s other) v =
      atomically-IsSound E (buy_credits E height buyer recipient d x) s
        (λ e. buy_credits-Keeps E e height buyer recipient d x s other) v
  Step-IsSound (withdraws signer recipient cs s) v =
      atomically-IsSound E (withdraw_treasury E signer recipient cs) s
        (λ e. withdraw_treasury-Keeps E e signer recipient cs s) v
  Step-IsSound (disburses signer recipient d x as_credits s) v =
      atomically-IsSound E (disburse_relayer_pool E signer recipient d x as_credits) s
        (λ e. disburse_relayer_pool-Keeps E e signer recipient d x as_credits s) v
  Step-IsSound (approves owner id d x s) v = approve_app-IsSound owner id d x s v
  Step-IsSound (spends owner id d x s) v = spend_allowance-IsSound owner id d x s v
  Step-IsSound (governs authority p s) v = governs-IsSound authority p s v
  Step-IsSound (begins s other) v = unfold begin_block in burn_gas_fees-IsSound E s other v
  Step-IsSound (ends height s t done) v = end_block-IsSound height s t done v
  Step-IsSound (elsewhere w s more) v = richer-IsSound E w s more v

  -- Every state that the steps reach from a sound one is sound: the module owns what it owes of
  -- every denomination, its running total is the recount of its ledgers and has one entry for a
  -- denomination, and its tabs are well formed.
  pub Reach-IsSound : {s t : State E} → IsSound E s → Reach s t → IsSound E t
  Reach-IsSound v here = v
  Reach-IsSound v (next r st) = Step-IsSound st (Reach-IsSound v r)
