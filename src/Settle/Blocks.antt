-- ===== src/Settle/Blocks.antt =====
-- chain/x/settle/keeper/invariants.go: the recount, the checks and safe mode, and what a block's begin
-- and end do.
use vapor_chain.Prelude.{
  ℕ, ◌%◌, not, none, some, List, [], ◌∷◌, ◌++◌, ◌==◌, if◌then◌else◌, nat_eq, pair_eq, ℤ, pos, ◌+ℤ◌,
  ltb_ℤ,
}
use vapor_chain.Store.{Map, total}
use vapor_chain.Settle.Types.{Denom, Tab}
use vapor_chain.Settle.Env.{Env, State, TabKey, call}
use vapor_chain.Settle.Treasury.{burn_gas_fees}
use vapor_chain.Settle.Payout.{payout_validators}

-- An amount, if it is of the denomination.
unfoldable pub at_denom : Denom → Denom → ℤ → ℤ
at_denom e d x = if e == d then x else pos 0

-- What an entry of each ledger holds of a denomination.
abbrev pub at_pair : Denom → ℕ × Denom → ℤ → ℤ
at_pair e (k, d) x = at_denom e d x

abbrev pub at_tab : Denom → TabKey → Tab → ℤ
at_tab e k t = at_denom e t.denom t.amount

abbrev pub invariant_check_interval : ℕ
invariant_check_interval = 100

pub data Violation : Type 0 where
  insolvent : Denom → Violation
  credits_exceeded : Violation

module _ (E : Env) where
  -- `RecountLedger`, at one denomination: the claimables, the pools and the tabs.
  unfoldable pub recount : Denom → State E → ℤ
  recount e s =
      total (at_pair e) s.claimables +ℤ total (at_pair e) s.pools +ℤ total (at_tab e) s.tabs

  -- The denominations whose bank balance is below the ledger.
  unfoldable pub insolvencies : E.bank.World → Map Denom ℤ → List Violation
  insolvencies w [] = []
  insolvencies w ((d, owed) ∷ m) =
      let rest = insolvencies w m in
      if ltb_ℤ (E.bank.balance w E.settle_account d) owed then insolvent d ∷ rest else rest

  abbrev minted : State E → ℤ
  minted s = elim s.credits_minted [ none ↦ pos 0 | some x ↦ x ]

  unfoldable pub credit_breach : State E → List Violation
  credit_breach s = elim s.genesis_credit_supply [
    | none ↦ []
    | some gen ↦
        if ltb_ℤ (gen +ℤ minted s) (E.bank.supply s.world E.credit_denom)
        then credits_exceeded ∷ []
        else []
  ]

  -- `CheckInvariants`.
  unfoldable pub check_invariants : State E → List Violation
  check_invariants s = insolvencies s.world s.ledger_total ++ credit_breach s

  -- `runInvariants`: a breach pauses the settlement. A failure to do so is logged.
  unfoldable pub run_invariants : ℕ → State E → State E
  run_invariants height s =
      if not (height % invariant_check_interval == 0)
      then s
      else (elim (check_invariants s) [ [] ↦ s | _ ∷ _ ↦ (call E (E.set_pause_settle height) s).1 ])

  -- `BeginBlock`.
  unfoldable pub begin_block : State E → State E
  begin_block s = burn_gas_fees E s

  -- `EndBlock`: a payout's error is logged, and what it wrote before stays.
  unfoldable pub end_block : ℕ → State E → State E
  end_block height s = run_invariants height (payout_validators E height s).1
