-- ===== src/Settle/Env.antt =====
-- What chain/x/settle works with: the keepers of types/expected_keepers.go and its own store
-- (keeper/keeper.go).
use vapor_chain.Prelude.{ℕ, ◌≡◌, Bool, true, Option, none, some, List, Result, ok, err, Action, ℤ}
use vapor_chain.Store.{Map}
use vapor_chain.Host.{Texts, Bank}
use vapor_chain.Settle.Types.{Addr, Denom, Params, Tab, Totals}
use vapor_chain.Settle.Params.{default_params}
use vapor_chain.Apps.Types.{App}

-- A bonded validator as the payout sees it. `missed` is none where the consensus address or the
-- signing record cannot be read, `account` where the operator's address does not parse.
pub record Validator : Type 0 where
  pub power : ℤ
  pub missed : Option ℤ
  pub account : Option Addr

-- The other keepers share one world with the bank. What the settlement relies on: the calls of the
-- apps and council keepers move no money, and its own account is blocked
-- (chain/app/config/permissions.go).
pub record Env : Type 1 where
  pub bank : Bank
  pub texts : Texts
  pub authority : Addr
  pub credit_denom : Denom
  pub settle_account : Addr
  pub fee_collector : Option Addr
  pub get_app : bank.World → ℕ → Result App
  pub record_settlement : ℕ → Addr → ℤ → bank.World → Result bank.World
  pub is_settle_paused : bank.World → ℕ → Denom → Bool
  pub set_pause_settle : ℕ → bank.World → Result bank.World
  pub bonded_validators : bank.World → Result (List Validator)
  pub signed_blocks_window : bank.World → Result ℤ
  pub settle_account_blocked : bank.blocked settle_account ≡ true
  pub record_settlement_lem :
      (id : ℕ) (payer : Addr) (x : ℤ) (w t : bank.World)
      → record_settlement id payer x w ≡ ok t
      → (a : Addr) (d : Denom) → bank.balance t a d ≡ bank.balance w a d
  pub set_pause_settle_lem :
      (height : ℕ) (w t : bank.World)
      → set_pause_settle height w ≡ ok t
      → (a : Addr) (d : Denom) → bank.balance t a d ≡ bank.balance w a d

-- The key of a tab is a text of these four parts, joined by bars, which none of them holds.
abbrev pub TabKey : Type 0
TabKey = ℕ × (Addr × (Addr × Denom))

-- The store of `Keeper`, and the world that its other keepers read and write.
pub record State (E : Env) : Type 0 where
  pub world : E.bank.World
  pub params : Option Params
  pub claimables : Map (ℕ × Denom) ℤ
  pub pools : Map (ℕ × Denom) ℤ
  pub tabs : Map TabKey Tab
  pub allowances : Map (Addr × (ℕ × Denom)) ℤ
  pub totals : Map Denom Totals
  pub credits_minted : Option ℤ
  pub genesis_credit_supply : Option ℤ
  pub ledger_total : Map Denom ℤ
  pub relayer_paid : Map Denom ℤ
  pub last_payout : Option ℕ

module _ (E : Env) where
  abbrev pub M : Type 0 → Type 0
  M = Action (State E)

  -- A call of another keeper; one that fails writes nothing.
  unfoldable pub call : (E.bank.World → Result E.bank.World) → M (Unit {0})
  call f s = elim (f s.world) [ ok w ↦ (ok tt, record s { world = w }) | err e ↦ (err e, s) ]

  -- `GetParams`.
  unfoldable pub get_params : State E → Params
  get_params s = elim s.params [ none ↦ default_params | some p ↦ p ]
