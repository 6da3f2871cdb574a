-- ===== src/Apps/Env.antt =====
-- What chain/x/apps works with: the keepers of types/expected_keepers.go, go-ethereum's addresses and
-- hashes, and its own store (keeper/keeper.go). Texts are named by numbers, as in the settlement, and
-- an account's address has the name of its text.
use vapor_chain.Prelude.{
  ℕ, ◌+◌, ◌-◌, ◌%◌, ◌^◌, ◌≡◌, ◌<◌, Bool, true, Option, none, some, List, Result, ok, err, Action,
  ltb, ℤ, pos_part, neg_part, if◌then◌else◌, pos, negsuc,
}
use vapor_chain.Store.{Map}
use vapor_chain.Host.{Texts, Bank}
use vapor_chain.Settle.Types.{Addr, Denom}
use vapor_chain.Apps.Types.{
  App, ContractBinding, PendingMove, PendingClaim, EpochStats, Quota, Params,
}
use vapor_chain.Apps.Params.{default_params}

pub record Env : Type 1 where
  pub bank : Bank
  pub texts : Texts
  -- `len` of a text, and its runes.
  pub text_length : ℕ → ℕ
  pub runes : ℕ → List ℕ
  -- The order of texts, which is that of their bytes.
  pub text_before : ℕ → ℕ → Bool
  pub authority : Addr
  pub apps_account : Addr
  pub credit_denom : Denom
  pub uusdc : Denom
  -- `Address.Hex`, and the lower-case text that `NormalizeContract` makes of an address.
  pub hex : Addr → ℕ
  pub lower_hex : Addr → ℕ
  -- `common.BytesToAddress`, of an account's address and of bytes.
  pub eth_address : Addr → Addr
  pub bytes_to_address : List ℕ → Addr
  -- `common.FromHex`.
  pub from_hex : ℕ → List ℕ
  pub create_address : Addr → ℕ → Addr
  pub create_address2 : Addr → List ℕ → List ℕ → Addr
  -- The first eight bytes of the salted SHA-256 of a payer.
  pub payer_hash : Addr → ℕ
  -- The EVM keeper: does an address hold code, and what does its `owner()` return to a call from an
  -- address.
  pub is_contract : bank.World → Addr → Bool
  pub call_owner : bank.World → Addr → Addr → Result (List ℕ)
  -- `GetModuleAccount` creates the account on first use.
  pub with_module_account : bank.World → bank.World
  pub with_module_account_lem :
      (w : bank.World) (a : Addr) (d : Denom)
      → bank.balance (with_module_account w) a d ≡ bank.balance w a d
  -- Module accounts are blocked (chain/app/config/permissions.go).
  pub apps_account_blocked : bank.blocked apps_account ≡ true
  pub payer_hash-lt : (a : Addr) → payer_hash a < 2 ^ 64

-- The store of `Keeper`. A `KeySet` is a map into the unit type.
pub record State (E : Env) : Type 0 where
  pub world : E.bank.World
  pub params : Option Params
  pub next_app_id : ℕ
  pub apps : Map ℕ App
  pub bindings : Map ℕ ContractBinding
  pub app_contracts : Map (ℕ × ℕ) (Unit {0})
  pub pending_moves : Map ℕ PendingMove
  pub moves_by_unlock : Map (ℤ × ℕ) (Unit {0})
  pub pending_claims : Map (ℕ × ℕ) PendingClaim
  pub epoch_stats : Map (ℕ × ℕ) EpochStats
  pub quotas : Map ℕ Quota
  pub bonds : Map ℕ ℤ
  pub unbondings : Map (ℤ × (ℕ × Addr)) ℤ
  pub epoch_number : Option ℕ
  pub epoch_start : Option ℤ

-- The int64 that a number wraps to.
unfoldable pub wrap_int64 : ℤ → ℤ
wrap_int64 x =
    let n = (pos_part x % 2 ^ 64 + 2 ^ 64 - neg_part x % 2 ^ 64) % 2 ^ 64 in
    if ltb n (2 ^ 63) then pos n else negsuc (2 ^ 64 - n - 1)

module _ (E : Env) where
  abbrev pub M : Type 0 → Type 0
  M = Action (State E)

  -- A call of another keeper; one that fails writes nothing.
  unfoldable pub call : (E.bank.World → Result E.bank.World) → M (Unit {0})
  call f s = elim (f s.world) [ ok w ↦ (ok tt, record s { world = w }) | err e ↦ (err e, s) ]

  -- `GetParams`.
  unfoldable pub get_params : State E → Params
  get_params s = elim s.params [ none ↦ default_params E.credit_denom E.uusdc | some p ↦ p ]

  -- `NormalizeContract`.
  unfoldable pub normalize_contract : ℕ → ℕ
  normalize_contract text = E.lower_hex (E.texts.hex_address text)
