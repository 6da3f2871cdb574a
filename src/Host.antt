-- ===== src/Host.antt =====
-- What the modules take from code that is not in the repository: the SDK's address and coin checks,
-- and its bank keeper. Each record is a parameter of the definitions that use it.
use vapor_chain.Prelude.{ℕ, ◌≡◌, Bool, false, Result, ok, ℤ, pos, ◌+ℤ◌, ◌-ℤ◌, ◌==◌, if◌then◌else◌}
use vapor_chain.Settle.Types.{Addr, Denom, Coins, amount_of}

-- Tests of texts, on the numbers that name them.
pub record Texts : Type 0 where
  -- `AccAddressFromBech32` and `ValAddressFromBech32` succeed.
  pub is_bech32 : ℕ → Bool
  -- `sdk.ValidateDenom` succeeds.
  pub valid_denom : Denom → Bool
  -- `strings.HasPrefix(denom, "erc20/")`.
  pub has_erc20_prefix : Denom → Bool
  -- `common.IsHexAddress` and `common.HexToAddress`.
  pub is_hex_address : ℕ → Bool
  pub hex_address : ℕ → Addr
  -- `Coins.Validate` succeeds (`Coins.IsValid`).
  pub valid_coins : Coins → Bool

abbrev pub at_addr : Addr → Addr → ℤ → ℤ
at_addr a b x = if a == b then x else pos 0

-- A bank, with the documented behaviour of its transfers: what one account gives the other gets, and
-- no third balance changes; a module pays no blocked account.
pub record Bank : Type 1 where
  pub World : Type 0
  pub balance : World → Addr → Denom → ℤ
  pub supply : World → Denom → ℤ
  pub blocked : Addr → Bool
  pub account_to_module : Addr → Addr → Coins → World → Result World
  pub module_to_account : Addr → Addr → Coins → World → Result World
  pub module_to_module : Addr → Addr → Coins → World → Result World
  pub mint_coins : Addr → Coins → World → Result World
  pub burn_coins : Addr → Coins → World → Result World
  pub account_to_module_lem :
      (from to : Addr) (cs : Coins) (w t : World)
      → account_to_module from to cs w ≡ ok t
      → (a : Addr) (d : Denom)
      → balance t a d
        ≡ balance w a d -ℤ at_addr a from (amount_of cs d) +ℤ at_addr a to (amount_of cs d)
  pub module_to_account_lem :
      (from to : Addr) (cs : Coins) (w t : World)
      → module_to_account from to cs w ≡ ok t
      → (a : Addr) (d : Denom)
      → balance t a d
        ≡ balance w a d -ℤ at_addr a from (amount_of cs d) +ℤ at_addr a to (amount_of cs d)
  pub module_to_account_unblocked :
      (from to : Addr) (cs : Coins) (w t : World)
      → module_to_account from to cs w ≡ ok t
      → blocked to ≡ false
  pub module_to_module_lem :
      (from to : Addr) (cs : Coins) (w t : World)
      → module_to_module from to cs w ≡ ok t
      → (a : Addr) (d : Denom)
      → balance t a d
        ≡ balance w a d -ℤ at_addr a from (amount_of cs d) +ℤ at_addr a to (amount_of cs d)
  pub mint_coins_lem :
      (to : Addr) (cs : Coins) (w t : World)
      → mint_coins to cs w ≡ ok t
      → (a : Addr) (d : Denom) → balance t a d ≡ balance w a d +ℤ at_addr a to (amount_of cs d)
  pub burn_coins_lem :
      (from : Addr) (cs : Coins) (w t : World)
      → burn_coins from cs w ≡ ok t
      → (a : Addr) (d : Denom) → balance t a d ≡ balance w a d -ℤ at_addr a from (amount_of cs d)
