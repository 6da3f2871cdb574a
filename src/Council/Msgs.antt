-- ===== src/Council/Msgs.antt =====
-- chain/x/council/keeper/msg_server.go and hooks.go: who may do what.
use vapor_chain.Prelude.{
  ℕ, ◌+◌, ◌%◌, ◌^◌, Bool, true, false, not, ◌||◌, Option, some, ◌==◌, ltb, if◌then◌else◌, contains,
  nat_eq, pair_eq, ℤ, pos, Result, ok, err, Error, ◌>>=◌, ◌>>◌, gets, modify, require, lift,
}
use vapor_chain.Store.{remove}
use vapor_chain.Settle.Types.{Addr}
use vapor_chain.Council.Keeper.{
  Target, Params, Env, State, M, get_params, to_int64, valid_params, validate_target, set_pause,
  admit_validator, remove_validator, is_removed, is_admitted,
}

module _ (E : Env) where
  -- `MsgAdmitValidator`.
  unfoldable pub admit_msg : ℕ → Addr → Addr → Option ℤ → ℕ → M E (Unit {0})
  admit_msg height authority operator power memo = do
    require (authority == E.authority) Error.council_unauthorized
    require (E.texts.is_bech32 operator) Error.bad_address
    admit_validator E height operator power memo

  -- `MsgRemoveValidator`.
  unfoldable pub remove_msg : Addr → Addr → ℕ → M E (Unit {0})
  remove_msg authority operator reason = do
    require (authority == E.authority) Error.council_unauthorized
    require (E.texts.is_bech32 operator) Error.bad_address
    remove_validator E operator reason

  -- The expiry of a pause: none for governance, else int64 arithmetic from the block's height.
  unfoldable pub expiry : Bool → ℕ → Params → ℤ
  expiry true height params = pos 0
  expiry false height params = to_int64 ((height + params.guardian_pause_max_blocks) % 2 ^ 64)

  -- What a signer who may set pauses does to a target.
  unfoldable pub change_pause : Bool → ℕ → Addr → Target → ℕ → Bool → M E (Unit {0})
  change_pause is_authority height signer t reason true = do
    params ← gets (get_params E)
    set_pause E height t signer reason (expiry is_authority height params)
  change_pause is_authority height signer t reason false = do
    require is_authority Error.guardian_cannot_unset
    modify (λ s. record s { pauses = remove t s.pauses })

  -- `MsgSetPause`. The target is the text without the blanks around it.
  unfoldable pub set_pause_msg : ℕ → Addr → Target → ℕ → Bool → M E (Unit {0})
  set_pause_msg height signer t reason paused = do
    lift (validate_target E t)
    require (not (ltb 512 (E.text_length reason))) Error.invalid_target
    params ← gets (get_params E)
    require (signer == E.authority || contains params.guardians signer) Error.council_unauthorized
    change_pause (signer == E.authority) height signer t reason paused

  -- `MsgUpdateParams`.
  unfoldable pub update_params_msg : Addr → Params → M E (Unit {0})
  update_params_msg authority params = do
    require (authority == E.authority) Error.council_unauthorized
    require (valid_params E.texts.is_bech32 params) Error.invalid_council_params
    modify (λ s. record s { params = some params })

  -- `AfterValidatorCreated`.
  unfoldable pub after_validator_created : State E → Addr → Result (Unit {0})
  after_validator_created s operator =
      if is_removed E s operator
      then err Error.removed
      else if not (is_admitted E s operator)
      then err Error.not_admitted
      else ok tt

  -- `BeforeDelegationCreated`.
  unfoldable pub before_delegation_created : Addr → Addr → Result (Unit {0})
  before_delegation_created delegator operator =
      if not (delegator == operator) then err Error.foreign_delegation else ok tt
