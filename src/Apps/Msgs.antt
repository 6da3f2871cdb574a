-- ===== src/Apps/Msgs.antt =====
-- chain/x/apps/keeper/msg_server.go: who may ask for what.
use vapor_chain.Prelude.{
  ℕ, Bool, not, ◌||◌, some, ◌==◌, ℤ, is_positive, Error, ◌>>=◌, ◌>>◌, gets, modify, require,
}
use vapor_chain.Settle.Types.{Addr}
use vapor_chain.Apps.Types.{AppStatus, OwnershipProof, Params}
use vapor_chain.Apps.Params.{valid_params}
use vapor_chain.Apps.Env.{Env, State, M, get_params}
use vapor_chain.Apps.Registry.{Fields, register_app, set_app_status}
use vapor_chain.Apps.Bindings.{add_contract}
use vapor_chain.Apps.Bonds.{bonded_total}

module _ (E : Env) where
  -- `MsgRegisterApp`.
  unfoldable pub register_msg : ℕ → Addr → Fields → M E ℕ
  register_msg height owner f = do
    require (E.texts.is_bech32 owner) Error.bad_address
    register_app E height owner f

  -- `MsgAddContract`.
  unfoldable pub add_contract_msg : ℕ → Addr → ℕ → ℕ → OwnershipProof → M E (Bool × ℤ)
  add_contract_msg height owner id text proof = do
    require (E.texts.is_bech32 owner) Error.bad_address
    add_contract E height owner id text proof

  -- `MsgSetAppStatus`.
  unfoldable pub set_app_status_msg : Addr → ℕ → AppStatus → M E (Unit {0})
  set_app_status_msg authority id status = do
    require (authority == E.authority) Error.app_unauthorized
    set_app_status E id status

  -- `SetParams` of the keeper.
  unfoldable pub set_params : Params → M E (Unit {0})
  set_params p = do
    require (valid_params E.texts.valid_denom p) Error.invalid_app_params
    modify (λ s. record s { params = some p })

  -- The bond's denomination stays while there are bonds.
  unfoldable pub keeps_denom : Params → State E → Bool
  keeps_denom p s =
      p.bond_denom == (get_params E s).bond_denom || not (is_positive (bonded_total E s))

  -- `MsgUpdateParams`.
  unfoldable pub update_params_msg : Addr → Params → M E (Unit {0})
  update_params_msg authority p = do
    require (authority == E.authority) Error.app_unauthorized
    require (valid_params E.texts.valid_denom p) Error.invalid_app_params
    allowed ← gets (keeps_denom p)
    require allowed Error.invalid_app_params
    modify (λ s. record s { params = some p })
