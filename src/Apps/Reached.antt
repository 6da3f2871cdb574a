-- ===== src/Apps/Reached.antt =====
-- The steps of chain/x/apps and what they reach.
use vapor_chain.Prelude.{
  ℕ, ◌+◌, ◌^◌, ◌<◌, ◌≡◌, false, Option, ◌==◌, ℤ, ◌≤ℤ◌, Error, atomically, atomically-Ensures,
}
use vapor_chain.Settle.Types.{Addr, Denom}
use vapor_chain.Apps.Types.{AppStatus, OwnershipProof, Params}
use vapor_chain.Apps.Env.{Env, State, M}
use vapor_chain.Apps.Registry.{
  Fields, update_app, transfer_ownership, accept_ownership, set_app_status,
}
use vapor_chain.Apps.Bindings.{
  claim_registration, accept_contract_claim, remove_contract, cancel_contract_move,
}
use vapor_chain.Apps.Quota.{record_settlement}
use vapor_chain.Apps.Bonds.{bond_app, unbond_app, end_block}
use vapor_chain.Apps.Msgs.{register_msg, add_contract_msg, set_app_status_msg, update_params_msg}
use vapor_chain.Apps.Writes.{Write, Writes, IsWritten, held, one}
use vapor_chain.Apps.Writes.Registry.{
  update_app-IsWritten, transfer_ownership-IsWritten, accept_ownership-IsWritten,
  set_app_status-IsWritten, update_params_msg-IsWritten, guard-IsWritten,
}
use vapor_chain.Apps.Writes.Registrations.{register_msg-IsWritten}
use vapor_chain.Apps.Writes.Bindings.{
  add_contract-IsWritten, claim_registration-IsWritten, accept_contract_claim-IsWritten,
  remove_contract-IsWritten, cancel_contract_move-IsWritten,
}
use vapor_chain.Apps.Writes.Moves.{IsSingle}
use vapor_chain.Apps.Writes.Bonds.{IsQueue, bond_app-IsWritten, unbond_app-IsWritten}
use vapor_chain.Apps.Writes.Epochs.{record_settlement-Writes, end_block-IsWritten}

module _ (E : Env) where
  -- The steps of the module: its messages and the calls of the settlement, each undone where it
  -- fails, the end of a block, and what the rest of the chain does, which takes no coin from the
  -- module. The module's own account signs nothing, and there are ids left to register with.
  pub data Step : State E → State E → Type 0 where
    registers :
        (height : ℕ) (owner : Addr) (f : Fields) (s : State E)
        → (owner == E.apps_account) ≡ false
        → s.next_app_id + 2 < 2 ^ 64
        → Step s (atomically (register_msg E height owner f) s).1
    updates :
        (owner : Addr) (id : ℕ) (f : Fields) (s : State E)
        → Step s (atomically (update_app E owner id f) s).1
    transfers :
        (owner : Addr) (id : ℕ) (to : Addr) (s : State E)
        → Step s (atomically (transfer_ownership E owner id to) s).1
    accepts :
        (owner : Addr) (id : ℕ) (s : State E)
        → Step s (atomically (accept_ownership E owner id) s).1
    sets_status :
        (authority : Addr) (id : ℕ) (status : AppStatus) (s : State E)
        → Step s (atomically (set_app_status_msg E authority id status) s).1
    adds :
        (height : ℕ) (owner : Addr) (id text : ℕ) (proof : OwnershipProof) (s : State E)
        → Step s (atomically (add_contract_msg E height owner id text proof) s).1
    claims :
        (height : ℕ) (contract : Addr) (id : ℕ) (s : State E)
        → Step s (atomically (claim_registration E height contract id) s).1
    accepts_claim :
        (height : ℕ) (owner : Addr) (id text : ℕ) (s : State E)
        → Step s (atomically (accept_contract_claim E height owner id text) s).1
    drops :
        (owner : Addr) (id text : ℕ) (s : State E)
        → Step s (atomically (remove_contract E owner id text) s).1
    cancels :
        (owner : Addr) (text : ℕ) (s : State E)
        → Step s (atomically (cancel_contract_move E owner text) s).1
    locks :
        (owner : Addr) (id : ℕ) (coin : Denom × Option ℤ) (s : State E)
        → (owner == E.apps_account) ≡ false
        → Step s (atomically (bond_app E owner id coin) s).1
    unlocks :
        (height : ℕ) (owner : Addr) (id : ℕ) (coin : Denom × Option ℤ) (s : State E)
        → Step s (atomically (unbond_app E height owner id coin) s).1
    settles :
        (id : ℕ) (payer : Addr) (weight : ℤ) (s : State E)
        → Step s (record_settlement E id payer weight s)
    governs :
        (authority : Addr) (p : Params) (s : State E)
        → Step s (atomically (update_params_msg E authority p) s).1
    ends : (height : ℕ) (s : State E) → Step s (atomically (end_block E height) s).1
    elsewhere :
        (w : E.bank.World) (s : State E)
        → ((d : Denom) → held E s d ≤ℤ held E (record s { world = w }) d)
        → Step s (record s { world = w })

  -- What the steps reach from a state.
  pub data Reach (s : State E) : State E → Type 0 where
    here : Reach s s
    next : {t u : State E} → Reach s t → Step t u → Reach s u

  undone :
      {A : Type 0} (m : M E A) (s : State E) → IsWritten E s (m s) → Writes E s (atomically m s).1
  undone m s h = atomically-Ensures m (Writes E s) s Writes.no_more h

  -- A step is a sequence of elementary writes.
  pub Step-Writes : {s t : State E} → Step s t → IsSingle E s → IsQueue E s → Writes E s t
  unfolding set_app_status_msg
  Step-Writes (registers height owner f s other left) single queue =
      undone (register_msg E height owner f) s
        (register_msg-IsWritten E height owner f s other left)
  Step-Writes (updates owner id f s) single queue =
      undone (update_app E owner id f) s (update_app-IsWritten E owner id f s)
  Step-Writes (transfers owner id to s) single queue =
      undone (transfer_ownership E owner id to) s (transfer_ownership-IsWritten E owner id to s)
  Step-Writes (accepts owner id s) single queue =
      undone (accept_ownership E owner id) s (accept_ownership-IsWritten E owner id s)
  Step-Writes (sets_status authority id status s) single queue =
      undone (set_app_status_msg E authority id status) s (
        guard-IsWritten E s (authority == E.authority) Error.app_unauthorized
          (set_app_status E id status) (λ _. set_app_status-IsWritten E id status s))
  Step-Writes (adds height owner id text proof s) single queue =
      undone (add_contract_msg E height owner id text proof) s
        (add_contract-IsWritten E height owner id text proof s)
  Step-Writes (claims height contract id s) single queue =
      undone (claim_registration E height contract id) s
        (claim_registration-IsWritten E height contract id s)
  Step-Writes (accepts_claim height owner id text s) single queue =
      undone (accept_contract_claim E height owner id text) s
        (accept_contract_claim-IsWritten E height owner id text s)
  Step-Writes (drops owner id text s) single queue =
      undone (remove_contract E owner id text) s (remove_contract-IsWritten E owner id text s)
  Step-Writes (cancels owner text s) single queue =
      undone (cancel_contract_move E owner text) s (cancel_contract_move-IsWritten E owner text s)
  Step-Writes (locks owner id coin s other) single queue =
      undone (bond_app E owner id coin) s (bond_app-IsWritten E owner id coin s other)
  Step-Writes (unlocks height owner id coin s) single queue =
      undone (unbond_app E height owner id coin) s (unbond_app-IsWritten E height owner id coin s)
  Step-Writes (settles id payer weight s) single queue =
      record_settlement-Writes E id payer weight s
  Step-Writes (governs authority p s) single queue =
      undone (update_params_msg E authority p) s (update_params_msg-IsWritten E authority p s)
  Step-Writes (ends height s) single queue =
      undone (end_block E height) s (end_block-IsWritten E height s single queue)
  Step-Writes (elsewhere w s more) single queue = one E (Write.enriches w s more)
