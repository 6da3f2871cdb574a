-- ===== src/Apps/Bindings.antt =====
-- chain/x/apps/keeper/keeper.go: which contract belongs to which app, proofs of ownership, and the
-- moves that wait for their timelock.
use vapor_chain.Prelude.{
  ℕ, zero, suc, ◌+◌, ◌-◌, ◌%◌, ◌^◌, Bool, true, false, not, ◌&&◌, ◌||◌, Option, none, some, List,
  [], ◌∷◌, ◌==◌, ltb, if◌then◌else◌, length, nat_eq, pair_eq, int_eq, ℤ, pos, ◌+ℤ◌, leb_ℤ, Result,
  ok, err, Error, ◌>>=◌, ◌>>◌, pure, gets, modify, require, lift, read, when, or_err,
}
use vapor_chain.Store.{Map, get, set, remove, has}
use vapor_chain.Store.Order.{walk, select}
use vapor_chain.Settle.Types.{Addr}
use vapor_chain.Apps.Types.{
  App, ContractBinding, PendingMove, PendingClaim, ProofType, OwnershipProof,
}
use vapor_chain.Apps.Env.{Env, State, M, get_params, normalize_contract, wrap_int64}
use vapor_chain.Apps.Registry.{get_app, owned_app, is_active, is_revoked}

abbrev pub drop : ℕ → List ℕ → List ℕ
drop zero xs = xs
drop (suc n) [] = []
drop (suc n) (x ∷ xs) = drop n xs

abbrev pub take : ℕ → List ℕ → List ℕ
take zero xs = []
take (suc n) [] = []
take (suc n) (x ∷ xs) = x ∷ take n xs

abbrev pub is_self_claim : ProofType → Bool
is_self_claim ProofType.self_claim = true
is_self_claim _ = false

-- The keys of `MovesByUnlock` by height, then by contract.
unfoldable pub move_before : (ℕ → ℕ → Bool) → ℤ × ℕ → ℤ × ℕ → Bool
move_before text_before (h, c) (k, d) = not (leb_ℤ k h) || (leb_ℤ h k && text_before c d)

module _ (E : Env) where
  -- What an `owner()` call returned, against the signer.
  unfoldable pub check_returned : Addr → List ℕ → Result (Unit {0})
  check_returned signer ret =
      if ltb (length ret) 32
      then err Error.invalid_proof
      else if E.bytes_to_address (take 20 (drop 12 ret)) == signer
      then ok tt
      else err Error.invalid_proof

  unfoldable pub returned_or_invalid : Result (List ℕ) → Result (List ℕ)
  returned_or_invalid (ok ret) = ok ret
  returned_or_invalid (err e) = err Error.invalid_proof

  unfoldable pub check_create2 : Addr → Addr → List ℕ → List ℕ → Result (Unit {0})
  check_create2 signer contract salt code_hash =
      if not (length salt == 32) || not (length code_hash == 32)
      then err Error.invalid_proof
      else if E.create_address2 signer salt code_hash == contract
      then ok tt
      else err Error.invalid_proof

  unfoldable pub verify_proof_as : ProofType → Addr → Addr → OwnershipProof → M E (Unit {0})
  verify_proof_as ProofType.deployer_create signer contract proof =
      require (E.create_address signer proof.nonce == contract) Error.invalid_proof
  verify_proof_as ProofType.deployer_create2 signer contract proof =
      lift (check_create2 signer contract (E.from_hex proof.salt) (E.from_hex proof.init_code_hash))
  verify_proof_as ProofType.ownable signer contract proof = do
    s ← gets (λ s. s)
    require (E.is_contract s.world contract) Error.not_contract
    modify (λ s. record s { world = E.with_module_account s.world })
    w ← gets (λ s. s.world)
    ret ← lift (returned_or_invalid (E.call_owner w (E.eth_address E.apps_account) contract))
    lift (check_returned signer ret)
  verify_proof_as _ signer contract proof = lift (err Error.invalid_proof)

  -- `VerifyProof`.
  unfoldable pub verify_proof : Addr → Addr → OwnershipProof → M E (Unit {0})
  verify_proof signer contract proof = verify_proof_as proof.proof_type signer contract proof

  abbrev pub binding_of : ℕ → ℕ → ℕ → App → ProofType → ContractBinding
  binding_of height c id app proof = record {
    contract = c;
    app_id = id;
    proof_type = proof;
    added_height = height;
    version = app.version;
  }

  abbrev pub counted_up : App → App
  counted_up app = record app { contract_count = (app.contract_count + 1) % 2 ^ 32 }

  -- A contract is attributed to the app of an id.
  abbrev pub bound : ℕ → ℕ → ℕ → App → ProofType → State E → State E
  bound height c id app proof s = record s {
    bindings = set c (binding_of height c id app proof) s.bindings;
    app_contracts = set (id, c) tt s.app_contracts;
    apps = set id (counted_up app) s.apps;
  }

  -- `setBinding`.
  unfoldable pub set_binding : ℕ → ℕ → ℕ → ProofType → M E (Unit {0})
  set_binding height c id proof = do
    app ← read (λ s. get_app E s id)
    modify (bound height c id app proof)

  -- `if app.ContractCount > 0 { app.ContractCount-- }`.
  abbrev pub counted_down : App → App
  counted_down app = record app { contract_count = app.contract_count - 1 }

  -- `unbind`.
  unfoldable pub unbind : ℕ → ℕ → M E (Unit {0})
  unbind c id = do
    modify λ s. record s {
      bindings = remove c s.bindings;
      app_contracts = remove (id, c) s.app_contracts;
    }
    app ← read (λ s. get_app E s id)
    modify (λ s. record s { apps = set id (counted_down app) s.apps })

  abbrev pub move_of : ℕ → ℕ → ℕ → ProofType → ℤ → PendingMove
  move_of c from to proof unlock = record {
    contract = c;
    from_app_id = from;
    to_app_id = to;
    proof_type = proof;
    unlock_height = unlock;
  }

  abbrev pub scheduled : PendingMove → State E → State E
  scheduled mv s = record s {
    pending_moves = set mv.contract mv s.pending_moves;
    moves_by_unlock = set (mv.unlock_height, mv.contract) tt s.moves_by_unlock;
  }

  -- The end of `bindContract`: a fresh binding, or a move from the app that holds the contract.
  unfoldable pub bind_or_move : ℕ → ℕ → ℕ → ProofType → ℤ → Option ContractBinding → M E (Bool × ℤ)
  bind_or_move height c id proof unlock none = do set_binding height c id proof; pure (false, pos 0)
  bind_or_move height c id proof unlock (some b) = do
    require (not (b.app_id == id)) Error.already_bound
    pending ← gets (λ s. has c s.pending_moves)
    require (not pending) Error.move_pending
    modify (scheduled (move_of c b.app_id id proof unlock))
    pure (true, unlock)

  -- `bindContract`, at a block's height.
  unfoldable pub bind_contract : ℕ → ℕ → ℕ → ProofType → M E (Bool × ℤ)
  bind_contract height c id proof = do
    params ← gets (get_params E)
    app ← read (λ s. get_app E s id)
    require (ltb app.contract_count params.max_contracts_per_app) Error.too_many_contracts
    existing ← gets (λ s. get c s.bindings)
    bind_or_move height c id proof (wrap_int64 (pos height +ℤ params.contract_move_delay_blocks))
        existing

  -- `AddContract`.
  unfoldable pub add_contract : ℕ → Addr → ℕ → ℕ → OwnershipProof → M E (Bool × ℤ)
  add_contract height owner id text proof = do
    read (λ s. owned_app E s owner id)
    require (E.texts.is_hex_address text) Error.invalid_field
    require (not (is_self_claim proof.proof_type)) Error.invalid_proof
    verify_proof (E.eth_address owner) (E.texts.hex_address text) proof
    bind_contract height (normalize_contract E text) id proof.proof_type

  abbrev pub claim_of : ℕ → ℕ → ℕ → PendingClaim
  claim_of height c id = record { contract = c; app_id = id; claimed_height = height }

  -- `ClaimRegistration`, by the contract at an address.
  unfoldable pub claim_registration : ℕ → Addr → ℕ → M E (Unit {0})
  claim_registration height contract id = do
    app ← read (λ s. get_app E s id)
    require (is_active app.status) Error.app_inactive
    let c = normalize_contract E (E.hex contract)
    modify (λ s. record s { pending_claims = set (id, c) (claim_of height c id) s.pending_claims })

  -- `AcceptContractClaim`.
  unfoldable pub accept_contract_claim : ℕ → Addr → ℕ → ℕ → M E (Bool × ℤ)
  accept_contract_claim height owner id text = do
    read (λ s. owned_app E s owner id)
    let c = normalize_contract E text
    claimed ← gets (λ s. has (id, c) s.pending_claims)
    require claimed Error.no_pending_claim
    modify (λ s. record s { pending_claims = remove (id, c) s.pending_claims })
    bind_contract height c id ProofType.self_claim

  -- The pending move of a contract is dropped, if there is one.
  unfoldable pub drop_move : ℕ → Option PendingMove → State E → State E
  drop_move c none s = s
  drop_move c (some mv) s = record s {
    moves_by_unlock = remove (mv.unlock_height, c) s.moves_by_unlock;
    pending_moves = remove c s.pending_moves;
  }

  unfoldable pub bound_to : ℕ → Option ContractBinding → Bool
  bound_to id none = false
  bound_to id (some b) = b.app_id == id

  -- `RemoveContract`.
  unfoldable pub remove_contract : Addr → ℕ → ℕ → M E (Unit {0})
  remove_contract owner id text = do
    read (λ s. owned_app E s owner id)
    let c = normalize_contract E text
    held ← gets (λ s. bound_to id (get c s.bindings))
    require held Error.not_bound
    modify (λ s. drop_move c (get c s.pending_moves) s)
    unbind c id

  -- An app that cannot be read has the empty text for an owner.
  unfoldable pub owner_of : Result App → Addr
  owner_of (ok a) = a.owner
  owner_of (err e) = 0

  -- `CancelContractMove`.
  unfoldable pub cancel_contract_move : Addr → ℕ → M E (Unit {0})
  cancel_contract_move owner text = do
    let c = normalize_contract E text
    mv ← read (λ s. or_err (get c s.pending_moves) Error.no_pending_move)
    from ← read (λ s. get_app E s mv.from_app_id)
    to ← gets (λ s. get_app E s mv.to_app_id)
    require (from.owner == owner || owner_of to == owner) Error.app_unauthorized
    modify (drop_move c (some mv))

  -- May the destination of a due move take one more contract?
  unfoldable pub has_room : State E → Result App → Bool
  has_room s (ok a) =
      not (is_revoked a.status) && ltb a.contract_count (get_params E s).max_contracts_per_app
  has_room s (err e) = false

  unfoldable pub unbind_from : ℕ → Option ContractBinding → M E (Unit {0})
  unbind_from c none = pure tt
  unbind_from c (some b) = unbind c b.app_id

  unfoldable pub rebind : ℕ → ℕ → PendingMove → M E (Unit {0})
  rebind height c mv = do
    held ← gets (λ s. get c s.bindings)
    unbind_from c held
    set_binding height c mv.to_app_id mv.proof_type

  unfoldable pub finalize_move : ℕ → ℕ → Option PendingMove → M E (Unit {0})
  finalize_move height c none = pure tt
  finalize_move height c (some mv) = do
    modify (λ s. record s { pending_moves = remove c s.pending_moves })
    open_to ← gets (λ s. has_room s (get_app E s mv.to_app_id))
    when open_to (rebind height c mv)

  -- One round of the loop of `finalizeMoves`.
  unfoldable pub finalize_one : ℕ → ℤ × ℕ → M E (Unit {0})
  finalize_one height (unlock, c) = do
    modify (λ s. record s { moves_by_unlock = remove (unlock, c) s.moves_by_unlock })
    found ← gets (λ s. get c s.pending_moves)
    finalize_move height c found

  unfoldable pub finalize_each : ℕ → Map (ℤ × ℕ) (Unit {0}) → M E (Unit {0})
  finalize_each height [] = pure tt
  finalize_each height ((key, u) ∷ due) = finalize_one height key >> finalize_each height due

  -- The moves that are due at a height.
  unfoldable pub due_moves : ℕ → State E → Map (ℤ × ℕ) (Unit {0})
  due_moves height s =
      select (λ (key : ℤ × ℕ). leb_ℤ key.0 (pos height))
        (walk (move_before E.text_before) s.moves_by_unlock)

  -- `finalizeMoves`.
  unfoldable pub finalize_moves : ℕ → M E (Unit {0})
  finalize_moves height = gets (due_moves height) >>= finalize_each height

  -- `AppOfContract`.
  unfoldable pub active_or_none : Result App → Option App
  active_or_none (ok a) = if is_active a.status then some a else none
  active_or_none (err e) = none

  unfoldable pub app_of_contract : State E → Addr → Option App
  app_of_contract s contract = elim (get (normalize_contract E (E.hex contract)) s.bindings) [
    | none ↦ none
    | some b ↦ active_or_none (get_app E s b.app_id)
  ]
