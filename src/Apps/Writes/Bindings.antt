-- ===== src/Apps/Writes/Bindings.antt =====
-- The operations of Apps/Bindings.antt as sequences of writes.
use vapor_chain.Prelude.{
  ℕ, ◌≡◌, refl, sym, ap, ◌∙◌, subst, Bool, true, false, not, ◌||◌, Option, none, some, List, ◌==◌,
  ltb, arith, some_inj, lift-Ensures, ==_iff, nat_eq, pair_eq, int_eq, ℤ, pos, ◌+ℤ◌, int_laws,
  Result, ok, err, Error, ◌>>=◌, ◌>>◌, pure, gets, modify, require, lift, read, or_err,
}
use vapor_chain.Store.{get, set, remove, has}
use vapor_chain.Settle.Types.{Addr}
use vapor_chain.Apps.Types.{App, ContractBinding, PendingMove, ProofType, OwnershipProof}
use vapor_chain.Apps.Env.{Env, State, get_params, normalize_contract, wrap_int64}
use vapor_chain.Apps.Registry.{get_app, owned_app, is_active}
use vapor_chain.Apps.Bindings.{
  check_returned, returned_or_invalid, check_create2, verify_proof_as, verify_proof, binding_of,
  bound, set_binding, unbind, counted_down, move_of, scheduled, bind_or_move, bind_contract,
  is_self_claim, add_contract, claim_of, claim_registration, accept_contract_claim, drop_move,
  bound_to, remove_contract, owner_of, cancel_contract_move,
}
use vapor_chain.Apps.Msgs.{add_contract_msg}
use vapor_chain.Apps.Writes.{Write, Writes, IsWritten, IsWritten-after, >>=_IsWritten, one}
use vapor_chain.Apps.Writes.Registry.{get_app-found, read-IsWritten, guard-IsWritten}

module _ (E : Env) where
  verify_proof-IsWritten :
      (type : ProofType) (signer contract : Addr) (proof : OwnershipProof) (s : State E)
      → IsWritten E s (verify_proof_as E type signer contract proof s)
  unfolding verify_proof_as
  verify_proof-IsWritten ProofType.deployer_create signer contract proof s =
      passes (E.create_address signer proof.nonce == contract)
    where
      passes : (b : Bool) → IsWritten E s (require b Error.invalid_proof s)
      passes true = Writes.no_more
      passes false = tt
  verify_proof-IsWritten ProofType.deployer_create2 signer contract proof s =
      passes
        (check_create2 E signer contract (E.from_hex proof.salt) (E.from_hex proof.init_code_hash))
    where
      passes : (r : Result (Unit {0})) → IsWritten E s (lift r s)
      passes (ok u) = Writes.no_more
      passes (err e) = tt
  verify_proof-IsWritten ProofType.ownable signer contract proof s =
      let t = record s { world = E.with_module_account s.world } in
      let answer = λ (ret : List ℕ). lift {S = State E} (check_returned E signer ret) in
      let asked =
        returned_or_invalid E (E.call_owner t.world (E.eth_address E.apps_account) contract) in
      let ask =
        modify (λ (u : State E). record u { world = E.with_module_account u.world })
        >> (gets (λ (u : State E). u.world) >>= λ w.
            lift (returned_or_invalid E (E.call_owner w (E.eth_address E.apps_account) contract))
            >>= answer) in
      guard-IsWritten E s (E.is_contract s.world contract) Error.not_contract ask (λ _.
        IsWritten-after E {A = Unit {0}}
          (one E (
            Write.enriches t.world s
              (λ d. omega (int_laws, E.with_module_account_lem s.world E.apps_account d))))
          ((lift asked >>= answer) t)
          (read-IsWritten E t asked answer (λ ret _. passes t (check_returned E signer ret))))
    where
      passes : (t : State E) (r : Result (Unit {0})) → IsWritten E t (lift r t)
      passes t (ok u) = Writes.no_more
      passes t (err e) = tt
  verify_proof-IsWritten ProofType.unproven signer contract proof s = tt
  verify_proof-IsWritten (ProofType.unlisted n) signer contract proof s = tt
  verify_proof-IsWritten ProofType.self_claim signer contract proof s = tt

  pub set_binding-IsWritten :
      (height c id : ℕ) (proof : ProofType) (s : State E)
      → get c s.bindings ≡ none
      → ((app : App)
          → get id s.apps ≡ some app
          → ltb app.contract_count (get_params E s).max_contracts_per_app ≡ true)
      → IsWritten E s (set_binding E height c id proof s)
  unfolding set_binding
  set_binding-IsWritten height c id proof s free room =
      read-IsWritten E s (get_app E s id) (λ app. modify (bound E height c id app proof))
        (λ app known.
          let found = get_app-found E s id app known in
          one E
            (Write.binds c (binding_of E height c id app proof) app s free found (room app found)))

  -- The binding of a contract that is bound to the app of an id is removed.
  pub unbind-IsWritten :
      (c : ℕ) (b : ContractBinding) (s : State E)
      → get c s.bindings ≡ some b
      → IsWritten E s (unbind E c b.app_id s)
  unfolding unbind
  unbind-IsWritten c b s held =
      let t = record s {
        bindings = remove c s.bindings;
        app_contracts = remove (b.app_id, c) s.app_contracts;
      } in
      lift-Ensures (get_app E t b.app_id)
        (λ app.
          modify (λ (u : State E). record u { apps = set b.app_id (counted_down E app) u.apps }))
        (λ _ u. Writes E s u) t
        (λ app known. one E (Write.unbinds c b app s held (get_app-found E t b.app_id app known)))

  bind_or_move-IsWritten :
      (height c id : ℕ) (proof : ProofType) (unlock : ℤ) (existing : Option ContractBinding)
      (s : State E)
      → existing ≡ get c s.bindings
      → ((app : App)
          → get id s.apps ≡ some app
          → ltb app.contract_count (get_params E s).max_contracts_per_app ≡ true)
      → IsWritten E s (bind_or_move E height c id proof unlock existing s)
  unfolding bind_or_move
  bind_or_move-IsWritten height c id proof unlock none s is room =
      >>=_IsWritten E (set_binding E height c id proof) (λ _. pure (false, pos 0)) s
        (set_binding-IsWritten height c id proof s (sym is) room) (λ _ t. Writes.no_more)
  bind_or_move-IsWritten height c id proof unlock (some b) s is room =
      let mv = move_of E c b.app_id id proof unlock in
      let write = modify (scheduled E mv) >> pure {S = State E} (true, unlock) in
      let idle = λ (b : Bool). require (not b) Error.move_pending >> write in
      let fresh = gets (λ (t : State E). has c t.pending_moves) >>= idle in
      guard-IsWritten E s (not (b.app_id == id)) Error.already_bound fresh (λ _.
        guard-IsWritten E s (not (has c s.pending_moves)) Error.move_pending write (λ _. one E (
          Write.moves (set mv.contract mv s.pending_moves)
            (set (mv.unlock_height, mv.contract) tt s.moves_by_unlock) s)))

  bind_contract-IsWritten :
      (height c id : ℕ) (proof : ProofType) (s : State E)
      → IsWritten E s (bind_contract E height c id proof s)
  unfolding bind_contract
  bind_contract-IsWritten height c id proof s =
      let p = get_params E s in
      let unlock = wrap_int64 (pos height +ℤ p.contract_move_delay_blocks) in
      let bind =
        gets (λ (t : State E). get c t.bindings) >>= bind_or_move E height c id proof unlock in
      let capped = λ (app : App).
        require (ltb app.contract_count p.max_contracts_per_app) Error.too_many_contracts >> bind in
      read-IsWritten E s (get_app E s id) capped (λ app known.
        guard-IsWritten E s (ltb app.contract_count p.max_contracts_per_app)
          Error.too_many_contracts bind
          (λ room.
            bind_or_move-IsWritten height c id proof unlock (get c s.bindings) s refl (λ a found.
              same_app app a (some_inj app a (sym (get_app-found E s id app known) ∙ found)) room)))
    where
      same_app :
          (a b : App)
          → a ≡ b
          → ltb a.contract_count (get_params E s).max_contracts_per_app ≡ true
          → ltb b.contract_count (get_params E s).max_contracts_per_app ≡ true
      same_app a b e h =
          ap (λ x. ltb x.contract_count (get_params E s).max_contracts_per_app) (sym e) ∙ h

  pub add_contract-IsWritten :
      (height : ℕ) (owner : Addr) (id text : ℕ) (proof : OwnershipProof) (s : State E)
      → IsWritten E s (add_contract_msg E height owner id text proof s)
  unfolding add_contract_msg add_contract verify_proof
  add_contract-IsWritten height owner id text proof s =
      let c = normalize_contract E text in
      let bind = bind_contract E height c id proof.proof_type in
      let prove = verify_proof E (E.eth_address owner) (E.texts.hex_address text) proof in
      let asked = prove >> bind in
      let claimed = require (not (is_self_claim proof.proof_type)) Error.invalid_proof >> asked in
      let hexed = require (E.texts.is_hex_address text) Error.invalid_field >> claimed in
      guard-IsWritten E s (E.texts.is_bech32 owner) Error.bad_address
        (add_contract E height owner id text proof)
        (λ _.
          read-IsWritten E s (owned_app E s owner id) (λ _. hexed)
            (λ _ _.
              guard-IsWritten E s (E.texts.is_hex_address text) Error.invalid_field claimed (λ _.
                guard-IsWritten E s (not (is_self_claim proof.proof_type)) Error.invalid_proof asked
                  (λ _.
                    >>=_IsWritten E prove (λ _. bind) s
                      (verify_proof-IsWritten proof.proof_type (E.eth_address owner)
                        (E.texts.hex_address text) proof s)
                      (λ _ t. bind_contract-IsWritten height c id proof.proof_type t)))))

  pub claim_registration-IsWritten :
      (height : ℕ) (contract : Addr) (id : ℕ) (s : State E)
      → IsWritten E s (claim_registration E height contract id s)
  unfolding claim_registration
  claim_registration-IsWritten height contract id s =
      let c = normalize_contract E (E.hex contract) in
      let write = modify (λ (t : State E). record t {
        pending_claims = set (id, c) (claim_of E height c id) t.pending_claims;
      }) in
      let active = λ (app : App). require (is_active app.status) Error.app_inactive >> write in
      read-IsWritten E s (get_app E s id) active (λ app _.
        guard-IsWritten E s (is_active app.status) Error.app_inactive write
          (λ _. one E (Write.claims (set (id, c) (claim_of E height c id) s.pending_claims) s)))

  pub accept_contract_claim-IsWritten :
      (height : ℕ) (owner : Addr) (id text : ℕ) (s : State E)
      → IsWritten E s (accept_contract_claim E height owner id text s)
  unfolding accept_contract_claim
  accept_contract_claim-IsWritten height owner id text s =
      let c = normalize_contract E text in
      let bind = bind_contract E height c id ProofType.self_claim in
      let write =
        modify (λ (t : State E). record t { pending_claims = remove (id, c) t.pending_claims })
        >> bind in
      let t = record s { pending_claims = remove (id, c) s.pending_claims } in
      let known = gets (λ (t : State E). has (id, c) t.pending_claims) >>= λ b.
      require b Error.no_pending_claim >> write in
      read-IsWritten E s (owned_app E s owner id) (λ _. known)
        (λ _ _.
          guard-IsWritten E s (has (id, c) s.pending_claims) Error.no_pending_claim write (λ _.
            IsWritten-after E {A = Bool × ℤ} (one E (Write.claims t.pending_claims s)) (bind t)
              (bind_contract-IsWritten height c id ProofType.self_claim t)))

  drop_move-Writes :
      (c : ℕ) (o : Option PendingMove) (s : State E)
      → Writes E s (drop_move E c o s) × ((drop_move E c o s).bindings ≡ s.bindings)
  unfolding drop_move
  drop_move-Writes c none s = (Writes.no_more, refl)
  drop_move-Writes c (some mv) s = (
    one E
        (Write.moves (remove c s.pending_moves) (remove (mv.unlock_height, c) s.moves_by_unlock) s),
    refl,
  )

  bound_to-cases :
      (id : ℕ) (o : Option ContractBinding)
      → bound_to E id o ≡ true
      → (b : ContractBinding) × ((o ≡ some b) × (b.app_id ≡ id))
  unfolding bound_to
  bound_to-cases id none h = absurd (ground arith)
  bound_to-cases id (some b) h = (b, (refl, (==_iff b.app_id id).0 h))

  pub remove_contract-IsWritten :
      (owner : Addr) (id text : ℕ) (s : State E) → IsWritten E s (remove_contract E owner id text s)
  unfolding remove_contract
  remove_contract-IsWritten owner id text s =
      let c = normalize_contract E text in
      let dropped =
        modify (λ (t : State E). drop_move E c (get c t.pending_moves) t) >> unbind E c id in
      let known = gets (λ (t : State E). bound_to E id (get c t.bindings)) >>= λ b.
      require b Error.not_bound >> dropped in
      let t = drop_move E c (get c s.pending_moves) s in
      let clear = drop_move-Writes c (get c s.pending_moves) s in
      read-IsWritten E s (owned_app E s owner id) (λ _. known)
        (λ _ _.
          guard-IsWritten E s (bound_to E id (get c s.bindings)) Error.not_bound dropped (λ held.
            let (b, (found, own)) = bound_to-cases id (get c s.bindings) held in
            IsWritten-after E {A = Unit {0}} clear.0 (unbind E c id t) (
              subst (λ i. IsWritten E t (unbind E c i t)) own
                (unbind-IsWritten c b t (ap (get c) clear.1 ∙ found)))))

  pub cancel_contract_move-IsWritten :
      (owner : Addr) (text : ℕ) (s : State E) → IsWritten E s (cancel_contract_move E owner text s)
  unfolding cancel_contract_move
  cancel_contract_move-IsWritten owner text s =
      let c = normalize_contract E text in
      let write = λ (mv : PendingMove). modify (drop_move E c (some mv)) in
      let entitled = λ (mv : PendingMove) (from : App) (to : Result App).
        from.owner == owner || owner_of E to == owner in
      let between = λ (mv : PendingMove) (from : App).
        gets (λ (t : State E). get_app E t mv.to_app_id) >>= λ to.
        require (entitled mv from to) Error.app_unauthorized >> write mv in
      let held_by =
        λ (mv : PendingMove). read (λ (t : State E). get_app E t mv.from_app_id) >>= between mv in
      read-IsWritten E s (or_err (get c s.pending_moves) Error.no_pending_move) held_by (λ mv _.
        read-IsWritten E s (get_app E s mv.from_app_id) (between mv) (λ from _.
          guard-IsWritten E s (entitled mv from (get_app E s mv.to_app_id)) Error.app_unauthorized
            (write mv) (λ _. (drop_move-Writes c (some mv) s).0)))
