-- ===== src/Apps/Ownership.antt =====
-- Who may change an app (chain/x/apps/keeper/keeper.go): its owner, and an app changes hands in two
-- steps.
use vapor_chain.Prelude.{
  gets, lift, pair_eq, ℕ, ◌≡◌, ◌≢◌, refl, ap, false, not, some, ◌==◌, if◌then◌else◌, arith, nat_eq,
  Result, ok, err, Error, ◌>>=◌, ◌>>◌, read, modify, require,
}
use vapor_chain.Store.{get, remove, has}
use vapor_chain.Settle.Types.{Addr, empty}
use vapor_chain.Apps.Types.{App, OwnershipProof, ProofType}
use vapor_chain.Apps.Env.{Env, State, M, get_params, normalize_contract}
use vapor_chain.Apps.Registry.{
  Fields, get_app, check_owner, owned_app, put_app, updated, update_app, transfer_ownership,
  validate_recipient, check_fields, accepted,
}
use vapor_chain.Apps.Bindings.{
  add_contract, accept_contract_claim, remove_contract, is_self_claim, verify_proof, bind_contract,
  bound_to, drop_move, unbind,
}

module _ (E : Env) where
  read_err :
      {A B : Type 0} (f : State E → Result B) (k : B → M E A) (s : State E) (e : Error)
      → f s ≡ err e
      → (read f >>= k) s ≡ (err e, s)
  read_err f k s e h = ap (λ r. elim r [ ok b ↦ k b s | err x ↦ (err x, s) ]) h

  pub get_app-stored :
      (s : State E) (id : ℕ) (app : App) → get id s.apps ≡ some app → get_app E s id ≡ ok app
  unfolding get_app
  get_app-stored s id app found = rw found refl

  owned_app-stranger :
      (s : State E) (signer : Addr) (id : ℕ) (app : App)
      → get id s.apps ≡ some app
      → app.owner ≢ signer
      → owned_app E s signer id ≡ err Error.app_unauthorized
  unfolding owned_app check_owner
  owned_app-stranger s signer id app found other =
      let differs : (app.owner == signer) ≡ false = unequal app.owner signer other in
      rw (get_app-stored s id app found, owned_app) (rw differs refl)
    where
      unequal : (a b : ℕ) → a ≢ b → (a == b) ≡ false
      unequal a b h = ground arith

  -- What every message that only the owner may send answers a stranger.
  module _ (s : State E) (signer : Addr) (id : ℕ) (app : App) where
    abbrev refused : {A : Type 0} → Result A × State E
    refused = (err Error.app_unauthorized, s)

    -- A signer who does not own an app can neither update nor transfer it, nor bind, accept or remove
    -- a contract for it: each of the five answers that the signer is not authorized and changes
    -- nothing, whatever its other arguments.
    pub stranger-refused :
        get id s.apps ≡ some app
        → app.owner ≢ signer
        → (f : Fields) (to : Addr) (height text : ℕ) (proof : OwnershipProof)
        → (update_app E signer id f s ≡ refused)
          × ((transfer_ownership E signer id to s ≡ refused)
              × ((add_contract E height signer id text proof s ≡ refused)
                  × ((accept_contract_claim E height signer id text s ≡ refused)
                      × (remove_contract E signer id text s ≡ refused))))
    unfolding update_app transfer_ownership add_contract accept_contract_claim remove_contract
    stranger-refused found other f to height text proof =
        let no_owner = owned_app-stranger s signer id app found other in
        let own = λ (t : State E). owned_app E t signer id in
        let c = normalize_contract E text in
        let fail = Error.app_unauthorized in
        let bind = bind_contract E height c id proof.proof_type in
        (
          read_err own
              (λ a. gets (get_params E) >>= λ q.
                lift (if f.recipient == empty then ok tt else validate_recipient E f.recipient)
                >> (lift (check_fields E q f) >> modify (put_app E id (updated E f a))))
              s fail no_owner,
          (
            read_err own
                (λ a.
                  require (E.texts.is_bech32 to) Error.invalid_field
                  >> modify (put_app E id (record a { pending_owner = to })))
                s fail no_owner,
            (
              read_err own
                  (λ _.
                    require (E.texts.is_hex_address text) Error.invalid_field
                    >> (require (not (is_self_claim proof.proof_type)) Error.invalid_proof
                        >> (verify_proof E (E.eth_address signer) (E.texts.hex_address text) proof
                            >> bind)))
                  s fail no_owner,
              (
                read_err own
                    (λ _. gets (λ (t : State E). has (id, c) t.pending_claims) >>= λ claimed.
                      require claimed Error.no_pending_claim
                      >> (modify (λ (t : State E). record t {
                        pending_claims = remove (id, c) t.pending_claims;
                      })
                          >> bind_contract E height c id ProofType.self_claim))
                    s fail no_owner,
                read_err own
                    (λ _. gets (λ (t : State E). bound_to E id (get c t.bindings)) >>= λ held.
                      require held Error.not_bound
                      >> (modify (λ (t : State E). drop_move E c (get c t.pending_moves) t)
                          >> unbind E c id))
                    s fail no_owner,
              ),
            ),
          ),
        )

  -- The app after its owner has named another, and after the other has accepted.
  module _ (s : State E) (id : ℕ) (app : App) (to : Addr) where
    abbrev pub offered : State E
    offered = put_app E id (record app { pending_owner = to }) s

    abbrev pub handed_over : State E
    handed_over = put_app E id (accepted E to (record app { pending_owner = to })) offered
