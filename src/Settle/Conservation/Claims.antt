-- ===== src/Settle/Conservation/Claims.antt =====
-- The claims of revenue (chain/x/settle/keeper/treasury.go) conserve the money of every denomination.
use vapor_chain.Prelude.{
  ℕ, inl, inr, not, ◌||◌, List, [], ◌∷◌, contains, Bool-cases, ℤ, pos, ◌-ℤ◌, neg, is_positive,
  int_laws, nat_eq, pair_eq, Error, Result, ok, err, ◌>>=◌, ◌>>◌, Ensures, >>=_Ensures,
  guard_Ensures, lift-Ensures, pure, gets, require,
}
use vapor_chain.Settle.Types.{Addr, Denom, Coins, amount_of}
use vapor_chain.Settle.Env.{Env, State, call, get_params}
use vapor_chain.Settle.Ledger.{add_claimable, claimable_of}
use vapor_chain.Settle.Treasury.{
  claim_one, claim_each, claim_denoms, any_claimed, is_revoked, claim_revenue,
}
use vapor_chain.Apps.Types.{App}
use vapor_chain.Settle.Conservation.{
  Delta, still, booked, ◌⊕◌, Shifts, Shifts-refl, Shifts-eq, Shifts-trans, Moves-eq, Moves-after,
  Moves-Keeps, Conserves, Keeps,
}
use vapor_chain.Settle.Conservation.Steps.{
  at_denom-neg, amount_of-one, both, add_claimable-Moves, banked_only, pay_out-Moves,
}

module _ (E : Env) (e : Denom) where
  -- Coins booked out, that are to be paid.
  abbrev pub booked_out : ℤ → Delta
  booked_out x = record { bank = pos 0; owed = neg x; counted = neg x }

  -- What a claim books out while its coins grow.
  abbrev claimed_from : Coins → Coins → Delta
  claimed_from before after = booked_out (amount_of after e -ℤ amount_of before e)

  claim_one-Ensures :
      (id : ℕ) (seen : List Denom) (d : Denom) (claimed : Coins) (s : State E)
      → Ensures
          (λ after t. Shifts E e (claimed_from claimed after) s t)
          (claim_one E id seen d claimed s)
  unfolding claim_one
  claim_one-Ensures id seen d claimed s =
      elim (Bool-cases (contains seen d || not (is_positive (claimable_of E s id d)))) [
        | inl skipped ↦
            rw (skipped, claim_one)
              (Shifts-eq E e still (claimed_from claimed claimed) s s (omega int_laws)
                (omega int_laws) (omega int_laws) (Shifts-refl E e s))
        | inr taken ↦
            let amt = claimable_of E s id d in
            let out = both E e d (neg amt) in
            let moved = claimed_from claimed ((d, amt) ∷ claimed) in
            let sign = at_denom-neg e d amt in
            let one = amount_of-one e d amt in
            rw (taken, claim_one)
              (>>=_Ensures (add_claimable E id d (neg amt))
                (λ _. pure {S = State E} ((d, amt) ∷ claimed)) (λ a t. Shifts E e out s t)
                (λ after t. Shifts E e (claimed_from claimed after) s t) s
                (add_claimable-Moves E e id d (neg amt) s)
                (λ a t h.
                  Shifts-eq E e out moved s t (omega int_laws) (omega (int_laws, sign, one))
                    (omega (int_laws, sign, one)) h))
      ]

  claim_each-Ensures :
      (id : ℕ) (seen denoms : List Denom) (claimed : Coins) (s : State E)
      → Ensures
          (λ after t. Shifts E e (claimed_from claimed after) s t)
          (claim_each E id seen denoms claimed s)
  unfolding claim_each
  claim_each-Ensures id seen [] claimed s =
      Shifts-eq E e still (claimed_from claimed claimed) s s (omega int_laws) (omega int_laws)
        (omega int_laws) (Shifts-refl E e s)
  claim_each-Ensures id seen (d ∷ rest) claimed s =
      >>=_Ensures (claim_one E id seen d claimed) (claim_each E id (d ∷ seen) rest)
        (λ mid t. Shifts E e (claimed_from claimed mid) s t)
        (λ after t. Shifts E e (claimed_from claimed after) s t) s
        (claim_one-Ensures id seen d claimed s)
        (λ mid t h. weaken mid t h _ (claim_each-Ensures id (d ∷ seen) rest mid t))
    where
      weaken :
          (mid : Coins) (t : State E)
          → Shifts E e (claimed_from claimed mid) s t
          → (r : Result Coins × State E)
          → Ensures (λ after u. Shifts E e (claimed_from mid after) t u) r
          → Ensures (λ after u. Shifts E e (claimed_from claimed after) s u) r
      weaken mid t h (err f, u) k = tt
      weaken mid t h (ok after, u) k =
          Shifts-eq E e (claimed_from claimed mid ⊕ claimed_from mid after)
            (claimed_from claimed after) s u (omega int_laws) (omega int_laws) (omega int_laws)
            (Shifts-trans E e (claimed_from claimed mid) (claimed_from mid after) s t u h k)

  -- Coins that were booked out are paid: the whole conserves.
  paid_out-Keeps :
      {A : Type 0} (to : Addr) (cs : Coins) (a : A) (s t : State E)
      → Shifts E e (booked_out (amount_of cs e)) s t
      → Keeps E e s
          ((call E (E.bank.module_to_account E.settle_account to cs) >> pure {S = State E} a) t)
  paid_out-Keeps to cs a s t out =
      let x = amount_of cs e in
      let pay = call E (E.bank.module_to_account E.settle_account to cs) in
      >>=_Ensures pay (λ _. pure {S = State E} a) (λ _ u. Conserves E e s u)
        (λ _ u. Conserves E e s u) t
        (Moves-Keeps E e (neg x) s (pay t) (
          Moves-eq E e (booked_out x ⊕ banked_only E e (neg x)) (booked (neg x)) s (pay t)
            (omega int_laws) (omega int_laws) (omega int_laws)
            (Moves-after E e (booked_out x) (banked_only E e (neg x)) s t (pay t) out
              (pay_out-Moves E e to cs t))))
        (λ _ u h. h)

  -- A claim of revenue that succeeds moves the module's balance, the running total and the recount
  -- of every denomination by the same amount.
  pub claim_revenue-Keeps :
      (id : ℕ) (denoms : List Denom) (s : State E) → Keeps E e s (claim_revenue E id denoms s)
  unfolding claim_revenue
  claim_revenue-Keeps id denoms s =
      let Q = λ (cs : Coins) (t : State E). Conserves E e s t in
      let asked = claim_denoms E denoms (get_params E s) in
      let paying = λ (app : App) (claimed : Coins).
        call E (E.bank.module_to_account E.settle_account app.revenue_recipient claimed)
        >> pure {S = State E} claimed in
      let checked = λ (app : App) (claimed : Coins).
        require (any_claimed E claimed) Error.nothing_to_claim >> paying app claimed in
      let claiming = λ (app : App). gets {S = State E} (get_params E) >>= λ params.
      claim_each E id [] (claim_denoms E denoms params) [] >>= checked app in
      let parsed = λ (app : App).
        require (E.texts.is_bech32 app.revenue_recipient) Error.bad_address >> claiming app in
      let found =
        λ (app : App). require (not (is_revoked app.status)) Error.app_revoked >> parsed app in
      lift-Ensures (E.get_app s.world id) found Q s (λ app _.
        guard_Ensures (not (is_revoked app.status)) Error.app_revoked (parsed app) Q s (λ _.
          guard_Ensures (E.texts.is_bech32 app.revenue_recipient) Error.bad_address (claiming app) Q
            s
            (λ _.
              >>=_Ensures (claim_each E id [] asked []) (checked app)
                (λ after t. Shifts E e (claimed_from [] after) s t) Q s
                (claim_each-Ensures id [] asked [] s)
                (λ claimed t h.
                  guard_Ensures (any_claimed E claimed) Error.nothing_to_claim (paying app claimed)
                    Q t
                    (λ _. paid_out-Keeps app.revenue_recipient claimed claimed s t (
                      Shifts-eq E e (claimed_from [] claimed) (booked_out (amount_of claimed e)) s t
                        (omega int_laws) (omega int_laws) (omega int_laws) h))))))
