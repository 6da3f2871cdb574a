-- ===== src/Settle/Conservation/Pools.antt =====
-- The payments out of the treasury and relayer pools (chain/x/settle/keeper/treasury.go) conserve the
-- money of every denomination.
use vapor_chain.Prelude.{
  refl, Bool, true, false, not, ◌&&◌, [], ◌∷◌, ◌==◌, ℤ, pos, ◌+ℤ◌, neg, ltb_ℤ, is_positive,
  int_laws, nat_eq, pair_eq, Error, Result, ◌>>=◌, ◌>>◌, >>=_Ensures, guard_Ensures, lift-Ensures,
  pure, gets, modify, require, lift,
}
use vapor_chain.Settle.Types.{Addr, Denom, Coins, amount_of, Params, pool_relayer, pool_treasury}
use vapor_chain.Settle.Params.{is_relayer_recipient}
use vapor_chain.Settle.Env.{Env, State, call, get_params}
use vapor_chain.Settle.Ledger.{add_int, get_int, add_pool, pool_balance, valid_recipient}
use vapor_chain.Settle.Treasury.{
  any_claimed, quote_credits, mint_credits, withdraw_each, is_officer, withdraw_treasury,
  count_relayer, pay_relayer, disburse_relayer_pool,
}
use vapor_chain.Settle.Blocks.{at_denom, recount}
use vapor_chain.Settle.Conservation.{
  Delta, still, booked, ◌⊕◌, Shifts, Shifts-refl, Shifts-eq, Moves, Moves-eq, >>=_Moves,
  Moves-Keeps, Conserves, Keeps,
}
use vapor_chain.Settle.Conservation.Steps.{
  at_denom-neg, amount_of-one, both, add_pool-Moves, banked_only, pay_out-Moves,
}
use vapor_chain.Settle.Conservation.Claims.{booked_out}
use vapor_chain.Settle.Conservation.Credits.{mint_credits-Moves}

module _ (E : Env) (e : Denom) where
  -- The treasury's debit of the coins of a withdrawal.
  withdraw_each-Moves :
      (cs : Coins) (s : State E)
      → Moves E e (booked_out E e (amount_of cs e)) s (withdraw_each E cs s)
  unfolding withdraw_each
  withdraw_each-Moves [] s =
      Shifts-eq E e still (booked_out E e (pos 0)) s s refl (omega int_laws) (omega int_laws)
        (Shifts-refl E e s)
  withdraw_each-Moves ((d, x) ∷ rest) s =
      let out = booked_out E e (amount_of ((d, x) ∷ rest) e) in
      let left = booked_out E e (amount_of rest e) in
      let debit = add_pool E pool_treasury d (neg x) in
      let sign = at_denom-neg e d x in
      let one = amount_of-one e d x in
      guard_Ensures (not (ltb_ℤ (pool_balance E s pool_treasury d) x)) Error.insufficient_pool
        (debit >> withdraw_each E rest) (λ _ t. Shifts E e out s t) s
        (λ _.
          Moves-eq E e (both E e d (neg x) ⊕ left) out s ((debit >> withdraw_each E rest) s)
            (omega int_laws) (omega (int_laws, sign, one)) (omega (int_laws, sign, one))
            (>>=_Moves E e (both E e d (neg x)) left debit (λ _. withdraw_each E rest) s
              (add_pool-Moves E e pool_treasury d (neg x) s) (λ _ t. withdraw_each-Moves rest t)))

  -- A withdrawal from the treasury that succeeds moves the module's balance, the running total and
  -- the recount of every denomination by the same amount.
  pub withdraw_treasury-Keeps :
      (signer recipient : Addr) (cs : Coins) (s : State E)
      → Keeps E e s (withdraw_treasury E signer recipient cs s)
  unfolding withdraw_treasury
  withdraw_treasury-Keeps signer recipient cs s =
      let x = amount_of cs e in
      let Q = λ (_ : Unit {0}) (t : State E). Conserves E e s t in
      let send = call E (E.bank.module_to_account E.settle_account recipient cs) in
      let pay = withdraw_each E cs >> send in
      let payable = require (valid_recipient E recipient) Error.invalid_recipient >> pay in
      let fine = E.texts.valid_coins cs && any_claimed E cs in
      let asked = require fine Error.invalid_amount >> payable in
      guard_Ensures (is_officer E signer (get_params E s).treasury_admin) Error.unauthorized asked Q
        s
        (λ _. guard_Ensures fine Error.invalid_amount payable Q s (λ _.
          guard_Ensures (valid_recipient E recipient) Error.invalid_recipient pay Q s (λ _.
            Moves-Keeps E e (neg x) s (pay s) (
              Moves-eq E e (booked_out E e x ⊕ banked_only E e (neg x)) (booked (neg x)) s (pay s)
                (omega int_laws) (omega int_laws) (omega int_laws)
                (>>=_Moves E e (booked_out E e x) (banked_only E e (neg x)) (withdraw_each E cs)
                  (λ _. send) s (withdraw_each-Moves cs s)
                  (λ _ t. pay_out-Moves E e recipient cs t))))))

  count_relayer-Moves :
      (gov : Bool) (params : Params) (d : Denom) (x : ℤ) (s : State E)
      → Moves E e still s (count_relayer E gov params d x s)
  unfolding count_relayer
  count_relayer-Moves true params d x s = Shifts-refl E e s
  count_relayer-Moves false params d x s =
      let Q = λ (_ : Unit {0}) (t : State E). Shifts E e still s t in
      let cap = amount_of params.relayer_payout_cap d in
      let note = λ (paid : _). modify (λ (t : State E). record t { relayer_paid = paid }) in
      guard_Ensures (not (ltb_ℤ cap (get_int d s.relayer_paid +ℤ x))) Error.relayer_cap
        (lift (add_int d x s.relayer_paid) >>= note) Q s
        (λ _. lift-Ensures (add_int d x s.relayer_paid) note Q s (λ paid _.
          unfold recount in
          record {
            banked = omega int_laws;
            owed = omega int_laws;
            counted = omega int_laws;
            keyed = λ v. v;
            tabbed = λ v. v;
          }))

  -- The payment of a relayer: as credits the coins go to the treasury, else they leave.
  abbrev relayed : Bool → Denom → ℤ → Delta
  relayed true d x = both E e d x
  relayed false d x = banked_only E e (neg (at_denom e d x))

  pay_relayer-Moves :
      (as_credits : Bool) (recipient : Addr) (d : Denom) (x : ℤ) (s : State E)
      → Moves E e (relayed as_credits d x) s (pay_relayer E as_credits recipient d x s)
  unfolding pay_relayer
  pay_relayer-Moves true recipient d x s =
      let p = both E e d x in
      let sell =
        λ (credits : ℤ). add_pool E pool_treasury d x >> mint_credits E recipient credits in
      lift-Ensures (quote_credits E s d x) sell (λ _ t. Shifts E e p s t) s
        (λ credits _.
          Moves-eq E e (p ⊕ still) p s (sell credits s) (omega int_laws) (omega int_laws)
            (omega int_laws)
            (>>=_Moves E e p still (add_pool E pool_treasury d x)
              (λ _. mint_credits E recipient credits) s (add_pool-Moves E e pool_treasury d x s)
              (λ _ t. mint_credits-Moves E e recipient credits t)))
  pay_relayer-Moves false recipient d x s =
      let p = banked_only E e (neg (at_denom e d x)) in
      let send = call E (E.bank.module_to_account E.settle_account recipient ((d, x) ∷ [])) in
      >>=_Ensures send (λ _. pure {S = State E} x) (λ _ t. Shifts E e p s t)
        (λ _ t. Shifts E e p s t) s
        (rw (← amount_of-one e d x) (pay_out-Moves E e recipient ((d, x) ∷ []) s)) (λ _ t h. h)

  abbrev net_relayed : Bool → Denom → ℤ → ℤ
  net_relayed true d x = pos 0
  net_relayed false d x = neg (at_denom e d x)

  -- The debit of the relayer pool and the payment together.
  relayed_whole :
      (as_credits : Bool) (d : Denom) (x : ℤ) (s : State E) (r : Result ℤ × State E)
      → Moves E e (still ⊕ (both E e d (neg x) ⊕ relayed as_credits d x)) s r
      → Keeps E e s r
  relayed_whole true d x s r h =
      let sign = at_denom-neg e d x in
      Moves-Keeps E e (pos 0) s r (
        Moves-eq E e (still ⊕ (both E e d (neg x) ⊕ relayed true d x)) (booked (pos 0)) s r
          (omega int_laws) (omega (int_laws, sign)) (omega (int_laws, sign)) h)
  relayed_whole false d x s r h =
      let sign = at_denom-neg e d x in
      let left = neg (at_denom e d x) in
      Moves-Keeps E e left s r (
        Moves-eq E e (still ⊕ (both E e d (neg x) ⊕ relayed false d x)) (booked left) s r
          (omega int_laws) (omega (int_laws, sign)) (omega (int_laws, sign)) h)

  -- A payment to a relayer that succeeds, in the coin or as credits, moves the module's balance,
  -- the running total and the recount of every denomination by the same amount.
  pub disburse_relayer_pool-Keeps :
      (signer recipient : Addr) (d : Denom) (x : ℤ) (as_credits : Bool) (s : State E)
      → Keeps E e s (disburse_relayer_pool E signer recipient d x as_credits s)
  unfolding disburse_relayer_pool
  disburse_relayer_pool-Keeps signer recipient d x as_credits s =
      let params = get_params E s in
      let Q = λ (_ : ℤ) (t : State E). Conserves E e s t in
      let count = count_relayer E (signer == E.authority) params d x in
      let debit = add_pool E pool_relayer d (neg x) in
      let pay = pay_relayer E as_credits recipient d x in
      let go = count >> (debit >> pay) in
      let enough = λ (have : ℤ). require (not (ltb_ℤ have x)) Error.insufficient_pool >> go in
      let covered = gets (λ t. pool_balance E t pool_relayer d) >>= enough in
      let listed =
        require (is_relayer_recipient params recipient) Error.invalid_recipient >> covered in
      let positive = require (is_positive x) Error.invalid_amount >> listed in
      guard_Ensures (is_officer E signer params.relayer_admin) Error.unauthorized positive Q s (λ _.
        guard_Ensures (is_positive x) Error.invalid_amount listed Q s (λ _.
          guard_Ensures (is_relayer_recipient params recipient) Error.invalid_recipient covered Q s
            (λ _.
              guard_Ensures (not (ltb_ℤ (pool_balance E s pool_relayer d) x))
                Error.insufficient_pool go Q s
                (λ _. relayed_whole as_credits d x s (go s) (
                  >>=_Moves E e still (both E e d (neg x) ⊕ relayed as_credits d x) count
                    (λ _. debit >> pay) s (count_relayer-Moves (signer == E.authority) params d x s)
                    (λ _ t.
                      >>=_Moves E e (both E e d (neg x)) (relayed as_credits d x) debit (λ _. pay) t
                        (add_pool-Moves E e pool_relayer d (neg x) t)
                        (λ _ u. pay_relayer-Moves as_credits recipient d x u)))))))
