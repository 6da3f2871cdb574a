-- ===== src/Settle/Conservation/Credits.antt =====
-- The sale of gas credits (chain/x/settle/keeper/treasury.go) conserves the money of every
-- denomination, that of the credits among them.
use vapor_chain.Prelude.{
  ℕ, ◌≡◌, false, not, [], ◌∷◌, none, some, ◌==◌, if◌then◌else◌, ℤ, pos, ◌+ℤ◌, neg, is_positive,
  int_laws, nat_eq, pair_eq, Error, ◌>>=◌, ◌>>◌, guard_Ensures, lift-Ensures, pure, gets, require,
  lift,
}
use vapor_chain.Settle.Types.{Addr, Denom, Coins, amount_of, empty, pool_treasury}
use vapor_chain.Settle.Env.{Env, State, call}
use vapor_chain.Settle.Ledger.{add_pool, valid_recipient}
use vapor_chain.Settle.Treasury.{quote_credits, mint_credits, buy_credits}
use vapor_chain.Settle.Blocks.{at_denom, recount}
use vapor_chain.Settle.Conservation.{
  still, booked, ◌⊕◌, Moves, Moves-eq, >>=_Moves, Moves-Keeps, Conserves, Keeps,
}
use vapor_chain.Settle.Conservation.Steps.{
  amount_of-one, call-Moves, both, add_pool-Moves, banked_only, pay_in-Moves, pay_out-Moves,
  at_addr_self,
}

module _ (E : Env) (e : Denom) where
  -- Credits are minted for the recipient: the module keeps none of them.
  pub mint_credits-Moves :
      (to : Addr) (amount : ℤ) (s : State E) → Moves E e still s (mint_credits E to amount s)
  unfolding mint_credits
  mint_credits-Moves to amount s =
      let coins : Coins = (E.credit_denom, amount) ∷ [] in
      let x = amount_of coins e in
      let mint = call E (E.bank.mint_coins E.settle_account coins) in
      let send = call E (E.bank.module_to_account E.settle_account to coins) in
      let note = λ (_ : Unit {0}). λ (t : State E). pure {S = State E} amount (record t {
        credits_minted = some ((elim t.credits_minted [ none ↦ pos 0 | some y ↦ y ]) +ℤ amount);
      }) in
      Moves-eq E e (banked_only E e x ⊕ (banked_only E e (neg x) ⊕ still)) still s _
        (omega int_laws) (omega int_laws) (omega int_laws)
        (>>=_Moves E e (banked_only E e x) (banked_only E e (neg x) ⊕ still) mint
          (λ _. send >>= note) s
          (call-Moves E e (E.bank.mint_coins E.settle_account coins) x s (λ t done. rw (
            E.bank.mint_coins_lem E.settle_account coins s.world t done E.settle_account e,
            at_addr_self E.settle_account x,
          )))
          (λ _ t.
            >>=_Moves E e (banked_only E e (neg x)) still send note t (pay_out-Moves E e to coins t)
              (λ _ u.
                unfold recount in
                record {
                  banked = omega int_laws;
                  owed = omega int_laws;
                  counted = omega int_laws;
                  keyed = λ v. v;
                  tabbed = λ v. v;
                })))

  -- Coins that come in, are booked to the treasury, and buy credits.
  bought-Keeps :
      (buyer to : Addr) (d : Denom) (x credits : ℤ) (s : State E)
      → (buyer == E.settle_account) ≡ false
      → Keeps E e s (
          (call E (E.bank.account_to_module buyer E.settle_account ((d, x) ∷ []))
              >> (add_pool E pool_treasury d x >> mint_credits E to credits))
            s)
  bought-Keeps buyer to d x credits s other =
      let worth = at_denom e d x in
      let pull = call E (E.bank.account_to_module buyer E.settle_account ((d, x) ∷ [])) in
      let rest = add_pool E pool_treasury d x >> mint_credits E to credits in
      Moves-Keeps E e worth s ((pull >> rest) s) (
        Moves-eq E e (banked_only E e worth ⊕ (both E e d x ⊕ still)) (booked worth) s
          ((pull >> rest) s) (omega int_laws) (omega int_laws) (omega int_laws)
          (>>=_Moves E e (banked_only E e worth) (both E e d x ⊕ still) pull (λ _. rest) s
            (rw (← amount_of-one e d x) (pay_in-Moves E e buyer ((d, x) ∷ []) s other))
            (λ _ t.
              >>=_Moves E e (both E e d x) still (add_pool E pool_treasury d x)
                (λ _. mint_credits E to credits) t (add_pool-Moves E e pool_treasury d x t)
                (λ _ u. mint_credits-Moves to credits u))))

  -- A purchase of credits that succeeds, by another account than the module's, moves the module's
  -- balance, the running total and the recount of every denomination by the same amount.
  pub buy_credits-Keeps :
      (height : ℕ) (buyer recipient : Addr) (d : Denom) (x : ℤ) (s : State E)
      → (buyer == E.settle_account) ≡ false
      → Keeps E e s (buy_credits E height buyer recipient d x s)
  unfolding buy_credits
  buy_credits-Keeps height buyer recipient d x s other =
      let Q = λ (c : ℤ) (t : State E). Conserves E e s t in
      let to = if recipient == empty then buyer else recipient in
      let buying = λ (credits : ℤ).
        call E (E.bank.account_to_module buyer E.settle_account ((d, x) ∷ []))
        >> (add_pool E pool_treasury d x >> mint_credits E to credits) in
      let payable =
        λ (credits : ℤ). require (valid_recipient E to) Error.invalid_recipient >> buying credits in
      let running = λ (t : State E). not (E.is_settle_paused t.world height d) in
      let quoted = λ (t : State E). lift (quote_credits E t d x) >>= payable in
      let unpaused = gets (λ t. t) >>= λ t. require (running t) Error.paused >> quoted t in
      guard_Ensures (is_positive x) Error.invalid_amount unpaused Q s (λ _.
        guard_Ensures (running s) Error.paused (quoted s) Q s (λ _.
          lift-Ensures (quote_credits E s d x) payable Q s (λ credits _.
            guard_Ensures (valid_recipient E to) Error.invalid_recipient (buying credits) Q s
              (λ _. bought-Keeps buyer to d x credits s other))))
