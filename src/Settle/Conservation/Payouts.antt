-- ===== src/Settle/Conservation/Payouts.antt =====
-- A payout of the validator pool that succeeds (chain/x/settle/keeper/payout.go) conserves the money
-- of every denomination.
use vapor_chain.Prelude.{
  ℕ, ◌≡◌, refl, inl, inr, Bool, true, false, List, [], ◌∷◌, if◌then◌else◌, Bool-cases, ℤ, pos, ◌+ℤ◌,
  ◌-ℤ◌, neg, ltb_ℤ, sub_ℕ, is_positive, int_laws, ◌>>=◌, ◌>>◌, Ensures, >>=_Ensures, lift-Ensures,
  ok, nat_eq, pair_eq, some, Result, err,
}
use vapor_chain.Settle.Types.{Addr, Denom, pool_validator}
use vapor_chain.Settle.Env.{Env, State, M, Validator, get_params}
use vapor_chain.Settle.Ledger.{add_pool}
use vapor_chain.Settle.Pay.{send_positive}
use vapor_chain.Settle.Payout.{
  window_of, payees_of, total_weight, validator_balances, share_of, pay_each, pay_balances,
  pay_pool, payout_now, payout_validators, last_payout_of,
}
use vapor_chain.Settle.Blocks.{at_denom, recount}
use vapor_chain.Settle.Conservation.{
  Delta, still, booked, ◌⊕◌, Shifts, Shifts-refl, Shifts-eq, Shifts-trans, Moves, Moves-eq,
  Moves-after, Moves-Keeps, Conserves, Shifts-Conserves, Keeps, Keeps-after,
}
use vapor_chain.Settle.Conservation.Steps.{
  at_denom-+ℤ, at_denom-neg, at_denom-zero, both, add_pool-Moves, banked_only, send_positive-Moves,
}
use vapor_chain.Settle.Conservation.Payments.{nonneg_of_positive}

module _ (E : Env) (e : Denom) where
  -- What was paid in all before and after a payment of a share.
  abbrev paid_and : ℤ → ℤ → ℤ
  paid_and x paid = if is_positive x then paid +ℤ x else paid

  abbrev gone_out : Denom → ℤ → ℤ → Delta
  gone_out d before after = banked_only E e (at_denom e d before -ℤ at_denom e d after)

  share_case :
      (b : Bool) (a : Addr) (d : Denom) (x paid : ℤ) (s : State E)
      → is_positive x ≡ b
      → Moves E e (gone_out d paid (if b then paid +ℤ x else paid)) s (send_positive E a d x s)
  unfolding send_positive
  share_case true a d x paid s some_share =
      let sum = at_denom-+ℤ e d paid x in
      Moves-eq E e (banked_only E e (neg (at_denom e d x))) (gone_out d paid (paid +ℤ x)) s
        (send_positive E a d x s) (omega (int_laws, sum)) (omega int_laws) (omega int_laws)
        (send_positive-Moves E e a d x s (nonneg_of_positive x some_share))
  share_case false a d x paid s no_share =
      rw (no_share, send_positive)
        (Shifts-eq E e still (gone_out d paid paid) s s (omega int_laws) (omega int_laws)
          (omega int_laws) (Shifts-refl E e s))

  pay_each-Ensures :
      (d : Denom) (bal total : ℤ) (payees : List (Addr × ℤ)) (paid : ℤ) (s : State E)
      → Ensures
          (λ after t. Shifts E e (gone_out d paid after) s t)
          (pay_each E d bal total payees paid s)
  unfolding pay_each
  pay_each-Ensures d bal total [] paid s =
      Shifts-eq E e still (gone_out d paid paid) s s (omega int_laws) (omega int_laws)
        (omega int_laws) (Shifts-refl E e s)
  pay_each-Ensures d bal total ((a, w) ∷ rest) paid s =
      let x = share_of bal total w in
      let mid = paid_and x paid in
      >>=_Ensures (send_positive E a d x) (λ _. pay_each E d bal total rest mid)
        (λ _ t. Shifts E e (gone_out d paid mid) s t)
        (λ after t. Shifts E e (gone_out d paid after) s t) s
        (share_case (is_positive x) a d x paid s refl)
        (λ _ t h. weaken mid t h _ (pay_each-Ensures d bal total rest mid t))
    where
      weaken :
          (mid : ℤ) (t : State E)
          → Shifts E e (gone_out d paid mid) s t
          → (r : Result ℤ × State E) → Ensures (λ after u. Shifts E e (gone_out d mid after) t u) r
          → Ensures (λ after u. Shifts E e (gone_out d paid after) s u) r
      weaken mid t h (err f, u) k = tt
      weaken mid t h (ok after, u) k =
          Shifts-eq E e (gone_out d paid mid ⊕ gone_out d mid after) (gone_out d paid after) s u
            (omega int_laws) (omega int_laws) (omega int_laws)
            (Shifts-trans E e (gone_out d paid mid) (gone_out d mid after) s t u h k)

  -- One denomination of a payout: its payees are paid, then the pool is debited.
  paid_denom-Keeps :
      (d : Denom) (bal total : ℤ) (payees : List (Addr × ℤ)) (s : State E)
      → Keeps E e s (
          (pay_each E d bal total payees (pos 0) >>= λ paid. add_pool E pool_validator d (neg paid))
            s)
  paid_denom-Keeps d bal total payees s =
      >>=_Ensures (pay_each E d bal total payees (pos 0))
        (λ paid. add_pool E pool_validator d (neg paid))
        (λ paid t. Shifts E e (gone_out d (pos 0) paid) s t) (λ _ t. Conserves E e s t) s
        (pay_each-Ensures d bal total payees (pos 0) s)
        (λ paid t h.
          let out = gone_out d (pos 0) paid in
          let debit = both E e d (neg paid) in
          let x = neg (at_denom e d paid) in
          let r = add_pool E pool_validator d (neg paid) t in
          let sign = at_denom-neg e d paid in
          let nothing = at_denom-zero e d (pos 0) refl in
          Moves-Keeps E e x s r (
            Moves-eq E e (out ⊕ debit) (booked x) s r (omega (int_laws, nothing))
              (omega (int_laws, sign)) (omega (int_laws, sign))
              (Moves-after E e out debit s t r h
                (add_pool-Moves E e pool_validator d (neg paid) t))))

  >>=_reassoc :
      {A : Type 0} (m : M E A) (f : A → M E (Unit {0})) (k : M E (Unit {0})) (s : State E)
      → Keeps E e s ((m >>= f) s)
      → ((t : State E) → Keeps E e t (k t))
      → Keeps E e s ((m >>= λ a. (f a >> k)) s)
  >>=_reassoc {A = A} m f k s h j = go (m s) h
    where
      go :
          (r : Result A × State E)
          → Keeps E e {A = Unit {0}} s (elim r.0 [ ok a ↦ f a r.1 | err g ↦ (err g, r.1) ])
          → Keeps E e {A = Unit {0}} s (elim r.0 [ ok a ↦ (f a >> k) r.1 | err g ↦ (err g, r.1) ])
      go (err g, t) i = tt
      go (ok a, t) i =
          >>=_Ensures (f a) (λ _. k) (λ _ u. Conserves E e s u) (λ _ u. Conserves E e s u) t i
            (λ _ u kept. Keeps-after E e s u (k u) kept (j u))

  pay_balances-Keeps :
      (total : ℤ) (payees : List (Addr × ℤ)) (balances : List (Denom × ℤ)) (s : State E)
      → Keeps E e s (pay_balances E total payees balances s)
  unfolding pay_balances
  pay_balances-Keeps total payees [] s = Shifts-Conserves E e (pos 0) s s (Shifts-refl E e s)
  pay_balances-Keeps total payees ((d, bal) ∷ rest) s =
      >>=_reassoc (pay_each E d bal total payees (pos 0))
        (λ paid. add_pool E pool_validator d (neg paid)) (pay_balances E total payees rest) s
        (paid_denom-Keeps d bal total payees s) (λ t. pay_balances-Keeps total payees rest t)

  pay_pool-Keeps : (payees : List (Addr × ℤ)) (s : State E) → Keeps E e s (pay_pool E payees s)
  unfolding pay_pool
  pay_pool-Keeps payees s = elim (Bool-cases (is_positive (total_weight payees))) [
    | inl some_weight ↦
        rw (some_weight, pay_pool)
          (pay_balances-Keeps (total_weight payees) payees (validator_balances s.pools) s)
    | inr no_weight ↦
        rw (no_weight, pay_pool) (Shifts-Conserves E e (pos 0) s s (Shifts-refl E e s))
  ]

  payout_now-Keeps : (height : ℕ) (s : State E) → Keeps E e s (payout_now E height s)
  unfolding payout_now recount
  payout_now-Keeps height s =
      let t = record s { last_payout = some height; relayer_paid = [] } in
      let pay = λ (vals : List Validator).
        pay_pool E (payees_of (window_of (E.signed_blocks_window s.world)) vals) in
      let noted : Conserves E e s t = record {
        banked = omega int_laws;
        counted = omega int_laws;
        keyed = λ v. v;
        tabbed = λ v. v;
      } in
      lift-Ensures (E.bonded_validators s.world) pay (λ _ u. Conserves E e s u) t
        (λ vals _. Keeps-after E e s t (pay vals t) noted (pay_pool-Keeps _ t))

  -- A payout that succeeds moves the module's balance, the running total and the recount of every
  -- denomination by the same amount.
  pub payout_validators-Keeps :
      (height : ℕ) (s : State E) → Keeps E e s (payout_validators E height s)
  unfolding payout_validators
  payout_validators-Keeps height s =
      elim (Bool-cases (
        ltb_ℤ (sub_ℕ height (last_payout_of E s))
          (get_params E s).validator_payout_interval_blocks)) [
            | inl early ↦
                rw (early, payout_validators) (Shifts-Conserves E e (pos 0) s s (Shifts-refl E e s))
            | inr due ↦ rw (due, payout_validators) (payout_now-Keeps height s)
          ]
