-- ===== src/Settle/Conservation/Burns.antt =====
-- The burn of the gas fees (chain/x/settle/keeper/treasury.go) leaves the settlement sound.
use vapor_chain.Prelude.{
  ◌≡◌, refl, inl, inr, false, not, [], ◌∷◌, some, ◌==◌, Bool-cases, Option-cases, ℤ, pos, ◌+ℤ◌,
  ◌-ℤ◌, ◌≤ℤ◌, is_positive, int_laws, nat_eq, pair_eq, ok, ◌>>◌, ◌||◌, after_ok, after_err,
  Result-cases,
}
use vapor_chain.Settle.Types.{Addr, Denom, Coins, amount_of}
use vapor_chain.Settle.Env.{Env, State, call, get_params}
use vapor_chain.Settle.Treasury.{burn_gas_fees, burn_from, burn_share}
use vapor_chain.Settle.Conservation.Payments.{nonneg_of_positive}
use vapor_chain.Settle.Conservation.Steps.{at_addr_self, at_addr_ne}
use vapor_chain.Settle.Conservation.Solvency.{IsSound, richer-IsSound}

amount_nonneg : (e d : Denom) (x : ℤ) → pos 0 ≤ℤ x → pos 0 ≤ℤ amount_of ((d, x) ∷ []) e
amount_nonneg e d x h = elim (Bool-cases (e == d)) [
  | inl here ↦ rw here (omega int_laws)
  | inr there ↦ rw there (omega int_laws)
]

module _ (E : Env) where
  -- Coins that come from another account.
  received :
      (from : Addr) (cs : Coins) (w t : E.bank.World) (e : Denom)
      → E.bank.module_to_module from E.settle_account cs w ≡ ok t
      → (from == E.settle_account) ≡ false
      → E.bank.balance t E.settle_account e ≡ E.bank.balance w E.settle_account e +ℤ amount_of cs e
  received from cs w t e done other =
      rw
        (
          E.bank.module_to_module_lem from E.settle_account cs w t done E.settle_account e,
          at_addr_ne E.settle_account from (amount_of cs e) other,
          at_addr_self E.settle_account (amount_of cs e),
        )
        (omega int_laws)

  burnt_off :
      (cs : Coins) (w t : E.bank.World) (e : Denom)
      → E.bank.burn_coins E.settle_account cs w ≡ ok t
      → E.bank.balance t E.settle_account e ≡ E.bank.balance w E.settle_account e -ℤ amount_of cs e
  burnt_off cs w t e done =
      rw
        (
          E.bank.burn_coins_lem E.settle_account cs w t done E.settle_account e,
          at_addr_self E.settle_account (amount_of cs e),
        )
        refl

  -- The burn of the gas fees: a failure on its way leaves at most more in the module.
  burn-IsSound :
      (collector : Addr) (burn : ℤ) (s : State E)
      → (collector == E.settle_account) ≡ false
      → pos 0 ≤ℤ burn
      → IsSound E s
      → IsSound E
          ((call E
                (E.bank.module_to_module collector E.settle_account ((E.credit_denom, burn) ∷ []))
              >> call E (E.bank.burn_coins E.settle_account ((E.credit_denom, burn) ∷ [])))
            s).1
  unfolding call
  burn-IsSound collector burn s other nonneg v =
      let coins : Coins = (E.credit_denom, burn) ∷ [] in
      let move = call E (E.bank.module_to_module collector E.settle_account coins) in
      let burn_it = call E (E.bank.burn_coins E.settle_account coins) in
      elim (Result-cases (E.bank.module_to_module collector E.settle_account coins s.world)) [
        | inr (f, failed) ↦
            after_err move (λ _. burn_it) (IsSound E) s f s (rw (failed, call) refl) v
        | inl (w, moved) ↦
            let came = received collector coins s.world w in
            after_ok move (λ _. burn_it) (IsSound E) s tt (record s { world = w })
              (rw (moved, call) refl)
              (elim (Result-cases (E.bank.burn_coins E.settle_account coins w)) [
                | inr (f, failed) ↦
                    rw (failed, call)
                      (richer-IsSound E w s
                        (λ e. omega (
                          int_laws,
                          came e moved other,
                          amount_nonneg e E.credit_denom burn nonneg,
                        ))
                        v)
                | inl (u, burnt) ↦
                    rw (burnt, call)
                      (richer-IsSound E u s
                        (λ e. omega (int_laws, came e moved other, burnt_off coins w u e burnt)) v)
              ])
      ]

  pub burn_gas_fees-IsSound :
      (s : State E)
      → ((collector : Addr)
          → E.fee_collector ≡ some collector
          → (collector == E.settle_account) ≡ false)
      → IsSound E s
      → IsSound E (burn_gas_fees E s)
  unfolding burn_gas_fees burn_from
  burn_gas_fees-IsSound s other v = elim (Option-cases E.fee_collector) [
    | inl no_collector ↦ rw (no_collector, burn_gas_fees) v
    | inr (collector, found) ↦
        let bps = (get_params E s).gas_burn_bps in
        let bal = E.bank.balance s.world collector E.credit_denom in
        let burn = burn_share E bps bal in
        elim (Bool-cases (bps == 0 || not (is_positive bal))) [
          | inl nothing ↦ rw (found, nothing, burn_gas_fees) v
          | inr something ↦
              rw (found, something, burn_gas_fees)
                (elim (Bool-cases (is_positive burn)) [
                  | inl some_burn ↦
                      rw (some_burn, burn_from)
                        (burn-IsSound collector burn s (other collector found)
                          (nonneg_of_positive burn some_burn) v)
                  | inr no_burn ↦ rw (no_burn, burn_from) v
                ])
        ]
  ]
