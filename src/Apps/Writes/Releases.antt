-- ===== src/Apps/Writes/Releases.antt =====
-- The releases of unbondings (`releaseUnbondings` of chain/x/apps/keeper/keeper.go) as sequences of
-- writes.
use vapor_chain.Prelude.{
  ℕ, ◌≡◌, ◌≢◌, refl, sym, ap, ◌∙◌, subst, inl, inr, Bool, true, false, none, some, [], ◌∷◌, ◌==◌,
  arith, Bool-cases, ==_iff, nat_eq, pair_eq, int_eq, ℤ, pos, leb_ℤ, int_laws, Result, ok, err,
  Error, Ensures, guard_Ensures, ◌>>◌, modify, require, >>=_Ensures, when,
}
use vapor_chain.Store.{Map, get, remove, get-remove_ne}
use vapor_chain.Store.Keys.{IsMap, IsMap-Every}
use vapor_chain.Store.Every.{Every, get-Every}
use vapor_chain.Store.Order.{walk, walk-IsMap, select-IsMap, get-select}
use vapor_chain.Settle.Types.{Addr, Denom, amount_of}
use vapor_chain.Apps.Env.{Env, State, M, call, get_params}
use vapor_chain.Apps.Bonds.{
  UnbondingKey, unbonding_before, pay_out, is_coin, release_one, release_each, matured,
  release_unbondings,
}
use vapor_chain.Apps.Writes.{
  Write, Writes, IsWritten, IsWritten-after, one, bond_denom_of, call-Ensures,
}
use vapor_chain.Apps.Writes.Registrations.{at_addr_self, at_addr_ne}
use vapor_chain.Apps.Writes.Bonds.{IsQueue, amount_of-one}

module _ (E : Env) where
  -- An unbonding is still there, or was paid out.
  abbrev Released : UnbondingKey → State E → State E → Type 0
  Released key s t =
      Writes E s t
      × ((bond_denom_of E t ≡ bond_denom_of E s)
          × ((j : UnbondingKey) → j ≢ key → get j t.unbondings ≡ get j s.unbondings))

  not_self : (owner : Addr) → E.bank.blocked owner ≡ false → (owner == E.apps_account) ≡ false
  not_self owner free = elim (Bool-cases (owner == E.apps_account)) [
    | inr other ↦ other
    | inl same ↦
        let it = ap E.bank.blocked ((==_iff owner E.apps_account).0 same) in
        absurd (clash (sym free ∙ (it ∙ E.apps_account_blocked)))
  ]
    where
      clash : false ≡ true → ⊥
      clash h = ground arith

  release-Write :
      (w : E.bank.World) (key : UnbondingKey) (x : ℤ) (s : State E)
      → get key s.unbondings ≡ some x
      → E.bank.module_to_account E.apps_account key.1.1 ((bond_denom_of E s, x) ∷ []) s.world ≡ ok w
      → Write E s (record s { world = w; unbondings = remove key s.unbondings })
  release-Write w key x s found paid = Write.releases w key x s found (λ d.
      let y = amount_of ((bond_denom_of E s, x) ∷ []) d in
      omega (
        int_laws,
        E.bank.module_to_account_lem E.apps_account key.1.1 ((bond_denom_of E s, x) ∷ []) s.world w
            paid E.apps_account d,
        at_addr_self E.apps_account y,
        at_addr_ne E.apps_account key.1.1 y (
            not_self key.1.1 (
              E.bank.module_to_account_unblocked E.apps_account key.1.1
                ((bond_denom_of E s, x) ∷ []) s.world w paid)),
        amount_of-one E (bond_denom_of E s) d x,
      ))

  -- What the bank's payout leaves where it succeeds.
  abbrev PaidOut : UnbondingKey → ℤ → State E → Unit {0} → State E → Type 0
  PaidOut key x s _ t =
      (w : E.bank.World) × ((E.bank.module_to_account E.apps_account key.1.1
            ((bond_denom_of E s, x) ∷ []) s.world
          ≡ ok w)
        × (t ≡ record s { world = w }))

  pay_out-Released :
      (key : UnbondingKey) (x : ℤ) (s : State E)
      → get key s.unbondings ≡ some x
      → Released key s (pay_out E (bond_denom_of E s) key x s)
  unfolding pay_out get_params
  pay_out-Released key x s found =
      let pay = E.bank.module_to_account E.apps_account key.1.1 ((bond_denom_of E s, x) ∷ []) in
      finish (call E pay s) (call-Ensures E pay (PaidOut key x s) s (λ w paid. (w, (paid, refl))))
    where
      finish :
          (r : Result (Unit {0}) × State E)
          → Ensures (PaidOut key x s) r
          → Released key s (elim r.0 [
            | ok _ ↦ record r.1 { unbondings = remove key r.1.unbondings }
            | err e ↦ s
          ])
      finish (err e, t) h = (Writes.no_more, (refl, λ j h. refl))
      finish (ok u, t) (w, (paid, is)) =
          subst
            (λ (v : State E). Released key s (record v { unbondings = remove key v.unbondings }))
            (sym is)
            (
              one E (release-Write w key x s found paid),
              (refl, λ j other. get-remove_ne key j s.unbondings other),
            )

  release_one-Released :
      (denom : Denom) (key : UnbondingKey) (x : ℤ) (s : State E)
      → denom ≡ bond_denom_of E s
      → get key s.unbondings ≡ some x
      → Ensures (λ _ t. Released key s t) (release_one E denom key x s)
  unfolding release_one
  release_one-Released denom key x s same found =
      let pay = modify (pay_out E denom key x) in
      let next = require (is_coin E denom x) Error.panicked >> pay in
      parsed (E.texts.is_bech32 key.1.1) next (
        guard_Ensures (is_coin E denom x) Error.panicked pay (λ _ t. Released key s t) s
          (λ _.
            subst (λ d. Released key s (pay_out E d key x s)) (sym same)
              (pay_out-Released key x s found)))
    where
      parsed :
          (b : Bool) (m : M E (Unit {0}))
          → Ensures (λ _ t. Released key s t) (m s)
          → Ensures (λ _ t. Released key s t) (when b m s)
      parsed true m h = h
      parsed false m h = (Writes.no_more, (refl, λ j other. refl))

  release_each-IsWritten :
      (denom : Denom) (ready : Map UnbondingKey ℤ) (s : State E)
      → denom ≡ bond_denom_of E s
      → IsMap ready
      → Every (λ key x. get key s.unbondings ≡ some x) ready
      → IsWritten E s (release_each E denom ready s)
  unfolding release_each
  release_each-IsWritten denom [] s same distinct found = Writes.no_more
  release_each-IsWritten denom ((key, x) ∷ ready) s same distinct found =
      >>=_Ensures (release_one E denom key x) (λ _. release_each E denom ready)
        (λ _ t. Released key s t) (λ _ t. Writes E s t) s
        (release_one-Released denom key x s same found.0)
        (λ _ t (ws, (kept, others)).
          IsWritten-after E {A = Unit {0}} ws (release_each E denom ready t) (
            release_each-IsWritten denom ready t (same ∙ sym kept) distinct.1 (
              IsMap-Every (λ k y. get k t.unbondings ≡ some y) ready distinct.1
                (λ k y here.
                  others k (elsewhere k y here)
                  ∙ get-Every (λ j v. get j s.unbondings ≡ some v) k y ready found.1 here))))
    where
      elsewhere : (k : UnbondingKey) (y : ℤ) → get k ready ≡ some y → k ≢ key
      elsewhere k y here is =
          let lost : get k ready ≡ none = ap (λ j. get j ready) is ∙ distinct.0 in
          let both : none ≡ some y = sym lost ∙ here in ground arith

  pub release_unbondings-IsWritten :
      (height : ℕ) (s : State E) → IsQueue E s → IsWritten E s (release_unbondings E height s)
  unfolding release_unbondings matured
  release_unbondings-IsWritten height s queue =
      let order = unbonding_before E.text_before in
      let due = λ (key : UnbondingKey). leb_ℤ key.0 (pos height) in
      let (sorted, same) = walk-IsMap order s.unbondings queue in
      release_each-IsWritten (bond_denom_of E s) (matured E height s) s refl
        (select-IsMap due (walk order s.unbondings) sorted)
        (IsMap-Every (λ key x. get key s.unbondings ≡ some x) (matured E height s)
          (select-IsMap due (walk order s.unbondings) sorted)
          (λ key x here.
            sym (same key) ∙ (get-select due key x (walk order s.unbondings) sorted here).0))
