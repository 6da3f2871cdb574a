-- ===== src/Apps/Releases.antt =====
-- The releases of unbondings (`releaseUnbondings` of chain/x/apps/keeper/keeper.go) succeed where every
-- unbonding is a coin.
use vapor_chain.Prelude.{
  int_eq, Ensures, leb_ℤ, ℕ, ◌≡◌, refl, ◌∙◌, inl, inr, true, [], ◌∷◌, Bool-cases, nat_eq, pair_eq,
  ℤ, pos, Result, ok, err, Succeeds, >>=_Succeeds,
}
use vapor_chain.Store.{Map, remove}
use vapor_chain.Settle.Types.{Denom}
use vapor_chain.Apps.Writes.{call-Ensures}
use vapor_chain.Store.Every.{Every, map-Every}
use vapor_chain.Store.Order.{walk, walk-Every, select-Every}
use vapor_chain.Apps.Env.{Env, State, call, get_params}
use vapor_chain.Apps.Bonds.{
  release_unbondings, release_one, release_each, pay_out, matured, UnbondingKey, is_coin,
  unbonding_before,
}
use vapor_chain.Apps.Liveness.{IsPayable}

module _ (E : Env) where
  -- What a payout leaves: the parameters, the statistics and the bonds.
  abbrev pub IsSpared : State E → State E → Type 0
  IsSpared s t = (t.params ≡ s.params) × ((t.epoch_stats ≡ s.epoch_stats) × (t.bonds ≡ s.bonds))

  pay_out-IsSpared :
      (denom : Denom) (key : UnbondingKey) (x : ℤ) (s : State E)
      → IsSpared s (pay_out E denom key x s)
  unfolding pay_out
  pay_out-IsSpared denom key x s =
      let pay = E.bank.module_to_account E.apps_account key.1.1 ((denom, x) ∷ []) in
      finish (call E pay s)
        (call-Ensures E pay (λ _ t. IsSpared s t) s (λ w _. (refl, (refl, refl))))
    where
      finish :
          (r : Result (Unit {0}) × State E)
          → Ensures (λ _ t. IsSpared s t) r
          → IsSpared s (elim r.0 [
            | ok _ ↦ record r.1 { unbondings = remove key r.1.unbondings }
            | err e ↦ s
          ])
      finish (ok u, t) h = h
      finish (err e, t) h = (refl, (refl, refl))

  release_one-Succeeds :
      (denom : Denom) (key : UnbondingKey) (x : ℤ) (s : State E)
      → is_coin E denom x ≡ true
      → Succeeds (λ _ t. IsSpared s t) (release_one E denom key x s)
  unfolding release_one
  release_one-Succeeds denom key x s coin = elim (Bool-cases (E.texts.is_bech32 key.1.1)) [
    | inl parses ↦ rw parses (rw coin (pay_out-IsSpared denom key x s))
    | inr not_an_address ↦ rw not_an_address (refl, (refl, refl))
  ]

  release_each-Succeeds :
      (denom : Denom) (ready : Map UnbondingKey ℤ) (s : State E)
      → Every (λ _ x. is_coin E denom x ≡ true) ready
      → Succeeds (λ _ t. IsSpared s t) (release_each E denom ready s)
  unfolding release_each
  release_each-Succeeds denom [] s coins = (refl, (refl, refl))
  release_each-Succeeds denom ((key, x) ∷ ready) s coins =
      >>=_Succeeds (release_one E denom key x) (λ _. release_each E denom ready)
        (λ _ t. IsSpared s t) (λ _ t. IsSpared s t) s (release_one-Succeeds denom key x s coins.0)
        (λ _ t first.
          after t first (release_each E denom ready t)
            (release_each-Succeeds denom ready t coins.1))
    where
      after :
          (t : State E)
          → IsSpared s t
          → (r : Result (Unit {0}) × State E) → Succeeds (λ _ u. IsSpared t u) r
          → Succeeds (λ _ u. IsSpared s u) r
      after t h (ok a, u) k = (k.0 ∙ h.0, (k.1.0 ∙ h.1.0, k.1.1 ∙ h.1.1))
      after t h (err e, u) k = k

  pub release_unbondings-Succeeds :
      (height : ℕ) (s : State E)
      → IsPayable E s
      → Succeeds (λ _ t. IsSpared s t) (release_unbondings E height s)
  unfolding release_unbondings matured
  release_unbondings-Succeeds height s payable =
      let denom = (get_params E s).bond_denom in
      let order = unbonding_before E.text_before in
      let due = λ (key : UnbondingKey). leb_ℤ key.0 (pos height) in
      let coin = λ (_ : UnbondingKey) (x : ℤ). is_coin E denom x ≡ true in
      release_each-Succeeds denom (matured E height s) s (
        map-Every (λ key x. coin key x × (due key ≡ true)) coin (matured E height s) (λ _ x h. h.0)
          (select-Every coin due (walk order s.unbondings)
            (walk-Every coin order s.unbondings payable)))
