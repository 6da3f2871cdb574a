-- ===== src/Settle/Checks.antt =====
-- What the checks of chain/x/settle/keeper/invariants.go find.
use vapor_chain.Prelude.{
  ◌≡◌, ◌↔◌, refl, ap, ◌∙◌, inl, inr, true, false, none, some, [], ◌∷◌, arith, nat_eq, ◌==◌,
  Bool-cases, ℤ, ◌≤ℤ◌, ltb_ℤ, int_laws, ==_iff, ==_refl,
}
use vapor_chain.Store.{Map, get, total, weight_of}
use vapor_chain.Store.Keys.{IsMap, IsMap-Every}
use vapor_chain.Store.Every.{Every}
use vapor_chain.Settle.Types.{Denom}
use vapor_chain.Settle.Env.{Env, State}
use vapor_chain.Settle.Blocks.{at_denom, insolvencies, credit_breach, check_invariants}
use vapor_chain.Settle.Conservation.Solvency.{IsSound}

covered_of : (b o : ℤ) → ltb_ℤ b o ≡ false → o ≤ℤ b
covered_of b o h = ground arith

short_of : (b o : ℤ) → ltb_ℤ b o ≡ true → ¬ (o ≤ℤ b)
short_of b o h = ground arith

at_denom_self : (e : Denom) (x : ℤ) → at_denom e e x ≡ x
unfolding at_denom
at_denom_self e x = rw (==_refl e) refl

-- In a map the total of a denomination is its entry.
total-at_denom :
    (e : Denom) (m : Map Denom ℤ)
    → IsMap m
    → total (at_denom e) m ≡ weight_of (at_denom e) e (get e m)
unfolding get at_denom
total-at_denom e [] v = refl
total-at_denom e ((d, x) ∷ m) v = elim (Bool-cases (e == d)) [
  | inl here ↦
      let same = (==_iff e d).0 here in
      let gone : get e m ≡ none = rw same v.0 in
      let rest : total (at_denom e) m ≡ weight_of (at_denom e) e none =
        total-at_denom e m v.1 ∙ ap (weight_of (at_denom e) e) gone in
      rw here (omega (int_laws, rest, at_denom_self e x))
  | inr there ↦ rw (there) (omega (int_laws, total-at_denom e m v.1))
]

module _ (E : Env) where
  -- The running total of an entry is at most the balance.
  abbrev pub IsCovered : E.bank.World → Denom → ℤ → Type 0
  IsCovered w d owed = owed ≤ℤ E.bank.balance w E.settle_account d

  -- The solvency check reports nothing exactly when every running total is covered by the module's
  -- balance.
  pub insolvencies-nil :
      (w : E.bank.World) (m : Map Denom ℤ) → (insolvencies E w m ≡ []) ↔ Every (IsCovered w) m
  unfolding insolvencies
  insolvencies-nil w [] = (λ _. tt, λ _. refl)
  insolvencies-nil w ((d, owed) ∷ m) =
      let rest = insolvencies-nil w m in
      elim (Bool-cases (ltb_ℤ (E.bank.balance w E.settle_account d) owed)) [
        | inl short ↦ rw short (
          (λ p. cc),
          (λ h. absurd (short_of (E.bank.balance w E.settle_account d) owed short h.0)),
        )
        | inr enough ↦ rw enough (
          (λ p. (covered_of (E.bank.balance w E.settle_account d) owed enough, rest.0 p)),
          (λ h. rest.1 h.1),
        )
      ]

  -- In a sound state the checks find no insolvency: only the supply of credits may break them.
  pub check_invariants-IsSound :
      (s : State E) → IsSound E s → check_invariants E s ≡ credit_breach E s
  unfolding check_invariants
  check_invariants-IsSound s v =
      rw
        ((insolvencies-nil s.world s.ledger_total).1
          (IsMap-Every (IsCovered s.world) s.ledger_total v.keyed covered))
        refl
    where
      covered : (d : Denom) (owed : ℤ) → get d s.ledger_total ≡ some owed → IsCovered s.world d owed
      covered d owed found =
          let one : total (at_denom d) s.ledger_total ≡ weight_of (at_denom d) d (some owed) =
            total-at_denom d s.ledger_total v.keyed ∙ ap (weight_of (at_denom d) d) found in
          omega (int_laws, v.solvent d, one, at_denom_self d owed)
