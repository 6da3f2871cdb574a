-- ===== src/Settle/Conservation/Solvency.antt =====
-- The solvency of chain/x/settle: what the checks of keeper/invariants.go look for, as an invariant of
-- every step of the module.
use vapor_chain.Prelude.{
  ◌≡◌, ◌≤ℤ◌, int_laws, nat_eq, pair_eq, Result, ok, err, Ensures, atomically, atomically-Ensures,
}
use vapor_chain.Store.Keys.{IsMap}
use vapor_chain.Store.Every.{Every}
use vapor_chain.Settle.Types.{Denom}
use vapor_chain.Settle.Env.{Env, State, M}
use vapor_chain.Settle.Blocks.{recount}
use vapor_chain.Settle.Conservation.{IsTab, bank_of, ledger_of, Conserves, Keeps}

module _ (E : Env) where
  -- The module owns what it owes, of every denomination, and its running total is the recount of
  -- its ledgers.
  pub record IsSound (s : State E) : Type 0 where
    pub solvent : (e : Denom) → ledger_of E e s ≤ℤ bank_of E e s
    pub agrees : (e : Denom) → recount E e s ≡ ledger_of E e s
    pub keyed : IsMap s.ledger_total
    pub tabbed : Every IsTab s.tabs

  pub Conserves-IsSound :
      (s t : State E) → ((e : Denom) → Conserves E e s t) → IsSound s → IsSound t
  Conserves-IsSound s t h v = record {
    solvent = λ e. omega (int_laws, (h e).banked, v.solvent e);
    agrees = λ e. omega (int_laws, (h e).counted, v.agrees e);
    keyed = (h 0).keyed v.keyed;
    tabbed = (h 0).tabbed v.tabbed;
  }

  pub Keeps-IsSound :
      {A : Type 0} (s : State E) (r : Result A × State E)
      → ((e : Denom) → Keeps E e s r)
      → IsSound s
      → Ensures (λ _ t. IsSound t) r
  Keeps-IsSound s (ok a, t) h v = Conserves-IsSound s t h v
  Keeps-IsSound s (err f, t) h v = tt

  pub atomically-IsSound :
      {A : Type 0} (m : M E A) (s : State E)
      → ((e : Denom) → Keeps E e s (m s))
      → IsSound s
      → IsSound (atomically m s).1
  atomically-IsSound m s h v = atomically-Ensures m IsSound s v (Keeps-IsSound s (m s) h v)

  -- Money that comes to the module by another way than its operations leaves it sound.
  pub richer-IsSound :
      (w : E.bank.World) (s : State E)
      → ((e : Denom) → bank_of E e s ≤ℤ bank_of E e (record s { world = w }))
      → IsSound s
      → IsSound (record s { world = w })
  unfolding recount
  richer-IsSound w s h v = record {
    solvent = λ e. omega (int_laws, h e, v.solvent e);
    agrees = v.agrees;
    keyed = v.keyed;
    tabbed = v.tabbed;
  }
