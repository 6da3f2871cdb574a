-- ===== src/Apps/Writes/Bonds.antt =====
-- `BondApp` and `UnbondApp` of Apps/Bonds.antt as sequences of writes, and what all writes keep of the
-- unbondings.
use vapor_chain.Prelude.{
  ℕ, ◌≡◌, Bool, true, false, not, Option, none, some, [], ◌∷◌, ◌==◌, arith, nat_eq, pair_eq, int_eq,
  ℤ, pos, ◌+ℤ◌, ltb_ℤ, is_positive, int_laws, ok, Error, ◌>>=◌, ◌>>◌, pure, gets, modify, require,
  lift, read,
}
use vapor_chain.Store.{set}
use vapor_chain.Store.Keys.{IsMap, set-IsMap, remove-IsMap}
use vapor_chain.Settle.Types.{Addr, Denom, empty, amount_of}
use vapor_chain.Apps.Types.{App}
use vapor_chain.Apps.Env.{Env, State, call, get_params, wrap_int64}
use vapor_chain.Apps.Registry.{get_app, owned_app, is_active}
use vapor_chain.Apps.Quota.{bond_of}
use vapor_chain.Apps.Bonds.{valid_bond, bond_app, unbonded, unbond_app}
use vapor_chain.Apps.Writes.{Write, Writes, IsWritten, one, held, of_denom, call_then-Ensures}
use vapor_chain.Apps.Writes.Registry.{read-IsWritten, guard-IsWritten}
use vapor_chain.Apps.Writes.Registrations.{at_addr_self, at_addr_ne}

module _ (E : Env) where
  valid_bond-positive :
      (denom : Denom) (coin : Denom × Option ℤ) (x : ℤ)
      → valid_bond denom coin ≡ ok x
      → is_positive x ≡ true
  unfolding valid_bond
  valid_bond-positive denom (d, none) x h = absurd (ground arith)
  valid_bond-positive denom (d, some y) x h = ground arith

  pub amount_of-one :
      (denom d : Denom) (x : ℤ) → amount_of ((denom, x) ∷ []) d ≡ of_denom E denom d x
  amount_of-one denom d x = omega int_laws

  -- A bond that is paid by an account that is not the module's.
  pub bond_app-IsWritten :
      (owner : Addr) (id : ℕ) (coin : Denom × Option ℤ) (s : State E)
      → (owner == E.apps_account) ≡ false
      → IsWritten E s (bond_app E owner id coin s)
  unfolding bond_app get_params bond_of
  bond_app-IsWritten owner id coin s other =
      let denom = (get_params E s).bond_denom in
      let Q = λ (_ : Unit {0}) (t : State E). Writes E s t in
      let pay = λ (x : ℤ). E.bank.account_to_module owner E.apps_account ((denom, x) ∷ []) in
      let write = λ (x : ℤ).
        modify (λ (t : State E). record t { bonds = set id (bond_of E t id +ℤ x) t.bonds }) in
      let paying = λ (x : ℤ). call E (pay x) >> write x in
      let parsed =
        λ (x : ℤ). require (E.texts.is_bech32 owner) Error.app_unauthorized >> paying x in
      let active =
        λ (x : ℤ) (app : App). require (is_active app.status) Error.app_inactive >> parsed x in
      let owned = λ (x : ℤ). read (λ (t : State E). owned_app E t owner id) >>= active x in
      let priced = lift (valid_bond denom coin) >>= owned in
      guard-IsWritten E s (not (denom == empty)) Error.bonding_disabled priced (λ _.
        read-IsWritten E s (valid_bond denom coin) owned (λ x valid.
          read-IsWritten E s (owned_app E s owner id) (active x) (λ app _.
            guard-IsWritten E s (is_active app.status) Error.app_inactive (parsed x) (λ _.
              guard-IsWritten E s (E.texts.is_bech32 owner) Error.app_unauthorized (paying x) (λ _.
                call_then-Ensures E (pay x) (write x) Q s (λ w paid. one E (
                  Write.bonds w id x s (valid_bond-positive denom coin x valid) (λ d.
                    let y = amount_of ((denom, x) ∷ []) d in
                    omega (
                      int_laws,
                      E.bank.account_to_module_lem owner E.apps_account ((denom, x) ∷ []) s.world w
                          paid E.apps_account d,
                      at_addr_self E.apps_account y,
                      at_addr_ne E.apps_account owner y other,
                      amount_of-one denom d x,
                    )))))))))

  pub unbond_app-IsWritten :
      (height : ℕ) (owner : Addr) (id : ℕ) (coin : Denom × Option ℤ) (s : State E)
      → IsWritten E s (unbond_app E height owner id coin s)
  unfolding unbond_app
  unbond_app-IsWritten height owner id coin s =
      let p = get_params E s in
      let release = wrap_int64 (pos height +ℤ p.unbonding_blocks) in
      let write =
        λ (x : ℤ). modify (unbonded E id x (release, (id, owner))) >> pure {S = State E} release in
      let covered = λ (x : ℤ). gets (λ (t : State E). bond_of E t id) >>= λ bonded.
      require (not (ltb_ℤ bonded x)) Error.insufficient_bond >> write x in
      let mine =
        λ (x : ℤ) (app : App). require (app.owner == owner) Error.app_unauthorized >> covered x in
      let known = λ (x : ℤ). read (λ (t : State E). get_app E t id) >>= mine x in
      let priced = lift (valid_bond p.bond_denom coin) >>= known in
      guard-IsWritten E s (not (p.bond_denom == empty)) Error.bonding_disabled priced (λ _.
        read-IsWritten E s (valid_bond p.bond_denom coin) known (λ x valid.
          read-IsWritten E s (get_app E s id) (mine x) (λ app _.
            guard-IsWritten E s (app.owner == owner) Error.app_unauthorized (covered x) (λ _.
              guard-IsWritten E s (not (ltb_ℤ (bond_of E s id) x)) Error.insufficient_bond (write x)
                (λ enough. one E (
                  Write.unbonds id x (release, (id, owner)) s
                    (valid_bond-positive p.bond_denom coin x valid)
                    (not_true (ltb_ℤ (bond_of E s id) x) enough)))))))
    where
      not_true : (b : Bool) → not b ≡ true → b ≡ false
      not_true b h = ground arith

  -- No unbonding is kept twice.
  abbrev pub IsQueue : State E → Type 0
  IsQueue s = IsMap s.unbondings

  pub Write-IsQueue : {s t : State E} → Write E s t → IsQueue s → IsQueue t
  Write-IsQueue (Write.binds c b app s free found room) h = h
  Write-IsQueue (Write.unbinds c b app s held found) h = h
  Write-IsQueue (Write.enriches w s more) h = h
  Write-IsQueue (Write.registers id app s new zero_count) h = h
  Write-IsQueue (Write.edits id old new s found same_count kept) h = h
  Write-IsQueue (Write.moves p u s) h = h
  Write-IsQueue (Write.claims m s) h = h
  Write-IsQueue (Write.measures stats quotas n start s) h = h
  Write-IsQueue (Write.bonds w id x s positive more) h = h
  Write-IsQueue (Write.unbonds id x key s positive enough) h = set-IsMap key _ s.unbondings h
  Write-IsQueue (Write.releases w key x s found more) h = remove-IsMap key s.unbondings h
  Write-IsQueue (Write.governs p s valid kept) h = h

  pub Writes-IsQueue : {s t : State E} → Writes E s t → IsQueue s → IsQueue t
  Writes-IsQueue Writes.no_more h = h
  Writes-IsQueue (Writes.and_then ws w) h = Write-IsQueue w (Writes-IsQueue ws h)
