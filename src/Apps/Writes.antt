-- ===== src/Apps/Writes.antt =====
-- The elementary writes that the operations of chain/x/apps consist of. Each operation is shown to be
-- a sequence of them, so an invariant is checked against the writes and not against the operations.
pub mod Registry
pub mod Registrations
pub mod Bindings
pub mod Moves
pub mod Bonds
pub mod Releases
pub mod Epochs
use vapor_chain.Prelude.{
  ℕ, ◌+◌, ◌-◌, ◌^◌, ◌≤◌, ◌<◌, ◌≡◌, refl, sym, subst, Bool, true, false, Option, none, some, ◌==◌,
  ltb, if◌then◌else◌, nat_eq, pair_eq, int_eq, ℤ, pos, ◌+ℤ◌, ltb_ℤ, ◌≤ℤ◌, is_positive, Result, ok,
  err, Error, Action, Ensures, >>=_Ensures, ◌>>=◌, ◌>>◌,
}
use vapor_chain.Store.{Map, get, set, remove}
use vapor_chain.Settle.Types.{Addr, Denom}
use vapor_chain.Apps.Types.{
  App, ContractBinding, PendingMove, PendingClaim, EpochStats, Quota, Params,
}
use vapor_chain.Apps.Params.{valid_params}
use vapor_chain.Apps.Env.{Env, State, M, call, get_params}
use vapor_chain.Apps.Registry.{is_revoked, put_app}
use vapor_chain.Apps.Bindings.{counted_up, counted_down}
use vapor_chain.Apps.Quota.{bond_of}
use vapor_chain.Apps.Bonds.{UnbondingKey, unbonded}
use vapor_chain.Apps.Msgs.{keeps_denom}

module _ (E : Env) where
  -- What the module's account holds.
  abbrev pub held : State E → Denom → ℤ
  held s d = E.bank.balance s.world E.apps_account d

  abbrev pub bond_denom_of : State E → Denom
  bond_denom_of s = (get_params E s).bond_denom

  -- An amount of one denomination.
  abbrev pub of_denom : Denom → Denom → ℤ → ℤ
  of_denom bond d x = if d == bond then x else pos 0

  abbrev pub registered_at : ℕ → App → State E → State E
  registered_at id app s = record s { next_app_id = id + 1; apps = set id app s.apps }

  abbrev pub bound_at : ℕ → ContractBinding → App → State E → State E
  bound_at c b app s = record s {
    bindings = set c b s.bindings;
    app_contracts = set (b.app_id, c) tt s.app_contracts;
    apps = set b.app_id (counted_up E app) s.apps;
  }

  abbrev pub unbound_at : ℕ → ContractBinding → App → State E → State E
  unbound_at c b app s = record s {
    bindings = remove c s.bindings;
    app_contracts = remove (b.app_id, c) s.app_contracts;
    apps = set b.app_id (counted_down E app) s.apps;
  }

  pub data Write : State E → State E → Type 0 where
    enriches :
        (w : E.bank.World) (s : State E)
        → ((d : Denom) → held s d ≤ℤ held (record s { world = w }) d)
        → Write s (record s { world = w })
    registers :
        (id : ℕ) (app : App) (s : State E)
        → s.next_app_id ≤ id
        → app.contract_count ≡ 0
        → Write s (registered_at id app s)
    edits :
        (id : ℕ) (old new : App) (s : State E)
        → get id s.apps ≡ some old
        → new.contract_count ≡ old.contract_count
        → (is_revoked old.status ≡ true → is_revoked new.status ≡ true)
        → Write s (put_app E id new s)
    binds :
        (c : ℕ) (b : ContractBinding) (app : App) (s : State E)
        → get c s.bindings ≡ none
        → get b.app_id s.apps ≡ some app
        → ltb app.contract_count (get_params E s).max_contracts_per_app ≡ true
        → Write s (bound_at c b app s)
    unbinds :
        (c : ℕ) (b : ContractBinding) (app : App) (s : State E)
        → get c s.bindings ≡ some b
        → get b.app_id s.apps ≡ some app
        → Write s (unbound_at c b app s)
    moves :
        (pending : Map ℕ PendingMove) (by_unlock : Map (ℤ × ℕ) (Unit {0})) (s : State E)
        → Write s (record s { pending_moves = pending; moves_by_unlock = by_unlock })
    claims :
        (m : Map (ℕ × ℕ) PendingClaim) (s : State E) → Write s (record s { pending_claims = m })
    measures :
        (stats : Map (ℕ × ℕ) EpochStats) (quotas : Map ℕ Quota) (n : Option ℕ) (h : Option ℤ)
        (s : State E)
        → Write s
            (record s { epoch_stats = stats; quotas = quotas; epoch_number = n; epoch_start = h })
    bonds :
        (w : E.bank.World) (id : ℕ) (x : ℤ) (s : State E)
        → is_positive x ≡ true
        → ((d : Denom)
            → held s d +ℤ of_denom (bond_denom_of s) d x ≤ℤ held (record s { world = w }) d)
        → Write s (record s { world = w; bonds = set id (bond_of E s id +ℤ x) s.bonds })
    unbonds :
        (id : ℕ) (x : ℤ) (key : UnbondingKey) (s : State E)
        → is_positive x ≡ true
        → ltb_ℤ (bond_of E s id) x ≡ false
        → Write s (unbonded E id x key s)
    releases :
        (w : E.bank.World) (key : UnbondingKey) (x : ℤ) (s : State E)
        → get key s.unbondings ≡ some x
        → ((d : Denom)
            → held s d ≤ℤ held (record s { world = w }) d +ℤ of_denom (bond_denom_of s) d x)
        → Write s (record s { world = w; unbondings = remove key s.unbondings })
    governs :
        (p : Params) (s : State E)
        → valid_params E.texts.valid_denom p ≡ true
        → keeps_denom E p s ≡ true
        → Write s (record s { params = some p })

  -- Sequences of writes.
  pub data Writes (s : State E) : State E → Type 0 where
    no_more : Writes s s
    and_then : {t u : State E} → Writes s t → Write t u → Writes s u

  pub one : {s t : State E} → Write s t → Writes s t
  one w = and_then no_more w

  pub Writes-trans : {s t u : State E} → Writes s t → Writes t u → Writes s u
  Writes-trans a no_more = a
  Writes-trans a (and_then b w) = and_then (Writes-trans a b) w

  -- An action that consists of writes where it succeeds.
  abbrev pub IsWritten : {A : Type 0} → State E → Result A × State E → Type 0
  IsWritten s r = Ensures (λ _ t. Writes s t) r

  pub IsWritten-after :
      {A : Type 0} {s t : State E}
      → Writes s t
      → (r : Result A × State E) → IsWritten t r
      → IsWritten s r
  IsWritten-after a (ok x, u) b = Writes-trans a b
  IsWritten-after a (err e, u) b = tt

  pub >>=_IsWritten :
      {A B : Type 0} (m : M E A) (k : A → M E B) (s : State E)
      → IsWritten s (m s)
      → ((a : A) (t : State E) → IsWritten t (k a t))
      → IsWritten s ((m >>= k) s)
  >>=_IsWritten {B = B} m k s h next =
      >>=_Ensures m k (λ _ t. Writes s t) (λ _ t. Writes s t) s h
        (λ a t w. IsWritten-after {A = B} w (k a t) (next a t))

  -- A call of another keeper leaves the world that the call returns.
  pub call-Ensures :
      (f : E.bank.World → Result E.bank.World) (Q : Unit {0} → State E → Type 0) (s : State E)
      → ((w : E.bank.World) → f s.world ≡ ok w → Q tt (record s { world = w }))
      → Ensures Q (call E f s)
  unfolding call
  call-Ensures f Q s h = go (f s.world) h
    where
      go :
          (r : Result E.bank.World)
          → ((w : E.bank.World) → r ≡ ok w → Q tt (record s { world = w }))
          → Ensures Q (elim r [ ok w ↦ (ok tt, record s { world = w }) | err e ↦ (err e, s) ])
      go (ok w) h = h w refl
      go (err e) h = tt

  pub call_then-Ensures :
      {A : Type 0} (f : E.bank.World → Result E.bank.World) (k : M E A) (Q : A → State E → Type 0)
      (s : State E)
      → ((w : E.bank.World) → f s.world ≡ ok w → Ensures Q (k (record s { world = w })))
      → Ensures Q ((call E f >> k) s)
  call_then-Ensures f k Q s h =
      >>=_Ensures (call E f) (λ _. k)
        (λ _ t. (w : E.bank.World) × ((f s.world ≡ ok w) × (t ≡ record s { world = w }))) Q s
        (call-Ensures f
          (λ _ t. (w : E.bank.World) × ((f s.world ≡ ok w) × (t ≡ record s { world = w }))) s
          (λ w done. (w, (done, refl))))
        (λ _ t (w, (done, left)). subst (λ u. Ensures Q (k u)) (sym left) (h w done))
