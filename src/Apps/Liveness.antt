-- ===== src/Apps/Liveness.antt =====
-- What the end of a block (`EndBlock` of chain/x/apps/keeper/keeper.go) needs of a store in order to
-- succeed, and that the finalization of the moves keeps it.
use vapor_chain.Prelude.{
  ℕ, ◌≡◌, ◌≢◌, refl, sym, ap, ◌∙◌, inl, inr, true, false, Option, none, some, [], ◌∷◌, ◌==◌, arith,
  Bool-cases, Option-cases, ==_iff, nat_eq, pair_eq, int_eq, ℤ, pos, pos_part, ◌*◌, ◌^◌, ◌<◌,
  Result, ok, err, Succeeds, >>=_Succeeds, lift-Succeeds, modify,
}
use vapor_chain.Store.{Map, get, set, remove, get-set_self, get-set_ne}
use vapor_chain.Store.Keys.{IsMap, set-IsMap, remove-IsMap}
use vapor_chain.Store.Every.{Every, get-Every, set-Every, remove-Every, map-Every}
use vapor_chain.Apps.Types.{App, ContractBinding, PendingMove, EpochStats, ProofType}
use vapor_chain.Apps.Env.{Env, State, get_params}
use vapor_chain.Apps.Registry.{get_app}
use vapor_chain.Apps.Bindings.{
  unbind, counted_down, binding_of, bound, set_binding, has_room, unbind_from, rebind,
  finalize_move, finalize_one, finalize_each,
}
use vapor_chain.Settle.Types.{max_bps}
use vapor_chain.Apps.Bonds.{is_coin}
use vapor_chain.Apps.Sketch.{IsSketch}
use vapor_chain.Apps.Ownership.{get_app-stored}

-- Statistics with a sketch, and a weight that is not negative and can be multiplied by 10000 within 256
-- bits.
abbrev pub IsFair : EpochStats → Type 0
IsFair st = IsSketch st.hll × ((w : ℕ) × ((st.fee_weight ≡ pos w) × (w * max_bps < 2 ^ 256)))

module _ (E : Env) where
  -- The app of an id is in the store.
  abbrev pub IsStored : ℕ → Map ℕ App → Type 0
  IsStored id m = (app : App) × (get id m ≡ some app)

  -- Each contract is bound once, and to an app that is in the store.
  abbrev pub IsHoused : State E → Type 0
  IsHoused s =
      IsMap s.bindings × Every (λ _ (b : ContractBinding). IsStored b.app_id s.apps) s.bindings

  -- Statistics hold a sketch, and a weight that is not negative and can be multiplied by 10000 within
  -- 256 bits.
  abbrev pub IsMeasured : State E → Type 0
  IsMeasured s = Every (λ _ st. IsFair st) s.epoch_stats

  -- Every bond can be multiplied by the gas per unit within 256 bits.
  abbrev pub IsFunded : State E → Type 0
  IsFunded s = Every (λ _ x. pos_part x * (get_params E s).gas_per_bonded_unit < 2 ^ 256) s.bonds

  -- Every unbonding is a coin: its amount is not negative, and the bond's denomination is valid.
  abbrev pub IsPayable : State E → Type 0
  IsPayable s = Every (λ _ x. is_coin E (get_params E s).bond_denom x ≡ true) s.unbondings

  -- What the moves of contracts do not touch.
  pub record IsAside (s t : State E) : Type 0 where
    pub params : t.params ≡ s.params
    pub epoch_stats : t.epoch_stats ≡ s.epoch_stats
    pub bonds : t.bonds ≡ s.bonds
    pub unbondings : t.unbondings ≡ s.unbondings

  abbrev untouched : (s : State E) → IsAside s s
  untouched s = record { params = refl; epoch_stats = refl; bonds = refl; unbondings = refl }

  IsAside-trans : (s t u : State E) → IsAside s t → IsAside t u → IsAside s u
  IsAside-trans s t u h k = record {
    params = k.params ∙ h.params;
    epoch_stats = k.epoch_stats ∙ h.epoch_stats;
    bonds = k.bonds ∙ h.bonds;
    unbondings = k.unbondings ∙ h.unbondings;
  }

  -- What the finalization of the moves keeps.
  abbrev pub Keeps : State E → State E → Type 0
  Keeps s t = IsHoused t × IsAside s t

  Keeps-after :
      (s t : State E) (r : Result (Unit {0}) × State E)
      → IsAside s t
      → Succeeds (λ _ u. Keeps t u) r
      → Succeeds (λ _ u. Keeps s u) r
  Keeps-after s t (ok a, u) h k = (k.0, IsAside-trans s t u h k.1)
  Keeps-after s t (err e, u) h k = k

  set-IsStored : (i j : ℕ) (a : App) (m : Map ℕ App) → IsStored i m → IsStored i (set j a m)
  set-IsStored i j a m (app, found) = elim (Bool-cases (i == j)) [
    | inl here ↦ (a, ap (λ k. get k (set j a m)) ((==_iff i j).0 here) ∙ get-set_self j a m)
    | inr there ↦ (app, get-set_ne j i a m (apart i j there) ∙ found)
  ]
    where
      apart : (i j : ℕ) → (i == j) ≡ false → i ≢ j
      apart i j h e = ground arith

  set_binding-Keeps :
      (height c id : ℕ) (proof : ProofType) (s : State E)
      → IsStored id s.apps
      → IsHoused s
      → Succeeds (λ _ t. Keeps s t) (set_binding E height c id proof s)
  unfolding set_binding
  set_binding-Keeps height c id proof s (app, found) (single, housed) =
      let t = bound E height c id app proof s in
      let store = λ (a : App). modify (bound E height c id a proof) in
      let still =
        map-Every (λ _ (b : ContractBinding). IsStored b.app_id s.apps)
          (λ _ (b : ContractBinding). IsStored b.app_id t.apps) s.bindings
          (λ _ b h. set-IsStored b.app_id id _ s.apps h) housed in
      lift-Succeeds (get_app E s id) app store (λ _ u. Keeps s u) s
        (get_app-stored E s id app found)
        (
          (
            set-IsMap c (binding_of E height c id app proof) s.bindings single,
            set-Every (λ _ (b : ContractBinding). IsStored b.app_id t.apps) c
                (binding_of E height c id app proof) s.bindings still
                (set-IsStored id id _ s.apps (app, found)),
          ),
          record { params = refl; epoch_stats = refl; bonds = refl; unbondings = refl },
        )

  -- After a contract's binding is gone, the apps are still in the store.
  abbrev Frees : ℕ → State E → State E → Type 0
  Frees id s t = Keeps s t × (IsStored id s.apps → IsStored id t.apps)

  unbind_from-Frees :
      (c id : ℕ) (o : Option ContractBinding) (s : State E)
      → o ≡ get c s.bindings
      → IsHoused s
      → Succeeds (λ _ t. Frees id s t) (unbind_from E c o s)
  unfolding unbind_from unbind
  unbind_from-Frees c id none s is housed = ((housed, untouched s), λ h. h)
  unbind_from-Frees c id (some b) s is (single, housed) =
      let t = record s {
        bindings = remove c s.bindings;
        app_contracts = remove (b.app_id, c) s.app_contracts;
      } in
      let home = λ (m : Map ℕ App) (_ : ℕ) (x : ContractBinding). IsStored x.app_id m in
      let (app, found) = get-Every (home s.apps) c b s.bindings housed (sym is) in
      let later = set b.app_id (counted_down E app) s.apps in
      let store = λ (a : App).
        modify (λ (u : State E). record u { apps = set b.app_id (counted_down E a) u.apps }) in
      lift-Succeeds (get_app E t b.app_id) app store (λ _ u. Frees id s u) t
        (get_app-stored E t b.app_id app found)
        (
          (
            (
              remove-IsMap c s.bindings single,
              remove-Every (home later) c s.bindings (
                  map-Every (home s.apps) (home later) s.bindings
                    (λ _ x h. set-IsStored x.app_id b.app_id _ s.apps h) housed),
            ),
            record { params = refl; epoch_stats = refl; bonds = refl; unbondings = refl },
          ),
          λ h. set-IsStored id b.app_id _ s.apps h,
        )

  rebind-Keeps :
      (height c : ℕ) (mv : PendingMove) (s : State E)
      → IsStored mv.to_app_id s.apps
      → IsHoused s
      → Succeeds (λ _ t. Keeps s t) (rebind E height c mv s)
  unfolding rebind
  rebind-Keeps height c mv s stored housed =
      let set_to = set_binding E height c mv.to_app_id mv.proof_type in
      >>=_Succeeds (unbind_from E c (get c s.bindings)) (λ _. set_to)
        (λ _ t. Frees mv.to_app_id s t) (λ _ t. Keeps s t) s
        (unbind_from-Frees c mv.to_app_id (get c s.bindings) s refl housed)
        (λ _ t (kept, still).
          Keeps-after s t (set_to t) kept.1
            (set_binding-Keeps height c mv.to_app_id mv.proof_type t (still stored) kept.0))

  has_room-IsStored :
      (id : ℕ) (s : State E) → has_room E s (get_app E s id) ≡ true → IsStored id s.apps
  unfolding has_room get_app
  has_room-IsStored id s h = elim (Option-cases (get id s.apps)) [
    | inr (app, found) ↦ (app, found)
    | inl missing ↦ absurd (clash (rw (missing, get_app, has_room) at h))
  ]
    where
      clash : false ≡ true → ⊥
      clash h = ground arith

  finalize_one-Keeps :
      (height : ℕ) (key : ℤ × ℕ) (s : State E)
      → IsHoused s
      → Succeeds (λ _ t. Keeps s t) (finalize_one E height key s)
  unfolding finalize_one finalize_move
  finalize_one-Keeps height (unlock, c) s housed =
      moved (get c s.pending_moves)
        (record s { moves_by_unlock = remove (unlock, c) s.moves_by_unlock }) housed
        (record { params = refl; epoch_stats = refl; bonds = refl; unbondings = refl })
    where
      moved :
          (o : Option PendingMove) (t : State E)
          → IsHoused t
          → IsAside s t
          → Succeeds (λ _ u. Keeps s u) (finalize_move E height c o t)
      moved none t housed same = (housed, same)
      moved (some mv) t housed same =
          let u = record t { pending_moves = remove c t.pending_moves } in
          let aside : IsAside s u = record {
            params = same.params;
            epoch_stats = same.epoch_stats;
            bonds = same.bonds;
            unbondings = same.unbondings;
          } in
          elim (Bool-cases (has_room E u (get_app E u mv.to_app_id))) [
            | inl room ↦ rw room (
                Keeps-after s u (rebind E height c mv u) aside
                  (rebind-Keeps height c mv u (has_room-IsStored mv.to_app_id u room) housed))
            | inr full ↦ rw full (housed, aside)
          ]

  pub finalize_each-Keeps :
      (height : ℕ) (due : Map (ℤ × ℕ) (Unit {0})) (s : State E)
      → IsHoused s
      → Succeeds (λ _ t. Keeps s t) (finalize_each E height due s)
  unfolding finalize_each
  finalize_each-Keeps height [] s housed = (housed, untouched s)
  finalize_each-Keeps height ((key, u) ∷ due) s housed =
      >>=_Succeeds (finalize_one E height key) (λ _. finalize_each E height due) (λ _ t. Keeps s t)
        (λ _ t. Keeps s t) s (finalize_one-Keeps height key s housed)
        (λ _ t kept.
          Keeps-after s t (finalize_each E height due t) kept.1
            (finalize_each-Keeps height due t kept.0))
