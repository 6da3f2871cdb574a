-- ===== src/Apps/EpochEnds.antt =====
-- The rollover of an epoch (`rolloverEpoch` of chain/x/apps/keeper/keeper.go) and the end of a block:
-- what makes them succeed.
use vapor_chain.Prelude.{
  int_eq, Option, Option-cases, none, pos_part, ◌*◌, arith, ap, ℕ, ◌+◌, ◌%◌, ◌^◌, ◌<◌, ◌≡◌, refl,
  sym, subst, inl, inr, Bool, true, false, not, some, [], ◌∷◌, ◌==◌, Bool-cases, nat_eq, pair_eq, ℤ,
  pos, ◌+ℤ◌, ltb_ℤ, Result, ok, err, Succeeds, >>=_Succeeds, lift-Succeeds, ◌>>=◌, ◌>>◌, modify,
  lift, when, if◌then◌else◌,
}
use vapor_chain.Store.{Map, get, set}
use vapor_chain.Apps.Params.{default_params}
use vapor_chain.Store.Every.{Every, get-Every, map-Every}
use vapor_chain.Store.Order.{walk, walk-Every, select-Every}
use vapor_chain.Apps.Types.{EpochStats, Quota, Params}
use vapor_chain.Apps.Env.{Env, State, M, get_params, wrap_int64}
use vapor_chain.Apps.Registry.{get_app}
use vapor_chain.Apps.Bindings.{due_moves, finalize_moves}
use vapor_chain.Apps.Quota.{
  base_quota, compute_quota, with_epoch, epoch_of, start_of, bond_of, is_live, grant_quota,
  grant_each, key_before, stats_of, last_of, rolled, rollover_epoch,
}
use vapor_chain.Apps.Bonds.{release_unbondings, end_block, is_coin}
use vapor_chain.Apps.QuotaBounds.{base_quota-ok, compute_quota-ok}
use vapor_chain.Apps.Releases.{IsSpared, release_unbondings-Succeeds}
use vapor_chain.Apps.Liveness.{
  IsFair, IsHoused, IsMeasured, IsFunded, IsPayable, IsAside, Keeps, finalize_each-Keeps,
}

-- A bond that can be multiplied by the gas per unit within 256 bits.
abbrev IsCovered : Params → ℤ → Type 0
IsCovered p x = pos_part x * p.gas_per_bonded_unit < 2 ^ 256

module _ (E : Env) where
  bond_of-IsCovered :
      (p : Params) (id : ℕ) (s : State E)
      → Every (λ _ x. IsCovered p x) s.bonds
      → IsCovered p (bond_of E s id)
  unfolding bond_of
  bond_of-IsCovered p id s covered = elim (Option-cases (get id s.bonds)) [
    | inl missing ↦ rw (missing, bond_of) (omega arith)
    | inr (x, found) ↦
        rw (found, bond_of) (get-Every (λ _ y. IsCovered p y) id x s.bonds covered found)
  ]

  grant_quota-Succeeds :
      (p : Params) (next : ℕ) (st : EpochStats) (s : State E)
      → p.max_gas_per_epoch < 2 ^ 64
      → Every (λ _ x. IsCovered p x) s.bonds
      → IsFair st
      → Succeeds (λ _ t. t.bonds ≡ s.bonds) (grant_quota E p next st s)
  unfolding grant_quota
  grant_quota-Succeeds p next st s limit covered (sketch, (w, (weight, small))) =
      let bond = bond_of E s st.app_id in
      let (base, (runs, low)) =
        base_quota-ok p bond limit (bond_of-IsCovered p st.app_id s covered) in
      let (q, (computes, grant)) = compute_quota-ok p st base w sketch weight small limit in
      let write = λ (q : Quota).
        modify
          (λ (t : State E). record t { quotas = set st.app_id (with_epoch next q) t.quotas }) in
      let computed = λ (base : ℕ). lift (compute_quota p st base) >>= write in
      let same = λ (_ : Unit {0}) (t : State E). t.bonds ≡ s.bonds in
      live (is_live E (get_app E s st.app_id)) (lift (base_quota p bond) >>= computed) (
        lift-Succeeds (base_quota p bond) base computed same s runs
          (lift-Succeeds (compute_quota p st base) q write same s computes refl))
    where
      live :
          (b : Bool) (m : M E (Unit {0}))
          → Succeeds (λ _ t. t.bonds ≡ s.bonds) (m s)
          → Succeeds (λ _ t. t.bonds ≡ s.bonds) (when b m s)
      live true m h = h
      live false m h = refl

  grant_each-Succeeds :
      (p : Params) (next : ℕ) (m : Map (ℕ × ℕ) EpochStats) (s : State E)
      → p.max_gas_per_epoch < 2 ^ 64
      → Every (λ _ x. IsCovered p x) s.bonds
      → Every (λ _ st. IsFair st) m
      → Succeeds (λ _ t. Unit {0}) (grant_each E p next m s)
  unfolding grant_each
  grant_each-Succeeds p next [] s limit covered fair = tt
  grant_each-Succeeds p next ((key, st) ∷ rest) s limit covered fair =
      >>=_Succeeds (grant_quota E p next st) (λ _. grant_each E p next rest)
        (λ _ t. t.bonds ≡ s.bonds) (λ _ t. Unit {0}) s
        (grant_quota-Succeeds p next st s limit covered fair.0)
        (λ _ t same.
          grant_each-Succeeds p next rest t limit
            (subst (λ m. Every (λ _ x. IsCovered p x) m) (sym same) covered) fair.1)

  -- The next epoch, and where it starts.
  abbrev pub IsRolled : ℕ → State E → State E → Type 0
  IsRolled height s t =
      if not (ltb_ℤ (pos height) (last_of E (start_of E height s) (get_params E s)))
      then (t.epoch_number ≡ some ((epoch_of E s + 1) % 2 ^ 64))
        × (t.epoch_start ≡ some (wrap_int64 (pos height +ℤ pos 1)))
      else (t.epoch_number ≡ s.epoch_number) × (t.epoch_start ≡ s.epoch_start)

  pub rollover_epoch-IsRolled :
      (height : ℕ) (s : State E)
      → IsMeasured E s
      → IsFunded E s
      → (get_params E s).max_gas_per_epoch < 2 ^ 64
      → Succeeds (λ _ t. IsRolled height s t) (rollover_epoch E height s)
  unfolding rollover_epoch stats_of
  rollover_epoch-IsRolled height s fair covered limit =
      let p = get_params E s in
      let epoch = epoch_of E s in
      let grant = grant_each E p ((epoch + 1) % 2 ^ 64) (stats_of E epoch s.epoch_stats) in
      let roll = modify (rolled E height epoch) in
      let of_epoch = λ (key : ℕ × ℕ). key.0 == epoch in
      let picked =
        select-Every (λ _ st. IsFair st) of_epoch (walk (key_before E) s.epoch_stats)
          (walk-Every (λ _ st. IsFair st) (key_before E) s.epoch_stats fair) in
      let chosen =
        map-Every (λ (key : ℕ × ℕ) st. IsFair st × (of_epoch key ≡ true)) (λ _ st. IsFair st)
          (stats_of E epoch s.epoch_stats) (λ _ st h. h.0) picked in
      elim (Bool-cases
        (not (ltb_ℤ (pos height) (last_of E (start_of E height s) (get_params E s))))) [
          | inr early ↦ rw early (refl, refl)
          | inl due ↦ rw due (
              >>=_Succeeds grant (λ _. roll) (λ _ t. Unit {0})
                (λ _ t.
                  (t.epoch_number ≡ some ((epoch + 1) % 2 ^ 64))
                  × (t.epoch_start ≡ some (wrap_int64 (pos height +ℤ pos 1))))
                s
                (grant_each-Succeeds p ((epoch + 1) % 2 ^ 64) (stats_of E epoch s.epoch_stats) s
                  limit covered chosen)
                (λ _ t _. (refl, refl)))
        ]

  get_params-same : (s t : State E) → t.params ≡ s.params → get_params E t ≡ get_params E s
  unfolding get_params
  get_params-same s t same = ap params_or same
    where
      params_or : Option Params → Params
      params_or o = elim o [ none ↦ default_params E.credit_denom E.uusdc | some p ↦ p ]

  -- What the quotas rest on stays with the parameters, the statistics and the bonds.
  spared-quotas :
      (s t : State E)
      → IsSpared E s t
      → IsMeasured E s
      → IsFunded E s
      → (get_params E s).max_gas_per_epoch < 2 ^ 64
      → IsMeasured E t × (IsFunded E t × ((get_params E t).max_gas_per_epoch < 2 ^ 64))
  spared-quotas s t (same, (stats, bonds)) fair covered limit =
      let p = get_params-same s t same in
      (
        subst (λ m. Every (λ _ st. IsFair st) m) (sym stats) fair,
        (
          subst (λ q. Every (λ _ x. IsCovered q x) t.bonds) (sym p)
              (subst (λ m. Every (λ _ x. IsCovered (get_params E s) x) m) (sym bonds) covered),
          subst (λ (q : Params). q.max_gas_per_epoch < 2 ^ 64) (sym p) limit,
        ),
      )

  kept-IsPayable : (s t : State E) → IsAside E s t → IsPayable E s → IsPayable E t
  kept-IsPayable s t kept payable =
      subst (λ (q : Params). Every (λ _ x. is_coin E q.bond_denom x ≡ true) t.unbondings)
        (sym (get_params-same s t kept.params))
        (subst (λ m. Every (λ _ x. is_coin E (get_params E s).bond_denom x ≡ true) m)
          (sym kept.unbondings) payable)

  -- The end of a block succeeds where each contract is bound once and to an app that is in the store,
  -- every statistics hold a sketch and a weight that is not negative, that weight times 10000 and every
  -- bond times the gas per unit are below 2^256, every unbonding is a valid coin of the bond's
  -- denomination, and the limit of a quota is a uint64. A payout that the bank refuses does not matter.
  pub end_block-Succeeds :
      (height : ℕ) (s : State E)
      → IsHoused E s
      → IsMeasured E s
      → IsFunded E s
      → IsPayable E s
      → (get_params E s).max_gas_per_epoch < 2 ^ 64
      → Succeeds (λ _ t. Unit {0}) (end_block E height s)
  unfolding end_block finalize_moves
  end_block-Succeeds height s housed fair covered payable limit =
      let roll = rollover_epoch E height in
      let release = release_unbondings E height in
      let passes = λ (_ : Unit {0}) (t : State E). Unit {0} in
      >>=_Succeeds (finalize_moves E height) (λ _. release >> roll) (λ _ t. Keeps E s t) passes s
        (finalize_each-Keeps E height (due_moves E height s) s housed)
        (λ _ t kept.
          let aside = kept.1 in
          let (fair_t, (covered_t, limit_t)) =
            spared-quotas s t (aside.params, (aside.epoch_stats, aside.bonds)) fair covered limit in
          >>=_Succeeds release (λ _. roll) (λ _ u. IsSpared E t u) passes t
            (release_unbondings-Succeeds E height t (kept-IsPayable s t aside payable))
            (λ _ u spared.
              let (fair_u, (covered_u, limit_u)) =
                spared-quotas t u spared fair_t covered_t limit_t in
              forget height u (roll u) (rollover_epoch-IsRolled height u fair_u covered_u limit_u)))
    where
      forget :
          (height : ℕ) (u : State E) (r : Result (Unit {0}) × State E)
          → Succeeds (λ _ t. IsRolled height u t) r
          → Succeeds (λ _ t. Unit {0}) r
      forget height u (ok a, t) h = tt
      forget height u (err e, t) h = h
