-- ===== src/Apps/Timelock.antt =====
-- The timelock of a move (`finalizeMoves` of chain/x/apps/keeper/keeper.go): a contract stays with its
-- app until a move of it is due.
use vapor_chain.Prelude.{
  ℕ, ◌≡◌, ◌≢◌, refl, sym, ◌∙◌, Bool, true, false, Option, none, some, [], ◌∷◌, arith, nat_eq,
  pair_eq, int_eq, ℤ, pos, leb_ℤ, Result, ok, err, Ensures, >>=_Ensures, lift-Ensures, modify, when,
}
use vapor_chain.Store.{Map, get, set, remove, get-set_ne, get-remove_ne}
use vapor_chain.Store.Every.{Every, map-Every}
use vapor_chain.Store.Order.{walk, walk-Every, select-Every}
use vapor_chain.Apps.Types.{ContractBinding, PendingMove, ProofType}
use vapor_chain.Apps.Env.{Env, State, M}
use vapor_chain.Apps.Registry.{get_app}
use vapor_chain.Apps.Bindings.{
  unbind, counted_down, bound, set_binding, has_room, unbind_from, rebind, finalize_move,
  finalize_one, finalize_each, move_before, due_moves, finalize_moves,
}

module _ (E : Env) (c : ℕ) where
  -- The contract is bound as before.
  abbrev pub Stays : {A : Type 0} → State E → A → State E → Type 0
  Stays s _ t = get c t.bindings ≡ get c s.bindings

  -- No move of the contract is due at the height.
  abbrev pub Waits : ℕ → State E → Type 0
  Waits height s =
      Every (λ (key : ℤ × ℕ) _. key.1 ≡ c → leb_ℤ key.0 (pos height) ≡ false) s.moves_by_unlock

  Stays-after :
      {A : Type 0} (s t : State E) (r : Result A × State E)
      → get c t.bindings ≡ get c s.bindings
      → Ensures (Stays t) r
      → Ensures (Stays s) r
  Stays-after s t (ok a, u) h k = k ∙ h
  Stays-after s t (err e, u) h k = tt

  unbind-Stays : (d id : ℕ) (s : State E) → c ≢ d → Ensures (Stays s) (unbind E d id s)
  unfolding unbind
  unbind-Stays d id s other =
      let t = record s {
        bindings = remove d s.bindings;
        app_contracts = remove (id, d) s.app_contracts;
      } in
      lift-Ensures (get_app E t id)
        (λ app. modify (λ (u : State E). record u { apps = set id (counted_down E app) u.apps }))
        (Stays s) t (λ app _. get-remove_ne d c s.bindings other)

  set_binding-Stays :
      (height d id : ℕ) (proof : ProofType) (s : State E)
      → c ≢ d
      → Ensures (Stays s) (set_binding E height d id proof s)
  unfolding set_binding
  set_binding-Stays height d id proof s other =
      lift-Ensures (get_app E s id) (λ app. modify (bound E height d id app proof)) (Stays s) s
        (λ app _. get-set_ne d c _ s.bindings other)

  unbind_from-Stays :
      (d : ℕ) (o : Option ContractBinding) (s : State E)
      → c ≢ d
      → Ensures (Stays s) (unbind_from E d o s)
  unfolding unbind_from
  unbind_from-Stays d none s other = refl
  unbind_from-Stays d (some b) s other = unbind-Stays d b.app_id s other

  finalize_move-Stays :
      (height d : ℕ) (o : Option PendingMove) (s : State E)
      → c ≢ d
      → Ensures (Stays s) (finalize_move E height d o s)
  unfolding finalize_move rebind
  finalize_move-Stays height d none s other = refl
  finalize_move-Stays height d (some mv) s other =
      let t = record s { pending_moves = remove d s.pending_moves } in
      let set_to = set_binding E height d mv.to_app_id mv.proof_type in
      moving (has_room E t (get_app E t mv.to_app_id)) (rebind E height d mv) t (
        >>=_Ensures (unbind_from E d (get d t.bindings)) (λ _. set_to) (Stays t) (Stays t) t
          (unbind_from-Stays d (get d t.bindings) t other)
          (λ _ u kept.
            Stays-after t u (set_to u) kept
              (set_binding-Stays height d mv.to_app_id mv.proof_type u other)))
    where
      moving :
          (b : Bool) (m : M E (Unit {0})) (t : State E)
          → Ensures (Stays t) (m t)
          → Ensures (Stays t) (when b m t)
      moving true m t h = h
      moving false m t h = refl

  finalize_each-Stays :
      (height : ℕ) (due : Map (ℤ × ℕ) (Unit {0})) (s : State E)
      → Every (λ (key : ℤ × ℕ) _. c ≢ key.1) due
      → Ensures (Stays s) (finalize_each E height due s)
  unfolding finalize_each finalize_one
  finalize_each-Stays height [] s others = refl
  finalize_each-Stays height (((unlock, d), u) ∷ due) s others =
      let t = record s { moves_by_unlock = remove (unlock, d) s.moves_by_unlock } in
      >>=_Ensures (finalize_one E height (unlock, d)) (λ _. finalize_each E height due) (Stays s)
        (Stays s) s (finalize_move-Stays height d (get d t.pending_moves) t others.0)
        (λ _ v kept.
          Stays-after s v (finalize_each E height due v) kept
            (finalize_each-Stays height due v others.1))

  -- The finalization of the moves at the end of a block leaves a contract with its app, unless a move
  -- of that contract is due at the block's height; this holds whatever becomes of the other moves.
  pub finalize_moves-Stays :
      (height : ℕ) (s : State E) → Waits height s → Ensures (Stays s) (finalize_moves E height s)
  unfolding finalize_moves due_moves
  finalize_moves-Stays height s waits =
      let order = move_before E.text_before in
      let due = λ (key : ℤ × ℕ). leb_ℤ key.0 (pos height) in
      let early = λ (key : ℤ × ℕ) (_ : Unit {0}). key.1 ≡ c → leb_ℤ key.0 (pos height) ≡ false in
      let picked =
        select-Every early due (walk order s.moves_by_unlock)
          (walk-Every early order s.moves_by_unlock waits) in
      finalize_each-Stays height (due_moves E height s) s (
        map-Every (λ (key : ℤ × ℕ) _. early key tt × (due key ≡ true))
          (λ (key : ℤ × ℕ) _. c ≢ key.1) (due_moves E height s)
          (λ key _ both same. clash (sym (both.0 (sym same)) ∙ both.1)) picked)
    where
      clash : false ≡ true → ⊥
      clash h = ground arith
