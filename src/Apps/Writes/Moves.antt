-- ===== src/Apps/Writes/Moves.antt =====
-- The moves that are due (`finalizeMoves`) as a sequence of writes, where no contract is bound twice.
use vapor_chain.Prelude.{
  ℕ, ◌-◌, ◌≡◌, ◌≢◌, refl, sym, ap, ◌∙◌, subst, inl, inr, true, false, not, Option, none, some, [],
  ◌∷◌, ◌==◌, ltb, arith, Bool-cases, &&_split, ==_iff, some_inj, nat_eq, pair_eq, int_eq, ℤ,
  Ensures, >>=_Ensures, lift-Ensures, modify, when,
}
use vapor_chain.Store.{Map, get, set, remove, get-set_self, get-set_ne}
use vapor_chain.Store.Keys.{IsMap, set-IsMap, remove-IsMap, get-remove_self}
use vapor_chain.Apps.Types.{App, ContractBinding, PendingMove}
use vapor_chain.Apps.Env.{Env, State, get_params}
use vapor_chain.Apps.Registry.{get_app, is_revoked}
use vapor_chain.Apps.Bindings.{
  unbind, counted_down, set_binding, has_room, unbind_from, rebind, finalize_move, finalize_one,
  finalize_each, due_moves, finalize_moves,
}
use vapor_chain.Apps.Writes.{Write, Writes, IsWritten, IsWritten-after, one}
use vapor_chain.Apps.Writes.Registry.{get_app-found}
use vapor_chain.Apps.Writes.Bindings.{set_binding-IsWritten}

module _ (E : Env) where
  -- No contract is bound twice.
  abbrev pub IsSingle : State E → Type 0
  IsSingle s = IsMap s.bindings

  pub Write-IsSingle : {s t : State E} → Write E s t → IsSingle s → IsSingle t
  Write-IsSingle (Write.binds c b app s free found room) h = set-IsMap c b s.bindings h
  Write-IsSingle (Write.unbinds c b app s held found) h = remove-IsMap c s.bindings h
  Write-IsSingle (Write.enriches w s more) h = h
  Write-IsSingle (Write.registers id app s new zero_count) h = h
  Write-IsSingle (Write.edits id old new s found same_count kept) h = h
  Write-IsSingle (Write.moves p u s) h = h
  Write-IsSingle (Write.claims m s) h = h
  Write-IsSingle (Write.measures stats quotas n start s) h = h
  Write-IsSingle (Write.bonds w id x s positive more) h = h
  Write-IsSingle (Write.unbonds id x key s positive enough) h = h
  Write-IsSingle (Write.releases w key x s found more) h = h
  Write-IsSingle (Write.governs p s valid kept) h = h

  pub Writes-IsSingle : {s t : State E} → Writes E s t → IsSingle s → IsSingle t
  Writes-IsSingle Writes.no_more h = h
  Writes-IsSingle (Writes.and_then ws w) h = Write-IsSingle w (Writes-IsSingle ws h)

  -- The app of an id, if it is there, can take a contract.
  abbrev IsOpen : ℕ → State E → Type 0
  IsOpen id s =
      (app : App)
      → get id s.apps ≡ some app
      → ltb app.contract_count (get_params E s).max_contracts_per_app ≡ true

  has_room-IsOpen : (id : ℕ) (s : State E) → has_room E s (get_app E s id) ≡ true → IsOpen id s
  unfolding has_room get_app
  has_room-IsOpen id s h app found =
      (&&_split (not (is_revoked app.status))
        (ltb app.contract_count (get_params E s).max_contracts_per_app)
        (rw (found, get_app, has_room) at h)).1

  -- A contract is free, and the app of an id can take it.
  abbrev IsReady : ℕ → ℕ → State E → State E → Type 0
  IsReady c id s t = Writes E s t × ((get c t.bindings ≡ none) × IsOpen id t)

  fewer : (n m : ℕ) → ltb n m ≡ true → ltb (n - 1) m ≡ true
  fewer n m h = ground arith

  unbind_from-IsReady :
      (c id : ℕ) (o : Option ContractBinding) (s : State E)
      → o ≡ get c s.bindings
      → IsSingle s
      → IsOpen id s
      → Ensures (λ _ t. IsReady c id s t) (unbind_from E c o s)
  unfolding unbind_from unbind get_params
  unbind_from-IsReady c id none s is single room = (Writes.no_more, (sym is, room))
  unbind_from-IsReady c id (some b) s is single room =
      let t = record s {
        bindings = remove c s.bindings;
        app_contracts = remove (b.app_id, c) s.app_contracts;
      } in
      lift-Ensures (get_app E t b.app_id)
        (λ app.
          modify (λ (u : State E). record u { apps = set b.app_id (counted_down E app) u.apps }))
        (λ _ u. IsReady c id s u) t
        (λ app known.
          let found : get b.app_id s.apps ≡ some app = get_app-found E t b.app_id app known in
          (
            one E (Write.unbinds c b app s (sym is) found),
            (
              get-remove_self c s.bindings single,
              λ a after. elim (Bool-cases (id == b.app_id)) [
                | inr other ↦ room a (
                    sym
                      (get-set_ne b.app_id id (counted_down E app) s.apps (apart id b.app_id other))
                    ∙ after)
                | inl here ↦
                    let same : id ≡ b.app_id = (==_iff id b.app_id).0 here in
                    let down : counted_down E app ≡ a = some_inj (counted_down E app) a (
                      sym (get-set_self b.app_id (counted_down E app) s.apps)
                      ∙ (ap (λ i. get i (set b.app_id (counted_down E app) s.apps)) (sym same)
                          ∙ after)) in
                    subst
                      (λ (x : App).
                        ltb x.contract_count (get_params E s).max_contracts_per_app ≡ true)
                      down
                      (fewer app.contract_count (get_params E s).max_contracts_per_app
                        (room app (ap (λ i. get i s.apps) same ∙ found)))
              ],
            ),
          ))
    where
      apart : (i j : ℕ) → (i == j) ≡ false → i ≢ j
      apart i j h e = ground arith

  rebind-IsWritten :
      (height c : ℕ) (mv : PendingMove) (s : State E)
      → IsSingle s
      → IsOpen mv.to_app_id s
      → IsWritten E s (rebind E height c mv s)
  unfolding rebind
  rebind-IsWritten height c mv s single room =
      let set_to = set_binding E height c mv.to_app_id mv.proof_type in
      >>=_Ensures (unbind_from E c (get c s.bindings)) (λ _. set_to)
        (λ _ t. IsReady c mv.to_app_id s t) (λ _ t. Writes E s t) s
        (unbind_from-IsReady c mv.to_app_id (get c s.bindings) s refl single room)
        (λ _ t (ws, (free, open_to)).
          IsWritten-after E {A = Unit {0}} ws (set_to t)
            (set_binding-IsWritten E height c mv.to_app_id mv.proof_type t free open_to))

  finalize_move-IsWritten :
      (height c : ℕ) (o : Option PendingMove) (s : State E)
      → IsSingle s
      → IsWritten E s (finalize_move E height c o s)
  unfolding finalize_move
  finalize_move-IsWritten height c none s single = Writes.no_more
  finalize_move-IsWritten height c (some mv) s single =
      let t = record s { pending_moves = remove c s.pending_moves } in
      IsWritten-after E {A = Unit {0}} (one E (Write.moves t.pending_moves s.moves_by_unlock s))
        (when (has_room E t (get_app E t mv.to_app_id)) (rebind E height c mv) t)
        (elim (Bool-cases (has_room E t (get_app E t mv.to_app_id))) [
          | inl room ↦
              rw room (rebind-IsWritten height c mv t single (has_room-IsOpen mv.to_app_id t room))
          | inr full ↦ rw full Writes.no_more
        ])

  finalize_one-IsWritten :
      (height : ℕ) (key : ℤ × ℕ) (s : State E)
      → IsSingle s
      → IsWritten E s (finalize_one E height key s)
  unfolding finalize_one
  finalize_one-IsWritten height (unlock, c) s single =
      let t = record s { moves_by_unlock = remove (unlock, c) s.moves_by_unlock } in
      IsWritten-after E {A = Unit {0}} (one E (Write.moves s.pending_moves t.moves_by_unlock s))
        (finalize_move E height c (get c t.pending_moves) t)
        (finalize_move-IsWritten height c (get c t.pending_moves) t single)

  finalize_each-IsWritten :
      (height : ℕ) (due : Map (ℤ × ℕ) (Unit {0})) (s : State E)
      → IsSingle s
      → IsWritten E s (finalize_each E height due s)
  unfolding finalize_each
  finalize_each-IsWritten height [] s single = Writes.no_more
  finalize_each-IsWritten height ((key, u) ∷ due) s single =
      >>=_Ensures (finalize_one E height key) (λ _. finalize_each E height due)
        (λ _ t. Writes E s t) (λ _ t. Writes E s t) s (finalize_one-IsWritten height key s single)
        (λ _ t ws.
          IsWritten-after E {A = Unit {0}} ws (finalize_each E height due t)
            (finalize_each-IsWritten height due t (Writes-IsSingle ws single)))

  pub finalize_moves-IsWritten :
      (height : ℕ) (s : State E) → IsSingle s → IsWritten E s (finalize_moves E height s)
  unfolding finalize_moves
  finalize_moves-IsWritten height s single =
      finalize_each-IsWritten height (due_moves E height s) s single
