-- ===== src/Council/Reached.antt =====
-- The steps of chain/x/council, and what they reach: a removal is for good.
use vapor_chain.Prelude.{
  ℕ, ◌≡◌, refl, sym, ◌∙◌, inl, inr, Bool, true, Option, some, ◌==◌, Option-cases, nat_eq, pair_eq,
  ℤ, err, Error, guard_Ensures, atomically, atomically-Ensures, ◌>>◌, modify, require,
}
use vapor_chain.Store.{get}
use vapor_chain.Settle.Types.{Addr}
use vapor_chain.Council.Keeper.{
  Target, Params, Env, State, is_removed, admit_validator, remove_validator, valid_params,
  prune_expired_pauses,
}
use vapor_chain.Council.Msgs.{
  admit_msg, remove_msg, set_pause_msg, update_params_msg, after_validator_created,
}
use vapor_chain.Council.Admissions.{removed_by}
use vapor_chain.Council.Removals.{
  Gone, admit_validator-Gone, remove_validator-Gone, set_pause_msg-Gone,
}

module _ (E : Env) where
  -- The steps of the council: its messages, each undone where it fails, and the pruning.
  pub data Step : State E → State E → Type 0 where
    admits :
        (height : ℕ) (authority operator : Addr) (power : Option ℤ) (memo : ℕ) (s : State E)
        → Step s (atomically (admit_msg E height authority operator power memo) s).1
    removes :
        (authority operator : Addr) (reason : ℕ) (s : State E)
        → Step s (atomically (remove_msg E authority operator reason) s).1
    sets_pause :
        (height : ℕ) (signer : Addr) (t : Target) (reason : ℕ) (paused : Bool) (s : State E)
        → Step s (atomically (set_pause_msg E height signer t reason paused) s).1
    updates :
        (authority : Addr) (p : Params) (s : State E)
        → Step s (atomically (update_params_msg E authority p) s).1
    prunes : (height : ℕ) (s : State E) → Step s (prune_expired_pauses E height s)
    elsewhere : (w : E.bank.World) (s : State E) → Step s (record s { world = w })

  -- What the steps reach from a state.
  pub data Reach (s : State E) : State E → Type 0 where
    here : Reach s s
    next : {t u : State E} → Reach s t → Step t u → Reach s u

module _ (E : Env) (op : Addr) where
  Step-Gone : {s t : State E} → Step E s t → Gone E op s → Gone E op t
  unfolding admit_msg remove_msg update_params_msg prune_expired_pauses
  Step-Gone (admits height authority operator power memo s) gone =
      let Q = λ (_ : Unit {0}) (t : State E). Gone E op t in
      let admit = admit_validator E height operator power memo in
      let named = require (E.texts.is_bech32 operator) Error.bad_address >> admit in
      atomically-Ensures (admit_msg E height authority operator power memo) (Gone E op) s gone (
        guard_Ensures (authority == E.authority) Error.council_unauthorized named Q s (λ _.
          guard_Ensures (E.texts.is_bech32 operator) Error.bad_address admit Q s
            (λ _. admit_validator-Gone E op height operator power memo s gone)))
  Step-Gone (removes authority operator reason s) gone =
      let Q = λ (_ : Unit {0}) (t : State E). Gone E op t in
      let drop = remove_validator E operator reason in
      let named = require (E.texts.is_bech32 operator) Error.bad_address >> drop in
      atomically-Ensures (remove_msg E authority operator reason) (Gone E op) s gone (
        guard_Ensures (authority == E.authority) Error.council_unauthorized named Q s (λ _.
          guard_Ensures (E.texts.is_bech32 operator) Error.bad_address drop Q s
            (λ _. remove_validator-Gone E op operator reason s gone)))
  Step-Gone (sets_pause height signer t reason paused s) gone =
      atomically-Ensures (set_pause_msg E height signer t reason paused) (Gone E op) s gone
        (set_pause_msg-Gone E op height signer t reason paused s gone)
  Step-Gone (updates authority p s) gone =
      let Q = λ (_ : Unit {0}) (t : State E). Gone E op t in
      let write = modify (λ (t : State E). record t { params = some p }) in
      let fine = valid_params E.texts.is_bech32 p in
      let checked = require fine Error.invalid_council_params >> write in
      atomically-Ensures (update_params_msg E authority p) (Gone E op) s gone (
        guard_Ensures (authority == E.authority) Error.council_unauthorized checked Q s
          (λ _. guard_Ensures fine Error.invalid_council_params write Q s (λ _. gone)))
  Step-Gone (prunes height s) gone = gone
  Step-Gone (elsewhere w s) gone = gone

  Reach-Gone : {s t : State E} → Gone E op s → Reach E s t → Gone E op t
  Reach-Gone gone here = gone
  Reach-Gone gone (next r st) = Step-Gone st (Reach-Gone gone r)

  removed_as : (s : State E) → is_removed E s op ≡ removed_by (get op s.admissions)
  unfolding is_removed
  removed_as s = elim (Option-cases (get op s.admissions)) [
    | inl missing ↦ rw (missing, is_removed) refl
    | inr (a, found) ↦ rw (found, is_removed) refl
  ]

  -- An operator who was removed stays removed, whatever steps of the council follow, and the staking
  -- hook refuses that operator's validator.
  pub Reach-is_removed :
      {s t : State E}
      → is_removed E s op ≡ true
      → Reach E s t
      → (is_removed E t op ≡ true) × (after_validator_created E t op ≡ err Error.removed)
  unfolding after_validator_created
  Reach-is_removed {s} {t} removed r =
      let still : is_removed E t op ≡ true =
        removed_as t ∙ Reach-Gone (sym (removed_as s) ∙ removed) r in
      (still, rw still refl)
