-- ===== src/Apps/Writes/Registry.antt =====
-- The operations of Apps/Registry.antt and the messages of Apps/Msgs.antt on the parameters, as
-- sequences of writes.
use vapor_chain.Prelude.{
  ℕ, ◌≡◌, refl, sym, ap, ◌∙◌, inl, inr, Bool, true, false, not, ◌&&◌, Option, some, none, ◌==◌,
  if◌then◌else◌, arith, ==_iff, nat_eq, Result, ok, err, Error, guard_Ensures, lift-Ensures,
  Result-cases, ◌>>=◌, ◌>>◌, gets, modify, require, lift, read, or_err,
}
use vapor_chain.Store.{get}
use vapor_chain.Settle.Types.{Addr, empty}
use vapor_chain.Apps.Types.{App, AppStatus, Params}
use vapor_chain.Apps.Params.{valid_params}
use vapor_chain.Apps.Env.{Env, State, M, get_params}
use vapor_chain.Apps.Registry.{
  Fields, get_app, check_owner, owned_app, is_revoked, is_unspecified, validate_recipient,
  check_fields, put_app, updated, update_app, transfer_ownership, accepted, accept_ownership,
  with_status, set_app_status,
}
use vapor_chain.Apps.Msgs.{update_params_msg, keeps_denom}
use vapor_chain.Apps.Writes.{Write, Writes, IsWritten, one}

module _ (E : Env) where
  -- An app that was read is in the store.
  pub get_app-found :
      (s : State E) (id : ℕ) (app : App) → get_app E s id ≡ ok app → get id s.apps ≡ some app
  unfolding get_app
  get_app-found s id app h = found (get id s.apps) h
    where
      found : (o : Option App) → or_err o Error.app_not_found ≡ ok app → o ≡ some app
      found none h = ground arith
      found (some a) h = ground arith

  passed :
      (x y : Error) (b c : Bool) (app a : App)
      → (if not b then err x else if c then err y else ok app) ≡ ok a
      → (b ≡ true) × ((c ≡ false) × (app ≡ a))
  passed x y true true app a h = ground arith
  passed x y true false app a h = ground arith
  passed x y false c app a h = ground arith

  -- An owner's app is in the store, is theirs and is not revoked.
  pub owned_app-found :
      (s : State E) (owner : Addr) (id : ℕ) (app : App)
      → owned_app E s owner id ≡ ok app
      → (get id s.apps ≡ some app) × ((app.owner ≡ owner) × (is_revoked app.status ≡ false))
  unfolding owned_app check_owner
  owned_app-found s owner id app h = elim (Result-cases (get_app E s id)) [
    | inl (a, found) ↦
        let all =
          passed Error.app_unauthorized Error.app_inactive (a.owner == owner) (is_revoked a.status)
            a app (rw (found, owned_app) at h) in
        let known : get id s.apps ≡ some a = get_app-found s id a found in
        (
          known ∙ ap some all.1.1,
          (
            ap (λ b. b.owner) (sym all.1.1) ∙ (==_iff a.owner owner).0 all.0,
            ap (λ b. is_revoked b.status) (sym all.1.1) ∙ all.1.0,
          ),
        )
    | inr (e, failed) ↦
        let no : ◌≡◌ {A = Result App} (err e) (ok app) = rw (failed, owned_app) at h in ground arith
  ]

  -- Reads that fail, or give a value that is stored.
  module _ {A : Type 0} (s : State E) where
    pub read-IsWritten :
        {B : Type 0} (r : Result B) (k : B → M E A)
        → ((b : B) → r ≡ ok b → IsWritten E s (k b s))
        → IsWritten E s ((lift r >>= k) s)
    read-IsWritten r k h = lift-Ensures r k (λ _ t. Writes E s t) s h

    pub guard-IsWritten :
        (b : Bool) (e : Error) (k : M E A)
        → (b ≡ true → IsWritten E s (k s))
        → IsWritten E s ((require b e >> k) s)
    guard-IsWritten b e k h = guard_Ensures b e k (λ _ t. Writes E s t) s h

  pub update_app-IsWritten :
      (owner : Addr) (id : ℕ) (f : Fields) (s : State E) → IsWritten E s (update_app E owner id f s)
  unfolding update_app
  update_app-IsWritten owner id f s =
      let p = get_params E s in
      let recipient = if f.recipient == empty then ok tt else validate_recipient E f.recipient in
      let write = λ (app : App). modify (put_app E id (updated E f app)) in
      let fields = λ (app : App). lift (check_fields E p f) >> write app in
      let rest = λ (app : App). gets (get_params E) >>= λ q.
      lift (if f.recipient == empty then ok tt else validate_recipient E f.recipient)
      >> (lift (check_fields E q f) >> write app) in
      read-IsWritten s (owned_app E s owner id) rest (λ app found.
        let mine = owned_app-found s owner id app found in
        read-IsWritten s recipient (λ _. fields app)
          (λ _ _.
            read-IsWritten s (check_fields E p f) (λ _. write app)
              (λ _ _. one E (Write.edits id app (updated E f app) s mine.0 refl (λ h. h)))))

  pub transfer_ownership-IsWritten :
      (owner : Addr) (id : ℕ) (to : Addr) (s : State E)
      → IsWritten E s (transfer_ownership E owner id to s)
  unfolding transfer_ownership
  transfer_ownership-IsWritten owner id to s =
      let write = λ (app : App). modify (put_app E id (record app { pending_owner = to })) in
      let rest = λ (app : App). require (E.texts.is_bech32 to) Error.invalid_field >> write app in
      read-IsWritten s (owned_app E s owner id) rest (λ app found.
        let mine = owned_app-found s owner id app found in
        guard-IsWritten s (E.texts.is_bech32 to) Error.invalid_field (write app) (λ _.
          one E (Write.edits id app (record app { pending_owner = to }) s mine.0 refl (λ h. h))))

  pub accept_ownership-IsWritten :
      (new_owner : Addr) (id : ℕ) (s : State E) → IsWritten E s (accept_ownership E new_owner id s)
  unfolding accept_ownership
  accept_ownership-IsWritten new_owner id s =
      let write = λ (app : App). modify (put_app E id (accepted E new_owner app)) in
      let named =
        λ (app : App). not (app.pending_owner == empty) && app.pending_owner == new_owner in
      let rest = λ (app : App). require (named app) Error.no_pending_owner >> write app in
      read-IsWritten s (get_app E s id) rest (λ app found.
        guard-IsWritten s (named app) Error.no_pending_owner (write app) (λ _. one E (
          Write.edits id app (accepted E new_owner app) s (get_app-found s id app found) refl
            (λ h. h))))

  pub set_app_status-IsWritten :
      (id : ℕ) (status : AppStatus) (s : State E) → IsWritten E s (set_app_status E id status s)
  unfolding set_app_status
  set_app_status-IsWritten id status s =
      let write = λ (app : App). modify (put_app E id (with_status E status app)) in
      let rest =
        λ (app : App). require (not (is_revoked app.status)) Error.app_inactive >> write app in
      let known = read (λ t. get_app E t id) >>= rest in
      guard-IsWritten s (not (is_unspecified status)) Error.invalid_field known (λ _.
        read-IsWritten s (get_app E s id) rest (λ app found.
          guard-IsWritten s (not (is_revoked app.status)) Error.app_inactive (write app) (λ live.
            one E (
              Write.edits id app (with_status E status app) s (get_app-found s id app found) refl
                (λ h. absurd (clash (is_revoked app.status) live h))))))
    where
      clash : (b : Bool) → not b ≡ true → b ≡ true → ⊥
      clash true p q = ground arith
      clash false p q = ground arith

  pub update_params_msg-IsWritten :
      (authority : Addr) (p : Params) (s : State E)
      → IsWritten E s (update_params_msg E authority p s)
  unfolding update_params_msg
  update_params_msg-IsWritten authority p s =
      let write = modify (λ (t : State E). record t { params = some p }) in
      let allowed = gets (keeps_denom E p) >>= λ b. require b Error.invalid_app_params >> write in
      let fine = valid_params E.texts.valid_denom p in
      let checked = require fine Error.invalid_app_params >> allowed in
      guard-IsWritten s (authority == E.authority) Error.app_unauthorized checked (λ _.
        guard-IsWritten s fine Error.invalid_app_params allowed (λ valid.
          guard-IsWritten s (keeps_denom E p s) Error.invalid_app_params write
            (λ kept. one E (Write.governs p s valid kept))))
