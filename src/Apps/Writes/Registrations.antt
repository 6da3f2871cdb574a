-- ===== src/Apps/Writes/Registrations.antt =====
-- A registration of an app, as a sequence of writes: the fee passes through the module's account and
-- is burned, and the new app has an id that was not given before.
use vapor_chain.Prelude.{
  ℕ, ◌+◌, ◌%◌, ◌^◌, ◌≤◌, ◌<◌, ◌≡◌, refl, sym, ap, inl, inr, Bool, true, false, [], ◌∷◌, ◌==◌,
  if◌then◌else◌, arith, Bool-cases, ==_iff, nat_eq, ℤ, pos, is_positive, int_laws, Result, ok, err,
  Error, Ensures, >>=_Ensures, ◌>>=◌, ◌>>◌, pure, modify, lift, when, subst,
}
use vapor_chain.Store.{set}
use vapor_chain.Host.{at_addr}
use vapor_chain.Settle.Types.{Addr, Denom, amount_of}
use vapor_chain.Apps.Types.{Params}
use vapor_chain.Apps.Env.{Env, State, M, call, get_params}
use vapor_chain.Apps.Registry.{
  Fields, validate_recipient, check_fields, burn_fee, next_id, fresh_id, registered, recipient_or,
  register_app,
}
use vapor_chain.Apps.Msgs.{register_msg}
use vapor_chain.Apps.Writes.{
  Write, Writes, IsWritten, call-Ensures, call_then-Ensures, IsWritten-after, one,
}
use vapor_chain.Apps.Writes.Registry.{read-IsWritten, guard-IsWritten}

-- An amount at an account, and at none other.
pub at_addr_self : (a : Addr) (x : ℤ) → at_addr a a x ≡ x
at_addr_self a x = ground arith

pub at_addr_ne : (a b : Addr) (x : ℤ) → (b == a) ≡ false → at_addr a b x ≡ pos 0
at_addr_ne a b x h = ground arith

module _ (E : Env) where
  -- Writes that allocate no id.
  abbrev IsUnallocated : State E → State E → Type 0
  IsUnallocated s t = Writes E s t × (t.next_app_id ≡ s.next_app_id)

  through :
      (owner : Addr) (fee : Denom × ℤ) (s : State E) (w u : E.bank.World)
      → (owner == E.apps_account) ≡ false
      → E.bank.account_to_module owner E.apps_account (fee ∷ []) s.world ≡ ok w
      → E.bank.burn_coins E.apps_account (fee ∷ []) w ≡ ok u
      → Write E s (record s { world = u })
  through owner fee s w u other taken burned = Write.enriches u s (λ d.
      let x = amount_of (fee ∷ []) d in
      omega (
        int_laws,
        E.bank.account_to_module_lem owner E.apps_account (fee ∷ []) s.world w taken E.apps_account
            d,
        E.bank.burn_coins_lem E.apps_account (fee ∷ []) w u burned E.apps_account d,
        at_addr_self E.apps_account x,
        at_addr_ne E.apps_account owner x other,
      ))

  burn_fee-Ensures :
      (p : Params) (owner : Addr) (s : State E)
      → (owner == E.apps_account) ≡ false
      → Ensures (λ _ t. IsUnallocated s t) (burn_fee E p owner s)
  unfolding burn_fee
  burn_fee-Ensures p owner s other =
      let fee = p.registration_fee in
      let take = E.bank.account_to_module owner E.apps_account (fee ∷ []) in
      let burn = E.bank.burn_coins E.apps_account (fee ∷ []) in
      let Q = λ (_ : Unit {0}) (t : State E). IsUnallocated s t in
      charged (is_positive fee.1) (call E take >> call E burn) s (
        call_then-Ensures E take (call E burn) Q s (λ w taken.
          call-Ensures E burn Q (record s { world = w })
            (λ u burned. (one E (through owner fee s w u other taken burned), refl))))
    where
      charged :
          (b : Bool) (m : M E (Unit {0})) (s : State E)
          → Ensures (λ _ t. IsUnallocated s t) (m s)
          → Ensures (λ _ t. IsUnallocated s t) (when b m s)
      charged true m s h = h
      charged false m s h = (Writes.no_more, refl)

  -- The id is new, and the next one is above it.
  abbrev IsNew : State E → ℕ → State E → Type 0
  IsNew s id t = (s.next_app_id ≤ id) × (t ≡ record s { next_app_id = id + 1 })

  next_id-IsNew : (s : State E) → s.next_app_id + 1 < 2 ^ 64 → Ensures (IsNew s) (next_id E s)
  unfolding next_id
  next_id-IsNew s h = (omega arith, ap (λ n. record s { next_app_id = n }) (small s.next_app_id h))
    where
      small : (n : ℕ) → n + 1 < 2 ^ 64 → (n + 1) % 2 ^ 64 ≡ n + 1
      small n h = omega arith

  fresh_id-IsNew : (s : State E) → s.next_app_id + 2 < 2 ^ 64 → Ensures (IsNew s) (fresh_id E s)
  unfolding fresh_id
  fresh_id-IsNew s h =
      >>=_Ensures (next_id E) (λ id. if id == 0 then next_id E else pure id) (IsNew s) (IsNew s) s
        (next_id-IsNew s (omega arith)) (λ id t (above, is). again id t above is)
    where
      later :
          (id : ℕ)
          → s.next_app_id ≤ id
          → (r : Result ℕ × State E) → Ensures (IsNew (record s { next_app_id = id + 1 })) r
          → Ensures (IsNew s) r
      later id above (err e, u) new = tt
      later id above (ok n, u) new = (omega (arith, new.0), new.1)

      again :
          (id : ℕ) (t : State E)
          → s.next_app_id ≤ id
          → t ≡ record s { next_app_id = id + 1 }
          → Ensures (IsNew s) ((if id == 0 then next_id E else pure id) t)
      again id t above is = elim (Bool-cases (id == 0)) [
        | inr other ↦ rw other (above, is)
        | inl reserved ↦
            let zero_id : id ≡ 0 = (==_iff id 0).0 reserved in
            rw reserved (
              subst (λ (u : State E). Ensures (IsNew s) (next_id E u)) (sym is)
                (later id above (next_id E (record s { next_app_id = id + 1 }))
                  (next_id-IsNew (record s { next_app_id = id + 1 }) (omega arith))))
      ]

  -- A registration by an account that is not the module's, while there are ids left.
  pub register_msg-IsWritten :
      (height : ℕ) (owner : Addr) (f : Fields) (s : State E)
      → (owner == E.apps_account) ≡ false
      → s.next_app_id + 2 < 2 ^ 64
      → IsWritten E s (register_msg E height owner f s)
  unfolding register_msg register_app
  register_msg-IsWritten height owner given s other left =
      let f = recipient_or E owner given in
      let p = get_params E s in
      let Q = λ (_ : ℕ) (t : State E). Writes E s t in
      let store = λ (id : ℕ).
        modify (λ (t : State E). record t { apps = set id (registered E height owner f id) t.apps })
        >> pure id in
      let allot = fresh_id E >>= store in
      let paying = burn_fee E p owner >> allot in
      let fields = lift (check_fields E p f) >> paying in
      let known = lift (validate_recipient E f.recipient) >> fields in
      guard-IsWritten E s (E.texts.is_bech32 owner) Error.bad_address
        (register_app E height owner given)
        (λ _.
          read-IsWritten E s (validate_recipient E f.recipient) (λ _. fields)
            (λ _ _.
              read-IsWritten E s (check_fields E p f) (λ _. paying)
                (λ _ _.
                  >>=_Ensures (burn_fee E p owner) (λ _. allot) (λ _ t. IsUnallocated s t) Q s
                    (burn_fee-Ensures p owner s other)
                    (λ _ t (w, same).
                      IsWritten-after E w (allot t)
                        (stored height owner f t (low s t left same))))))
    where
      low :
          (s t : State E)
          → s.next_app_id + 2 < 2 ^ 64
          → t.next_app_id ≡ s.next_app_id
          → t.next_app_id + 2 < 2 ^ 64
      low s t h same = omega arith

      stored :
          (height : ℕ) (owner : Addr) (f : Fields) (t : State E)
          → t.next_app_id + 2 < 2 ^ 64
          → IsWritten E t (
              (fresh_id E >>= λ id.
              modify (λ (t : State E). record t {
                apps = set id (registered E height owner f id) t.apps;
              })
              >> pure id)
                t)
      stored height owner f t h =
          >>=_Ensures (fresh_id E)
            (λ id.
              modify (λ (t : State E). record t {
                apps = set id (registered E height owner f id) t.apps;
              })
              >> pure id)
            (IsNew t) (λ _ u. Writes E t u) t (fresh_id-IsNew t h)
            (λ id u (new, is).
              subst
                (λ (v : State E).
                  Writes E t (record v { apps = set id (registered E height owner f id) v.apps }))
                (sym is) (one E (Write.registers id (registered E height owner f id) t new refl)))
