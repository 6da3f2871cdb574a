-- ===== src/Prelude/Errors.antt =====
-- Errors as values, and actions on a state. A failed action keeps what it has written: undoing it
-- is the business of whoever holds the cached context (`atomically`).
use mathlib.Core.Path.{◌≡◌, refl, sym, subst}
use mathlib.Core.Logic.{◌⊎◌, inl, inr}
use mathlib.Core.Bool.{Bool, true, false}
use mathlib.Core.Option.{Option, none, some}

-- The errors that chain/x/{settle,apps,council}/types/errors.go register and those of the bank.
pub data Error : Type 0 where
  unauthorized asset_not_allowed paused invalid_amount invalid_recipient insufficient_pool : Error
  allowance_exceeded tab_not_found credits_disabled invalid_params relayer_cap : Error
  app_revoked nothing_to_claim invariant_violation self_payment : Error
  app_unauthorized app_not_found invalid_proof already_bound too_many_contracts not_bound : Error
  no_pending_move no_pending_claim invalid_app_params invalid_field app_inactive : Error
  move_pending not_contract no_pending_owner bonding_disabled invalid_bond : Error
  insufficient_bond : Error
  council_unauthorized not_admitted removed invalid_power invalid_target foreign_delegation : Error
  invalid_council_params target_paused guardian_cannot_unset : Error
  invalid_denom bad_address bank_failure staking_failure panicked : Error

pub data Result (A : Type 0) : Type 0 where
  ok : A → Result A
  err : Error → Result A

abbrev pub Action : Type 0 → Type 0 → Type 0
Action S A = S → Result A × S

module _ {S : Type 0} where
  abbrev pub pure : {A : Type 0} → A → Action S A
  pure a s = (ok a, s)

  abbrev pub raise : {A : Type 0} → Error → Action S A
  raise e s = (err e, s)

  abbrev pub gets : {A : Type 0} → (S → A) → Action S A
  gets f s = (ok (f s), s)

  abbrev pub modify : (S → S) → Action S (Unit {0})
  modify f s = (ok tt, f s)

  -- An early return with an error where the test fails.
  abbrev pub require : Bool → Error → Action S (Unit {0})
  require true e s = (ok tt, s)
  require false e s = (err e, s)

  abbrev pub lift : {A : Type 0} → Result A → Action S A
  lift r s = (r, s)

  -- A result that depends on the state.
  abbrev pub read : {A : Type 0} → (S → Result A) → Action S A
  read f s = (f s, s)

  infixl 5 ◌>>=◌ ◌>>◌
  abbrev pub ◌>>=◌ : {A B : Type 0} → Action S A → (A → Action S B) → Action S B
  ◌>>=◌ m f s = let (r, t) = m s in elim r [ ok a ↦ f a t | err e ↦ (err e, t) ]

  abbrev pub ◌>>◌ : {A B : Type 0} → Action S A → Action S B → Action S B
  m >> k = m >>= λ _. k

  -- `if c { body }`, for a body that may fail.
  abbrev pub when : Bool → Action S (Unit {0}) → Action S (Unit {0})
  when true m = m
  when false m = pure tt

  -- The cached context of a transaction, or the EVM's snapshot: a failure undoes every write.
  abbrev pub atomically : {A : Type 0} → Action S A → Action S A
  atomically m s = let (r, t) = m s in elim r [ ok a ↦ (ok a, t) | err e ↦ (err e, s) ]

  -- What holds when an action has succeeded; nothing is said of one that failed.
  abbrev pub Ensures : {A : Type 0} → (A → S → Type 0) → Result A × S → Type 0
  Ensures Q (ok a, t) = Q a t
  Ensures Q (err e, t) = Unit {0}

  pub >>=_Ensures :
      {A B : Type 0} (m : Action S A) (f : A → Action S B) (R : A → S → Type 0) (Q : B → S → Type 0)
      (s : S)
      → Ensures R (m s)
      → ((a : A) (t : S) → R a t → Ensures Q (f a t))
      → Ensures Q ((m >>= f) s)
  >>=_Ensures {A = A} m f R Q s h k = go (m s) h
    where
      go :
          (r : Result A × S)
          → Ensures R r
          → Ensures Q (elim r.0 [ ok a ↦ f a r.1 | err e ↦ (err e, r.1) ])
      go (ok a, t) h = k a t h
      go (err e, t) h = tt

  -- A guard before the rest: the rest may use that it holds.
  pub guard_Ensures :
      {B : Type 0} (b : Bool) (f : Error) (k : Action S B) (Q : B → S → Type 0) (s : S)
      → (b ≡ true → Ensures Q (k s))
      → Ensures Q ((require b f >> k) s)
  guard_Ensures true f k Q s h = h refl
  guard_Ensures false f k Q s h = tt

  -- A result that is read before the rest.
  pub lift-Ensures :
      {A B : Type 0} (r : Result A) (k : A → Action S B) (Q : B → S → Type 0) (s : S)
      → ((a : A) → r ≡ ok a → Ensures Q (k a s))
      → Ensures Q ((lift r >>= k) s)
  lift-Ensures (ok a) k Q s h = h a refl
  lift-Ensures (err f) k Q s h = tt

  -- What an action that undoes its failures leaves behind.
  pub atomically-Ensures :
      {A : Type 0} (m : Action S A) (P : S → Type 0) (s : S)
      → P s
      → Ensures (λ _ t. P t) (m s)
      → P (atomically m s).1
  atomically-Ensures {A = A} m P s before h = go (m s) h
    where
      go :
          (r : Result A × S)
          → Ensures (λ _ t. P t) r
          → (let out : Result A × S = elim r.0 [ ok a ↦ (ok a, r.1) | err e ↦ (err e, s) ] in
              P out.1)
      go (ok a, t) h = h
      go (err e, t) h = before

  -- The state that a sequence leaves, whether or not it fails.
  module _ {A B : Type 0} (m : Action S A) (f : A → Action S B) (P : S → Type 0) (s : S) where
    abbrev LeftBy : Result A × S → Type 0
    LeftBy r =
        let out : Result B × S = elim r.0 [ ok a ↦ f a r.1 | err e ↦ (err e, r.1) ] in P out.1

    pub after_ok : (a : A) (t : S) → m s ≡ (ok a, t) → P (f a t).1 → P ((m >>= f) s).1
    after_ok a t done h = subst LeftBy (sym done) h

    pub after_err : (e : Error) (t : S) → m s ≡ (err e, t) → P t → P ((m >>= f) s).1
    after_err e t failed h = subst LeftBy (sym failed) h

abbrev pub or_err : {A : Type 0} → Option A → Error → Result A
or_err none e = err e
or_err (some a) e = ok a

pub Result-cases :
    {A : Type 0} (r : Result A) → ((a : A) × (r ≡ ok a)) ⊎ ((e : Error) × (r ≡ err e))
Result-cases (ok a) = inl (a, refl)
Result-cases (err e) = inr (e, refl)

-- Two postconditions of one call.
pub Ensures-both :
    {S A : Type 0} (P Q : A → S → Type 0) (x : Result A × S)
    → Ensures P x
    → Ensures Q x
    → Ensures (λ a t. P a t × Q a t) x
Ensures-both P Q (ok a, t) p q = (p, q)
Ensures-both P Q (err e, t) p q = tt

-- What holds of an action that succeeds: it does, and then this holds.
abbrev pub Succeeds : {S A : Type 0} → (A → S → Type 0) → Result A × S → Type 0
Succeeds Q (ok a, t) = Q a t
Succeeds Q (err e, t) = ⊥

module _ {S A B : Type 0} where
  pub >>=_Succeeds :
      (m : Action S A) (k : A → Action S B) (R : A → S → Type 0) (Q : B → S → Type 0) (s : S)
      → Succeeds R (m s)
      → ((a : A) (t : S) → R a t → Succeeds Q (k a t))
      → Succeeds Q ((m >>= k) s)
  >>=_Succeeds m k R Q s h next = go (m s) h
    where
      go :
          (r : Result A × S)
          → Succeeds R r
          → Succeeds Q (elim r.0 [ ok a ↦ k a r.1 | err e ↦ (err e, r.1) ])
      go (ok a, t) h = next a t h
      go (err e, t) h = absurd h

  -- A read that gives a value.
  pub lift-Succeeds :
      (r : Result A) (a : A) (k : A → Action S B) (Q : B → S → Type 0) (s : S)
      → r ≡ ok a
      → Succeeds Q (k a s)
      → Succeeds Q ((lift r >>= k) s)
  lift-Succeeds r a k Q s is h = subst (λ x. Succeeds Q ((lift x >>= k) s)) (sym is) h
