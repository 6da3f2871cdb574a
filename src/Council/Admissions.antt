-- ===== src/Council/Admissions.antt =====
-- The admissions of chain/x/council: the power that they grant, and that a removal is for good.
use vapor_chain.Prelude.{
  ℕ, ◌≡◌, refl, sym, ap, ◌∙◌, inl, inr, Bool, true, false, not, Option, none, some, [], ◌∷◌, arith,
  Bool-cases, Option-cases, nat_eq, ℤ, pos, ◌+ℤ◌, ◌≤ℤ◌, ltb_ℤ, is_positive, Result, ok, err, Error,
  Ensures, >>=_Ensures, guard_Ensures, lift-Ensures, Result-cases, ◌>>=◌, ◌>>◌, gets, modify,
  require, lift,
}
use vapor_chain.Store.{get, set, get-set_self}
use vapor_chain.Settle.Types.{Addr}
use vapor_chain.Council.Keeper.{
  Admission, Env, State, call, get_params, is_removed, open_admission, admit_validator,
}

-- What an admission that may be missing grants, and whether it is a removed one.
abbrev pub granted_by : Option Admission → ℤ
granted_by none = pos 0
granted_by (some a) = a.power_granted

abbrev pub removed_by : Option Admission → Bool
removed_by none = false
removed_by (some a) = a.removed

no_more : (limit x : ℤ) → not (ltb_ℤ limit x) ≡ true → x ≤ℤ limit
no_more limit x h = ground arith

module _ (E : Env) where
  -- The admission that is added to is the operator's own, and is not removed.
  pub open-granted :
      (height : ℕ) (operator : Addr) (o : Option Admission) (a : Admission)
      → open_admission E height operator o ≡ ok a
      → (a.power_granted ≡ granted_by o) × (removed_by o ≡ false)
  unfolding open_admission
  open-granted height operator none a h = (sym (ap (λ r. granted_by (found r)) h), refl)
    where
      found : Result Admission → Option Admission
      found (ok b) = some b
      found (err f) = none
  open-granted height operator (some b) a h = elim (Bool-cases b.removed) [
    | inl gone ↦ absurd (refused (rw gone at h))
    | inr here ↦ (sym (ap (λ r. granted_by (found r)) (rw here at h)), here)
  ]
    where
      found : Result Admission → Option Admission
      found (ok c) = some c
      found (err f) = none

      refused : err Error.removed ≡ ok a → ⊥
      refused k = cc

  abbrev pub granted : State E → Addr → ℤ
  granted s operator = granted_by (get operator s.admissions)

  abbrev pub SameBooks : State E → State E → Type 0
  SameBooks s t = t.admissions ≡ s.admissions

  pub call-SameBooks :
      (f : E.bank.World → Result E.bank.World) (s : State E)
      → Ensures (λ _ t. SameBooks s t) (call E f s)
  unfolding call
  call-SameBooks f s = elim (Result-cases (f s.world)) [
    | inl (w, done) ↦ rw (done, call) refl
    | inr (g, failed) ↦ rw (failed, call) tt
  ]

  not_removed :
      (s : State E) (operator : Addr)
      → removed_by (get operator s.admissions) ≡ false
      → is_removed E s operator ≡ false
  unfolding is_removed
  not_removed s operator h = elim (Option-cases (get operator s.admissions)) [
    | inl missing ↦ rw (missing, is_removed) refl
    | inr (a, found) ↦ rw (found, is_removed) (rw found at h)
  ]

  -- What an admission of a power within a limit brings about, from one state to another.
  abbrev pub Granted : State E → Addr → ℤ → ℤ → State E → Type 0
  Granted s operator power limit t =
      (granted t operator ≡ granted s operator +ℤ power)
      × (granted t operator ≤ℤ limit)
      × (is_removed E s operator ≡ false)

  -- An admission that succeeds, under parameters with a cap, adds its power to what the operator
  -- was granted, the sum is at most the cap, and the operator was not removed.
  pub admit_validator-capped :
      (height : ℕ) (operator : Addr) (power limit : ℤ) (memo : ℕ) (s : State E)
      → (get_params E s).max_power_per_validator ≡ some limit
      → Ensures
          (λ _ t. Granted s operator power limit t)
          (admit_validator E height operator (some power) memo s)
  unfolding admit_validator
  admit_validator-capped height operator power limit memo s capped =
      let Q = λ (_ : Unit {0}) (t : State E). Granted s operator power limit t in
      let mint = call E (E.bank.mint_coins E.module_account ((E.power_denom, power) ∷ [])) in
      let send =
        call E (E.bank.module_to_account E.module_account operator ((E.power_denom, power) ∷ [])) in
      let write = λ (a : Admission). modify (λ (t : State E). record t {
        admissions =
            set operator (record a { power_granted = a.power_granted +ℤ power; memo = memo })
              t.admissions;
      }) in
      let granting = λ (a : Admission). mint >> (send >> write a) in
      let total_fits = λ (a : Admission).
        require (not (ltb_ℤ limit (a.power_granted +ℤ power))) Error.invalid_power >> granting a in
      let adding = gets (λ (t : State E). get operator t.admissions) >>= λ found.
      lift (open_admission E height operator found) >>= total_fits in
      let limited = require (not (ltb_ℤ limit power)) Error.invalid_power >> adding in
      rw capped (
        guard_Ensures (is_positive power) Error.invalid_power limited Q s (λ _.
          guard_Ensures (not (ltb_ℤ limit power)) Error.invalid_power adding Q s (λ _.
            lift-Ensures (open_admission E height operator (get operator s.admissions)) total_fits Q
              s
              (λ a opened.
                guard_Ensures (not (ltb_ℤ limit (a.power_granted +ℤ power))) Error.invalid_power
                  (granting a) Q s
                  (λ fits.
                    >>=_Ensures mint (λ _. send >> write a) (λ _ t. SameBooks s t) Q s
                      (call-SameBooks
                        (E.bank.mint_coins E.module_account ((E.power_denom, power) ∷ [])) s)
                      (λ _ t _.
                        >>=_Ensures send (λ _. write a) (λ _ u. SameBooks t u) Q t
                          (call-SameBooks
                            (E.bank.module_to_account E.module_account operator
                              ((E.power_denom, power) ∷ []))
                            t)
                          (λ _ u _. written a opened fits u)))))))
    where
      written :
          (a : Admission)
          → open_admission E height operator (get operator s.admissions) ≡ ok a
          → not (ltb_ℤ limit (a.power_granted +ℤ power)) ≡ true
          → (u : State E)
          → Granted s operator power limit (record u {
            admissions =
                set operator
                  (record a { power_granted = a.power_granted +ℤ power; memo = memo })
                  u.admissions;
          })
      written a opened fits u =
          let grown = ap granted_by (get-set_self operator _ u.admissions) in
          let before = open-granted height operator (get operator s.admissions) a opened in
          (
            grown ∙ ap (λ x. x +ℤ power) before.0,
            rw grown (no_more limit (a.power_granted +ℤ power) fits),
            not_removed s operator before.1,
          )
