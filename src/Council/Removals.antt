-- ===== src/Council/Removals.antt =====
-- What each operation of chain/x/council does to an operator who was removed.
use vapor_chain.Prelude.{
  ℕ, ◌≡◌, refl, sym, ap, ◌∙◌, inl, inr, Bool, true, false, not, ◌&&◌, ◌||◌, Option, none, some, [],
  ◌∷◌, ◌==◌, ltb, contains, Bool-cases, ==_iff, nat_eq, pair_eq, arith, ℤ, ◌+ℤ◌, ltb_ℤ, is_positive,
  Result, Result-cases, Error, Ensures, >>=_Ensures, guard_Ensures, lift-Ensures, ◌>>=◌, ◌>>◌, gets,
  modify, require, lift, when, or_err,
}
use vapor_chain.Store.{Map, get, set, remove, get-set_self, get-set_ne}
use vapor_chain.Settle.Types.{Addr}
use vapor_chain.Council.Keeper.{
  Target, Params, Admission, StakingValidator, Env, State, M, call, get_params, open_admission,
  admit_validator, force_out, force_out_validator, remove_validator, set_pause, validate_target,
}
use vapor_chain.Council.Msgs.{set_pause_msg, change_pause, expiry}
use vapor_chain.Council.Admissions.{removed_by, SameBooks, call-SameBooks, open-granted}

module _ (E : Env) (op : Addr) where
  -- The operator is a removed one.
  abbrev pub Gone : State E → Type 0
  Gone s = removed_by (get op s.admissions) ≡ true

  write-Gone :
      (k : Addr) (a : Admission) (m : Map Addr Admission)
      → removed_by (get op m) ≡ true
      → (k ≡ op → a.removed ≡ true)
      → removed_by (get op (set k a m)) ≡ true
  write-Gone k a m gone own = elim (Bool-cases (op == k)) [
    | inl here ↦
        let same : op ≡ k = (==_iff op k).0 here in
        rw same (ap removed_by (get-set_self k a m) ∙ own (sym same))
    | inr there ↦
        ap removed_by (get-set_ne k op a m (λ p. ground (arith, (==_iff op k).1 p))) ∙ gone
  ]

  same-Gone : (s t : State E) → SameBooks E s t → Gone s → Gone t
  same-Gone s t same gone = ap (λ m. removed_by (get op m)) same ∙ gone

  call_then-Gone :
      (f : E.bank.World → Result E.bank.World) (k : M E (Unit {0})) (s : State E)
      → Gone s
      → ((t : State E) → SameBooks E s t → Gone t → Ensures (λ _ u. Gone u) (k t))
      → Ensures (λ _ u. Gone u) ((call E f >> k) s)
  call_then-Gone f k s gone next =
      >>=_Ensures (call E f) (λ _. k) (λ _ t. SameBooks E s t) (λ _ u. Gone u) s
        (call-SameBooks E f s) (λ _ t same. next t same (same-Gone s t same gone))

  when-call-Gone :
      (b : Bool) (f : E.bank.World → Result E.bank.World) (s : State E)
      → Gone s
      → Ensures (λ _ u. Gone u) (when b (call E f) s)
  unfolding call
  when-call-Gone false f s gone = gone
  when-call-Gone true f s gone = elim (Result-cases (f s.world)) [
    | inl (w, done) ↦ rw (done, call) gone
    | inr (g, failed) ↦ rw (failed, call) tt
  ]

  pub admit_validator-Gone :
      (height : ℕ) (operator : Addr) (asked : Option ℤ) (memo : ℕ) (s : State E)
      → Gone s
      → Ensures (λ _ t. Gone t) (admit_validator E height operator asked memo s)
  unfolding admit_validator
  admit_validator-Gone height operator asked memo s gone =
      let Q = λ (_ : Unit {0}) (t : State E). Gone t in
      let mint = λ (power : ℤ). E.bank.mint_coins E.module_account ((E.power_denom, power) ∷ []) in
      let send = λ (power : ℤ).
        E.bank.module_to_account E.module_account operator ((E.power_denom, power) ∷ []) in
      let write = λ (power : ℤ) (a : Admission). modify (λ (t : State E). record t {
        admissions =
            set operator (record a { power_granted = a.power_granted +ℤ power; memo = memo })
              t.admissions;
      }) in
      let granting = λ (power : ℤ) (a : Admission).
        call E (mint power) >> (call E (send power) >> write power a) in
      let total_fits = λ (power limit : ℤ) (a : Admission).
        require (not (ltb_ℤ limit (a.power_granted +ℤ power))) Error.invalid_power
        >> granting power a in
      let adding = λ (power limit : ℤ).
        gets (λ (t : State E). get operator t.admissions) >>= λ found.
        lift (open_admission E height operator found) >>= total_fits power limit in
      let limited = λ (power limit : ℤ).
        require (not (ltb_ℤ limit power)) Error.invalid_power >> adding power limit in
      let limit_of = (get_params E s).max_power_per_validator in
      let bounded = λ (power : ℤ). lift (or_err limit_of Error.panicked) >>= limited power in
      let positive =
        λ (power : ℤ). require (is_positive power) Error.invalid_power >> bounded power in
      lift-Ensures (or_err asked Error.invalid_power) positive Q s (λ power _.
        guard_Ensures (is_positive power) Error.invalid_power (bounded power) Q s (λ _.
          lift-Ensures (or_err limit_of Error.panicked) (limited power) Q s (λ limit _.
            guard_Ensures (not (ltb_ℤ limit power)) Error.invalid_power (adding power limit) Q s
              (λ _.
                lift-Ensures (open_admission E height operator (get operator s.admissions))
                  (total_fits power limit) Q s
                  (λ a opened.
                    guard_Ensures (not (ltb_ℤ limit (a.power_granted +ℤ power))) Error.invalid_power
                      (granting power a) Q s
                      (λ _.
                        call_then-Gone (mint power) (call E (send power) >> write power a) s gone
                          (λ t _ gone_t.
                            call_then-Gone (send power) (write power a) t gone_t (λ u _ gone_u.
                              write-Gone operator _ u.admissions gone_u (λ own. absurd (
                                never
                                  (open-granted E height operator (get operator s.admissions) a
                                    opened).1
                                  own))))))))))
    where
      never : removed_by (get operator s.admissions) ≡ false → operator ≡ op → ⊥
      never kept own = let lost : removed_by (get op s.admissions) ≡ false = rw (← own) kept in cc

  force_out-Gone :
      (cons : Addr) (val : StakingValidator) (s : State E)
      → Gone s
      → Ensures (λ _ t. Gone t) (force_out E cons val s)
  unfolding force_out
  force_out-Gone cons val s gone =
      let end = gets (λ (t : State E). t.world) >>= λ w.
      when (E.has_signing_info w cons && not (E.is_tombstoned w cons))
        (call E (E.tombstone cons)) in
      >>=_Ensures (when (not val.is_jailed) (call E (E.jail cons))) (λ _. end) (λ _ t. Gone t)
        (λ _ t. Gone t) s (when-call-Gone (not val.is_jailed) (E.jail cons) s gone)
        (λ _ t gone_t.
          when-call-Gone (E.has_signing_info t.world cons && not (E.is_tombstoned t.world cons))
            (E.tombstone cons) t gone_t)

  force_out_validator-Gone :
      (o : Option StakingValidator) (s : State E)
      → Gone s
      → Ensures (λ _ t. Gone t) (force_out_validator E o s)
  unfolding force_out_validator
  force_out_validator-Gone none s gone = gone
  force_out_validator-Gone (some val) s gone =
      lift-Ensures (or_err val.cons_addr Error.staking_failure) (λ cons. force_out E cons val)
        (λ _ t. Gone t) s (λ cons _. force_out-Gone cons val s gone)

  pub remove_validator-Gone :
      (operator : Addr) (reason : ℕ) (s : State E)
      → Gone s
      → Ensures (λ _ t. Gone t) (remove_validator E operator reason s)
  unfolding remove_validator
  remove_validator-Gone operator reason s gone =
      let Q = λ (_ : Unit {0}) (t : State E). Gone t in
      let mark = λ (a : Admission). modify (λ (t : State E). record t {
        admissions = set operator (record a { removed = true; memo = reason }) t.admissions;
      }) in
      let out = gets (λ (t : State E). t.world) >>= λ w.
      force_out_validator E (E.validator_of w operator) in
      let marked = λ (a : Admission). mark a >> out in
      let known = λ (a : Admission). require (not a.removed) Error.removed >> marked a in
      lift-Ensures (or_err (get operator s.admissions) Error.not_admitted) known Q s (λ a _.
        guard_Ensures (not a.removed) Error.removed (marked a) Q s (λ _.
          force_out_validator-Gone (E.validator_of s.world operator)
            (record s {
              admissions = set operator (record a { removed = true; memo = reason }) s.admissions;
            })
            (write-Gone operator _ s.admissions gone (λ _. refl))))

  change_pause-Gone :
      (gov : Bool) (height : ℕ) (signer : Addr) (t : Target) (reason : ℕ) (paused : Bool)
      (s : State E)
      → Gone s
      → Ensures (λ _ u. Gone u) (change_pause E gov height signer t reason paused s)
  unfolding change_pause set_pause
  change_pause-Gone gov height signer t reason true s gone =
      let write = λ (_ : Unit {0}). modify (λ (u : State E). record u {
        pauses =
            set t
              (record {
                target = t;
                set_by = signer;
                set_height = height;
                expires_height = expiry E gov height (get_params E s);
                reason = reason;
              })
              u.pauses;
      }) in
      lift-Ensures (validate_target E t) write (λ _ u. Gone u) s (λ _ _. gone)
  change_pause-Gone gov height signer t reason false s gone =
      guard_Ensures gov Error.guardian_cannot_unset
        (modify (λ (u : State E). record u { pauses = remove t u.pauses })) (λ _ u. Gone u) s
        (λ _. gone)

  pub set_pause_msg-Gone :
      (height : ℕ) (signer : Addr) (t : Target) (reason : ℕ) (paused : Bool) (s : State E)
      → Gone s
      → Ensures (λ _ u. Gone u) (set_pause_msg E height signer t reason paused s)
  unfolding set_pause_msg
  set_pause_msg-Gone height signer t reason paused s gone =
      let Q = λ (_ : Unit {0}) (u : State E). Gone u in
      let gov = signer == E.authority in
      let change = change_pause E gov height signer t reason paused in
      let entitled = λ (p : Params). gov || contains p.guardians signer in
      let asked =
        gets (get_params E) >>= λ p. require (entitled p) Error.council_unauthorized >> change in
      let short = not (ltb 512 (E.text_length reason)) in
      let read = λ (_ : Unit {0}). require short Error.invalid_target >> asked in
      lift-Ensures (validate_target E t) read Q s (λ _ _.
        guard_Ensures short Error.invalid_target asked Q s (λ _.
          guard_Ensures (entitled (get_params E s)) Error.council_unauthorized change Q s
            (λ _. change_pause-Gone gov height signer t reason paused s gone)))
