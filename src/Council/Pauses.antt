-- ===== src/Council/Pauses.antt =====
-- The emergency pauses of chain/x/council: what a guardian's pause does, and what the pruning of the
-- expired pauses leaves.
use vapor_chain.Prelude.{
  ℕ, ◌+◌, ◌%◌, ◌^◌, ◌≤◌, ◌<◌, ◌≡◌, refl, sym, ap, ◌∙◌, inl, inr, true, false, ◌||◌, some, List, [],
  ◌∷◌, arith, ◌==◌, ltb, contains, All, Bool-cases, Option-cases, ltb_no, nat_eq, pair_eq,
  pair_beq_iff, pos, eqb_ℤ, ltb_ℤ, ok,
}
use vapor_chain.Store.{Map, get, remove, get-set_self}
use vapor_chain.Store.Keys.{IsMap, remove-IsMap, get-cons, get-remove_cases}
use vapor_chain.Settle.Types.{Addr}
use vapor_chain.Council.Keeper.{
  Target, Pause, Env, State, get_params, to_int64, is_pause_active, active_at, expired_at,
  remove_all, validate_target, is_paused, set_pause, prune_expired_pauses,
}
use vapor_chain.Council.Msgs.{expiry, change_pause, set_pause_msg}

-- A guardian's expiry, read back.
guardian_expiry :
    (height blocks later : ℕ)
    → 0 < blocks
    → height + blocks < 2 ^ 63
    → (eqb_ℤ (to_int64 ((height + blocks) % 2 ^ 64)) (pos 0)
        || ltb_ℤ (pos later) (to_int64 ((height + blocks) % 2 ^ 64)))
      ≡ ltb later (height + blocks)
guardian_expiry height blocks later some_blocks small = ground arith

inactive_later :
    (h later : ℕ) (p : Pause)
    → h ≤ later
    → is_pause_active h p ≡ false
    → is_pause_active later p ≡ false
unfolding is_pause_active
inactive_later h later p after gone = ground arith

-- A key holds a pause that is not active at a height.
abbrev IsExpired : ℕ → Map Target Pause → Target → Type 0
IsExpired h m t = (p : Pause) × (get t m ≡ some p) × (is_pause_active h p ≡ false)

All-map :
    {P Q : Target → Type 0} (ts : List Target) → ((t : Target) → P t → Q t) → All P ts → All Q ts
All-map [] f h = tt
All-map (t ∷ ts) f (p, ps) = (f t p, All-map ts f ps)

expired_at-IsExpired :
    (h : ℕ) (m : Map Target Pause) → IsMap m → All (IsExpired h m) (expired_at h m)
unfolding expired_at get
expired_at-IsExpired h [] v = tt
expired_at-IsExpired h ((t, p) ∷ m) v =
    let rest =
      All-map {P = IsExpired h m} {Q = IsExpired h ((t, p) ∷ m)} (expired_at h m) deeper
        (expired_at-IsExpired h m v.1) in
    elim (Bool-cases (is_pause_active h p)) [
      | inl active ↦ rw (active, expired_at) rest
      | inr gone ↦ rw (gone, expired_at) ((p, rw ((pair_beq_iff t t).1 refl) refl, gone), rest)
    ]
  where
    deeper : (k : Target) → IsExpired h m k → IsExpired h ((t, p) ∷ m) k
    deeper k (q, found, gone) = (q, get-cons k t q p m v.0 found, gone)

-- At a height where one key holds nothing active, its removal changes no answer.
remove-active_at :
    (h : ℕ) (k j : Target) (m : Map Target Pause)
    → IsMap m
    → active_at h (get k m) ≡ false
    → active_at h (get j (remove k m)) ≡ active_at h (get j m)
unfolding active_at
remove-active_at h k j m v gone = elim (get-remove_cases k j m v) [
  | inr kept ↦ ap (active_at h) kept
  | inl (same, missing) ↦
      let before : active_at h (get j m) ≡ false = rw same gone in
      ap (active_at h) missing ∙ sym before
]

-- So with the keys of a list, none of which holds anything active.
remove_all-active_at :
    (h : ℕ) (ts : List Target) (j : Target) (m : Map Target Pause)
    → IsMap m
    → All (λ t. active_at h (get t m) ≡ false) ts
    → active_at h (get j (remove_all ts m)) ≡ active_at h (get j m)
unfolding remove_all
remove_all-active_at h [] j m v hs = refl
remove_all-active_at h (t ∷ ts) j m v (gone, hs) =
    let left = remove t m in
    remove_all-active_at h ts j left (remove-IsMap t m v)
      (All-map ts (λ k expired. remove-active_at h t k m v gone ∙ expired) hs)
    ∙ remove-active_at h t j m v gone

module _ (E : Env) where
  -- The pause that a guardian's message stores is active for the blocks that the parameters set.
  pub guardian_pause-stored :
      (height later : ℕ) (signer : Addr) (t : Target) (reason : ℕ) (s : State E)
      → validate_target E t ≡ ok tt
      → ltb 512 (E.text_length reason) ≡ false
      → (signer == E.authority) ≡ false
      → contains (get_params E s).guardians signer ≡ true
      → 0 < (get_params E s).guardian_pause_max_blocks
      → height + (get_params E s).guardian_pause_max_blocks < 2 ^ 63
      → ((set_pause_msg E height signer t reason true s).0 ≡ ok tt)
        × (is_paused E (set_pause_msg E height signer t reason true s).1 later t
            ≡ ltb later (height + (get_params E s).guardian_pause_max_blocks))
  unfolding set_pause_msg change_pause set_pause is_paused expiry active_at is_pause_active
  guardian_pause-stored height later signer t reason s valid short other guardian some_blocks
        small =
      rw (valid, short, other, guardian)
        (
          refl,
          (ap (active_at later) (get-set_self t _ s.pauses)
              ∙ guardian_expiry height (get_params E s).guardian_pause_max_blocks later some_blocks
                  small),
        )

  still_unpaused :
      (h later : ℕ) (t : Target) (s : State E)
      → h ≤ later
      → is_paused E s h t ≡ false
      → is_paused E s later t ≡ false
  unfolding is_paused active_at
  still_unpaused h later t s after gone = elim (Option-cases (get t s.pauses)) [
    | inl missing ↦ rw (missing, active_at) refl
    | inr (p, found) ↦
        rw (found, active_at) (inactive_later h later p after (rw (found, active_at) at gone))
  ]

  -- A guardian who is not the governance, and gives a reason of at most 512 bytes, pauses a valid
  -- target for the number of blocks that the parameters set, from the block of the message on, and
  -- takes no pause away: at every height the target is paused then if it lies in these blocks or the
  -- target was paused before. That number is positive, the expiry is below 2^63, and the earlier
  -- pause, if there is one, does not outlast the new one; so none of the governance's pauses without
  -- an expiry is replaced.
  pub guardian_pause-expires :
      (height later : ℕ) (signer : Addr) (t : Target) (reason : ℕ) (s : State E)
      → validate_target E t ≡ ok tt
      → ltb 512 (E.text_length reason) ≡ false
      → (signer == E.authority) ≡ false
      → contains (get_params E s).guardians signer ≡ true
      → 0 < (get_params E s).guardian_pause_max_blocks
      → height + (get_params E s).guardian_pause_max_blocks < 2 ^ 63
      → is_paused E s (height + (get_params E s).guardian_pause_max_blocks) t ≡ false
      → ((set_pause_msg E height signer t reason true s).0 ≡ ok tt)
        × (is_paused E (set_pause_msg E height signer t reason true s).1 later t ≡ (
            ltb later (height + (get_params E s).guardian_pause_max_blocks)
            || is_paused E s later t))
  guardian_pause-expires height later signer t reason s valid short other guardian some_blocks small
        lapses =
      let stored =
        guardian_pause-stored height later signer t reason s valid short other guardian some_blocks
          small in
      let until = height + (get_params E s).guardian_pause_max_blocks in
      (
        stored.0,
        stored.1 ∙ elim (Bool-cases (ltb later until)) [
          | inl within ↦ rw within refl
          | inr over ↦
              rw (over, still_unpaused until later t s (ltb_no later until over) lapses) refl
        ],
      )

  -- The pruning at a height changes no answer at that height or later, where no target has two
  -- pauses.
  pub prune-is_paused :
      (height later : ℕ) (t : Target) (s : State E)
      → IsMap s.pauses
      → height ≤ later
      → is_paused E (prune_expired_pauses E height s) later t ≡ is_paused E s later t
  unfolding prune_expired_pauses is_paused
  prune-is_paused height later t s v after =
      remove_all-active_at later (expired_at height s.pauses) t s.pauses v (
        All-map (expired_at height s.pauses) (λ k expired. silent k expired)
          (expired_at-IsExpired height s.pauses v))
    where
      silent : (k : Target) → IsExpired height s.pauses k → active_at later (get k s.pauses) ≡ false
      silent k (p, found, gone) =
          unfold active_at in rw found (inactive_later height later p after gone)
