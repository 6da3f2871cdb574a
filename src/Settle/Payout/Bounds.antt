-- ===== src/Settle/Payout/Bounds.antt =====
-- A payout (chain/x/settle/keeper/payout.go) never pays more of a denomination than its pool holds.
use native.Mathlib.Nat.{div-mul-le_self}
use vapor_chain.Prelude.{
  ℕ, ◌+◌, ◌*◌, ◌/◌, ◌≤◌, ◌<◌, ◌≡◌, refl, sym, ap, ◌∙◌, subst, inl, inr, List, [], ◌∷◌, arith,
  if◌then◌else◌, Bool-cases, ℤ, pos, ◌+ℤ◌, ◌≤ℤ◌, is_positive, +ℤ_pos, *ℤ_pos, /ℤ_pos, Result, ok,
  err, Ensures, >>=_Ensures,
}
use vapor_chain.Settle.Types.{Addr, Denom}
use vapor_chain.Settle.Env.{Env, State}
use vapor_chain.Settle.Pay.{send_positive}
use vapor_chain.Settle.Payout.{share_of, total_weight, pay_each}

-- Payees whose weights are not negative, as power times uptime is.
abbrev pub weighted : List (Addr × ℕ) → List (Addr × ℤ)
weighted [] = []
weighted ((a, w) ∷ ps) = (a, pos w) ∷ weighted ps

abbrev pub weight_sum : List (Addr × ℕ) → ℕ
weight_sum [] = 0
weight_sum ((a, w) ∷ ps) = w + weight_sum ps

total_weight-weighted : (ps : List (Addr × ℕ)) → total_weight (weighted ps) ≡ pos (weight_sum ps)
unfolding total_weight
total_weight-weighted [] = refl
total_weight-weighted ((a, w) ∷ ps) =
    ap (λ x. pos w +ℤ x) (total_weight-weighted ps) ∙ +ℤ_pos w (weight_sum ps)

share-pos : (b t w : ℕ) → share_of (pos b) (pos t) (pos w) ≡ pos (b * w / t)
unfolding share_of
share-pos b t w = rw (*ℤ_pos b w) (/ℤ_pos (b * w) t)

paid-pos : (p k : ℕ) → (if is_positive (pos k) then pos p +ℤ pos k else pos p) ≡ pos (p + k)
paid-pos p k = elim (Bool-cases (is_positive (pos k))) [
  | inl some_share ↦ rw some_share (+ℤ_pos p k)
  | inr no_share ↦ rw no_share (ap pos (ground arith))
]

step_sum :
    (p k t b w rest q : ℕ)
    → k * t ≤ b * w
    → q * t ≤ (p + k) * t + b * rest
    → q * t ≤ p * t + b * (w + rest)
step_sum p k t b w rest q one more = omega (arith, one, more)

cancel_times : (q b t : ℕ) → 0 < t → q * t ≤ b * t → q ≤ b
cancel_times q b t some_weight h = grind arith

Ensures-any : {S A : Type 0} (x : Result A × S) → Ensures (λ _ _. Unit {0}) x
Ensures-any (ok a, s) = tt
Ensures-any (err f, s) = tt

module _ (E : Env) (d : Denom) (b t : ℕ) where
  -- What has been paid after a loop over payees, times the whole weight.
  abbrev IsBounded : ℕ → ℕ → ℤ → Type 0
  IsBounded p rest paid = (q : ℕ) × (paid ≡ pos q) × (q * t ≤ p * t + b * rest)

  pay_each-IsBounded :
      (ps : List (Addr × ℕ)) (p : ℕ) (s : State E)
      → Ensures
          (λ paid _. IsBounded p (weight_sum ps) paid)
          (pay_each E d (pos b) (pos t) (weighted ps) (pos p) s)
  unfolding pay_each
  pay_each-IsBounded [] p s = (p, refl, omega arith)
  pay_each-IsBounded ((a, w) ∷ ps) p s =
      let k = b * w / t in
      let x = share_of (pos b) (pos t) (pos w) in
      let rest = λ (paid : ℤ). pay_each E d (pos b) (pos t) (weighted ps) paid in
      let next = if is_positive x then pos p +ℤ x else pos p in
      let is_next : next ≡ pos (p + k) =
        ap (λ y. if is_positive y then pos p +ℤ y else pos p) (share-pos b t w) ∙ paid-pos p k in
      >>=_Ensures (send_positive E a d x) (λ _. rest next) (λ _ _. Unit {0})
        (λ paid _. IsBounded p (w + weight_sum ps) paid) s (Ensures-any (send_positive E a d x s))
        (λ _ u _.
          subst (λ y. Ensures (λ paid _. IsBounded p (w + weight_sum ps) paid) (rest y u))
            (sym is_next) (weaken (rest (pos (p + k)) u) (pay_each-IsBounded ps (p + k) u)))
    where
      weaken :
          (r : Result ℤ × State E)
          → Ensures (λ paid _. IsBounded (p + b * w / t) (weight_sum ps) paid) r
          → Ensures (λ paid _. IsBounded p (w + weight_sum ps) paid) r
      weaken (err f, u) h = tt
      weaken (ok paid, u) (q, same, bound) = (
        q,
        same,
        step_sum p (b * w / t) t b w (weight_sum ps) q (div-mul-le_self (b * w) t) bound,
      )

module _ (E : Env) where
  -- A payout that succeeds, of a balance that is not negative, to payees whose weights are not
  -- negative and not all zero, pays no negative amount and at most the balance.
  pub pay_each-bounded :
      (d : Denom) (b : ℕ) (ps : List (Addr × ℕ)) (s : State E)
      → 0 < weight_sum ps
      → Ensures
          (λ paid _. (pos 0 ≤ℤ paid) × (paid ≤ℤ pos b))
          (pay_each E d (pos b) (total_weight (weighted ps)) (weighted ps) (pos 0) s)
  pay_each-bounded d b ps s some_weight =
      rw (total_weight-weighted ps) (within _ (pay_each-IsBounded E d b (weight_sum ps) ps 0 s))
    where
      within :
          (r : Result ℤ × State E)
          → Ensures (λ paid _. IsBounded E d b (weight_sum ps) 0 (weight_sum ps) paid) r
          → Ensures (λ paid _. (pos 0 ≤ℤ paid) × (paid ≤ℤ pos b)) r
      within (err f, u) h = tt
      within (ok paid, u) (q, same, bound) =
          let small : q ≤ b = cancel_times q b (weight_sum ps) some_weight (omega (arith, bound)) in
          rw same (omega arith, omega (arith, small))
