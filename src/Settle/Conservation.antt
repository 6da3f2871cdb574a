-- ===== src/Settle/Conservation.antt =====
-- What an operation of chain/x/settle does to the money of one denomination: the module's bank
-- balance, the running total of the ledgers, and their recount.
pub mod Steps
pub mod Payments
pub mod Escrow
pub mod Deposits
pub mod Claims
pub mod Credits
pub mod Pools
pub mod Payouts
pub mod Solvency
pub mod Burns
pub mod Reached
use vapor_chain.Prelude.{
  ◌≡◌, refl, sym, ap, ◌∙◌, ◌⊎◌, inl, inr, true, Option, none, some, arith, Eq, nat_eq, ℤ, pos, ◌+ℤ◌,
  ◌≤ℤ◌, pair_eq, is_zero, int_laws, Result, ok, err, ◌>>=◌, ◌>>◌, Ensures, >>=_Ensures, Bool, false,
  Error, require,
}
use vapor_chain.Store.{Map, get, set, remove, total, weight_of, total-set, total-remove}
use vapor_chain.Store.Keys.{IsMap, set-IsMap, remove-IsMap}
use vapor_chain.Store.Every.{Every}
use vapor_chain.Settle.Types.{Denom, Tab}
use vapor_chain.Settle.Env.{Env, State, M, TabKey}
use vapor_chain.Settle.Ledger.{int_of, get_int, add_int}
use vapor_chain.Settle.Blocks.{at_denom, recount}

zero_of_test : (x : ℤ) → is_zero x ≡ true → x ≡ pos 0
zero_of_test x h = ground arith

add_int-cases :
    {K : Type 0} ⦃e : Eq K⦄ (k : K) (delta : ℤ) (m t : Map K ℤ)
    → add_int k delta m ≡ ok t
    → ((is_zero (int_of (get k m) +ℤ delta) ≡ true) × (t ≡ remove k m))
      ⊎ (t ≡ set k (int_of (get k m) +ℤ delta) m)
unfolding add_int get_int
add_int-cases k delta m t h = ground arith

pub add_int-IsMap :
    {K : Type 0} ⦃e : Eq K⦄ (k : K) (delta : ℤ) (m t : Map K ℤ)
    → add_int k delta m ≡ ok t
    → IsMap m
    → IsMap t
add_int-IsMap k delta m t h v = elim (add_int-cases k delta m t h) [
  | inl (zero_sum, removed) ↦ rw removed (remove-IsMap k m v)
  | inr written ↦ rw written (set-IsMap k _ m v)
]

module _ {K : Type 0} ⦃e : Eq K⦄ (w : K → ℤ → ℤ) (k : K)
    (additive : (x y : ℤ) → w k (x +ℤ y) ≡ w k x +ℤ w k y) (at_zero : w k (pos 0) ≡ pos 0) where
  weight-int_of : (o : Option ℤ) → weight_of w k o ≡ w k (int_of o)
  weight-int_of none = sym at_zero
  weight-int_of (some v) = refl

  -- `addInt` moves a sum of weights by the weight of what it adds.
  pub total-add_int :
      (delta : ℤ) (m t : Map K ℤ) → add_int k delta m ≡ ok t → total w t ≡ total w m +ℤ w k delta
  total-add_int delta m t h =
      let cur = weight-int_of (get k m) in
      let next = additive (int_of (get k m)) delta in
      elim (add_int-cases k delta m t h) [
        | inl (zero_sum, removed) ↦
            let none_left : w k (int_of (get k m) +ℤ delta) ≡ pos 0 =
              ap (w k) (zero_of_test _ zero_sum) ∙ at_zero in
            rw removed (omega (int_laws, total-remove w k m, cur, next, none_left))
        | inr written ↦
            rw written (omega (int_laws, total-set w k (int_of (get k m) +ℤ delta) m, cur, next))
      ]

-- Movements of the balance, of the running total and of the recount.
pub record Delta : Type 0 where
  pub bank : ℤ
  pub owed : ℤ
  pub counted : ℤ

abbrev pub still : Delta
still = record { bank = pos 0; owed = pos 0; counted = pos 0 }

-- Money that comes in and is booked, or that is booked out and leaves.
abbrev pub booked : ℤ → Delta
booked x = record { bank = x; owed = x; counted = x }

infixl 65 ◌⊕◌
abbrev pub ◌⊕◌ : Delta → Delta → Delta
p ⊕ q = record {
  bank = p.bank +ℤ q.bank;
  owed = p.owed +ℤ q.owed;
  counted = p.counted +ℤ q.counted;
}

-- A tab is of the denomination of its key, and its amount is not negative.
abbrev pub IsTab : TabKey → Tab → Type 0
IsTab (id, (payer, (payee, d))) t = (t.denom ≡ d) × (pos 0 ≤ℤ t.amount)

-- The denomination of the proofs below.
module _ (E : Env) (e : Denom) where
  abbrev pub bank_of : State E → ℤ
  bank_of s = E.bank.balance s.world E.settle_account e

  abbrev pub ledger_of : State E → ℤ
  ledger_of s = total (at_denom e) s.ledger_total

  -- From `s` to `t` the balance, the running total and the recount have moved by these amounts, and
  -- the running total still has one entry for a denomination, and the tabs are still well formed.
  pub record Shifts (p : Delta) (s t : State E) : Type 0 where
    pub banked : bank_of t ≡ bank_of s +ℤ p.bank
    pub owed : ledger_of t ≡ ledger_of s +ℤ p.owed
    pub counted : recount E e t ≡ recount E e s +ℤ p.counted
    pub keyed : IsMap s.ledger_total → IsMap t.ledger_total
    pub tabbed : Every IsTab s.tabs → Every IsTab t.tabs

  -- If the call succeeds it has moved the money by these amounts.
  abbrev pub Moves : {A : Type 0} → Delta → State E → Result A × State E → Type 0
  Moves p s = Ensures (λ a t. Shifts p s t)

  pub Shifts-trans :
      (p q : Delta) (s t u : State E) → Shifts p s t → Shifts q t u → Shifts (p ⊕ q) s u
  Shifts-trans p q s t u h k = record {
    banked = omega (int_laws, h.banked, k.banked);
    owed = omega (int_laws, h.owed, k.owed);
    counted = omega (int_laws, h.counted, k.counted);
    keyed = λ v. k.keyed (h.keyed v);
    tabbed = λ v. k.tabbed (h.tabbed v);
  }

  pub Shifts-refl : (s : State E) → Shifts still s s
  Shifts-refl s = record {
    banked = omega int_laws;
    owed = omega int_laws;
    counted = omega int_laws;
    keyed = λ h. h;
    tabbed = λ h. h;
  }

  -- A movement is known by its three amounts.
  pub Shifts-eq :
      (p q : Delta) (s t : State E)
      → p.bank ≡ q.bank
      → p.owed ≡ q.owed
      → p.counted ≡ q.counted
      → Shifts p s t
      → Shifts q s t
  Shifts-eq p q s t b o c h = record {
    banked = omega (int_laws, h.banked, b);
    owed = omega (int_laws, h.owed, o);
    counted = omega (int_laws, h.counted, c);
    keyed = h.keyed;
    tabbed = h.tabbed;
  }

  pub Moves-after :
      {A : Type 0} (p q : Delta) (s t : State E) (x : Result A × State E)
      → Shifts p s t
      → Moves q t x
      → Moves (p ⊕ q) s x
  Moves-after p q s t (ok a, u) h k = Shifts-trans p q s t u h k
  Moves-after p q s t (err f, u) h k = tt

  -- Two calls in sequence add their movements up.
  pub >>=_Moves :
      {A B : Type 0} (p q : Delta) (m : M E A) (f : A → M E B) (s : State E)
      → Moves p s (m s)
      → ((a : A) (t : State E) → Moves q t (f a t))
      → Moves (p ⊕ q) s ((m >>= f) s)
  >>=_Moves p q m f s h k =
      >>=_Ensures m f (λ a t. Shifts p s t) (λ a u. Shifts (p ⊕ q) s u) s h
        (λ a t moved. Moves-after p q s t (f a t) moved (k a t))

  pub Moves-eq :
      {A : Type 0} (p q : Delta) (s : State E) (x : Result A × State E)
      → p.bank ≡ q.bank
      → p.owed ≡ q.owed
      → p.counted ≡ q.counted
      → Moves p s x
      → Moves q s x
  Moves-eq p q s (ok a, t) b o c h = Shifts-eq p q s t b o c h
  Moves-eq p q s (err f, t) b o c h = tt

  -- Money only moves together with the books: the balance and the recount have moved as the running
  -- total has.
  pub record Conserves (s t : State E) : Type 0 where
    pub banked : bank_of t +ℤ ledger_of s ≡ bank_of s +ℤ ledger_of t
    pub counted : recount E e t +ℤ ledger_of s ≡ recount E e s +ℤ ledger_of t
    pub keyed : IsMap s.ledger_total → IsMap t.ledger_total
    pub tabbed : Every IsTab s.tabs → Every IsTab t.tabs

  pub Conserves-trans : (s t u : State E) → Conserves s t → Conserves t u → Conserves s u
  Conserves-trans s t u h k = record {
    banked = omega (int_laws, h.banked, k.banked);
    counted = omega (int_laws, h.counted, k.counted);
    keyed = λ v. k.keyed (h.keyed v);
    tabbed = λ v. k.tabbed (h.tabbed v);
  }

  pub Shifts-Conserves : (x : ℤ) (s t : State E) → Shifts (booked x) s t → Conserves s t
  Shifts-Conserves x s t h = record {
    banked = omega (int_laws, h.banked, h.owed);
    counted = omega (int_laws, h.counted, h.owed);
    keyed = h.keyed;
    tabbed = h.tabbed;
  }

  -- If the call succeeds it conserves.
  abbrev pub Keeps : {A : Type 0} → State E → Result A × State E → Type 0
  Keeps s = Ensures (λ a t. Conserves s t)

  pub Moves-Keeps :
      {A : Type 0} (x : ℤ) (s : State E) (r : Result A × State E) → Moves (booked x) s r → Keeps s r
  Moves-Keeps x s (ok a, t) h = Shifts-Conserves x s t h
  Moves-Keeps x s (err f, t) h = tt

  pub Keeps-after :
      {A : Type 0} (s t : State E) (r : Result A × State E) → Conserves s t → Keeps t r → Keeps s r
  Keeps-after s t (ok a, u) h k = Conserves-trans s t u h k
  Keeps-after s t (err f, u) h k = tt

  pub >>=_Keeps :
      {A B : Type 0} (m : M E A) (f : A → M E B) (s : State E)
      → Keeps s (m s)
      → ((a : A) (t : State E) → Keeps t (f a t))
      → Keeps s ((m >>= f) s)
  >>=_Keeps m f s h k =
      >>=_Ensures m f (λ a t. Conserves s t) (λ a u. Conserves s u) s h
        (λ a t kept. Keeps-after s t (f a t) kept (k a t))

  -- A call before which only reading calls stand.
  pub after_reading :
      {A B : Type 0} (q : Delta) (m : M E A) (f : A → M E B) (s : State E)
      → Moves still s (m s)
      → ((a : A) (t : State E) → Moves q t (f a t))
      → Moves q s ((m >>= f) s)
  after_reading q m f s h k =
      Moves-eq (still ⊕ q) q s ((m >>= f) s) (omega int_laws) (omega int_laws) (omega int_laws)
        (>>=_Moves still q m f s h k)

  pub require-Moves : (b : Bool) (f : Error) (s : State E) → Moves still s (require b f s)
  require-Moves true f s = Shifts-refl s
  require-Moves false f s = tt

  -- A check that stands before the rest: the rest may use that it passed.
  pub guard_Keeps :
      {B : Type 0} (b : Bool) (f : Error) (k : M E B) (s : State E)
      → (b ≡ true → Keeps s (k s))
      → Keeps s ((require b f >> k) s)
  guard_Keeps true f k s h = h refl
  guard_Keeps false f k s h = tt

  -- A call before which one that only reads stands.
  pub reading_Keeps :
      {A B : Type 0} (m : M E A) (f : A → M E B) (s : State E)
      → Moves still s (m s)
      → ((a : A) (t : State E) → Keeps t (f a t))
      → Keeps s ((m >>= f) s)
  reading_Keeps m f s h k = >>=_Keeps m f s (Moves-Keeps (pos 0) s (m s) h) k
