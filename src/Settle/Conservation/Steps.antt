-- ===== src/Settle/Conservation/Steps.antt =====
-- What each building block moves: calls of the bank, and bookings on the ledgers
-- (chain/x/settle/keeper/keeper.go).
use vapor_chain.Prelude.{
  ℕ, ◌≡◌, refl, ap, inl, inr, true, false, [], ◌∷◌, arith, ◌==◌, nat_eq, pair_eq, Bool-cases,
  ==_refl, ==_iff, ℤ, pos, ◌+ℤ◌, ◌≤ℤ◌, neg, is_zero, is_positive, int_laws, Result, Result-cases,
  ok,
}
use vapor_chain.Store.{Map, total}
use vapor_chain.Host.{at_addr}
use vapor_chain.Settle.Types.{Addr, Denom, Coins, amount_of}
use vapor_chain.Settle.Env.{Env, State, call}
use vapor_chain.Settle.Ledger.{add_int, ledger, add_pool, add_claimable}
use vapor_chain.Settle.Pay.{send_positive}
use vapor_chain.Settle.Blocks.{at_denom, at_pair, recount}
use vapor_chain.Settle.Conservation.{
  Delta, ◌⊕◌, Moves-after, Moves-eq, still, Shifts, Moves, Shifts-refl, Shifts-eq, total-add_int,
  add_int-IsMap,
}

pub at_denom-+ℤ : (e d : Denom) (x y : ℤ) → at_denom e d (x +ℤ y) ≡ at_denom e d x +ℤ at_denom e d y
unfolding at_denom
at_denom-+ℤ e d x y = elim (Bool-cases (e == d)) [
  | inl here ↦ rw here
  | inr there ↦ rw there (omega int_laws)
]

pub at_denom-zero : (e d : Denom) (x : ℤ) → is_zero x ≡ true → at_denom e d x ≡ pos 0
unfolding at_denom
at_denom-zero e d x h = ground arith

pub at_denom-neg : (e d : Denom) (x : ℤ) → at_denom e d (neg x) ≡ neg (at_denom e d x)
unfolding at_denom
at_denom-neg e d x = elim (Bool-cases (e == d)) [
  | inl here ↦ rw here
  | inr there ↦ rw there (omega int_laws)
]

-- One coin, seen from a denomination.
pub amount_of-one : (e d : Denom) (x : ℤ) → amount_of ((d, x) ∷ []) e ≡ at_denom e d x
unfolding at_denom
amount_of-one e d x = omega int_laws

pub at_addr_self : (a : Addr) (x : ℤ) → at_addr a a x ≡ x
at_addr_self a x = rw (==_refl a)

pub at_addr_ne : (a b : Addr) (x : ℤ) → (b == a) ≡ false → at_addr a b x ≡ pos 0
at_addr_ne a b x h = ground arith

-- The module's account is blocked, so a payment that succeeds goes elsewhere.
not_own :
    (E : Env) (to : Addr) (cs : Coins) (w t : E.bank.World)
    → E.bank.module_to_account E.settle_account to cs w ≡ ok t
    → (to == E.settle_account) ≡ false
not_own E to cs w t done = elim (Bool-cases (to == E.settle_account)) [
  | inl own ↦
      let same : to ≡ E.settle_account = (==_iff to E.settle_account).0 own in
      cc (
        E.bank.module_to_account_unblocked E.settle_account to cs w t done,
        E.settle_account_blocked,
        ap E.bank.blocked same,
      )
  | inr other ↦ other
]

module _ (E : Env) (e : Denom) where
  -- A call of another keeper moves what the module's balance moves.
  pub call-Moves :
      (f : E.bank.World → Result E.bank.World) (x : ℤ) (s : State E)
      → ((t : E.bank.World)
          → f s.world ≡ ok t
          → E.bank.balance t E.settle_account e ≡ E.bank.balance s.world E.settle_account e +ℤ x)
      → Moves E e (record { bank = x; owed = pos 0; counted = pos 0 }) s (call E f s)
  unfolding call recount
  call-Moves f x s h = elim (Result-cases (f s.world)) [
    | inl (t, done) ↦
        rw (done, call)
          (record {
            banked = h t done;
            owed = omega int_laws;
            counted = omega int_laws;
            keyed = λ v. v;
            tabbed = λ v. v;
          })
    | inr (g, failed) ↦ rw (failed, call) tt
  ]

  pub ledger-Moves :
      (d : Denom) (x : ℤ) (s : State E)
      → Moves E e
          (record { bank = pos 0; owed = at_denom e d x; counted = pos 0 })
          s
          (ledger E d x s)
  unfolding ledger recount
  ledger-Moves d x s = elim (Result-cases (add_int d x s.ledger_total)) [
    | inl (t, done) ↦
        rw (done, ledger)
          (record {
            banked = omega int_laws;
            owed =
                total-add_int (at_denom e) d (at_denom-+ℤ e d) (at_denom-zero e d (pos 0) refl) x _
                  t done;
            counted = omega int_laws;
            keyed = add_int-IsMap d x s.ledger_total t done;
            tabbed = λ v. v;
          })
    | inr (g, failed) ↦ rw (failed, ledger) tt
  ]

  -- A booking counts on its own ledger and in the running total.
  abbrev pub both : Denom → ℤ → Delta
  both d x = record { bank = pos 0; owed = at_denom e d x; counted = at_denom e d x }

  pair-total :
      (k : ℕ) (d : Denom) (x : ℤ) (m t : Map (ℕ × Denom) ℤ)
      → add_int (k, d) x m ≡ ok t
      → total (at_pair e) t ≡ total (at_pair e) m +ℤ at_denom e d x
  pair-total k d x m t h =
      total-add_int (at_pair e) (k, d) (at_denom-+ℤ e d) (at_denom-zero e d (pos 0) refl) x m t h

  nothing_booked : (d : Denom) (x : ℤ) (s : State E) → is_zero x ≡ true → Shifts E e (both d x) s s
  nothing_booked d x s h = record {
    banked = omega int_laws;
    owed = rw (at_denom-zero e d x h) (omega int_laws);
    counted = rw (at_denom-zero e d x h) (omega int_laws);
    keyed = λ v. v;
    tabbed = λ v. v;
  }

  abbrev counted_only : Denom → ℤ → Delta
  counted_only d x = record { bank = pos 0; owed = pos 0; counted = at_denom e d x }

  -- After a write to one ledger, the running total follows.
  pub then_ledger :
      (d : Denom) (x : ℤ) (s t : State E)
      → Shifts E e (counted_only d x) s t
      → Moves E e (both d x) s (ledger E d x t)
  then_ledger d x s t written =
      let q : Delta = record { bank = pos 0; owed = at_denom e d x; counted = pos 0 } in
      Moves-eq E e (counted_only d x ⊕ q) (both d x) s (ledger E d x t) (omega int_laws)
        (omega int_laws) (omega int_laws)
        (Moves-after E e (counted_only d x) q s t (ledger E d x t) written (ledger-Moves d x t))

  pub add_pool-Moves :
      (pool : ℕ) (d : Denom) (x : ℤ) (s : State E) → Moves E e (both d x) s (add_pool E pool d x s)
  unfolding add_pool
  add_pool-Moves pool d x s = elim (Bool-cases (is_zero x)) [
    | inl none_to_add ↦ rw (none_to_add, add_pool) (nothing_booked d x s none_to_add)
    | inr some_to_add ↦ elim (Result-cases (add_int (pool, d) x s.pools)) [
      | inl (t, done) ↦
          rw (some_to_add, done, add_pool)
            (then_ledger d x s (record s { pools = t }) (written t done))
      | inr (g, failed) ↦ rw (some_to_add, failed, add_pool) tt
    ]
  ]
    where
      written :
          (t : Map (ℕ × Denom) ℤ)
          → add_int (pool, d) x s.pools ≡ ok t
          → Shifts E e (counted_only d x) s (record s { pools = t })
      written t done = record {
        banked = omega int_laws;
        owed = omega int_laws;
        counted = unfold recount in omega (int_laws, pair-total pool d x s.pools t done);
        keyed = λ v. v;
        tabbed = λ v. v;
      }

  pub add_claimable-Moves :
      (id : ℕ) (d : Denom) (x : ℤ) (s : State E) → Moves E e (both d x) s (add_claimable E id d x s)
  unfolding add_claimable
  add_claimable-Moves id d x s = elim (Bool-cases (is_zero x)) [
    | inl none_to_add ↦ rw (none_to_add, add_claimable) (nothing_booked d x s none_to_add)
    | inr some_to_add ↦ elim (Result-cases (add_int (id, d) x s.claimables)) [
      | inl (t, done) ↦
          rw (some_to_add, done, add_claimable)
            (then_ledger d x s (record s { claimables = t }) (written t done))
      | inr (g, failed) ↦ rw (some_to_add, failed, add_claimable) tt
    ]
  ]
    where
      written :
          (t : Map (ℕ × Denom) ℤ)
          → add_int (id, d) x s.claimables ≡ ok t
          → Shifts E e (counted_only d x) s (record s { claimables = t })
      written t done = record {
        banked = omega int_laws;
        owed = omega int_laws;
        counted = unfold recount in omega (int_laws, pair-total id d x s.claimables t done);
        keyed = λ v. v;
        tabbed = λ v. v;
      }

  abbrev pub banked_only : ℤ → Delta
  banked_only x = record { bank = x; owed = pos 0; counted = pos 0 }

  -- Coins that another account pays in.
  pub pay_in-Moves :
      (from : Addr) (cs : Coins) (s : State E)
      → (from == E.settle_account) ≡ false
      → Moves E e
          (banked_only (amount_of cs e))
          s
          (call E (E.bank.account_to_module from E.settle_account cs) s)
  pay_in-Moves from cs s other =
      call-Moves (E.bank.account_to_module from E.settle_account cs) (amount_of cs e) s (λ t done.
        rw
          (
            E.bank.account_to_module_lem from E.settle_account cs s.world t done E.settle_account e,
            at_addr_ne E.settle_account from (amount_of cs e) other,
            at_addr_self E.settle_account (amount_of cs e),
          )
          (omega int_laws))

  -- Coins that the module pays out: it is blocked itself, so they leave.
  pub pay_out-Moves :
      (to : Addr) (cs : Coins) (s : State E)
      → Moves E e
          (banked_only (neg (amount_of cs e)))
          s
          (call E (E.bank.module_to_account E.settle_account to cs) s)
  pay_out-Moves to cs s =
      call-Moves (E.bank.module_to_account E.settle_account to cs) (neg (amount_of cs e)) s
        (λ t done.
          rw
            (
              E.bank.module_to_account_lem E.settle_account to cs s.world t done E.settle_account e,
              at_addr_self E.settle_account (amount_of cs e),
              at_addr_ne E.settle_account to (amount_of cs e) (not_own E to cs s.world t done),
            )
            (omega int_laws))

  -- A payment of one coin that is not negative.
  pub send_positive-Moves :
      (to : Addr) (d : Denom) (x : ℤ) (s : State E)
      → pos 0 ≤ℤ x
      → Moves E e (banked_only (neg (at_denom e d x))) s (send_positive E to d x s)
  unfolding send_positive
  send_positive-Moves to d x s h = elim (Bool-cases (is_positive x)) [
    | inl some_to_send ↦
        rw (some_to_send, send_positive, ← amount_of-one e d x) (pay_out-Moves to ((d, x) ∷ []) s)
    | inr nothing ↦
        rw (nothing, send_positive, at_denom-zero e d x (ground arith))
          (Shifts-eq E e still (banked_only (neg (pos 0))) s s (omega int_laws) refl refl
            (Shifts-refl E e s))
  ]
