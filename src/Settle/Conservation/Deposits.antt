-- ===== src/Settle/Conservation/Deposits.antt =====
-- Deposits into a tab (chain/x/settle/keeper/tabs.go) conserve the money of
-- every denomination.
use vapor_chain.Prelude.{
  ℕ, ◌≡◌, refl, ap, sym, inl, inr, true, false, not, ◌&&◌, Option, none, some, arith, ◌==◌,
  Bool-cases, Error, ℤ, pos, ◌+ℤ◌, ◌≤ℤ◌, leb_ℤ, is_positive, int_laws, Result-cases, ◌>>=◌, ◌>>◌,
  Ensures, >>=_Ensures, pure, require, lift, Ensures-both, or_err, nat_eq, pair_eq,
}
use vapor_chain.Store.{get, set, total-set, weight_of}
use vapor_chain.Store.Every.{Every, get-Every, set-Every}
use vapor_chain.Settle.Types.{Addr, Denom, FeeAsset, Tab}
use vapor_chain.Settle.Env.{Env, State, TabKey, get_params}
use vapor_chain.Settle.Ledger.{add_int, check_asset, valid_recipient, ledger}
use vapor_chain.Settle.Pay.{app_id_of, pull}
use vapor_chain.Settle.Tabs.{
  tab_key, settle_tab, opened_tab, tab_or, tab_at, store_or_settle, grown, tab_deposit,
}
use vapor_chain.Apps.Types.{App}
use vapor_chain.Settle.Blocks.{at_denom, at_tab, recount}
use vapor_chain.Settle.Conservation.{
  Conserves, Shifts-Conserves, Shifts-trans, Delta, still, booked, ◌⊕◌, IsTab, Shifts, Shifts-eq,
  Moves-eq, Moves-after, Keeps, guard_Keeps, Keeps-after,
}
use vapor_chain.Settle.Conservation.Steps.{at_denom-+ℤ, at_denom-zero, banked_only, ledger-Moves}
use vapor_chain.Settle.Conservation.Escrow.{stored_weight, settle_tab-Keeps}
use vapor_chain.Settle.Conservation.Payments.{pull-Moves, check_asset-Moves, nonneg_of_positive}

module _ (E : Env) (e : Denom) where
  -- The booking of a deposit leaves the tabs alone.
  ledger_keeps_tabs :
      (d : Denom) (x : ℤ) (s : State E) → Ensures (λ _ t. t.tabs ≡ s.tabs) (ledger E d x s)
  unfolding ledger
  ledger_keeps_tabs d x s = elim (Result-cases (add_int d x s.ledger_total)) [
    | inl (t, done) ↦ rw (done, ledger) refl
    | inr (f, failed) ↦ rw (failed, ledger) tt
  ]

  -- The tab that a deposit finds or opens: of the right denomination, and worth what is stored.
  tab_or-IsTab :
      (key : TabKey) (d : Denom) (fresh : Tab) (o : Option Tab)
      → ((t : Tab) → o ≡ some t → (t.denom ≡ d) × (pos 0 ≤ℤ t.amount))
      → fresh.denom ≡ d
      → fresh.amount ≡ pos 0
      → ((tab_or fresh o).denom ≡ d)
        × (pos 0 ≤ℤ (tab_or fresh o).amount)
        × (weight_of (at_tab e) key o ≡ at_denom e d (tab_or fresh o).amount)
  tab_or-IsTab key d fresh none h denom amount =
      (denom, rw amount (omega arith), rw (amount, at_denom-zero e d (pos 0) refl))
  tab_or-IsTab key d fresh (some t) h denom amount =
      let fine = h t refl in (fine.0, fine.1, ap (λ c. at_denom e c t.amount) fine.0)

  store_tab-Shifts :
      (key : TabKey) (d : Denom) (x : ℤ) (old new : Tab) (s : State E)
      → stored_weight E e key s ≡ at_denom e d old.amount
      → new.denom ≡ d
      → new.amount ≡ old.amount +ℤ x
      → IsTab key new
      → Shifts E e
          (record { bank = pos 0; owed = pos 0; counted = at_denom e d x })
          s
          (record s { tabs = set key new s.tabs })
  unfolding recount
  store_tab-Shifts key d x old new s worth denom amount fine = record {
    banked = omega int_laws;
    owed = omega int_laws;
    counted =
        let grown : at_denom e new.denom new.amount ≡ at_denom e d old.amount +ℤ at_denom e d x =
          rw (denom, amount) (at_denom-+ℤ e d old.amount x) in
        omega (int_laws, total-set (at_tab e) key new s.tabs, worth, grown);
    keyed = λ v. v;
    tabbed = λ v. set-Every IsTab key new s.tabs v fine;
  }

  -- The end of a deposit: the tab, grown by what has come in, is stored or settled.
  module _ (key : TabKey) (d : Denom) (x : ℤ) (old new : Tab) (s₀ s : State E)
      (came_in : Shifts E e
        (record { bank = at_denom e d x; owed = at_denom e d x; counted = pos 0 })
        s₀
        s)
      (worth : stored_weight E e key s ≡ at_denom e d old.amount) (denom : new.denom ≡ d)
      (amount : new.amount ≡ old.amount +ℤ x) (fine : IsTab key new) where
    store_or_settle-Keeps :
        (threshold : ℤ) (app : Option App)
        → pos 0 ≤ℤ new.amount
        → Keeps E e s₀ (store_or_settle E key new threshold app s)
    unfolding store_or_settle
    store_or_settle-Keeps threshold app nonneg = elim (Bool-cases (leb_ℤ threshold new.amount)) [
      | inl full ↦
          let grown : stored_weight E e key s +ℤ at_denom e d x ≡ at_denom e new.denom new.amount =
            rw (worth, denom, amount) (sym (at_denom-+ℤ e d old.amount x)) in
          rw (full, store_or_settle)
            (>>=_Ensures (settle_tab E key new app) (λ res. pure {S = State E} (true, res))
              (λ a t. Conserves E e s₀ t) (λ a t. Conserves E e s₀ t) s
              (settle_tab-Keeps E e key new (at_denom e d x) s₀ s came_in grown nonneg app)
              (λ a t kept. kept))
      | inr open_still ↦
          let p : Delta = record {
            bank = at_denom e d x;
            owed = at_denom e d x;
            counted = pos 0;
          } in
          let q : Delta = record { bank = pos 0; owed = pos 0; counted = at_denom e d x } in
          let stored = record s { tabs = set key new s.tabs } in
          rw (open_still, store_or_settle)
            (Shifts-Conserves E e (at_denom e d x) s₀ stored (
              Shifts-eq E e (p ⊕ q) (booked (at_denom e d x)) s₀ stored (omega int_laws)
                (omega int_laws) (omega int_laws)
                (Shifts-trans E e p q s₀ s stored came_in
                  (store_tab-Shifts key d x old new s worth denom amount fine))))
    ]

  -- The tab of a deposit, grown and given to the end of `TabDeposit`.
  stored_after-Keeps :
      (height : ℕ) (app : Option App) (payer payee : Addr) (d : Denom) (x : ℤ) (s₀ s t : State E)
      → pos 0 ≤ℤ x
      → Every IsTab s.tabs
      → t.tabs ≡ s.tabs
      → Shifts E e (record { bank = at_denom e d x; owed = at_denom e d x; counted = pos 0 }) s₀ t
      → (threshold : ℤ)
      → Keeps E e s₀ (
          store_or_settle E
            (tab_key (app_id_of app) payer payee d)
            (grown E (tab_at E height (app_id_of app) payer payee d s) x)
            threshold
            app
            t)
  stored_after-Keeps height app payer payee d x s₀ s t nonneg tabs same came_in threshold =
      let key = tab_key (app_id_of app) payer payee d in
      let fresh = opened_tab E height (app_id_of app) payer payee d in
      let old = tab_at E height (app_id_of app) payer payee d s in
      let is_tab =
        tab_or-IsTab key d fresh (get key s.tabs)
          (λ v found. get-Every IsTab key v s.tabs tabs found) refl refl in
      let more : pos 0 ≤ℤ old.amount +ℤ x = omega (int_laws, is_tab.1) in
      store_or_settle-Keeps key d x old (grown E old x) s₀ t came_in (rw same is_tab.2) is_tab.0
        refl (is_tab.0, more) threshold app more

  -- After the pull of a deposit.
  after_pull-Keeps :
      (height : ℕ) (app : Option App) (payer payee : Addr) (d : Denom) (x : ℤ)
      (threshold : Option ℤ) (s₀ s : State E)
      → pos 0 ≤ℤ x
      → Every IsTab s.tabs
      → Shifts E e (banked_only E e (at_denom e d x)) s₀ s
      → Keeps E e s₀ (
          (do
            ledger E d x
            limit ← lift (or_err threshold Error.panicked)
            store_or_settle E
                (tab_key (app_id_of app) payer payee d)
                (grown E (tab_at E height (app_id_of app) payer payee d s) x)
                limit
                app)
            s)
  after_pull-Keeps height app payer payee d x threshold s₀ s nonneg tabs pulled =
      let came_in : Delta = record {
        bank = at_denom e d x;
        owed = at_denom e d x;
        counted = pos 0;
      } in
      let booked_in : Delta = record { bank = pos 0; owed = at_denom e d x; counted = pos 0 } in
      let end = λ (limit : ℤ).
        store_or_settle E (tab_key (app_id_of app) payer payee d)
          (grown E (tab_at E height (app_id_of app) payer payee d s) x) limit app in
      >>=_Ensures (ledger E d x) (λ _. lift (or_err threshold Error.panicked) >>= end)
        (λ a t. Shifts E e came_in s₀ t × (t.tabs ≡ s.tabs)) (λ a t. Conserves E e s₀ t) s
        (Ensures-both (λ a t. Shifts E e came_in s₀ t) (λ a t. t.tabs ≡ s.tabs) (ledger E d x s)
          (Moves-eq E e (banked_only E e (at_denom e d x) ⊕ booked_in) came_in s₀ (ledger E d x s)
            (omega int_laws) (omega int_laws) (omega int_laws)
            (Moves-after E e (banked_only E e (at_denom e d x)) booked_in s₀ s (ledger E d x s)
              pulled (ledger-Moves E e d x s)))
          (ledger_keeps_tabs d x s))
        (λ a t both. limited threshold t both.0 both.1)
    where
      limited :
          (o : Option ℤ) (t : State E)
          → Shifts E e
              (record { bank = at_denom e d x; owed = at_denom e d x; counted = pos 0 })
              s₀
              t
          → t.tabs ≡ s.tabs
          → Keeps E e s₀ (
              (lift (or_err o Error.panicked) >>= λ limit.
              store_or_settle E
                (tab_key (app_id_of app) payer payee d)
                (grown E (tab_at E height (app_id_of app) payer payee d s) x)
                limit
                app)
                t)
      limited none t moved same = tt
      limited (some limit) t moved same =
          stored_after-Keeps height app payer payee d x s₀ s t nonneg tabs same moved limit

  -- A deposit that succeeds, and that pulls its funds from the payer, another account than the
  -- module's, in a store whose tabs are well formed, moves the module's balance, the running total
  -- and the recount of every denomination by the same amount.
  pub tab_deposit-Keeps :
      (height : ℕ) (app : Option App) (payer payee : Addr) (d : Denom) (x : ℤ) (s : State E)
      → (payer == E.settle_account) ≡ false
      → Every IsTab s.tabs
      → Keeps E e s (tab_deposit E height app payer payee d x true s)
  unfolding tab_deposit
  tab_deposit-Keeps height app payer payee d x s other tabs =
      let id = app_id_of app in
      let key = tab_key id payer payee d in
      let params = get_params E s in
      let after = λ (asset : FeeAsset). λ (v : State E).
        (do
          ledger E d x
          limit ← lift (or_err asset.tab_settle_threshold Error.panicked)
          store_or_settle E key (grown E (tab_at E height id payer payee d v) x) limit app)
          v in
      let pulled = λ (asset : FeeAsset). pull E true payer d x >> after asset in
      let ok_people = valid_recipient E payee && not (payer == payee) in
      let from_people =
        λ (asset : FeeAsset). require ok_people Error.invalid_recipient >> pulled asset in
      let from_amount =
        λ (asset : FeeAsset). require (is_positive x) Error.invalid_amount >> from_people asset in
      let rest : (asset : FeeAsset) (t : State E)
          → Every IsTab t.tabs
          → Keeps E e t (from_amount asset t) =
        λ asset t well.
          guard_Keeps E e (is_positive x) Error.invalid_amount (from_people asset) t (λ positive.
            guard_Keeps E e ok_people Error.invalid_recipient (pulled asset) t (λ people.
              >>=_Ensures (pull E true payer d x) (λ _. after asset)
                (λ a v. Shifts E e (banked_only E e (at_denom e d x)) t v)
                (λ a v. Conserves E e t v) t (pull-Moves E e true payer d x t other)
                (λ a v moved.
                  after_pull-Keeps height app payer payee d x asset.tab_settle_threshold t v
                    (nonneg_of_positive x positive) (moved.tabbed well) moved))) in
      >>=_Ensures (check_asset E height params d) from_amount (λ a t. Shifts E e still s t)
        (λ a t. Conserves E e s t) s (check_asset-Moves E e height params d s)
        (λ asset t read.
          Keeps-after E e s t (from_amount asset t) (Shifts-Conserves E e (pos 0) s t read)
            (rest asset t (read.tabbed tabs)))
