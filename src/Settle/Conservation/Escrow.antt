-- ===== src/Settle/Conservation/Escrow.antt =====
-- The settling and closing of tabs (chain/x/settle/keeper/tabs.go) conserve the money of
-- every denomination.
use vapor_chain.Prelude.{
  ℕ, ◌≡◌, inl, inr, ◌||◌, Option, none, some, [], ◌∷◌, ◌==◌, if◌then◌else◌, Error, ℤ, pos, ◌+ℤ◌,
  ◌-ℤ◌, ◌≤ℤ◌, neg, leb_ℤ, sub_ℕ, int_laws, Result, err, >>=_Ensures, pure, Option-cases, nat_eq,
  pair_eq,
}
use vapor_chain.Store.{get, remove, total-remove, weight_of}
use vapor_chain.Store.Every.{Every, get-Every, remove-Every}
use vapor_chain.Settle.Types.{Addr, Denom, FeeAsset, Params, Tab}
use vapor_chain.Settle.Params.{find_asset}
use vapor_chain.Settle.Env.{Env, State, TabKey, call, get_params}
use vapor_chain.Settle.Ledger.{ledger}
use vapor_chain.Settle.Tabs.{
  tab_key, no_result, active_app, app_of_tab, refund, tab_request, pay_tab, settle_tab, owns_app,
  close_tab,
}
use vapor_chain.Apps.Types.{App, no_app}
use vapor_chain.Settle.Blocks.{at_denom, at_tab, recount}
use vapor_chain.Settle.Conservation.{
  Conserves, Shifts-trans, Delta, still, booked, ◌⊕◌, IsTab, Shifts, Shifts-refl, Moves, Moves-eq,
  Moves-after, >>=_Moves, Keeps, Moves-Keeps, guard_Keeps,
}
use vapor_chain.Settle.Conservation.Steps.{
  at_denom-neg, amount_of-one, banked_only, ledger-Moves, pay_out-Moves,
}
use vapor_chain.Settle.Conservation.Payments.{distribute-Moves, kept_of}

module _ (E : Env) (e : Denom) where
  -- The booking out of a tab's escrow and what is paid from it: a refund keeps nothing.
  abbrev paid_tab : ℤ → Tab → Delta
  paid_tab kept tab = record {
    bank = kept -ℤ at_denom e tab.denom tab.amount;
    owed = kept;
    counted = kept;
  }

  abbrev tab_kept : Params → Option FeeAsset → Option App → Tab → State E → ℤ
  tab_kept params none app tab s = pos 0
  tab_kept params (some asset) app tab s =
      at_denom e tab.denom
        (kept_of E e params asset (tab_request E tab (app_of_tab E app tab.app_id s)))

  pay_tab-Moves :
      (params : Params) (asset : Option FeeAsset) (app : Option App) (tab : Tab) (s : State E)
      → pos 0 ≤ℤ tab.amount
      → Moves E e
          (paid_tab (tab_kept params asset app tab s) tab)
          s
          (pay_tab E params asset app tab s)
  unfolding pay_tab refund tab_request
  pay_tab-Moves params none app tab s h =
      let out = banked_only E e (neg (at_denom e tab.denom tab.amount)) in
      Moves-eq E e (out ⊕ still) (paid_tab (pos 0) tab) s _ (omega int_laws) (omega int_laws)
        (omega int_laws)
        (>>=_Moves E e out still
          (call E
            (E.bank.module_to_account E.settle_account tab.payer ((tab.denom, tab.amount) ∷ [])))
          (λ _. pure no_result) s
          (rw (← amount_of-one e tab.denom tab.amount) (pay_out-Moves E e tab.payer _ s))
          (λ a t. Shifts-refl E e t))
  pay_tab-Moves params (some asset) app tab s h =
      distribute-Moves E e params asset (tab_request E tab (app_of_tab E app tab.app_id s)) s h

  -- What the store holds in a tab, at the denomination of the proof.
  abbrev pub stored_weight : TabKey → State E → ℤ
  stored_weight key s = weight_of (at_tab e) key (get key s.tabs)

  remove_tab-Shifts :
      (key : TabKey) (s : State E)
      → Shifts E e
          (record { bank = pos 0; owed = pos 0; counted = neg (stored_weight key s) })
          s
          (record s { tabs = remove key s.tabs })
  unfolding recount
  remove_tab-Shifts key s = record {
    banked = omega int_laws;
    owed = omega int_laws;
    counted = omega (int_laws, total-remove (at_tab e) key s.tabs);
    keyed = λ v. v;
    tabbed = λ v. remove-Every IsTab key s.tabs v;
  }

  -- The settling of a tab whose amount is what the store holds of it and what has just come in.
  module _ (key : TabKey) (tab : Tab) (x : ℤ) (s₀ s : State E)
      (came_in : Shifts E e (record { bank = x; owed = x; counted = pos 0 }) s₀ s)
      (whole : stored_weight key s +ℤ x ≡ at_denom e tab.denom tab.amount)
      (nonneg : pos 0 ≤ℤ tab.amount) where
    abbrev pub without : State E
    without = record s { tabs = remove key s.tabs }

    abbrev out_of_books : Delta
    out_of_books = record {
      bank = x;
      owed = x +ℤ at_denom e tab.denom (neg tab.amount);
      counted = neg (stored_weight key s);
    }

    booked_out : Moves E e out_of_books s₀ (ledger E tab.denom (neg tab.amount) without)
    booked_out =
        let in_hand : Delta = record { bank = x; owed = x; counted = pos 0 } in
        let gone : Delta = record {
          bank = pos 0;
          owed = pos 0;
          counted = neg (stored_weight key s);
        } in
        let off : Delta = record {
          bank = pos 0;
          owed = at_denom e tab.denom (neg tab.amount);
          counted = pos 0;
        } in
        Moves-eq E e (in_hand ⊕ gone ⊕ off) out_of_books s₀
          (ledger E tab.denom (neg tab.amount) without) (omega int_laws) (omega int_laws)
          (omega int_laws)
          (Moves-after E e (in_hand ⊕ gone) off s₀ without
            (ledger E tab.denom (neg tab.amount) without)
            (Shifts-trans E e in_hand gone s₀ s without came_in (remove_tab-Shifts key s))
            (ledger-Moves E e tab.denom (neg tab.amount) without))

    paid_out :
        (params : Params) (asset : Option FeeAsset) (app : Option App) (t : State E)
        → Shifts E e out_of_books s₀ t
        → Keeps E e s₀ (pay_tab E params asset app tab t)
    paid_out params asset app t out =
        let kept = tab_kept params asset app tab t in
        let paid = paid_tab kept tab in
        let total = kept -ℤ stored_weight key s in
        let off = at_denom-neg e tab.denom tab.amount in
        Moves-Keeps E e total s₀ (pay_tab E params asset app tab t) (
          Moves-eq E e (out_of_books ⊕ paid) (booked total) s₀ (pay_tab E params asset app tab t)
            (omega (int_laws, whole)) (omega (int_laws, whole, off)) (omega int_laws)
            (Moves-after E e out_of_books paid s₀ t (pay_tab E params asset app tab t) out
              (pay_tab-Moves params asset app tab t nonneg)))

    pub settle_tab-Keeps : (app : Option App) → Keeps E e s₀ (settle_tab E key tab app s)
    unfolding settle_tab
    settle_tab-Keeps app =
        >>=_Ensures (ledger E tab.denom (neg tab.amount))
          (λ _ t.
            pay_tab E (get_params E t) (find_asset (get_params E t).assets tab.denom) app tab t)
          (λ a t. Shifts E e out_of_books s₀ t) (λ a t. Conserves E e s₀ t) without booked_out
          (λ a t out.
            paid_out (get_params E t) (find_asset (get_params E t).assets tab.denom) app t out)

  -- The closing of a tab that succeeds, in a store whose tabs are well formed, moves the module's
  -- balance, the running total and the recount of every denomination by the same amount.
  pub close_tab-Keeps :
      (height : ℕ) (sender : Addr) (id : ℕ) (payer payee : Addr) (d : Denom) (s : State E)
      → Every IsTab s.tabs
      → Keeps E e s (close_tab E height sender id payer payee d s)
  unfolding close_tab
  close_tab-Keeps height sender id payer payee d s tabs =
      let key = tab_key id payer payee d in
      elim (Option-cases (get key s.tabs)) [
        | inl missing ↦ rw (missing, close_tab) tt
        | inr (tab, found) ↦
            let app : Result App =
              if id == no_app then err Error.app_not_found else E.get_app s.world id in
            let old_enough =
              leb_ℤ (get_params E s).max_tab_age_blocks (sub_ℕ height tab.opened_height) in
            let fine = get-Every IsTab key tab s.tabs tabs found in
            rw (found, close_tab)
              (guard_Keeps E e
                (sender == payer || sender == payee || owns_app sender app || old_enough)
                Error.unauthorized (settle_tab E key tab (active_app app)) s
                (λ allowed.
                  settle_tab-Keeps key tab (pos 0) s s (Shifts-refl E e s)
                    (rw found (omega int_laws)) fine.1 (active_app app)))
      ]
