-- ===== src/Apps/Counting.antt =====
-- `ContractCount` of an app is the number of its bindings, within the limit of chain/x/apps/types/
-- params.go, after any sequence of steps.
use vapor_chain.Prelude.{
  ℕ, ◌+◌, ◌%◌, ◌^◌, ◌≤◌, ◌<◌, ◌≡◌, ◌≢◌, refl, sym, ap, ◌∙◌, subst, inl, inr, Bool, true, false, not,
  ◌&&◌, ◌||◌, none, some, [], ◌∷◌, ◌==◌, ltb, if◌then◌else◌, arith, nat_eq, pair_eq, int_eq, ltb→lt,
  ℤ, pos, ◌+ℤ◌, ◌≤ℤ◌, int_laws,
}
use vapor_chain.Store.{Map, get, set, remove, total, weight_of, total-set, total-remove}
use vapor_chain.Store.Every.{Every, get-Every, set-Every, remove-Every, map-Every}
use vapor_chain.Store.Keys.{get-set_cases}
use vapor_chain.Apps.Types.{App, ContractBinding, Params}
use vapor_chain.Apps.Params.{valid_params, valid_coin}
use vapor_chain.Apps.Env.{Env, State, get_params}
use vapor_chain.Apps.Bindings.{counted_up, counted_down}
use vapor_chain.Apps.Writes.{Write, Writes, bound_at, unbound_at}
use vapor_chain.Apps.Writes.Moves.{IsSingle, Writes-IsSingle}
use vapor_chain.Apps.Writes.Bonds.{IsQueue, Writes-IsQueue}
use vapor_chain.Apps.Reached.{Reach, Step-Writes}

-- One for a binding to the app of an id.
abbrev pub one_if_bound : ℕ → ContractBinding → ℤ
one_if_bound id b = if b.app_id == id then pos 1 else pos 0

-- The number of bindings to the app of an id.
abbrev pub bound_count : ℕ → Map ℕ ContractBinding → ℤ
bound_count id m = total (λ _ b. one_if_bound id b) m

abbrev pub max_contracts : ℕ
max_contracts = 10000

valid_params-max_contracts :
    (valid_denom : ℕ → Bool) (p : Params)
    → valid_params valid_denom p ≡ true
    → p.max_contracts_per_app ≤ max_contracts
unfolding valid_params
valid_params-max_contracts valid_denom p h = within p.max_contracts_per_app (
    second (valid_coin valid_denom p.registration_fee)
      (not (p.max_contracts_per_app == 0 || ltb 10000 p.max_contracts_per_app)) _ _ _ _ _ h)
  where
    second : (a b c d e f g : Bool) → (a && b && c && d && e && f && g) ≡ true → b ≡ true
    second a true c d e f g h = refl
    second true false c d e f g h = h
    second false false c d e f g h = h

    within : (n : ℕ) → not (n == 0 || ltb 10000 n) ≡ true → n ≤ 10000
    within n h = ground arith

module _ (E : Env) where
  -- What an app counts: its bindings, and no more than the limit.
  abbrev pub IsCount : State E → ℕ → App → Type 0
  IsCount s id app =
      (pos app.contract_count ≡ bound_count id s.bindings) × (app.contract_count ≤ max_contracts)

  -- Every app counts its bindings; the ids of the apps and of the bindings were given out; and the
  -- limit is a valid one.
  abbrev pub IsCounted : State E → Type 0
  IsCounted s =
      ((id : ℕ) (app : App) → get id s.apps ≡ some app → IsCount s id app)
      × (Every (λ id (_ : App). id < s.next_app_id) s.apps
          × (Every (λ _ (b : ContractBinding). b.app_id < s.next_app_id) s.bindings
              × ((get_params E s).max_contracts_per_app ≤ max_contracts)))

  -- No binding names an id that was not given out.
  bound_count-new :
      (id next : ℕ) (m : Map ℕ ContractBinding)
      → next ≤ id
      → Every (λ _ (b : ContractBinding). b.app_id < next) m
      → bound_count id m ≡ pos 0
  bound_count-new id next [] above h = refl
  bound_count-new id next ((c, b) ∷ m) above h =
      let zero : one_if_bound id b ≡ pos 0 = missed b.app_id id (omega (arith, h.0)) in
      omega (int_laws, zero, bound_count-new id next m above h.1)
    where
      missed : (i id : ℕ) → i < id → (if i == id then pos 1 else pos 0) ≡ pos 0
      missed i id h = ground arith

  one_self : (b : ContractBinding) → one_if_bound b.app_id b ≡ pos 1
  one_self b = ground arith

  one_other : (id : ℕ) (b : ContractBinding) → id ≢ b.app_id → one_if_bound id b ≡ pos 0
  one_other id b h = ground arith

  bound_count-set :
      (id c : ℕ) (b : ContractBinding) (m : Map ℕ ContractBinding)
      → get c m ≡ none
      → bound_count id (set c b m) ≡ bound_count id m +ℤ one_if_bound id b
  bound_count-set id c b m free =
      let weight : weight_of (λ _ a. one_if_bound id a) c (get c m) ≡ pos 0 =
        ap (weight_of (λ _ a. one_if_bound id a) c) free in
      omega (int_laws, total-set (λ _ a. one_if_bound id a) c b m, weight)

  bound_count-remove :
      (id c : ℕ) (b : ContractBinding) (m : Map ℕ ContractBinding)
      → get c m ≡ some b
      → bound_count id (remove c m) +ℤ one_if_bound id b ≡ bound_count id m
  bound_count-remove id c b m held =
      let weight : weight_of (λ _ a. one_if_bound id a) c (get c m) ≡ one_if_bound id b =
        ap (weight_of (λ _ a. one_if_bound id a) c) held in
      omega (int_laws, total-remove (λ _ a. one_if_bound id a) c m, weight)

  bound_count-nonneg : (id : ℕ) (m : Map ℕ ContractBinding) → pos 0 ≤ℤ bound_count id m
  bound_count-nonneg id [] = omega arith
  bound_count-nonneg id ((c, b) ∷ m) =
      omega (int_laws, bound_count-nonneg id m, zero_or_one (b.app_id == id))
    where
      zero_or_one : (t : Bool) → pos 0 ≤ℤ (if t then pos 1 else pos 0)
      zero_or_one t = ground arith

  -- A binding counts once more for its app, and for no other.
  counted_up-IsCount :
      (s : State E) (c : ℕ) (b : ContractBinding) (app : App)
      → get c s.bindings ≡ none
      → app.contract_count < max_contracts
      → IsCount s b.app_id app
      → IsCount (bound_at E c b app s) b.app_id (counted_up E app)
  counted_up-IsCount s c b app free room (count, below) =
      let more : (app.contract_count + 1) % 2 ^ 32 ≡ app.contract_count + 1 = omega arith in
      rw more (
        omega (int_laws, count, bound_count-set b.app_id c b s.bindings free, one_self b),
        omega arith,
      )

  counted_down-IsCount :
      (s : State E) (c : ℕ) (b : ContractBinding) (app : App)
      → get c s.bindings ≡ some b
      → IsCount s b.app_id app
      → IsCount (unbound_at E c b app s) b.app_id (counted_down E app)
  counted_down-IsCount s c b app held (count, below) = (
    omega (
      int_laws,
      count,
      bound_count-remove b.app_id c b s.bindings held,
      bound_count-nonneg b.app_id (remove c s.bindings),
      one_self b,
    ),
    omega arith,
  )

  Write-IsCounted : {s t : State E} → Write E s t → IsCounted s → IsCounted t
  unfolding get_params
  Write-IsCounted (Write.enriches w s more) h = h
  Write-IsCounted (Write.moves p u s) h = h
  Write-IsCounted (Write.claims m s) h = h
  Write-IsCounted (Write.measures stats quotas n start s) h = h
  Write-IsCounted (Write.bonds w id x s positive more) h = h
  Write-IsCounted (Write.unbonds id x key s positive enough) h = h
  Write-IsCounted (Write.releases w key x s found more) h = h
  Write-IsCounted (Write.governs p s valid kept) (counts, (ids, (known, limit))) =
      (counts, (ids, (known, valid_params-max_contracts E.texts.valid_denom p valid)))
  Write-IsCounted (Write.registers id app s new zero_count) (counts, (ids, (known, limit))) = (
    λ j a found. elim (get-set_cases id j app a s.apps found) [
      | inr (other, before) ↦ counts j a before
      | inl (same, is) ↦
          subst (λ i. IsCount s i a) (sym same)
            (subst (IsCount s id) is (
              ap pos zero_count ∙ sym (bound_count-new id s.next_app_id s.bindings new known),
              omega arith,
            ))
    ],
    (
      set-Every (λ i (_ : App). i < id + 1) id app s.apps
          (map-Every (λ i (_ : App). i < s.next_app_id) (λ i (_ : App). i < id + 1) s.apps
            (λ i _ h. omega arith) ids)
          (omega arith),
      (
        map-Every (λ _ (b : ContractBinding). b.app_id < s.next_app_id)
            (λ _ (b : ContractBinding). b.app_id < id + 1) s.bindings (λ _ b h. omega arith) known,
        limit,
      ),
    ),
  )
  Write-IsCounted (Write.edits id old new s found same_count kept) (counts, (ids, rest)) = (
    λ j a after. elim (get-set_cases id j new a s.apps after) [
      | inr (other, before) ↦ counts j a before
      | inl (same, is) ↦
          subst (λ i. IsCount s i a) (sym same)
            (subst (IsCount s id) is (
              subst (λ n. (pos n ≡ bound_count id s.bindings) × (n ≤ max_contracts))
                (sym same_count) (counts id old found)))
    ],
    (
      set-Every (λ i (_ : App). i < s.next_app_id) id new s.apps ids
          (get-Every (λ i (_ : App). i < s.next_app_id) id old s.apps ids found),
      rest,
    ),
  )
  Write-IsCounted (Write.binds c b app s free found room) (counts, (ids, (known, limit))) =
      let below = get-Every (λ i (_ : App). i < s.next_app_id) b.app_id app s.apps ids found in
      let fits : app.contract_count < max_contracts =
        omega (arith, ltb→lt app.contract_count (get_params E s).max_contracts_per_app room) in
      (
        λ j a after. elim (get-set_cases b.app_id j (counted_up E app) a s.apps after) [
          | inr (other, before) ↦
              let (count, most) = counts j a before in
              (
                omega (int_laws, count, bound_count-set j c b s.bindings free, one_other j b other),
                most,
              )
          | inl (same, is) ↦
              subst (λ i. IsCount (bound_at E c b app s) i a) (sym same)
                (subst (IsCount (bound_at E c b app s) b.app_id) is
                  (counted_up-IsCount s c b app free fits (counts b.app_id app found)))
        ],
        (
          set-Every (λ i (_ : App). i < s.next_app_id) b.app_id (counted_up E app) s.apps ids below,
          (
            set-Every (λ _ (x : ContractBinding). x.app_id < s.next_app_id) c b s.bindings known
                below,
            limit,
          ),
        ),
      )
  Write-IsCounted (Write.unbinds c b app s held found) (counts, (ids, (known, limit))) =
      let below = get-Every (λ i (_ : App). i < s.next_app_id) b.app_id app s.apps ids found in
      (
        λ j a after. elim (get-set_cases b.app_id j (counted_down E app) a s.apps after) [
          | inr (other, before) ↦
              let (count, most) = counts j a before in
              (
                omega (
                  int_laws,
                  count,
                  bound_count-remove j c b s.bindings held,
                  one_other j b other,
                ),
                most,
              )
          | inl (same, is) ↦
              subst (λ i. IsCount (unbound_at E c b app s) i a) (sym same)
                (subst (IsCount (unbound_at E c b app s) b.app_id) is
                  (counted_down-IsCount s c b app held (counts b.app_id app found)))
        ],
        (
          set-Every (λ i (_ : App). i < s.next_app_id) b.app_id (counted_down E app) s.apps ids
              below,
          (
            remove-Every (λ _ (x : ContractBinding). x.app_id < s.next_app_id) c s.bindings known,
            limit,
          ),
        ),
      )

  pub Writes-IsCounted : {s t : State E} → Writes E s t → IsCounted s → IsCounted t
  Writes-IsCounted Writes.no_more h = h
  Writes-IsCounted (Writes.and_then ws w) h = Write-IsCounted w (Writes-IsCounted ws h)

  Reach-kept :
      {s t : State E}
      → Reach E s t
      → IsSingle E s × (IsQueue E s × IsCounted s)
      → IsSingle E t × (IsQueue E t × IsCounted t)
  Reach-kept Reach.here h = h
  Reach-kept (Reach.next r st) h =
      let (single, (queue, counted)) = Reach-kept r h in
      let ws = Step-Writes E st single queue in
      (Writes-IsSingle E ws single, (Writes-IsQueue E ws queue, Writes-IsCounted ws counted))

  -- Whatever steps of the module are taken from a state in which every app counts its bindings, every
  -- app counts exactly the contracts that are bound to it afterwards, and at most 10000 of them. At
  -- the start each contract is bound at most once and each unbonding is kept once.
  pub Reach-IsCounted :
      {s t : State E} → IsSingle E s → IsQueue E s → IsCounted s → Reach E s t → IsCounted t
  Reach-IsCounted single queue counted r = (Reach-kept r (single, (queue, counted))).1.1
