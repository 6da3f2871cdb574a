-- ===== src/Apps/Solvency.antt =====
-- The module's account covers the bonds and the unbondings (`BondedTotal` of
-- chain/x/apps/keeper/keeper.go), after any sequence of steps.
use vapor_chain.Prelude.{
  ℕ, ◌≡◌, ◌⊎◌, refl, ap, inl, inr, Bool, true, false, not, ◌||◌, Option, none, some, [], ◌∷◌, ◌==◌,
  arith, Bool-cases, Option-cases, ==_iff, nat_eq, pair_eq, int_eq, Eq, ℤ, pos, ◌+ℤ◌, ◌-ℤ◌, ◌≤ℤ◌,
  ltb_ℤ, is_positive, is_zero, int_laws,
}
use vapor_chain.Store.{Map, get, set, remove, total, weight_of, total-set, total-remove}
use vapor_chain.Store.Every.{Every, get-Every, set-Every, remove-Every}
use vapor_chain.Settle.Types.{Denom}
use vapor_chain.Apps.Types.{Params}
use vapor_chain.Apps.Env.{Env, State, get_params}
use vapor_chain.Apps.Quota.{bond_of}
use vapor_chain.Apps.Bonds.{UnbondingKey, amount_or_zero, left_bonded, unbonded, bonded_total}
use vapor_chain.Apps.Msgs.{keeps_denom}
use vapor_chain.Apps.Writes.{Write, Writes, held, bond_denom_of, of_denom}
use vapor_chain.Apps.Writes.Moves.{IsSingle, Writes-IsSingle}
use vapor_chain.Apps.Writes.Bonds.{IsQueue, Writes-IsQueue}
use vapor_chain.Apps.Reached.{Step, Reach, Step-Writes}

positive→le : (x : ℤ) → is_positive x ≡ true → pos 1 ≤ℤ x
positive→le x h = ground arith

le→positive : (x : ℤ) → pos 1 ≤ℤ x → is_positive x ≡ true
le→positive x h = ground arith

module _ {K : Type 0} ⦃e : Eq K⦄ where
  -- The sum of the amounts of a map.
  abbrev pub sum_of : Map K ℤ → ℤ
  sum_of m = total (λ _ x. x) m

  abbrev pub AllPositive : Map K ℤ → Type 0
  AllPositive m = Every (λ _ x. is_positive x ≡ true) m

  sum_of-nonneg : (m : Map K ℤ) → AllPositive m → pos 0 ≤ℤ sum_of m
  sum_of-nonneg [] h = omega arith
  sum_of-nonneg ((k, x) ∷ m) h = omega (int_laws, positive→le x h.0, sum_of-nonneg m h.1)

  amount_nonneg : (k : K) (m : Map K ℤ) → AllPositive m → pos 0 ≤ℤ amount_or_zero (get k m)
  amount_nonneg k m h = elim (Option-cases (get k m)) [
    | inl missing ↦ rw missing (omega arith)
    | inr (x, found) ↦
        rw found
          (omega (arith, positive→le x (get-Every (λ _ y. is_positive y ≡ true) k x m h found)))
  ]

  amount_weight : (k : K) (o : Option ℤ) → weight_of (λ _ x. x) k o ≡ amount_or_zero o
  amount_weight k none = refl
  amount_weight k (some x) = refl

  -- An entry grows by an amount, and with it the sum.
  sum_of-grow :
      (k : K) (x : ℤ) (m : Map K ℤ)
      → sum_of (set k (amount_or_zero (get k m) +ℤ x) m) ≡ sum_of m +ℤ x
  sum_of-grow k x m =
      let y = amount_or_zero (get k m) in
      omega (int_laws, total-set (λ _ z. z) k (y +ℤ x) m, amount_weight k (get k m))

  grow-AllPositive :
      (k : K) (x : ℤ) (m : Map K ℤ)
      → is_positive x ≡ true
      → AllPositive m
      → AllPositive (set k (amount_or_zero (get k m) +ℤ x) m)
  grow-AllPositive k x m positive h =
      set-Every (λ _ y. is_positive y ≡ true) k (amount_or_zero (get k m) +ℤ x) m h
        (le→positive (amount_or_zero (get k m) +ℤ x)
          (omega (int_laws, amount_nonneg k m h, positive→le x positive)))

module _ (E : Env) where
  -- The account holds no negative amount, and holds what is bonded; bonds and unbondings are
  -- positive.
  abbrev pub IsBacked : State E → Type 0
  IsBacked s =
      ((d : Denom) → pos 0 ≤ℤ held E s d)
      × ((bonded_total E s ≤ℤ held E s (bond_denom_of E s))
          × (AllPositive s.bonds × AllPositive s.unbondings))

  bond_of-amount : (s : State E) (id : ℕ) → bond_of E s id ≡ amount_or_zero (get id s.bonds)
  unfolding bond_of
  bond_of-amount s id = elim (Option-cases (get id s.bonds)) [
    | inl missing ↦ rw (missing, bond_of) refl
    | inr (x, found) ↦ rw (found, bond_of) refl
  ]

  of_denom_self : (d : Denom) (x : ℤ) → of_denom E d d x ≡ x
  of_denom_self d x = ground arith

  of_denom_cases : (bond d : Denom) (x : ℤ) → (d ≡ bond) ⊎ (of_denom E bond d x ≡ pos 0)
  of_denom_cases bond d x = ground arith

  is_zero→eq : (x : ℤ) → is_zero x ≡ true → x ≡ pos 0
  is_zero→eq x h = ground arith

  nonzero→positive : (x : ℤ) → is_zero x ≡ false → pos 0 ≤ℤ x → is_positive x ≡ true
  nonzero→positive x h k = ground arith

  -- An amount leaves a bond: an entry that gets to zero is removed.
  left_bonded-Backed :
      (id : ℕ) (left x : ℤ) (m : Map ℕ ℤ)
      → AllPositive m
      → left +ℤ x ≡ amount_or_zero (get id m)
      → pos 0 ≤ℤ left
      → AllPositive (left_bonded E id left m) × (sum_of (left_bonded E id left m) +ℤ x ≡ sum_of m)
  left_bonded-Backed id left x m h split enough = elim (Bool-cases (is_zero left)) [
    | inl gone ↦ rw gone (
      remove-Every (λ _ y. is_positive y ≡ true) id m h,
      omega (
        int_laws,
        is_zero→eq left gone,
        total-remove (λ _ z. z) id m,
        amount_weight id (get id m),
      ),
    )
    | inr some_left ↦ rw some_left (
      set-Every (λ _ y. is_positive y ≡ true) id left m h (nonzero→positive left some_left enough),
      omega (int_laws, total-set (λ _ z. z) id left m, amount_weight id (get id m)),
    )
  ]

  bonds-IsBacked :
      (w : E.bank.World) (id : ℕ) (x : ℤ) (s : State E)
      → is_positive x ≡ true
      → ((d : Denom)
          → held E s d +ℤ of_denom E (bond_denom_of E s) d x ≤ℤ held E (record s { world = w }) d)
      → IsBacked s
      → IsBacked (record s { world = w; bonds = set id (bond_of E s id +ℤ x) s.bonds })
  unfolding bonded_total get_params
  bonds-IsBacked w id x s positive more (nonneg, (covers, (bonds, unbondings))) =
      let denom = bond_denom_of E s in
      rw (bond_of-amount s id) (
        λ d. omega (
          int_laws,
          nonneg d,
          more d,
          of_denom_nonneg denom d x (omega (arith, positive→le x positive)),
        ),
        (
          omega (int_laws, covers, more denom, of_denom_self denom x, sum_of-grow id x s.bonds),
          (grow-AllPositive id x s.bonds positive bonds, unbondings),
        ),
      )
    where
      of_denom_nonneg : (bond d : Denom) (x : ℤ) → pos 0 ≤ℤ x → pos 0 ≤ℤ of_denom E bond d x
      of_denom_nonneg bond d x h = ground arith

  unbonds-IsBacked :
      (id : ℕ) (x : ℤ) (key : UnbondingKey) (s : State E)
      → is_positive x ≡ true
      → ltb_ℤ (bond_of E s id) x ≡ false
      → IsBacked s
      → IsBacked (unbonded E id x key s)
  unfolding bonded_total get_params
  unbonds-IsBacked id x key s positive enough (nonneg, (covers, (bonds, unbondings))) =
      let bonded = bond_of E s id in
      let left =
        left_bonded-Backed id (bonded -ℤ x) x s.bonds bonds (omega (int_laws, bond_of-amount s id))
          (not_less bonded x enough) in
      (
        nonneg,
        (
          omega (int_laws, covers, left.1, sum_of-grow key x s.unbondings),
          (left.0, grow-AllPositive key x s.unbondings positive unbondings),
        ),
      )
    where
      no_less : (a b : ℤ) → ltb_ℤ a b ≡ false → b ≤ℤ a
      no_less a b h = ground arith

      not_less : (a b : ℤ) → ltb_ℤ a b ≡ false → pos 0 ≤ℤ a -ℤ b
      not_less a b h = omega (int_laws, no_less a b h)

  releases-IsBacked :
      (w : E.bank.World) (key : UnbondingKey) (x : ℤ) (s : State E)
      → get key s.unbondings ≡ some x
      → ((d : Denom)
          → held E s d ≤ℤ held E (record s { world = w }) d +ℤ of_denom E (bond_denom_of E s) d x)
      → IsBacked s
      → IsBacked (record s { world = w; unbondings = remove key s.unbondings })
  unfolding bonded_total get_params
  releases-IsBacked w key x s found more (nonneg, (covers, (bonds, unbondings))) =
      let denom = bond_denom_of E s in
      let fewer = remove-Every (λ _ y. is_positive y ≡ true) key s.unbondings unbondings in
      let weight : weight_of (λ _ y. y) key (get key s.unbondings) ≡ x =
        ap (weight_of (λ _ y. y) key) found in
      let less : sum_of (remove key s.unbondings) +ℤ x ≡ sum_of s.unbondings =
        omega (int_laws, total-remove (λ _ y. y) key s.unbondings, weight) in
      (
        λ d. elim (of_denom_cases denom d x) [
          | inr other ↦ omega (int_laws, nonneg d, more d, other)
          | inl same ↦ rw same (
              omega (
                int_laws,
                covers,
                less,
                more denom,
                of_denom_self denom x,
                sum_of-nonneg s.bonds bonds,
                sum_of-nonneg (remove key s.unbondings) fewer,
              ))
        ],
        (omega (int_laws, covers, less, more denom, of_denom_self denom x), (bonds, fewer)),
      )

  governs-IsBacked :
      (p : Params) (s : State E)
      → keeps_denom E p s ≡ true
      → IsBacked s
      → IsBacked (record s { params = some p })
  unfolding bonded_total keeps_denom get_params
  governs-IsBacked p s kept (nonneg, (covers, rest)) = (
    nonneg,
    (
      elim (either (p.bond_denom == bond_denom_of E s) (is_positive (bonded_total E s)) kept) [
        | inl same ↦
            let is : p.bond_denom ≡ bond_denom_of E s =
              (==_iff p.bond_denom (bond_denom_of E s)).0 same in
            rw is covers
        | inr nothing ↦ omega (int_laws, nonneg p.bond_denom, none_left (bonded_total E s) nothing)
      ],
      rest,
    ),
  )
    where
      either : (a b : Bool) → (a || not b) ≡ true → (a ≡ true) ⊎ (b ≡ false)
      either a b h = ground arith

      none_left : (x : ℤ) → is_positive x ≡ false → x ≤ℤ pos 0
      none_left x h = ground arith

  Write-IsBacked : {s t : State E} → Write E s t → IsBacked s → IsBacked t
  unfolding bonded_total keeps_denom get_params
  Write-IsBacked (Write.binds c b app s free found room) h = h
  Write-IsBacked (Write.unbinds c b app s held found) h = h
  Write-IsBacked (Write.registers id app s new zero_count) h = h
  Write-IsBacked (Write.edits id old new s found same_count kept) h = h
  Write-IsBacked (Write.moves p u s) h = h
  Write-IsBacked (Write.claims m s) h = h
  Write-IsBacked (Write.measures stats quotas n start s) h = h
  Write-IsBacked (Write.enriches w s more) (nonneg, (covers, rest)) = (
    λ d. omega (int_laws, nonneg d, more d),
    (omega (int_laws, covers, more (bond_denom_of E s)), rest),
  )
  Write-IsBacked (Write.bonds w id x s positive more) h = bonds-IsBacked w id x s positive more h
  Write-IsBacked (Write.unbonds id x key s positive enough) h =
      unbonds-IsBacked id x key s positive enough h
  Write-IsBacked (Write.releases w key x s found more) h = releases-IsBacked w key x s found more h
  Write-IsBacked (Write.governs p s valid kept) h = governs-IsBacked p s kept h

  pub Writes-IsBacked : {s t : State E} → Writes E s t → IsBacked s → IsBacked t
  Writes-IsBacked Writes.no_more h = h
  Writes-IsBacked (Writes.and_then ws w) h = Write-IsBacked w (Writes-IsBacked ws h)

  Step-IsBacked :
      {s t : State E}
      → Step E s t
      → IsSingle E s × (IsQueue E s × IsBacked s)
      → IsSingle E t × (IsQueue E t × IsBacked t)
  Step-IsBacked st (single, (queue, backed)) =
      let ws = Step-Writes E st single queue in
      (Writes-IsSingle E ws single, (Writes-IsQueue E ws queue, Writes-IsBacked ws backed))

  Reach-kept :
      {s t : State E}
      → Reach E s t
      → IsSingle E s × (IsQueue E s × IsBacked s)
      → IsSingle E t × (IsQueue E t × IsBacked t)
  Reach-kept Reach.here h = h
  Reach-kept (Reach.next r st) h = Step-IsBacked st (Reach-kept r h)

  -- Whatever steps of the module are taken from a state whose account covers its bonds and
  -- unbondings, the account covers them afterwards, and every bond and unbonding is positive. At the
  -- start each contract is bound at most once and each unbonding is kept once.
  pub Reach-IsBacked :
      {s t : State E} → IsSingle E s → IsQueue E s → IsBacked s → Reach E s t → IsBacked t
  Reach-IsBacked single queue backed r = (Reach-kept r (single, (queue, backed))).1.1
