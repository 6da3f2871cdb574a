-- ===== src/Apps/QuotaBounds.antt =====
-- What BaseQuota and ComputeQuota of chain/x/apps/keeper/keeper.go give within the limit of
-- `math.Int`: neither panics, and both stay within their limits.
use native.Mathlib.Nat.{div-le_of_le-mul}
use vapor_chain.Prelude.{
  ℕ, zero, suc, ◌+◌, ◌*◌, ◌/◌, ◌%◌, ◌^◌, ◌≤◌, ◌<◌, ◌≡◌, ◌≢◌, refl, ap, ◌∙◌, true, false, not, ◌||◌,
  ltb, ◌==◌, if◌then◌else◌, arith, Bool-cases, inl, inr, ltb_no, ℤ, pos, negsuc, pos_part, ◌/ℤ◌,
  *ℤ_pos, /ℤ_pos, +ℤ_pos, ltb_ℤ, Result, ok, err,
}
use vapor_chain.Settle.Types.{max_bps}
use vapor_chain.Apps.Types.{EpochStats, Quota, Params}
use vapor_chain.Apps.Quota.{
  bond_unit, to_uint64, int_mul, capped, base_quota, unique_payers, diversity_of, total_gas,
  quota_from, quota_with, compute_quota,
}
use vapor_chain.Apps.Sketch.{IsSketch}
use vapor_chain.Apps.Estimate.{hll_estimate-ok}

abbrev pub min : ℕ → ℕ → ℕ
min a b = if ltb b a then b else a

to_uint64-pos : (n : ℕ) → n < 2 ^ 64 → to_uint64 (pos n) ≡ ok n
unfolding to_uint64
to_uint64-pos n h = let fits : ltb n (2 ^ 64) ≡ true = ground arith in rw fits refl

capped_gas : (limit n : ℕ) → limit < 2 ^ 64 → capped limit (pos n) ≡ ok (min n limit)
unfolding capped
capped_gas limit n h = elim (Bool-cases (ltb limit n)) [
  | inl over ↦ let test : ltb_ℤ (pos limit) (pos n) ≡ true = ground arith in rw test (rw over refl)
  | inr under ↦
      let test : ltb_ℤ (pos limit) (pos n) ≡ false = ground arith in
      rw test (rw under (to_uint64-pos n (omega (arith, ltb_no limit n under))))
]

min_cases : (a b : ℕ) → (min a b ≤ a) × ((min a b ≤ b) × (min a b < b → min a b ≡ a))
min_cases a b = ground arith

int_mul-pos : (n m : ℕ) → n * m < 2 ^ 256 → int_mul (pos n) (pos m) ≡ ok (pos (n * m))
unfolding int_mul
int_mul-pos n m small = rw (*ℤ_pos n m, below (n * m) (2 ^ 256) small) refl
  where
    below : (x limit : ℕ) → x < limit → ltb x limit ≡ true
    below x limit h = ground arith

-- The base quota of a bond that is not negative is the bond times the gas per unit, divided by the
-- unit and rounded down, at most the limit. Bonding is on, the limit is a uint64, and the product has
-- at most 256 bits.
base_quota-formula :
    (p : Params) (n : ℕ)
    → p.bond_denom ≢ 0
    → p.max_gas_per_epoch < 2 ^ 64
    → n * p.gas_per_bonded_unit < 2 ^ 256
    → base_quota p (pos n) ≡ ok (min (n * p.gas_per_bonded_unit / bond_unit) p.max_gas_per_epoch)
unfolding base_quota
base_quota-formula p zero denom limit small =
    let none_bonded : (p.bond_denom == 0 || true) ≡ true = ground arith in
    let nothing : 0 * p.gas_per_bonded_unit / bond_unit ≡ 0 = omega arith in
    rw (none_bonded, nothing) (ap ok (least p.max_gas_per_epoch))
  where
    least : (n : ℕ) → 0 ≡ min 0 n
    least n = ground arith
base_quota-formula p (suc n) denom limit small =
    let gas = suc n * p.gas_per_bonded_unit / bond_unit in
    rw (on p.bond_denom denom, int_mul-pos (suc n) p.gas_per_bonded_unit small)
      (ap (capped p.max_gas_per_epoch) (/ℤ_pos (suc n * p.gas_per_bonded_unit) bond_unit)
        ∙ capped_gas p.max_gas_per_epoch gas limit)
  where
    on : (d : ℕ) → d ≢ 0 → (d == 0 || not (ltb 0 (suc n))) ≡ false
    on d h = ground arith

-- The base quota of a bond does not panic and is at most the limit, where the limit is a uint64 and
-- the product of the bond and the gas per unit has at most 256 bits.
pub base_quota-ok :
    (p : Params) (x : ℤ)
    → p.max_gas_per_epoch < 2 ^ 64
    → pos_part x * p.gas_per_bonded_unit < 2 ^ 256
    → (g : ℕ) × ((base_quota p x ≡ ok g) × (g ≤ p.max_gas_per_epoch))
unfolding base_quota
base_quota-ok p (negsuc n) limit small =
    let nothing : (p.bond_denom == 0 || true) ≡ true = ground arith in
    rw nothing (0, (refl, omega arith))
base_quota-ok p (pos n) limit small = elim (Bool-cases (p.bond_denom == 0)) [
  | inl off ↦ rw off (0, (refl, omega arith))
  | inr on ↦
      let gas = n * p.gas_per_bonded_unit / bond_unit in
      let denom : p.bond_denom ≢ 0 = set_denom p.bond_denom on in
      (
        min gas p.max_gas_per_epoch,
        (base_quota-formula p n denom limit small, (min_cases gas p.max_gas_per_epoch).1.0),
      )
]
  where
    set_denom : (d : ℕ) → (d == 0) ≡ false → d ≢ 0
    set_denom d h e = ground arith

diversity_of-le : (target unique payments : ℕ) → diversity_of target unique payments ≤ max_bps
unfolding diversity_of
diversity_of-le target unique payments = elim (Bool-cases (ltb 0 payments)) [
  | inr nothing ↦ rw nothing (omega arith)
  | inl paid ↦ rw paid (most (unique * target % 2 ^ 64 * max_bps % 2 ^ 64 / payments))
]
  where
    most : (n : ℕ) → (if ltb max_bps n then max_bps else n) ≤ max_bps
    most n = ground arith

total_gas-pos :
    (limit base earned : ℕ) → total_gas limit base (pos earned) ≡ pos (min (base + earned) limit)
unfolding total_gas
total_gas-pos limit base earned =
    rw (+ℤ_pos base earned) (elim (Bool-cases (ltb limit (base + earned))) [
      | inl over ↦
          let test : ltb_ℤ (pos limit) (pos (base + earned)) ≡ true = ground arith in
          rw test (rw over refl)
      | inr under ↦
          let test : ltb_ℤ (pos limit) (pos (base + earned)) ≡ false = ground arith in
          rw test (rw under refl)
    ])

unique_payers-le : (estimate payments : ℕ) → unique_payers estimate payments ≤ payments
unfolding unique_payers
unique_payers-le estimate payments = ground arith

min_grows : (a b c : ℕ) → min a c ≤ min (a + b) c
min_grows a b c = ground arith

-- A share of at most 10000 basis points is at most the whole.
share : (w bps : ℕ) → bps ≤ max_bps → w * bps / max_bps ≤ w
share w bps h = let all : w * bps ≤ max_bps * w = grind arith in div-le_of_le-mul max_bps all

earns :
    (base w gas earned : ℕ) (weight : ℤ)
    → weight ≡ pos w
    → gas ≤ base + earned
    → earned ≤ w
    → gas ≤ base + pos_part weight
earns base w gas earned weight is h k =
    let same : pos_part weight ≡ w = ap pos_part is in omega arith

-- What a quota that was computed keeps to.
pub record IsGrant (p : Params) (st : EpochStats) (base : ℕ) (q : Quota) : Type 0 where
  pub within : q.gas ≤ p.max_gas_per_epoch
  pub at_least_base : min base p.max_gas_per_epoch ≤ q.gas
  pub earned_at_most : q.gas ≤ base + pos_part st.fee_weight
  pub diverse : q.diversity_bps ≤ max_bps
  pub payers : q.unique_payers_estimate ≤ st.payments

-- A quota of statistics with a sketch and a weight that is not negative, and below 2^256 / 10000, does
-- not panic; it is at most the limit, at least the base up to the limit, at most the base and the
-- whole weight of the fees, its diversity is at most 10000 basis points and its estimate of the payers
-- at most the number of the payments. The limit is a uint64.
pub compute_quota-ok :
    (p : Params) (st : EpochStats) (base w : ℕ)
    → IsSketch st.hll
    → st.fee_weight ≡ pos w
    → w * max_bps < 2 ^ 256
    → p.max_gas_per_epoch < 2 ^ 64
    → (q : Quota) × ((compute_quota p st base ≡ ok q) × IsGrant p st base q)
unfolding compute_quota quota_with quota_from
compute_quota-ok p st base w sketch weight small limit =
    let (estimate, (runs, _)) = hll_estimate-ok st.hll sketch in
    let unique = unique_payers estimate st.payments in
    let bps = diversity_of p.diversity_target unique st.payments in
    let low = diversity_of-le p.diversity_target unique st.payments in
    let earned = w * bps / max_bps in
    let bounded : w * bps ≤ max_bps * w = grind arith in
    let product : int_mul st.fee_weight (pos bps) ≡ ok (pos (w * bps)) =
      ap (λ x. int_mul x (pos bps)) weight ∙ int_mul-pos w bps (omega arith) in
    let gas = min (base + earned) p.max_gas_per_epoch in
    let most = min_cases (base + earned) p.max_gas_per_epoch in
    let is_gas : to_uint64 (total_gas p.max_gas_per_epoch base (pos (w * bps) /ℤ max_bps))
        ≡ ok gas =
      ap (λ x. to_uint64 (total_gas p.max_gas_per_epoch base x)) (/ℤ_pos (w * bps) max_bps)
      ∙ (ap to_uint64 (total_gas-pos p.max_gas_per_epoch base earned)
          ∙ to_uint64-pos gas (omega (arith, most.1.0))) in
    let quota : Quota = record {
      app_id = st.app_id;
      epoch = 0;
      gas = gas;
      unique_payers_estimate = unique;
      diversity_bps = bps;
    } in
    let result = λ (r : Result ℕ). elim r as (λ _. Result Quota) [
      | err e ↦ err e
      | ok n ↦ ok (record quota { gas = n })
    ] in
    let divided = λ (r : Result ℤ). elim r as (λ _. Result Quota) [
      | err e ↦ err e
      | ok x ↦ quota_from p st base unique bps x
    ] in
    let after = λ (r : Result ℕ). elim r as (λ _. Result Quota) [
      | err e ↦ err e
      | ok n ↦ quota_with p st base (unique_payers n st.payments)
    ] in
    (
      quota,
      (
        ap after runs ∙ (ap divided product ∙ ap result is_gas),
        record {
          within = most.1.0;
          at_least_base = min_grows base earned p.max_gas_per_epoch;
          earned_at_most = earns base w gas earned (st.fee_weight) weight most.0 (share w bps low);
          diverse = low;
          payers = unique_payers-le estimate st.payments;
        },
      ),
    )
