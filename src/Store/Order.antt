-- ===== src/Store/Order.antt =====
-- `Walk` and `Iterate` visit the entries of a map by their keys' order.
use vapor_chain.Prelude.{
  true, false, ap, ◌∙◌, ◌≡◌, Bool, inl, inr, none, some, [], ◌∷◌, arith, if◌then◌else◌, Eq,
  Bool-cases, sym, refl,
}
use vapor_chain.Store.{Map, get}
use vapor_chain.Store.Keys.{IsMap, get-cons}
use vapor_chain.Store.Every.{Every}

module _ {K V : Type 0} (before : K → K → Bool) where
  unfoldable pub insert_sorted : K → V → Map K V → Map K V
  insert_sorted k v [] = (k, v) ∷ []
  insert_sorted k v ((j, w) ∷ m) =
      let rest = insert_sorted k v m in if before j k then (j, w) ∷ rest else (k, v) ∷ (j, w) ∷ m

  -- The entries in the order of their keys.
  unfoldable pub walk : Map K V → Map K V
  walk [] = []
  walk ((k, v) ∷ m) = insert_sorted k v (walk m)

-- The entries whose key passes a test.
unfoldable pub select : {K V : Type 0} → (K → Bool) → Map K V → Map K V
select test [] = []
select test ((k, v) ∷ m) = let rest = select test m in if test k then (k, v) ∷ rest else rest

module _ {K : Type 0} ⦃e : Eq K⦄ where
  clash : (k i j : K) → e.beq k i ≡ true → e.beq k j ≡ true → e.beq j i ≡ true
  clash k i j p q = (e.beq_iff j i).1 (sym ((e.beq_iff k j).0 q) ∙ (e.beq_iff k i).0 p)

  flip : (j i : K) → e.beq i j ≡ true → e.beq j i ≡ true
  flip j i p = (e.beq_iff j i).1 (sym ((e.beq_iff i j).0 p))

module _ {K V : Type 0} ⦃e : Eq K⦄ (before : K → K → Bool) where
  missing_split :
      (j i : K) (w : V) (m : Map K V)
      → get j ((i, w) ∷ m) ≡ none
      → (e.beq j i ≡ false) × (get j m ≡ none)
  unfolding get
  missing_split j i w m h = ground arith

  -- Sorting in an entry with a new key finds what putting it in front finds.
  pub get-insert_sorted :
      (k j : K) (v : V) (m : Map K V)
      → get j m ≡ none
      → get k (insert_sorted before j v m) ≡ get k ((j, v) ∷ m)
  unfolding get insert_sorted
  get-insert_sorted k j v [] h = refl
  get-insert_sorted k j v ((i, w) ∷ m) h =
      let (other, missing) = missing_split j i w m h in
      ground (arith, get-insert_sorted k j v m missing, clash k i j)

  pub insert_sorted-IsMap :
      (j : K) (v : V) (m : Map K V) → get j m ≡ none → IsMap m → IsMap (insert_sorted before j v m)
  unfolding insert_sorted get
  insert_sorted-IsMap j v [] h d = (refl, tt)
  insert_sorted-IsMap j v ((i, w) ∷ m) h d = elim (Bool-cases (before i j)) [
    | inr passed_by ↦ rw passed_by (h, d)
    | inl taken ↦
        let (other, missing) = missing_split j i w m h in
        rw taken (
          get-insert_sorted i j v m missing ∙ behind j i v m other d.0,
          insert_sorted-IsMap j v m missing d.1,
        )
  ]
    where
      behind :
          (j i : K) (v : V) (m : Map K V)
          → e.beq j i ≡ false
          → get i m ≡ none
          → get i ((j, v) ∷ m) ≡ none
      behind j i v m other missing = ground (arith, (e.beq_iff i j).0, (e.beq_iff j i).1, flip j i)

  -- The walk finds what the map finds, and visits a key once.
  pub walk-IsMap :
      (m : Map K V) → IsMap m → IsMap (walk before m) × ((k : K) → get k (walk before m) ≡ get k m)
  unfolding walk get
  walk-IsMap [] d = (tt, λ k. refl)
  walk-IsMap ((j, v) ∷ m) d =
      let (distinct, same) = walk-IsMap m d.1 in
      let missing : get j (walk before m) ≡ none = same j ∙ d.0 in
      (
        insert_sorted-IsMap j v (walk before m) missing distinct,
        λ k.
            get-insert_sorted k j v (walk before m) missing
            ∙ front k j v (walk before m) m (same k),
      )
    where
      front :
          (k j : K) (v : V) (m n : Map K V)
          → get k m ≡ get k n
          → get k ((j, v) ∷ m) ≡ get k ((j, v) ∷ n)
      front k j v m n h = ap (λ o. if e.beq k j then some v else o) h

module _ {K V : Type 0} ⦃e : Eq K⦄ (test : K → Bool) where
  pub get-select-none : (k : K) (m : Map K V) → get k m ≡ none → get k (select test m) ≡ none
  unfolding get select
  get-select-none k [] h = refl
  get-select-none k ((j, v) ∷ m) h = ground (arith, get-select-none k m)

  pub select-IsMap : (m : Map K V) → IsMap m → IsMap (select test m)
  unfolding select
  select-IsMap [] d = tt
  select-IsMap ((j, v) ∷ m) d = elim (Bool-cases (test j)) [
    | inl taken ↦ rw taken (get-select-none j m d.0, select-IsMap m d.1)
    | inr passed_by ↦ rw passed_by (select-IsMap m d.1)
  ]

  -- What a selection finds passes the test, and the map finds it.
  pub get-select :
      (k : K) (v : V) (m : Map K V)
      → IsMap m
      → get k (select test m) ≡ some v
      → (get k m ≡ some v) × (test k ≡ true)
  unfolding get select
  get-select k v [] d h = absurd (ground arith)
  get-select k v ((j, w) ∷ m) d h = elim (Bool-cases (test j)) [
    | inr passed_by ↦ later (get-select k v m d.1 (rw (passed_by, select) at h))
    | inl taken ↦ elim (Bool-cases (e.beq k j)) [
      | inl hit ↦
          let same = (e.beq_iff k j).0 hit in
          let found : get k ((j, w) ∷ select test m) ≡ some v = rw (taken, select) at h in
          (rw hit (rw (hit, get) at found), rw same taken)
      | inr miss ↦
          let found : get k ((j, w) ∷ select test m) ≡ some v = rw (taken, select) at h in
          later (get-select k v m d.1 (rw (miss, get) at found))
    ]
  ]
    where
      later : (get k m ≡ some v) × (test k ≡ true) → (get k ((j, w) ∷ m) ≡ some v) × (test k ≡ true)
      later both = (get-cons k j v w m d.0 both.0, both.1)

module _ {K V : Type 0} ⦃e : Eq K⦄ (P : K → V → Type 0) where
  insert_sorted-Every :
      (before : K → K → Bool) (k : K) (v : V) (m : Map K V)
      → P k v
      → Every P m
      → Every P (insert_sorted before k v m)
  unfolding insert_sorted
  insert_sorted-Every before k v [] p h = (p, tt)
  insert_sorted-Every before k v ((j, w) ∷ m) p h = elim (Bool-cases (before j k)) [
    | inl earlier ↦ rw earlier (h.0, insert_sorted-Every before k v m p h.1)
    | inr later ↦ rw later (p, h)
  ]

  pub walk-Every : (before : K → K → Bool) (m : Map K V) → Every P m → Every P (walk before m)
  unfolding walk
  walk-Every before [] h = tt
  walk-Every before ((k, v) ∷ m) h =
      insert_sorted-Every before k v (walk before m) h.0 (walk-Every before m h.1)

  -- What holds of every entry holds of those selected, and these pass the test.
  pub select-Every :
      (test : K → Bool) (m : Map K V)
      → Every P m
      → Every (λ k v. P k v × (test k ≡ true)) (select test m)
  unfolding select
  select-Every test [] h = tt
  select-Every test ((k, v) ∷ m) h = elim (Bool-cases (test k)) [
    | inl taken ↦ rw taken ((h.0, taken), select-Every test m h.1)
    | inr skipped ↦ rw skipped (select-Every test m h.1)
  ]
