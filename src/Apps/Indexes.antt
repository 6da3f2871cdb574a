-- ===== src/Apps/Indexes.antt =====
-- The indexes that `InitGenesis` of chain/x/apps/keeper/genesis.go rebuilds from the entries it loads.
use vapor_chain.Prelude.{
  ◌≡◌, ◌≢◌, refl, sym, ap, ◌∙◌, inl, inr, Bool, true, false, Option, none, some, [], ◌∷◌, arith, Eq,
  Bool-cases, Option-cases,
}
use vapor_chain.Store.{Map, get, set, get-set_self, get-set_ne}
use vapor_chain.Store.Keys.{IsMap, get-cons}
use vapor_chain.Store.Every.{Every, get-Every}
use vapor_chain.Store.Order.{walk, walk-IsMap}
use vapor_chain.Apps.Genesis.{load, items}

clash : false ≡ true → ⊥
clash h = ground arith

not_both : ◌≡◌ {A = Option (Unit {0})} none (some tt) → ⊥
not_both h = cc

module _ {J : Type 0} ⦃ej : Eq J⦄ where
  apart : (i j : J) → ej.beq i j ≡ false → i ≢ j
  apart i j h p = clash (sym h ∙ (ej.beq_iff i j).1 p)

  set-marked : (i j : J) (m : Map J (Unit {0})) → get i m ≡ some tt → get i (set j tt m) ≡ some tt
  set-marked i j m h = elim (Bool-cases (ej.beq i j)) [
    | inl hit ↦ ap (λ x. get x (set j tt m)) ((ej.beq_iff i j).0 hit) ∙ get-set_self j tt m
    | inr miss ↦ get-set_ne j i tt m (apart i j miss) ∙ h
  ]

module _ {K J V : Type 0} ⦃e : Eq K⦄ ⦃ej : Eq J⦄ (key : V → J) where
  -- A set of keys is the index of a map: it holds the key of every value, and nothing else.
  pub record IsIndex (n : Map K V) (x : Map J (Unit {0})) : Type 0 where
    pub marks : Every (λ _ v. get (key v) x ≡ some tt) n
    pub marked : Every (λ j _. (k : K) × ((v : V) × ((get k n ≡ some v) × (key v ≡ j)))) x

  -- The set that the loop makes.
  abbrev pub indexed : Map K V → Map J (Unit {0}) → Map J (Unit {0})
  indexed n m = load key (λ _ _. tt) (items (λ _ v. v) n) m

  indexed-kept :
      (j : J) (n : Map K V) (m : Map J (Unit {0}))
      → get j m ≡ some tt
      → get j (indexed n m) ≡ some tt
  unfolding load items
  indexed-kept j [] m h = h
  indexed-kept j ((k, v) ∷ n) m h = indexed-kept j n (set (key v) tt m) (set-marked j (key v) m h)

  indexed-marked :
      (k : K) (v : V) (n : Map K V) (m : Map J (Unit {0}))
      → get k n ≡ some v
      → get (key v) (indexed n m) ≡ some tt
  unfolding load items get
  indexed-marked k v [] m found = cc
  indexed-marked k v ((i, w) ∷ n) m found = elim (Bool-cases (e.beq k i)) [
    | inl hit ↦
        let same : w ≡ v = ground arith in
        indexed-kept (key v) n (set (key w) tt m)
          (ap (λ u. get (key v) (set (key u) tt m)) same ∙ get-set_self (key v) tt m)
    | inr miss ↦ indexed-marked k v n (set (key w) tt m) (ground arith)
  ]

  indexed-unmarked :
      (j : J) (n : Map K V) (m : Map J (Unit {0}))
      → IsMap n
      → get j m ≡ none
      → ((k : K) (v : V) → get k n ≡ some v → j ≢ key v)
      → get j (indexed n m) ≡ none
  unfolding load items get
  indexed-unmarked j [] m distinct fresh other = fresh
  indexed-unmarked j ((k, v) ∷ n) m distinct fresh other =
      let here : get k ((k, v) ∷ n) ≡ some v = rw ((e.beq_iff k k).1 refl) refl in
      indexed-unmarked j n (set (key v) tt m) distinct.1
        (get-set_ne (key v) j tt m (other k v here) ∙ fresh)
        (λ i w found. other i w (get-cons i k w v n distinct.0 found))

  -- The index of a map is rebuilt from a walk over it.
  pub load-index :
      (before : K → K → Bool) (n : Map K V) (x : Map J (Unit {0})) (j : J)
      → IsMap n
      → IsIndex n x
      → get j (indexed (walk before n) []) ≡ get j x
  unfolding get
  load-index before n x j distinct is =
      let (sorted, same) = walk-IsMap before n distinct in
      elim (Option-cases (get j x)) [
        | inr (u, found) ↦
            let (k, (v, (held, keyed))) =
              get-Every (λ i _. (k : K) × ((v : V) × ((get k n ≡ some v) × (key v ≡ i)))) j u x
                is.marked found in
            ap (λ i. get i (indexed (walk before n) [])) (sym keyed)
            ∙ (indexed-marked k v (walk before n) [] (same k ∙ held) ∙ sym found)
        | inl missing ↦
            indexed-unmarked j (walk before n) [] sorted refl (λ k v held equal. not_both (
              sym missing
              ∙ (ap (λ i. get i x) equal
                  ∙ get-Every (λ _ w. get (key w) x ≡ some tt) k v n is.marks
                      (sym (same k) ∙ held))))
            ∙ sym missing
      ]
