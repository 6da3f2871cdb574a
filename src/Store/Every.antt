-- ===== src/Store/Every.antt =====
-- A property of every entry of a map.
use vapor_chain.Prelude.{◌≡◌, sym, subst, inl, inr, some, [], ◌∷◌, arith, Eq, Bool-cases}
use vapor_chain.Store.{Map, get, set, remove}

module _ {K V : Type 0} ⦃e : Eq K⦄ (P : K → V → Type 0) where
  abbrev pub Every : Map K V → Type 0
  Every [] = Unit {0}
  Every ((k, v) ∷ m) = P k v × Every m

  pub get-Every : (k : K) (v : V) (m : Map K V) → Every m → get k m ≡ some v → P k v
  unfolding get
  get-Every k v [] h found = cc
  get-Every k v ((j, w) ∷ m) h found = elim (Bool-cases (e.beq k j)) [
    | inl hit ↦
        let same : j ≡ k = sym ((e.beq_iff k j).0 hit) in
        let value : w ≡ v = ground arith in subst (λ i. P i v) same (subst (λ u. P j u) value h.0)
    | inr miss ↦ get-Every k v m h.1 (ground arith)
  ]

  pub set-Every : (k : K) (v : V) (m : Map K V) → Every m → P k v → Every (set k v m)
  unfolding set
  set-Every k v [] h p = (p, tt)
  set-Every k v ((j, w) ∷ m) h p = elim (Bool-cases (e.beq k j)) [
    | inl hit ↦ rw hit (p, h.1)
    | inr miss ↦ rw miss (h.0, set-Every k v m h.1 p)
  ]

  pub remove-Every : (k : K) (m : Map K V) → Every m → Every (remove k m)
  unfolding remove
  remove-Every k [] h = tt
  remove-Every k ((j, w) ∷ m) h = elim (Bool-cases (e.beq k j)) [
    | inl hit ↦ rw hit h.1
    | inr miss ↦ rw miss (h.0, remove-Every k m h.1)
  ]

module _ {K V : Type 0} ⦃e : Eq K⦄ (P Q : K → V → Type 0) where
  -- A weaker property.
  pub map-Every : (m : Map K V) → ((k : K) (v : V) → P k v → Q k v) → Every P m → Every Q m
  map-Every [] f h = tt
  map-Every ((k, v) ∷ m) f h = (f k v h.0, map-Every m f h.1)

module _ {K V : Type 0} ⦃e : Eq K⦄ (P : K → V → Type 0) where
  -- A property that every key and value have.
  pub all-Every : (m : Map K V) → ((k : K) (v : V) → P k v) → Every P m
  all-Every [] f = tt
  all-Every ((k, v) ∷ m) f = (f k v, all-Every m f)
