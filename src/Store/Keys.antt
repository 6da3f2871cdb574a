-- ===== src/Store/Keys.antt =====
-- The keys of a map are distinct, and stay so.
use vapor_chain.Prelude.{
  ap, ◌∙◌, ◌≢◌, some_inj, ◌≡◌, refl, sym, ◌⊎◌, inl, inr, none, some, [], ◌∷◌, arith, Eq, Bool-cases,
}
use vapor_chain.Store.{Map, get, set, remove, get-set_self, get-set_ne, get-remove_ne}
use vapor_chain.Store.Every.{Every}

module _ {K V : Type 0} ⦃e : Eq K⦄ where
  abbrev pub IsMap : Map K V → Type 0
  IsMap [] = Unit {0}
  IsMap ((k, v) ∷ m) = (get k m ≡ none) × IsMap m

  pub set-IsMap : (k : K) (v : V) (m : Map K V) → IsMap m → IsMap (set k v m)
  unfolding get set
  set-IsMap k v [] h = (refl, tt)
  set-IsMap k v ((j, w) ∷ m) h = elim (Bool-cases (e.beq k j)) [
    | inl hit ↦ let same = (e.beq_iff k j).0 hit in rw hit (rw same h)
    | inr miss ↦ rw miss (
      rw (get-set_ne k j v m (λ p. ground (arith, (e.beq_iff k j).1 (sym p)))) h.0,
      set-IsMap k v m h.1,
    )
  ]

  pub remove-IsMap : (k : K) (m : Map K V) → IsMap m → IsMap (remove k m)
  unfolding get remove
  remove-IsMap k [] h = tt
  remove-IsMap k ((j, w) ∷ m) h = elim (Bool-cases (e.beq k j)) [
    | inl hit ↦ rw hit (h.1)
    | inr miss ↦ rw miss (
      rw (get-remove_ne k j m (λ p. ground (arith, (e.beq_iff k j).1 (sym p)))) h.0,
      remove-IsMap k m h.1,
    )
  ]

  pub get-remove_self : (k : K) (m : Map K V) → IsMap m → get k (remove k m) ≡ none
  unfolding get remove
  get-remove_self k [] h = refl
  get-remove_self k ((j, w) ∷ m) h = elim (Bool-cases (e.beq k j)) [
    | inl hit ↦ let same = (e.beq_iff k j).0 hit in rw (hit, same) h.0
    | inr miss ↦ rw (miss, miss) (get-remove_self k m h.1)
  ]

  -- What holds of all that is found holds of every entry.
  pub IsMap-Every :
      (P : K → V → Type 0) (m : Map K V)
      → IsMap m
      → ((k : K) (v : V) → get k m ≡ some v → P k v)
      → Every P m
  unfolding get
  IsMap-Every P [] h f = tt
  IsMap-Every P ((j, w) ∷ m) h f =
      let self : get j ((j, w) ∷ m) ≡ some w = rw ((e.beq_iff j j).1 refl) refl in
      (
        f j w self,
        IsMap-Every P m h.1 (λ k v found. elim (Bool-cases (e.beq k j)) [
          | inl hit ↦
              let same = (e.beq_iff k j).0 hit in let missing : get k m ≡ none = rw same h.0 in cc
          | inr miss ↦ f k v (rw miss found)
        ]),
      )

  -- What is found in a map stays found behind a new key.
  pub get-cons :
      (k j : K) (v w : V) (m : Map K V)
      → get j m ≡ none
      → get k m ≡ some v
      → get k ((j, w) ∷ m) ≡ some v
  unfolding get
  get-cons k j v w m missing found = elim (Bool-cases (e.beq k j)) [
    | inl hit ↦
        let same = (e.beq_iff k j).0 hit in let lost : get k m ≡ none = rw same missing in cc
    | inr miss ↦ rw miss found
  ]

  -- A removal takes its key away and nothing else.
  pub get-remove_cases :
      (k j : K) (m : Map K V)
      → IsMap m
      → ((j ≡ k) × (get j (remove k m) ≡ none)) ⊎ (get j (remove k m) ≡ get j m)
  get-remove_cases k j m h = elim (Bool-cases (e.beq j k)) [
    | inl hit ↦ let same = (e.beq_iff j k).0 hit in inl (same, rw same (get-remove_self k m h))
    | inr miss ↦ inr (get-remove_ne k j m (λ p. ground (arith, (e.beq_iff j k).1 p)))
  ]

  -- What is found after a write was written, or was there before.
  pub get-set_cases :
      (k j : K) (v w : V) (m : Map K V)
      → get j (set k v m) ≡ some w
      → ((j ≡ k) × (v ≡ w)) ⊎ ((j ≢ k) × (get j m ≡ some w))
  get-set_cases k j v w m found = elim (Bool-cases (e.beq j k)) [
    | inl hit ↦
        let same : j ≡ k = (e.beq_iff j k).0 hit in
        inl (
          same,
          some_inj v w
              (sym (get-set_self k v m) ∙ (ap (λ i. get i (set k v m)) (sym same) ∙ found)),
        )
    | inr miss ↦
        let other : j ≢ k = λ p. ground (arith, (e.beq_iff j k).1 p) in
        inr (other, sym (get-set_ne k j v m other) ∙ found)
  ]
