-- ===== src/Store.antt =====
-- The maps of a keeper's store (`collections.Map` over the key-value store): association lists that
-- hold a key at most once, read by `Get`, written by `Set` and cleared by `Remove`.
pub mod Keys
pub mod Every
pub mod Order
use vapor_chain.Prelude.{
  ◌≡◌, refl, sym, ◌∙◌, ◌≢◌, inl, inr, Bool, true, false, Option, none, some, List, [], ◌∷◌, arith,
  if◌then◌else◌, Eq, Bool-cases, ℤ, pos, ◌+ℤ◌, int_laws,
}

abbrev pub Map : Type 0 → Type 0 → Type 0
Map K V = List (K × V)

same_key : {K : Type 0} ⦃e : Eq K⦄ (k j i : K) → e.beq k i ≡ true → e.beq j i ≡ true → k ≡ j
same_key ⦃e⦄ k j i p q = (e.beq_iff k i).0 p ∙ sym ((e.beq_iff j i).0 q)

module _ {K V : Type 0} ⦃e : Eq K⦄ where
  unfoldable pub get : K → Map K V → Option V
  get k [] = none
  get k ((j, v) ∷ m) = if e.beq k j then some v else get k m

  unfoldable pub set : K → V → Map K V → Map K V
  set k v [] = (k, v) ∷ []
  set k v ((j, w) ∷ m) = if e.beq k j then (k, v) ∷ m else (j, w) ∷ set k v m

  unfoldable pub remove : K → Map K V → Map K V
  remove k [] = []
  remove k ((j, w) ∷ m) = if e.beq k j then m else (j, w) ∷ remove k m

  abbrev pub has : K → Map K V → Bool
  has k m = elim (get k m) [ none ↦ false | some _ ↦ true ]

  pub get-set_self : (k : K) (v : V) (m : Map K V) → get k (set k v m) ≡ some v
  unfolding get set
  get-set_self k v [] = ground (arith, (e.beq_iff k k).1 refl)
  get-set_self k v ((j, w) ∷ m) = ground (arith, (e.beq_iff k k).1 refl, get-set_self k v m)

  pub get-set_ne : (k j : K) (v : V) (m : Map K V) → j ≢ k → get j (set k v m) ≡ get j m
  unfolding get set
  get-set_ne k j v [] h = ground (arith, (e.beq_iff j k).0)
  get-set_ne k j v ((i, w) ∷ m) h =
      ground (arith, (e.beq_iff j k).0, same_key j k i, get-set_ne k j v m h)

  pub get-remove_ne : (k j : K) (m : Map K V) → j ≢ k → get j (remove k m) ≡ get j m
  unfolding get remove
  get-remove_ne k j [] h = refl
  get-remove_ne k j ((i, w) ∷ m) h = ground (arith, same_key j k i, get-remove_ne k j m h)

  -- The sum of a weight over the entries.
  abbrev pub total : (K → V → ℤ) → Map K V → ℤ
  total w [] = pos 0
  total w ((k, v) ∷ m) = w k v +ℤ total w m

  -- What an entry that may be missing weighs.
  abbrev pub weight_of : (K → V → ℤ) → K → Option V → ℤ
  weight_of w k none = pos 0
  weight_of w k (some v) = w k v

  pub total-set :
      (w : K → V → ℤ) (k : K) (v : V) (m : Map K V)
      → total w (set k v m) +ℤ weight_of w k (get k m) ≡ total w m +ℤ w k v
  unfolding get set
  total-set w k v [] = omega int_laws
  total-set w k v ((j, u) ∷ m) = elim (Bool-cases (e.beq k j)) [
    | inl hit ↦ let same = (e.beq_iff k j).0 hit in rw hit (rw (← same) (omega int_laws))
    | inr miss ↦ rw miss (omega (int_laws, total-set w k v m))
  ]

  pub total-remove :
      (w : K → V → ℤ) (k : K) (m : Map K V)
      → total w (remove k m) +ℤ weight_of w k (get k m) ≡ total w m
  unfolding get remove
  total-remove w k [] = omega int_laws
  total-remove w k ((j, u) ∷ m) = elim (Bool-cases (e.beq k j)) [
    | inl hit ↦ let same = (e.beq_iff k j).0 hit in rw hit (rw (← same) (omega int_laws))
    | inr miss ↦ rw miss (omega (int_laws, total-remove w k m))
  ]
