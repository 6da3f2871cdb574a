-- ===== src/Apps/Sketch.antt =====
-- What the sketch of chain/x/apps/types/hll.go holds: of each register the highest rank of the
-- elements that fall into it.
use vapor_chain.Prelude.{
  ℕ, zero, suc, ◌+◌, ◌*◌, ◌%◌, ◌^◌, ◌≤◌, ◌<◌, ◌≡◌, refl, ap, ◌∙◌, false, List, [], ◌∷◌, ltb, ◌==◌,
  if◌then◌else◌, arith, length, All, Bool-cases, inl, inr, ==_iff,
}
use vapor_chain.Apps.Hll.{
  hll_size, hll_max_rank, zeros_of_length, new_hll, leading_zeros, register_of, rank_of, raise_at,
  sketch_or_new, hll_add,
}

-- A sketch has 64 registers of at most 32.
abbrev pub IsSketch : List ℕ → Type 0
IsSketch s = (length s ≡ hll_size) × All (λ r. r ≤ hll_max_rank) s

-- The register of a number, 0 out of range.
abbrev pub register : ℕ → List ℕ → ℕ
register i [] = 0
register zero (r ∷ rs) = r
register (suc i) (r ∷ rs) = register i rs

abbrev pub max : ℕ → ℕ → ℕ
max a b = if ltb b a then a else b

-- The highest rank of the elements of one register.
abbrev pub max_rank : ℕ → List ℕ → ℕ
max_rank i [] = 0
max_rank i (x ∷ xs) = if register_of x == i then max (rank_of x) (max_rank i xs) else max_rank i xs

-- The sketch after all elements of a list, the last one first.
unfoldable pub add_all : List ℕ → List ℕ
add_all [] = new_hll
add_all (x ∷ xs) = hll_add (add_all xs) x

length-zeros_of_length : (n : ℕ) → length (zeros_of_length n) ≡ n
unfolding zeros_of_length
length-zeros_of_length zero = refl
length-zeros_of_length (suc n) = ap suc (length-zeros_of_length n)

All-zeros_of_length : (n : ℕ) → All (λ r. r ≤ hll_max_rank) (zeros_of_length n)
unfolding zeros_of_length
All-zeros_of_length zero = tt
All-zeros_of_length (suc n) = (omega arith, All-zeros_of_length n)

register-zeros_of_length : (n i : ℕ) → register i (zeros_of_length n) ≡ 0
unfolding zeros_of_length
register-zeros_of_length zero i = refl
register-zeros_of_length (suc n) zero = refl
register-zeros_of_length (suc n) (suc i) = register-zeros_of_length n i

pub new_hll-IsSketch : IsSketch new_hll
unfolding new_hll
new_hll-IsSketch = (length-zeros_of_length hll_size, All-zeros_of_length hll_size)

length-raise_at : (i rank : ℕ) (s : List ℕ) → length (raise_at i rank s) ≡ length s
unfolding raise_at
length-raise_at i rank [] = refl
length-raise_at zero rank (r ∷ rs) = ground arith
length-raise_at (suc i) rank (r ∷ rs) = ap suc (length-raise_at i rank rs)

All-raise_at :
    (i rank : ℕ) (s : List ℕ)
    → rank ≤ hll_max_rank
    → All (λ r. r ≤ hll_max_rank) s
    → All (λ r. r ≤ hll_max_rank) (raise_at i rank s)
unfolding raise_at
All-raise_at i rank [] h a = tt
All-raise_at zero rank (r ∷ rs) h a = elim (Bool-cases (ltb r rank)) [
  | inl more ↦ rw more (h, a.1)
  | inr less ↦ rw less a
]
All-raise_at (suc i) rank (r ∷ rs) h a = (a.0, All-raise_at i rank rs h a.1)

register-raise_at_self :
    (i rank : ℕ) (s : List ℕ)
    → i < length s
    → register i (raise_at i rank s) ≡ max rank (register i s)
unfolding raise_at
register-raise_at_self i rank [] h = absurd (omega arith)
register-raise_at_self zero rank (r ∷ rs) h = ground arith
register-raise_at_self (suc i) rank (r ∷ rs) h = register-raise_at_self i rank rs (omega arith)

register-raise_at_other :
    (i j rank : ℕ) (s : List ℕ) → (j == i) ≡ false → register i (raise_at j rank s) ≡ register i s
unfolding raise_at
register-raise_at_other i j rank [] h = refl
register-raise_at_other zero zero rank (r ∷ rs) h = absurd (ground arith)
register-raise_at_other (suc i) zero rank (r ∷ rs) h = ground arith
register-raise_at_other zero (suc j) rank (r ∷ rs) h = refl
register-raise_at_other (suc i) (suc j) rank (r ∷ rs) h =
    register-raise_at_other i j rank rs (ground arith)

sketch_or_new_same : (s : List ℕ) → length s ≡ hll_size → sketch_or_new s ≡ s
unfolding sketch_or_new
sketch_or_new_same s h = ground arith

pub rank_of_le : (x : ℕ) → rank_of x ≤ hll_max_rank
unfolding rank_of
rank_of_le x = capped (leading_zeros (x * 64 % 2 ^ 64) + 1)
  where
    capped : (n : ℕ) → (if ltb hll_max_rank n then hll_max_rank else n) ≤ hll_max_rank
    capped n = ground arith

register_of-lt : (x : ℕ) → x < 2 ^ 64 → register_of x < hll_size
unfolding register_of
register_of-lt x h = omega arith

-- Adding an element keeps a sketch of 64 registers of at most 32.
pub hll_add-IsSketch : (s : List ℕ) (x : ℕ) → IsSketch s → IsSketch (hll_add s x)
unfolding hll_add
hll_add-IsSketch s x (long, small) = rw (sketch_or_new_same s long) (
  length-raise_at (register_of x) (rank_of x) s ∙ long,
  All-raise_at (register_of x) (rank_of x) s (rank_of_le x) small,
)

pub add_all-IsSketch : (xs : List ℕ) → IsSketch (add_all xs)
unfolding add_all
add_all-IsSketch [] = new_hll-IsSketch
add_all-IsSketch (x ∷ xs) = hll_add-IsSketch (add_all xs) x (add_all-IsSketch xs)

-- The sketch of any list of elements, whose hashes have 64 bits, holds in each register the highest
-- rank of the elements that fall into it: neither their order nor how often each occurs matters.
pub add_all-max_rank :
    (xs : List ℕ) (i : ℕ) → All (λ x. x < 2 ^ 64) xs → register i (add_all xs) ≡ max_rank i xs
unfolding add_all hll_add new_hll
add_all-max_rank [] i h = register-zeros_of_length hll_size i
add_all-max_rank (x ∷ xs) i h =
    let s = add_all xs in
    let (long, small) = add_all-IsSketch xs in
    let before : register i s ≡ max_rank i xs = add_all-max_rank xs i h.1 in
    rw (sketch_or_new_same s long) (elim (Bool-cases (register_of x == i)) [
      | inr other ↦
          rw other (register-raise_at_other i (register_of x) (rank_of x) s other ∙ before)
      | inl here ↦
          let same : register_of x ≡ i = (==_iff (register_of x) i).0 here in
          let inside : i < length s = omega (arith, register_of-lt x h.0, long, same) in
          rw here
            (rw same (register-raise_at_self i (rank_of x) s inside ∙ ap (max (rank_of x)) before))
    ])
