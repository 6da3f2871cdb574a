-- ===== src/Apps/Hll.antt =====
-- chain/x/apps/types/hll.go: the HyperLogLog sketch of an app's payers, 64 registers of one byte.
use vapor_chain.Prelude.{
  ℕ, zero, suc, ◌+◌, ◌-◌, ◌*◌, ◌/◌, ◌%◌, ◌^◌, ◌&&◌, List, [], ◌∷◌, ltb, leb, ◌==◌, if◌then◌else◌,
  length, Result, ok, err, Error,
}

abbrev pub hll_size : ℕ
hll_size = 64

abbrev pub hll_max_rank : ℕ
hll_max_rank = 32

-- The entry for V empty registers is 64 * ln (64 / V), rounded.
abbrev pub linear_counting : List ℕ
linear_counting =
    0 ∷ 266 ∷ 222 ∷ 196 ∷ 177 ∷ 163 ∷ 151 ∷ 142 ∷ 133 ∷ 126 ∷ 119 ∷ 113 ∷ 107 ∷ 102 ∷ 97 ∷ 93 ∷ 89
    ∷ 85 ∷ 81 ∷ 78 ∷ 74 ∷ 71 ∷ 68 ∷ 65 ∷ 63 ∷ 60 ∷ 58 ∷ 55 ∷ 53 ∷ 51 ∷ 48 ∷ 46 ∷ 44 ∷ 42 ∷ 40 ∷ 39
    ∷ 37 ∷ 35 ∷ 33 ∷ 32 ∷ 30 ∷ 28 ∷ 27 ∷ 25 ∷ 24 ∷ 23 ∷ 21 ∷ 20 ∷ 18 ∷ 17 ∷ 16 ∷ 15 ∷ 13 ∷ 12 ∷ 11
    ∷ 10 ∷ 9 ∷ 7 ∷ 6 ∷ 5 ∷ 4 ∷ 3 ∷ 2 ∷ 1 ∷ 0 ∷ []

unfoldable pub zeros_of_length : ℕ → List ℕ
zeros_of_length zero = []
zeros_of_length (suc n) = 0 ∷ zeros_of_length n

-- `NewHLL`.
unfoldable pub new_hll : List ℕ
new_hll = zeros_of_length hll_size

-- `bits.Len64` of a number below 2 ^ fuel, by halving.
unfoldable pub bit_length : ℕ → ℕ → ℕ
bit_length zero x = 0
bit_length (suc fuel) x = let rest = bit_length fuel (x / 2) in if x == 0 then 0 else suc rest

-- `bits.LeadingZeros64`.
unfoldable pub leading_zeros : ℕ → ℕ
leading_zeros x = 64 - bit_length 64 x

-- The register of a hash of 64 bits: its six highest bits.
unfoldable pub register_of : ℕ → ℕ
register_of x = x / 2 ^ 58

-- One more than the leading zeros of the other bits, and at most 32.
unfoldable pub rank_of : ℕ → ℕ
rank_of x =
    let rank = leading_zeros (x * 64 % 2 ^ 64) + 1 in
    if ltb hll_max_rank rank then hll_max_rank else rank

-- `if rank > sketch[idx] { sketch[idx] = rank }`.
unfoldable pub raise_at : ℕ → ℕ → List ℕ → List ℕ
raise_at i rank [] = []
raise_at zero rank (r ∷ rs) = if ltb r rank then rank ∷ rs else r ∷ rs
raise_at (suc i) rank (r ∷ rs) = r ∷ raise_at i rank rs

-- A sketch of another length is replaced by an empty one.
unfoldable pub sketch_or_new : List ℕ → List ℕ
sketch_or_new sketch = if length sketch == hll_size then sketch else new_hll

-- `HLLAdd`, given the first eight bytes of the element's salted hash as a number.
unfoldable pub hll_add : List ℕ → ℕ → List ℕ
hll_add sketch x = raise_at (register_of x) (rank_of x) (sketch_or_new sketch)

-- `uint64(1) << (32 - uint64(r))`: from 33 on the difference wraps and the shift gives 0.
unfoldable pub share_of_register : ℕ → ℕ
share_of_register r = if leb r 32 then 2 ^ (32 - r) else 0

unfoldable pub count_zeros : List ℕ → ℕ
count_zeros [] = 0
count_zeros (r ∷ rs) = (if r == 0 then 1 else 0) + count_zeros rs

-- The sum Z of the registers, in a uint64 that starts at z.
unfoldable pub sum_shares : ℕ → List ℕ → ℕ
sum_shares z [] = z
sum_shares z (r ∷ rs) = sum_shares ((z + share_of_register r) % 2 ^ 64) rs

unfoldable pub entry_at : ℕ → List ℕ → Result ℕ
entry_at i [] = err Error.panicked
entry_at zero (x ∷ xs) = ok x
entry_at (suc i) (x ∷ xs) = entry_at i xs

-- The estimate from the sum and the number of empty registers.
unfoldable pub estimate_from : ℕ → ℕ → Result ℕ
estimate_from z zeros =
    let divisor = 1000 * z % 2 ^ 64 in
    if divisor == 0
    then err Error.panicked
    else (let est = 709 * 4096 * 2 ^ 32 % 2 ^ 64 / divisor in
        if leb est 160 && ltb 0 zeros then entry_at zeros linear_counting else ok est)

-- `HLLEstimate`. A division by zero panics.
unfoldable pub hll_estimate : List ℕ → Result ℕ
hll_estimate sketch =
    if length sketch == hll_size
    then (if count_zeros sketch == hll_size
        then ok 0
        else estimate_from (sum_shares 0 sketch) (count_zeros sketch))
    else ok 0
