-- ===== src/Lane/Tests.antt =====
-- The theorems of the sponsored lane at work on two transactions.
use vapor_chain.Prelude.{
  ℕ, ◌*◌, ◌/◌, ◌≤◌, ◌≡◌, ◌↔◌, refl, true, false, Option, none, some, List, [], ◌∷◌, arith, ◌==◌,
  if◌then◌else◌,
}
use vapor_chain.Lane.Policy.{Msg, Tx, Selector, Candidate, cap, clear, select_tx, accepts, tx_gas}
use vapor_chain.Lane.Cap.{cap-share}
use vapor_chain.Lane.Selection.{
  lane_sum, accepts_iff, IsWithin, IsFaithful, select_all, select_tx-IsWithin, select_all-accepts,
}

-- A transaction of the sponsor 7, and one of another sender.
abbrev small_decode : ℕ → Option Tx
small_decode bz =
    if bz == 1
    then some (record { msgs = Msg.eth none (some 7) ∷ []; gas = some 400 })
    else some (record { msgs = Msg.eth none (some 8) ∷ []; gas = some 500 })

abbrev small_senders : List ℕ
small_senders = 7 ∷ []

abbrev candidate : ℕ → Candidate
candidate bz = record { mem_tx = small_decode bz; tx = bz; size = 200 }

candidate-IsFaithful : IsFaithful small_decode small_senders (candidate 1)
candidate-IsFaithful =
    unfold tx_gas in record { same_class = refl; same_gas = refl; has_gas = omega arith }

other_IsFaithful : IsFaithful small_decode small_senders (candidate 2)
other_IsFaithful =
    unfold tx_gas in record { same_class = refl; same_gas = refl; has_gas = omega arith }

abbrev empty_selector : Selector
empty_selector = record {
  total_tx_bytes = 0;
  total_tx_gas = 0;
  sponsored_gas = 0;
  selected_txs = [];
  loaded = false;
  senders = [];
  bps = 0;
}

empty_IsWithin : IsWithin small_decode small_senders 5000 1000 5000 empty_selector
empty_IsWithin = record {
  counted = refl;
  in_lane = omega arith;
  in_block = omega arith;
  in_bytes = omega arith;
  known = tt;
  policy = λ p. cc;
}

cap-share_example : cap 1000 5000 ≡ 1000 * 5000 / 10000
cap-share_example = cap-share 1000 5000 (omega arith) (omega arith)

accepts_iff_example :
    (accepts small_decode small_senders 5000 (some 1000) (1 ∷ 2 ∷ []) ≡ true)
    ↔ (lane_sum small_decode small_senders (1 ∷ 2 ∷ []) ≤ cap 1000 5000)
accepts_iff_example =
    accepts_iff small_decode small_senders 5000 1000 (1 ∷ 2 ∷ []) (omega arith) (omega arith) refl
      refl (candidate-IsFaithful.has_gas, (other_IsFaithful.has_gas, tt))

select_tx-IsWithin_example :
    IsWithin small_decode small_senders 5000 1000 5000
      (select_tx small_senders 5000 5000 1000 (candidate 1) empty_selector).0
select_tx-IsWithin_example =
    select_tx-IsWithin small_decode small_senders 5000 1000 5000 refl (omega arith) (omega arith)
      (candidate 1) empty_selector candidate-IsFaithful empty_IsWithin

select_all-accepts_example :
    accepts small_decode small_senders 5000
      (some 1000)
      (select_all small_decode small_senders 5000 1000 5000 refl
        (omega arith)
        (omega arith)
        (candidate 1 ∷ candidate 2 ∷ [])
        (clear empty_selector)).selected_txs
    ≡ true
select_all-accepts_example =
    select_all-accepts small_decode small_senders 5000 1000 5000 refl (omega arith) (omega arith)
      (candidate 1 ∷ candidate 2 ∷ []) empty_selector (candidate-IsFaithful, (other_IsFaithful, tt))
