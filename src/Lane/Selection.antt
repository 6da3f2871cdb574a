-- ===== src/Lane/Selection.antt =====
-- The proposer's selector and the validators' check (chain/lane/lane.go) agree on the sponsored lane.
use vapor_chain.Prelude.{
  ℕ, ◌+◌, ◌%◌, ◌^◌, ◌≤◌, ◌<◌, ◌≡◌, ◌↔◌, refl, sym, subst, inl, inr, Bool, true, false, not, ◌&&◌,
  ◌||◌, Option, some, List, [], ◌∷◌, ◌++◌, arith, ◌==◌, ltb, leb, if◌then◌else◌, All, length,
  Bool-cases, ltb→lt, ltb_no, leb→le,
}
use vapor_chain.Lane.Policy.{
  Tx, is_sponsored, tx_gas, cap, Selector, clear, load, fits, take_tx, offer, Candidate, select_tx,
  accepts_from, accepts,
}
use vapor_chain.Lane.Cap.{cap_le}

-- A gas limit that no sum of two overflows.
abbrev max_gas : ℕ
max_gas = 2 ^ 63

and_three : (a b c : Bool) → (a && b && c) ≡ true → (a ≡ true) × (b ≡ true) × (c ≡ true)
and_three a b c h = ground arith

lane_test : (a b c : Bool) → (not a || b || c) ≡ true → b ≡ false → a ≡ true → c ≡ true
lane_test a b c h k l = ground arith

or_right : (a b : Bool) → (a || b) ≡ true → a ≡ false → b ≡ true
or_right a b h k = ground arith

module _ (decode : ℕ → Option Tx) (senders : List ℕ) where
  -- What a transaction takes of the lane.
  abbrev pub lane_gas : ℕ → ℕ
  lane_gas bz = if is_sponsored (decode bz) senders then tx_gas (decode bz) else 0

  abbrev pub lane_sum : List ℕ → ℕ
  lane_sum [] = 0
  lane_sum (bz ∷ rest) = lane_gas bz + lane_sum rest

  lane_sum-append : (xs ys : List ℕ) → lane_sum (xs ++ ys) ≡ lane_sum xs + lane_sum ys
  lane_sum-append [] ys = omega arith
  lane_sum-append (x ∷ xs) ys = omega (arith, lane_sum-append xs ys)

  abbrev pub HasGas : ℕ → Type 0
  HasGas bz = tx_gas (decode bz) < max_gas

  accepts_from_iff :
      (limit sponsored : ℕ) (txs : List ℕ)
      → limit < max_gas
      → sponsored ≤ limit
      → All HasGas txs
      → (accepts_from decode senders limit sponsored txs ≡ true)
        ↔ (sponsored + lane_sum txs ≤ limit)
  unfolding accepts_from
  accepts_from_iff limit sponsored [] small fine gas = (λ _. omega arith, λ _. refl)
  accepts_from_iff limit sponsored (bz ∷ rest) small fine (g, gs) =
      elim (Bool-cases (is_sponsored (decode bz) senders)) [
        | inr paying ↦
            let loop = accepts_from_iff limit sponsored rest small fine gs in
            rw paying ((λ p. omega (arith, loop.0 p)), (λ q. loop.1 (omega arith)))
        | inl free ↦
            rw free
              (step (tx_gas (decode bz)) g (λ k ok. accepts_from_iff limit k rest small ok gs))
      ]
    where
      step :
          (x : ℕ)
          → x < max_gas
          → ((k : ℕ)
              → k ≤ limit
              → (accepts_from decode senders limit k rest ≡ true) ↔ (k + lane_sum rest ≤ limit))
          → ((if ltb limit ((sponsored + x) % 2 ^ 64)
                then false
                else accepts_from decode senders limit ((sponsored + x) % 2 ^ 64) rest)
              ≡ true)
            ↔ (sponsored + (x + lane_sum rest) ≤ limit)
      step x h loop =
          let whole : (sponsored + x) % 2 ^ 64 ≡ sponsored + x = omega arith in
          rw whole (elim (Bool-cases (ltb limit (sponsored + x))) [
            | inl over ↦
                rw over
                  ((λ p. cc), (λ q. absurd (omega (arith, ltb→lt limit (sponsored + x) over, q))))
            | inr within ↦
                let ih = loop (sponsored + x) (ltb_no limit (sponsored + x) within) in
                rw within ((λ p. omega (arith, ih.0 p)), (λ q. ih.1 (omega arith)))
          ])

  -- The proposal check accepts exactly the proposals whose sponsored gas is within the cap, if no
  -- transaction declares 2^63 gas or more, the block's gas is limited, below 2^63, the share is at
  -- most 10,000 basis points, and there is a sponsored sender.
  pub accepts_iff :
      (bps m : ℕ) (txs : List ℕ)
      → m < max_gas
      → bps ≤ 10000
      → (length senders == 0) ≡ false
      → (m == 0) ≡ false
      → All HasGas txs
      → (accepts decode senders bps (some m) txs ≡ true) ↔ (lane_sum txs ≤ cap m bps)
  unfolding accepts
  accepts_iff bps m txs small share some_sender some_gas gas =
      let within : cap m bps ≤ m = cap_le m bps (omega arith) share in
      let loop = accepts_from_iff (cap m bps) 0 txs (omega (arith, within)) (omega arith) gas in
      rw (some_gas, some_sender) ((λ p. omega (arith, loop.0 p)), (λ q. loop.1 (omega (arith, q))))

  -- A selector within its limits: the lane's gas that it counts is that of the transactions it has
  -- taken, and it is within the cap; so are the gas of the block and the bytes.
  pub record IsWithin (max_tx_bytes m bps : ℕ) (s : Selector) : Type 0 where
    pub counted : s.sponsored_gas ≡ lane_sum s.selected_txs
    pub in_lane : s.sponsored_gas ≤ cap m bps
    pub in_block : s.total_tx_gas ≤ m
    pub in_bytes : s.total_tx_bytes ≤ max_tx_bytes
    pub known : All HasGas s.selected_txs
    pub policy : s.loaded ≡ true → (s.senders ≡ senders) × (s.bps ≡ bps)

  -- A candidate whose transaction is what its bytes decode to.
  pub record IsFaithful (c : Candidate) : Type 0 where
    pub same_class : is_sponsored c.mem_tx senders ≡ is_sponsored (decode c.tx) senders
    pub same_gas : tx_gas c.mem_tx ≡ tx_gas (decode c.tx)
    pub has_gas : HasGas c.tx

  module _ (max_tx_bytes m bps : ℕ) (some_gas : (m == 0) ≡ false) (small : m < max_gas)
      (share : bps ≤ 10000) where
    -- What the three tests of a candidate say.
    fits-split :
        (size gas : ℕ) (sponsored : Bool) (s : Selector)
        → fits max_tx_bytes m size gas sponsored s ≡ true
        → s.bps ≡ bps
        → ((size + s.total_tx_bytes) % 2 ^ 64 ≤ max_tx_bytes)
          × ((gas + s.total_tx_gas) % 2 ^ 64 ≤ m)
          × (sponsored ≡ true → (gas + s.sponsored_gas) % 2 ^ 64 ≤ cap m bps)
    unfolding fits
    fits-split size gas sponsored s h same =
        let lane_fits = leb ((gas + s.sponsored_gas) % 2 ^ 64) (cap m s.bps) in
        let parts =
          and_three (leb ((size + s.total_tx_bytes) % 2 ^ 64) max_tx_bytes)
            (m == 0 || leb ((gas + s.total_tx_gas) % 2 ^ 64) m)
            (not sponsored || m == 0 || lane_fits) h in
        (
          leb→le ((size + s.total_tx_bytes) % 2 ^ 64) max_tx_bytes parts.0,
          leb→le ((gas + s.total_tx_gas) % 2 ^ 64) m
              (or_right (m == 0) (leb ((gas + s.total_tx_gas) % 2 ^ 64) m) parts.1 some_gas),
          (λ counts.
              subst (λ b. (gas + s.sponsored_gas) % 2 ^ 64 ≤ cap m b) same
                (leb→le ((gas + s.sponsored_gas) % 2 ^ 64) (cap m s.bps)
                  (lane_test sponsored (m == 0) lane_fits parts.2 some_gas counts))),
        )

    lane_after :
        (sponsored : Bool) (gas bz : ℕ) (s : Selector)
        → IsWithin max_tx_bytes m bps s
        → sponsored ≡ is_sponsored (decode bz) senders
        → gas ≡ tx_gas (decode bz)
        → HasGas bz
        → (sponsored ≡ true → (gas + s.sponsored_gas) % 2 ^ 64 ≤ cap m bps)
        → let after = if sponsored then (s.sponsored_gas + gas) % 2 ^ 64 else s.sponsored_gas in
          (after ≡ lane_sum (s.selected_txs ++ bz ∷ [])) × (after ≤ cap m bps)
    lane_after true gas bz s v class same h fit =
        let under : cap m bps ≤ m = cap_le m bps (omega arith) share in
        let gas_of : lane_gas bz ≡ gas = rw (← class) (sym same) in
        let sum = lane_sum-append s.selected_txs (bz ∷ []) in
        (omega (arith, sum, gas_of, same, h, v.counted, v.in_lane, under), omega (arith, fit refl))
    lane_after false gas bz s v class same h fit =
        let gas_of : lane_gas bz ≡ 0 = rw (← class) refl in
        (omega (arith, lane_sum-append s.selected_txs (bz ∷ []), gas_of, v.counted), v.in_lane)

    All-snoc : (bz : ℕ) (txs : List ℕ) → All HasGas txs → HasGas bz → All HasGas (txs ++ bz ∷ [])
    All-snoc bz [] hs h = (h, tt)
    All-snoc bz (x ∷ xs) (g, gs) h = (g, All-snoc bz xs gs h)

    load-IsWithin :
        (s : Selector)
        → IsWithin max_tx_bytes m bps s
        → IsWithin max_tx_bytes m bps (load senders bps s)
          × ((load senders bps s).senders ≡ senders)
          × ((load senders bps s).bps ≡ bps)
    unfolding load
    load-IsWithin s v = elim (Bool-cases s.loaded) [
      | inl loaded ↦ simp (loaded, load) (v, (v.policy loaded).0, (v.policy loaded).1)
      | inr fresh ↦
          rw (fresh, load)
            (
              record {
                counted = v.counted;
                in_lane = v.in_lane;
                in_block = v.in_block;
                in_bytes = v.in_bytes;
                known = v.known;
                policy = λ _. (refl, refl);
              },
              refl,
              refl,
            )
    ]

    offer-IsWithin :
        (size gas : ℕ) (sponsored : Bool) (bz : ℕ) (s : Selector)
        → IsWithin max_tx_bytes m bps s
        → s.bps ≡ bps
        → sponsored ≡ is_sponsored (decode bz) senders
        → gas ≡ tx_gas (decode bz)
        → HasGas bz
        → IsWithin max_tx_bytes m bps (offer max_tx_bytes m size gas sponsored bz s)
    unfolding offer take_tx
    offer-IsWithin size gas sponsored bz s v same_bps class same_gas has_gas =
        elim (Bool-cases (fits max_tx_bytes m size gas sponsored s)) [
          | inr refused ↦ rw (refused, offer) v
          | inl taken ↦
              let tests = fits-split size gas sponsored s taken same_bps in
              let lane = lane_after sponsored gas bz s v class same_gas has_gas tests.2 in
              rw (taken, offer)
                (record {
                  counted = lane.0;
                  in_lane = lane.1;
                  in_block = omega (arith, tests.1);
                  in_bytes = omega (arith, tests.0);
                  known = All-snoc bz s.selected_txs v.known has_gas;
                  policy = v.policy;
                })
        ]

    -- A call of `SelectTxForProposal` keeps the selector within its limits, and the sponsored gas
    -- that it counts is that of the transactions it has taken, if the candidate is what its bytes
    -- decode to and declares less than 2^63 gas, the block's gas is limited, below 2^63, and the
    -- share is at most 10,000 basis points.
    pub select_tx-IsWithin :
        (c : Candidate) (s : Selector)
        → IsFaithful c
        → IsWithin max_tx_bytes m bps s
        → IsWithin max_tx_bytes m bps (select_tx senders bps max_tx_bytes m c s).0
    unfolding select_tx
    select_tx-IsWithin c s f v =
        let l = load-IsWithin s v in
        offer-IsWithin c.size (tx_gas c.mem_tx) (is_sponsored c.mem_tx (load senders bps s).senders)
          c.tx (load senders bps s) l.0 l.2 (rw l.1 f.same_class) f.same_gas f.has_gas

    -- A proposal: the selector is offered candidates until it is full.
    abbrev pub select_all : List Candidate → Selector → Selector
    select_all [] s = s
    select_all (c ∷ cs) s =
        let r = select_tx senders bps max_tx_bytes m c s in
        let rest = select_all cs r.0 in if r.1 then r.0 else rest

    select_all-IsWithin :
        (cs : List Candidate) (s : Selector)
        → All IsFaithful cs
        → IsWithin max_tx_bytes m bps s
        → IsWithin max_tx_bytes m bps (select_all cs s)
    select_all-IsWithin [] s fs v = v
    select_all-IsWithin (c ∷ cs) s (f, fs) v =
        let w = select_tx-IsWithin c s f v in
        let r = select_tx senders bps max_tx_bytes m c s in
        elim (Bool-cases r.1) [
          | inl full ↦ rw full w
          | inr more ↦ rw more (select_all-IsWithin cs r.0 fs w)
        ]

    clear-IsWithin : (s : Selector) → IsWithin max_tx_bytes m bps (clear s)
    unfolding clear
    clear-IsWithin s = record {
      counted = refl;
      in_lane = omega arith;
      in_block = omega arith;
      in_bytes = omega arith;
      known = tt;
      policy = λ p. cc;
    }

    -- A proposal that a cleared selector builds is accepted by every validator with the same
    -- policy, if its candidates are what their bytes decode to and declare less than 2^63 gas, the
    -- block's gas is limited, below 2^63, and the share is at most 10,000 basis points.
    pub select_all-accepts :
        (cs : List Candidate) (s : Selector)
        → All IsFaithful cs
        → accepts decode senders bps (some m) (select_all cs (clear s)).selected_txs ≡ true
    unfolding accepts
    select_all-accepts cs s fs = elim (Bool-cases (length senders == 0)) [
      | inl no_sender ↦ rw (no_sender, some_gas) refl
      | inr some_sender ↦
          let v = select_all-IsWithin cs (clear s) fs (clear-IsWithin s) in
          (accepts_iff bps m (select_all cs (clear s)).selected_txs small share some_sender some_gas
              v.known).1
            (omega (arith, v.counted, v.in_lane))
    ]
