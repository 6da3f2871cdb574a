-- ===== src/Lane/Policy.antt =====
-- chain/lane/lane.go: which transactions are sponsored, the cap of the lane, the proposer's selector
-- and the check of a proposal. A byte string is named by a number, and an address likewise.
use vapor_chain.Prelude.{
  ℕ, ◌+◌, ◌*◌, ◌/◌, ◌%◌, ◌^◌, Bool, true, false, not, ◌&&◌, ◌||◌, Option, none, some, List, [], ◌∷◌,
  ◌++◌, ◌==◌, ltb, leb, if◌then◌else◌, contains, length,
}

-- A message of a transaction: an Ethereum one with its `From` (none unless it has 20 bytes) and the
-- sender that the signature gives (none where the recovery fails), or another.
pub data Msg : Type 0 where
  eth : Option ℕ → Option ℕ → Msg
  other : Msg

-- A decoded transaction: its messages, and the gas limit if it declares one.
pub record Tx : Type 0 where
  pub msgs : List Msg
  pub gas : Option ℕ

abbrev in_senders : List ℕ → Option ℕ → Bool
in_senders senders none = false
in_senders senders (some a) = contains senders a

-- A message that counts: `From` where it is known, else the recovered sender.
unfoldable pub sponsored_msg : List ℕ → Msg → Bool
sponsored_msg senders other = false
sponsored_msg senders (eth (some from) signer) = contains senders from
sponsored_msg senders (eth none signer) = in_senders senders signer

unfoldable pub sponsored_msgs : List ℕ → List Msg → Bool
sponsored_msgs senders [] = false
sponsored_msgs senders (m ∷ []) = sponsored_msg senders m
sponsored_msgs senders (m ∷ n ∷ ms) = false

-- `IsSponsored`. A transaction that is nil is none.
unfoldable pub is_sponsored : Option Tx → List ℕ → Bool
is_sponsored none senders = false
is_sponsored (some tx) senders = not (length senders == 0) && sponsored_msgs senders tx.msgs

-- `txGas`.
unfoldable pub tx_gas : Option Tx → ℕ
tx_gas none = 0
tx_gas (some tx) = elim tx.gas [ none ↦ 0 | some g ↦ g ]

-- `Cap`, in uint64.
unfoldable pub cap : ℕ → ℕ → ℕ
cap max_block_gas bps =
    if max_block_gas == 0
    then 0
    else (max_block_gas / 10000 * bps % 2 ^ 64 + (max_block_gas % 10000 * bps % 2 ^ 64) / 10000)
      % 2 ^ 64

-- `Selector`, with the policy it has cached for the proposal.
pub record Selector : Type 0 where
  pub total_tx_bytes : ℕ
  pub total_tx_gas : ℕ
  pub sponsored_gas : ℕ
  pub selected_txs : List ℕ
  pub loaded : Bool
  pub senders : List ℕ
  pub bps : ℕ

-- `Clear`.
unfoldable pub clear : Selector → Selector
clear s = record {
  total_tx_bytes = 0;
  total_tx_gas = 0;
  sponsored_gas = 0;
  selected_txs = [];
  loaded = false;
  senders = [];
  bps = 0;
}

-- The policy of the state is read once a proposal.
unfoldable pub load : List ℕ → ℕ → Selector → Selector
load senders bps s =
    if s.loaded then s else record s { loaded = true; senders = senders; bps = bps }

-- The three tests of a candidate, in uint64.
unfoldable pub fits : ℕ → ℕ → ℕ → ℕ → Bool → Selector → Bool
fits max_tx_bytes max_block_gas size gas sponsored s =
    leb ((size + s.total_tx_bytes) % 2 ^ 64) max_tx_bytes
    && (max_block_gas == 0 || leb ((gas + s.total_tx_gas) % 2 ^ 64) max_block_gas)
    && (not sponsored
        || max_block_gas == 0
        || leb ((gas + s.sponsored_gas) % 2 ^ 64) (cap max_block_gas s.bps))

-- A candidate that fits is counted.
unfoldable pub take_tx : ℕ → ℕ → Bool → ℕ → Selector → Selector
take_tx size gas sponsored tx s = record s {
  total_tx_bytes = (s.total_tx_bytes + size) % 2 ^ 64;
  total_tx_gas = (s.total_tx_gas + gas) % 2 ^ 64;
  sponsored_gas = if sponsored then (s.sponsored_gas + gas) % 2 ^ 64 else s.sponsored_gas;
  selected_txs = s.selected_txs ++ tx ∷ [];
}

unfoldable pub offer : ℕ → ℕ → ℕ → ℕ → Bool → ℕ → Selector → Selector
offer max_tx_bytes max_block_gas size gas sponsored tx s =
    if fits max_tx_bytes max_block_gas size gas sponsored s
    then take_tx size gas sponsored tx s
    else s

-- What `SelectTxForProposal` is given: the policy of the state, and the size that the encoding of the
-- transaction takes.
pub record Candidate : Type 0 where
  pub mem_tx : Option Tx
  pub tx : ℕ
  pub size : ℕ

-- `SelectTxForProposal`: the selector after it, and whether the proposal is full.
unfoldable pub select_tx : List ℕ → ℕ → ℕ → ℕ → Candidate → Selector → Selector × Bool
select_tx senders bps max_tx_bytes max_block_gas c s =
    let l = load senders bps s in
    let t =
      offer max_tx_bytes max_block_gas c.size (tx_gas c.mem_tx) (is_sponsored c.mem_tx l.senders)
        c.tx l in
    (
      t,
      leb max_tx_bytes t.total_tx_bytes
          || (ltb 0 max_block_gas && leb max_block_gas t.total_tx_gas),
    )

-- The loop of the proposal's check: it rejects as soon as the sponsored gas is over the limit.
unfoldable pub accepts_from : (ℕ → Option Tx) → List ℕ → ℕ → ℕ → List ℕ → Bool
accepts_from decode senders limit sponsored [] = true
accepts_from decode senders limit sponsored (bz ∷ rest) =
    let gas = (sponsored + tx_gas (decode bz)) % 2 ^ 64 in
    let over = accepts_from decode senders limit gas rest in
    let same = accepts_from decode senders limit sponsored rest in
    if is_sponsored (decode bz) senders then (if ltb limit gas then false else over) else same

-- The handler of `ProcessProposalHandler`, after the inner one has accepted. The limit on a block's
-- gas is none where the parameters have no block part or no positive limit.
unfoldable pub accepts : (ℕ → Option Tx) → List ℕ → ℕ → Option ℕ → List ℕ → Bool
accepts decode senders bps none txs = true
accepts decode senders bps (some max_block_gas) txs =
    if max_block_gas == 0 || length senders == 0
    then true
    else accepts_from decode senders (cap max_block_gas bps) 0 txs
