-- ===== src/Council/IbcGuard.antt =====
-- chain/x/council/ibcguard/middleware.go: the circuit breaker in the stack of token transfers. A text is
-- a number that names it, the empty text being 0.
use vapor_chain.Prelude.{
  ℕ, ◌≡◌, Bool, true, false, ◌&&◌, ◌||◌, Option, none, some, List, [], ◌∷◌, ◌==◌, if◌then◌else◌,
  nat_eq, Result, ok, err, Error, Action,
}
use vapor_chain.Settle.Types.{Addr, Denom}
use vapor_chain.Council.Keeper.{Env, State, is_ibc_paused}

-- What the guard reads of a packet of the IBC core.
pub record Packet : Type 0 where
  pub source_port : ℕ
  pub source_channel : ℕ
  pub dest_port : ℕ
  pub dest_channel : ℕ
  pub packet_data : ℕ

-- What the guard takes from ibc-go, and the two neighbours in its stack. A neighbour acts on the world
-- that the keepers share.
pub record Ibc (World : Type 0) : Type 1 where
  pub credit_denom : Denom
  pub power_denom : Denom
  -- `ModuleCdc.UnmarshalJSON` of the data of a packet: its field `Denom`, or none where it fails.
  pub unmarshal_denom : ℕ → Option Denom
  -- `ExtractDenomFromPath`, followed by `Base`, `Path` and `IBCDenom`.
  pub base_of : ℕ → Denom
  pub path_of : ℕ → Denom
  pub ibc_denom_of : ℕ → Denom
  -- `fmt.Sprintf("%s/%s/", port, channel)`, and the text that it and another make.
  pub hop : ℕ → ℕ → ℕ
  pub append : ℕ → ℕ → ℕ
  pub has_prefix : ℕ → ℕ → Bool
  pub trim_prefix : ℕ → ℕ → ℕ
  -- `NewErrorAcknowledgement`, which is never a success.
  pub Ack : Type 0
  pub success : Ack → Bool
  pub error_ack : Error → Ack
  pub error_ack_lem : (e : Error) → success (error_ack e) ≡ false
  -- The application below and the channel above.
  pub recv_packet : ℕ → Packet → Addr → World → Ack × World
  pub acknowledge_packet : ℕ → Packet → ℕ → Addr → World → Result World
  pub timeout_packet : ℕ → Packet → Addr → World → Result World
  pub send : ℕ → ℕ → ℕ → ℕ → ℕ → World → Result (ℕ × World)
  -- Neither internal denomination has a hop, and such a text names itself.
  pub internal_lem :
      (d : Denom)
      → ((d == credit_denom) || (d == power_denom)) ≡ true
      → (base_of d ≡ d) × (ibc_denom_of d ≡ d)

module _ (E : Env) (I : Ibc E.bank.World) where
  -- `neverLeaves`.
  unfoldable pub never_leaves : Denom → Bool
  never_leaves base = base == I.credit_denom || base == I.power_denom

  -- `sendDenoms`.
  unfoldable pub send_denoms : Denom → List Denom
  send_denoms denom = I.base_of denom ∷ I.path_of denom ∷ I.ibc_denom_of denom ∷ []

  -- The name on this chain of what a packet brings: one hop less for a token that returns, one hop more
  -- for another.
  unfoldable pub local_denom : Packet → Denom → Denom
  local_denom p denom =
      let prefix = I.hop p.source_port p.source_channel in
      if I.has_prefix denom prefix
      then I.ibc_denom_of (I.trim_prefix denom prefix)
      else I.ibc_denom_of (I.append (I.hop p.dest_port p.dest_channel) denom)

  -- `recvDenoms`.
  unfoldable pub recv_denoms : Packet → Denom → List Denom
  recv_denoms p denom = I.base_of denom ∷ I.path_of denom ∷ local_denom p denom ∷ []

  -- A call of the application below that may fail.
  unfoldable pub below : (E.bank.World → Result E.bank.World) → Action (State E) (Unit {0})
  below f s = elim (f s.world) [ ok w ↦ (ok tt, record s { world = w }) | err e ↦ (err e, s) ]

  -- Whether a received packet is stopped, at a block's height.
  unfoldable pub stops_receive : ℕ → Packet → State E → Bool
  stops_receive height p s = elim (I.unmarshal_denom p.packet_data) [
    | none ↦ false
    | some denom ↦ is_ibc_paused E s height (recv_denoms p denom)
  ]

  -- `OnRecvPacket`.
  unfoldable pub on_recv_packet : ℕ → ℕ → Packet → Addr → State E → I.Ack × State E
  on_recv_packet height version p relayer s =
      let (ack, w) = I.recv_packet version p relayer s.world in
      if stops_receive height p s
      then (I.error_ack Error.target_paused, s)
      else (ack, record s { world = w })

  -- `OnAcknowledgementPacket` and `OnTimeoutPacket`.
  unfoldable pub on_acknowledgement_packet : ℕ → Packet → ℕ → Addr → Action (State E) (Unit {0})
  on_acknowledgement_packet version p ack relayer =
      below (I.acknowledge_packet version p ack relayer)

  unfoldable pub on_timeout_packet : ℕ → Packet → Addr → Action (State E) (Unit {0})
  on_timeout_packet version p relayer = below (I.timeout_packet version p relayer)

  -- Whether a packet to send is stopped.
  unfoldable pub stops_send : ℕ → ℕ → State E → Bool
  stops_send height bytes s = elim (I.unmarshal_denom bytes) [
    | none ↦ false
    | some denom ↦
        (never_leaves (I.base_of denom) && (I.base_of denom == I.ibc_denom_of denom))
        || is_ibc_paused E s height (send_denoms denom)
  ]

  -- `SendPacket`.
  unfoldable pub send_packet : ℕ → ℕ → ℕ → ℕ → ℕ → ℕ → Action (State E) ℕ
  send_packet height port channel timeout_height timeout_timestamp bytes s =
      if stops_send height bytes s
      then (err Error.target_paused, s)
      else elim (I.send port channel timeout_height timeout_timestamp bytes s.world) [
        | ok (sequence, w) ↦ (ok sequence, record s { world = w })
        | err e ↦ (err e, s)
      ]
