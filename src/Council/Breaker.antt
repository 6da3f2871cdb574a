-- ===== src/Council/Breaker.antt =====
-- What the circuit breaker of chain/x/council/ibcguard stops: the internal denominations, and what the
-- guardians have paused.
use vapor_chain.Prelude.{
  ℕ, ◌+◌, ◌^◌, ◌<◌, ◌≤◌, ◌≡◌, refl, ◌∙◌, inl, inr, true, false, ◌||◌, some, List, [], ◌∷◌, arith,
  ◌==◌, ltb, contains, nat_eq, Bool-cases, ok, err, Error,
}
use vapor_chain.Settle.Types.{Addr, Denom}
use vapor_chain.Council.Keeper.{
  Env, State, target_ibc_denom, get_params, validate_target, is_paused, any_paused, is_ibc_paused,
}
use vapor_chain.Council.Msgs.{set_pause_msg}
use vapor_chain.Council.Pauses.{guardian_pause-stored}
use vapor_chain.Council.IbcGuard.{
  Packet, Ibc, never_leaves, send_denoms, recv_denoms, stops_receive, on_recv_packet, stops_send,
  send_packet,
}

module _ (E : Env) where
  any_paused-contains :
      (s : State E) (h : ℕ) (d : Denom) (ds : List Denom)
      → 0 < d
      → is_paused E s h (target_ibc_denom d) ≡ true
      → contains ds d ≡ true
      → any_paused E s h ds ≡ true
  unfolding any_paused
  any_paused-contains s h d [] some_text stopped h_in = ground arith
  any_paused-contains s h d (x ∷ ds) some_text stopped listed = elim (Bool-cases (x == d)) [
    | inl hit ↦
        let same : x ≡ d = ground arith in
        let empty : (d == 0) ≡ false = ground arith in rw (same, empty, stopped) refl
    | inr miss ↦
        let rest = any_paused-contains s h d ds some_text stopped (ground arith) in ground arith
  ]

module _ (E : Env) (I : Ibc E.bank.World) where
  stopped_by :
      (s : State E) (h : ℕ) (d : Denom) (ds : List Denom)
      → 0 < d
      → is_paused E s h (target_ibc_denom d) ≡ true
      → contains ds d ≡ true
      → is_ibc_paused E s h ds ≡ true
  unfolding is_ibc_paused
  stopped_by s h d ds some_text stopped listed =
      let found = any_paused-contains E s h d ds some_text stopped listed in ground arith

  stops_send-internal :
      (h bytes : ℕ) (d : Denom) (s : State E)
      → I.unmarshal_denom bytes ≡ some d
      → ((d == I.credit_denom) || (d == I.power_denom)) ≡ true
      → stops_send E I h bytes s ≡ true
  unfolding stops_send never_leaves
  stops_send-internal h bytes d s read internal =
      let (base, local) = I.internal_lem d internal in
      let same : (d == d) ≡ true = ground arith in
      rw (read, stops_send) (rw (base, local, never_leaves) (rw (internal, same) refl))

  stops_send-paused :
      (h bytes : ℕ) (denom : Denom) (s : State E)
      → I.unmarshal_denom bytes ≡ some denom
      → is_ibc_paused E s h (send_denoms E I denom) ≡ true
      → stops_send E I h bytes s ≡ true
  unfolding stops_send
  stops_send-paused h bytes denom s read stopped = rw (read, stops_send) (ground arith)

  stops_receive-paused :
      (h : ℕ) (p : Packet) (denom : Denom) (s : State E)
      → I.unmarshal_denom p.packet_data ≡ some denom
      → is_ibc_paused E s h (recv_denoms E I p denom) ≡ true
      → stops_receive E I h p s ≡ true
  unfolding stops_receive
  stops_receive-paused h p denom s read stopped = rw (read, stops_receive) stopped

  refused_send :
      (h port channel timeout_height timeout_timestamp bytes : ℕ) (s : State E)
      → stops_send E I h bytes s ≡ true
      → send_packet E I h port channel timeout_height timeout_timestamp bytes s
        ≡ (err Error.target_paused, s)
  unfolding send_packet
  refused_send h port channel timeout_height timeout_timestamp bytes s stopped =
      rw (stopped, send_packet) refl

  refused_receive :
      (h version : ℕ) (p : Packet) (relayer : Addr) (s : State E)
      → stops_receive E I h p s ≡ true
      → on_recv_packet E I h version p relayer s ≡ (I.error_ack Error.target_paused, s)
  unfolding on_recv_packet
  refused_receive h version p relayer s stopped = rw (stopped, on_recv_packet) refl

  -- A packet whose denomination is the gas credit or the power of validators is not sent, at any height
  -- and in any state: the send gets the error of a pause, and nothing changes.
  pub send_packet-internal :
      (h port channel timeout_height timeout_timestamp bytes : ℕ) (d : Denom) (s : State E)
      → I.unmarshal_denom bytes ≡ some d
      → ((d == I.credit_denom) || (d == I.power_denom)) ≡ true
      → send_packet E I h port channel timeout_height timeout_timestamp bytes s
        ≡ (err Error.target_paused, s)
  send_packet-internal h port channel timeout_height timeout_timestamp bytes d s read internal =
      refused_send h port channel timeout_height timeout_timestamp bytes s
        (stops_send-internal h bytes d s read internal)

  -- After a guardian's pause of a denomination, at any height before its expiry: the guard refuses to
  -- send a packet that names the denomination by its base, its path or its name on this chain, and
  -- answers one that brings it with an acknowledgement of an error; nothing changes either way.
  pub guardian-stops-ibc :
      (height later : ℕ) (signer : Addr) (d : Denom) (reason : ℕ) (s : State E)
      → validate_target E (target_ibc_denom d) ≡ ok tt
      → 0 < d
      → ltb 512 (E.text_length reason) ≡ false
      → (signer == E.authority) ≡ false
      → contains (get_params E s).guardians signer ≡ true
      → height + (get_params E s).guardian_pause_max_blocks < 2 ^ 63
      → later < height + (get_params E s).guardian_pause_max_blocks
      → height ≤ later
      → let t = (set_pause_msg E height signer (target_ibc_denom d) reason true s).1 in
        ((port channel timeout_height timeout_timestamp bytes : ℕ) (denom : Denom)
          → I.unmarshal_denom bytes ≡ some denom
          → contains (send_denoms E I denom) d ≡ true
          → send_packet E I later port channel timeout_height timeout_timestamp bytes t
            ≡ (err Error.target_paused, t))
        × ((version : ℕ) (p : Packet) (relayer : Addr) (denom : Denom)
            → I.unmarshal_denom p.packet_data ≡ some denom
            → contains (recv_denoms E I p denom) d ≡ true
            → on_recv_packet E I later version p relayer t ≡ (I.error_ack Error.target_paused, t))
  guardian-stops-ibc height later signer d reason s valid some_text short other guardian small
        before after =
      let t = (set_pause_msg E height signer (target_ibc_denom d) reason true s).1 in
      let paused : is_paused E t later (target_ibc_denom d) ≡ true =
        (guardian_pause-stored E height later signer (target_ibc_denom d) reason s valid short other
          guardian (omega arith) small).1
        ∙ ground arith in
      (
        λ port channel timeout_height timeout_timestamp bytes denom read listed.
            let stopped =
              stops_send-paused later bytes denom t read
                (stopped_by t later d (send_denoms E I denom) some_text paused listed) in
            refused_send later port channel timeout_height timeout_timestamp bytes t stopped,
        λ version p relayer denom read listed.
            let stopped =
              stops_receive-paused later p denom t read
                (stopped_by t later d (recv_denoms E I p denom) some_text paused listed) in
            refused_receive later version p relayer t stopped,
      )
