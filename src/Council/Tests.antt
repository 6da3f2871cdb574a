-- ===== src/Council/Tests.antt =====
-- The theorems of the council at work on a small chain.
use vapor_chain.Prelude.{
  ◌+◌, ◌*◌, ◌^◌, ◌≡◌, refl, true, false, none, some, [], ◌∷◌, arith, ltb, pos, ok, Ensures,
  atomically, err, Error, ℕ, Option, contains, ◌||◌,
}
use vapor_chain.Store.{get}
use vapor_chain.Settle.Tests.{small_bank, small_texts}
use vapor_chain.Council.Keeper.{
  Env, State, get_params, default_params, is_pause_active, active_at, is_paused,
  prune_expired_pauses, admit_validator, is_removed, target_settle, target_ibc_denom,
  validate_target,
}
use vapor_chain.Council.Msgs.{set_pause_msg, admit_msg, after_validator_created}
use vapor_chain.Council.Pauses.{guardian_pause-expires, prune-is_paused}
use vapor_chain.Council.IbcGuard.{
  Packet, Ibc, send_denoms, recv_denoms, send_packet, on_recv_packet,
}
use vapor_chain.Council.Breaker.{send_packet-internal, guardian-stops-ibc}
use vapor_chain.Council.Reached.{Step, Reach, Reach-is_removed}
use vapor_chain.Council.Admissions.{Granted, admit_validator-capped}

abbrev small_env : Env
small_env = record {
  bank = small_bank;
  texts = small_texts;
  text_length = λ t. 4;
  authority = 50;
  module_account = 102;
  power_denom = 8;
  validator_of = λ w a. none;
  jail = λ a w. ok w;
  has_signing_info = λ w a. false;
  is_tombstoned = λ w a. false;
  tombstone = λ a w. ok w;
}

-- The settlement is paused until block 40; 70 is a guardian.
abbrev paused : State small_env
paused = record {
  world = λ a d. pos 0;
  params = some (record default_params { guardians = 70 ∷ [] });
  admissions = [];
  pauses =
      (
        target_settle,
        record {
          target = target_settle;
          set_by = 70;
          set_height = 30;
          expires_height = pos 40;
          reason = 0;
        },
      )
      ∷ [];
}

guardian_pause-expires_example :
    ((set_pause_msg small_env 35 70 target_settle 1 true paused).0 ≡ ok tt)
    × (is_paused small_env
          (set_pause_msg small_env 35 70 target_settle 1 true paused).1
          61
          target_settle
        ≡ (ltb 61 (35 + (get_params small_env paused).guardian_pause_max_blocks)
            || is_paused small_env paused 61 target_settle))
unfolding get_params validate_target is_paused get active_at is_pause_active
guardian_pause-expires_example =
    guardian_pause-expires small_env 35 61 70 target_settle 1 paused refl refl refl refl
      (omega arith) (omega arith) refl

prune-is_paused_example :
    is_paused small_env (prune_expired_pauses small_env 45 paused) 46 target_settle
    ≡ is_paused small_env paused 46 target_settle
unfolding get
prune-is_paused_example =
    prune-is_paused small_env 45 46 target_settle paused (refl, tt) (omega arith)

admit_validator-capped_example :
    Ensures
      (λ _ t. Granted small_env paused 60 (pos 5) (pos (1000 * 10 ^ 18)) t)
      (admit_validator small_env 60 60 (some (pos 5)) 0 paused)
unfolding get_params
admit_validator-capped_example =
    admit_validator-capped small_env 60 60 (pos 5) (pos (1000 * 10 ^ 18)) 0 paused refl

-- A chain on which the operator 60 was removed.
abbrev banned : State small_env
banned = record paused {
  admissions =
      (
        60,
        record {
          operator = 60;
          power_granted = pos 5;
          admitted_height = 1;
          removed = true;
          memo = 0;
        },
      )
      ∷ [];
}

abbrev asked_again : State small_env
asked_again = (atomically (admit_msg small_env 70 50 60 (some (pos 5)) 0) banned).1

Reach-is_removed_example :
    (is_removed small_env asked_again 60 ≡ true)
    × (after_validator_created small_env asked_again 60 ≡ err Error.removed)
unfolding is_removed get
Reach-is_removed_example =
    Reach-is_removed small_env 60 {s = banned} {t = asked_again} refl
      (Reach.next Reach.here (Step.admits 70 50 60 (some (pos 5)) 0 banned))

-- A stack in which a text has no hop, and whatever is sent gets the number 1. An acknowledgement holds the
-- error, if there is one.
abbrev small_ibc : Ibc small_env.bank.World
small_ibc = record {
  credit_denom = 6;
  power_denom = 8;
  unmarshal_denom = some;
  base_of = λ t. t;
  path_of = λ t. t;
  ibc_denom_of = λ t. t;
  hop = λ port channel. 0;
  append = λ hop t. t;
  has_prefix = λ t p. false;
  trim_prefix = λ t p. t;
  Ack = Option Error;
  success = λ a. elim a [ none ↦ true | some e ↦ false ];
  error_ack = some;
  error_ack_lem = λ e. refl;
  recv_packet = λ version p relayer w. (none, w);
  acknowledge_packet = λ version p ack relayer w. ok w;
  timeout_packet = λ version p relayer w. ok w;
  send = λ port channel height timestamp bytes w. ok (1, w);
  internal_lem = λ d internal. (refl, refl);
}

send_packet-internal_example :
    send_packet small_env small_ibc 61 1 2 0 0 6 paused ≡ (err Error.target_paused, paused)
send_packet-internal_example =
    send_packet-internal small_env small_ibc 61 1 2 0 0 6 6 paused refl refl

-- The denomination 5 is paused by the guardian at block 60.
abbrev stopped : State small_env
stopped = (set_pause_msg small_env 60 70 (target_ibc_denom 5) 1 true paused).1

guardian-stops-ibc_example :
    ((port channel timeout_height timeout_timestamp bytes denom : ℕ)
      → small_ibc.unmarshal_denom bytes ≡ some denom
      → contains (send_denoms small_env small_ibc denom) 5 ≡ true
      → send_packet small_env small_ibc 61 port channel timeout_height timeout_timestamp bytes
          stopped
        ≡ (err Error.target_paused, stopped))
    × ((version : ℕ) (p : Packet) (relayer denom : ℕ)
        → small_ibc.unmarshal_denom p.packet_data ≡ some denom
        → contains (recv_denoms small_env small_ibc p denom) 5 ≡ true
        → on_recv_packet small_env small_ibc 61 version p relayer stopped
          ≡ (some Error.target_paused, stopped))
unfolding get_params validate_target
guardian-stops-ibc_example =
    guardian-stops-ibc small_env small_ibc 60 61 70 5 1 paused refl (omega arith) refl refl refl
      (omega arith) (omega arith) (omega arith)
