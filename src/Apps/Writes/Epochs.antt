-- ===== src/Apps/Writes/Epochs.antt =====
-- The quota engine's operations as sequences of writes, and the end of a block.
use vapor_chain.Prelude.{
  ℕ, ◌+◌, ◌%◌, ◌^◌, inl, inr, Bool, true, false, not, [], ◌∷◌, ◌==◌, Bool-cases, nat_eq, pair_eq, ℤ,
  pos, ltb_ℤ, >>=_Ensures, ◌>>=◌, ◌>>◌, modify, lift, when,
}
use vapor_chain.Store.{Map, set}
use vapor_chain.Settle.Types.{Addr}
use vapor_chain.Apps.Types.{EpochStats, Quota, Params, no_app}
use vapor_chain.Apps.Env.{Env, State, M, get_params}
use vapor_chain.Apps.Registry.{get_app}
use vapor_chain.Apps.Quota.{
  base_quota, compute_quota, with_epoch, epoch_of, start_of, record_settlement, bond_of, is_live,
  grant_quota, grant_each, stats_of, last_of, rolled, rollover_epoch,
}
use vapor_chain.Apps.Bindings.{finalize_moves}
use vapor_chain.Apps.Bonds.{release_unbondings, end_block}
use vapor_chain.Apps.Writes.{Write, Writes, IsWritten, IsWritten-after, >>=_IsWritten, one}
use vapor_chain.Apps.Writes.Registry.{read-IsWritten}
use vapor_chain.Apps.Writes.Moves.{IsSingle, finalize_moves-IsWritten}
use vapor_chain.Apps.Writes.Bonds.{IsQueue, Writes-IsQueue}
use vapor_chain.Apps.Writes.Releases.{release_unbondings-IsWritten}

module _ (E : Env) where
  pub record_settlement-Writes :
      (id : ℕ) (payer : Addr) (weight : ℤ) (s : State E)
      → Writes E s (record_settlement E id payer weight s)
  unfolding record_settlement
  record_settlement-Writes id payer weight s = elim (Bool-cases (id == no_app)) [
    | inl nobody ↦ rw nobody Writes.no_more
    | inr app ↦ rw app (one E (Write.measures _ s.quotas s.epoch_number s.epoch_start s))
  ]

  when-IsWritten :
      (b : Bool) (m : M E (Unit {0})) (s : State E)
      → IsWritten E s (m s)
      → IsWritten E s (when b m s)
  when-IsWritten true m s h = h
  when-IsWritten false m s h = Writes.no_more

  grant_quota-IsWritten :
      (p : Params) (next : ℕ) (st : EpochStats) (s : State E)
      → IsWritten E s (grant_quota E p next st s)
  unfolding grant_quota
  grant_quota-IsWritten p next st s =
      let write = λ (q : Quota).
        modify
          (λ (t : State E). record t { quotas = set st.app_id (with_epoch next q) t.quotas }) in
      let computed = λ (base : ℕ). lift (compute_quota p st base) >>= write in
      let grant = lift (base_quota p (bond_of E s st.app_id)) >>= computed in
      when-IsWritten (is_live E (get_app E s st.app_id)) grant s (
        read-IsWritten E s (base_quota p (bond_of E s st.app_id)) computed (λ base _.
          read-IsWritten E s (compute_quota p st base) write (λ q _. one E (
            Write.measures s.epoch_stats (set st.app_id (with_epoch next q) s.quotas) s.epoch_number
              s.epoch_start s))))

  grant_each-IsWritten :
      (p : Params) (next : ℕ) (m : Map (ℕ × ℕ) EpochStats) (s : State E)
      → IsWritten E s (grant_each E p next m s)
  unfolding grant_each
  grant_each-IsWritten p next [] s = Writes.no_more
  grant_each-IsWritten p next ((key, st) ∷ rest) s =
      >>=_IsWritten E (grant_quota E p next st) (λ _. grant_each E p next rest) s
        (grant_quota-IsWritten p next st s) (λ _ t. grant_each-IsWritten p next rest t)

  pub rollover_epoch-IsWritten :
      (height : ℕ) (s : State E) → IsWritten E s (rollover_epoch E height s)
  unfolding rollover_epoch
  rollover_epoch-IsWritten height s =
      let p = get_params E s in
      let epoch = epoch_of E s in
      let grant = grant_each E p ((epoch + 1) % 2 ^ 64) (stats_of E epoch s.epoch_stats) in
      when-IsWritten (not (ltb_ℤ (pos height) (last_of E (start_of E height s) p)))
        (grant >> modify (rolled E height epoch)) s
        (>>=_IsWritten E grant (λ _. modify (rolled E height epoch)) s
          (grant_each-IsWritten p ((epoch + 1) % 2 ^ 64) (stats_of E epoch s.epoch_stats) s)
          (λ _ t. one E (Write.measures _ t.quotas _ _ t)))

  -- The end of a block, where no contract is bound twice and no unbonding is kept twice.
  pub end_block-IsWritten :
      (height : ℕ) (s : State E) → IsSingle E s → IsQueue E s → IsWritten E s (end_block E height s)
  unfolding end_block
  end_block-IsWritten height s single queue =
      let roll = rollover_epoch E height in
      let release = release_unbondings E height in
      let written = λ (_ : Unit {0}) (t : State E). Writes E s t in
      >>=_Ensures (finalize_moves E height) (λ _. release >> roll) written written s
        (finalize_moves-IsWritten E height s single)
        (λ _ t ws.
          >>=_Ensures release (λ _. roll) written written t
            (IsWritten-after E {A = Unit {0}} ws (release t)
              (release_unbondings-IsWritten E height t (Writes-IsQueue E ws queue)))
            (λ _ u more.
              IsWritten-after E {A = Unit {0}} more (roll u) (rollover_epoch-IsWritten height u)))
