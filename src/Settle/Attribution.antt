-- ===== src/Settle/Attribution.antt =====
-- Who is credited for the payments of plain accounts (chain/x/settle/keeper/msg_server.go): no app.
use vapor_chain.Prelude.{
  ℕ, ◌≡◌, refl, ◌∙◌, Bool, true, false, not, none, ℤ, pos, ◌-ℤ◌, eqb_ℤ, is_positive, Result, ok,
  err, Error, ◌>>=◌, ◌>>◌, pure, gets, modify, require, lift, when, Result-cases, inl, inr, ◌==◌,
  is_zero, Bool-cases, is_negative, ◌&&◌, arith, nat_eq, pair_eq,
}
use vapor_chain.Store.{Map}
use vapor_chain.Settle.Types.{
  Addr, Denom, FeeAsset, Params, SplitResult, pool_validator, pool_relayer, pool_treasury,
}
use vapor_chain.Apps.Types.{no_app}
use vapor_chain.Settle.Fees.{compute_fee, compute_split, base_split, to_treasury, split_total}
use vapor_chain.Settle.Env.{Env, State, M, call, get_params}
use vapor_chain.Settle.Ledger.{
  add_int, ledger, add_pool, add_claimable, check_asset, valid_recipient,
}
use vapor_chain.Settle.Pay.{
  PayResult, send_positive, book_shares, count_payment, record_quota, has_referrer, distribute,
  pull, pay,
}
use vapor_chain.Settle.Msgs.{address, new_coin, reply_coins, plain_request, pay_msg}

module _ (E : Env) where
  -- An action that never writes what is owed to the apps, whether it succeeds or not.
  abbrev Leaves : {A : Type 0} → M E A → Type 0
  Leaves m = (s : State E) → (m s).1.claimables ≡ s.claimables

  >>=_Leaves :
      {A B : Type 0} (m : M E A) (f : A → M E B)
      → Leaves m
      → ((a : A) → Leaves (f a))
      → Leaves (m >>= f)
  >>=_Leaves {A = A} {B = B} m f h k s = go (m s) (h s)
    where
      go :
          (r : Result A × State E)
          → r.1.claimables ≡ s.claimables
          → (elim r.0 as (λ _. Result B × State E) [
            | ok a ↦ f a r.1
            | err e ↦ (err e, r.1)
          ]).1.claimables
            ≡ s.claimables
      go (ok a, t) same = k a t ∙ same
      go (err e, t) same = same

  then_Leaves : {A B : Type 0} (m : M E A) (k : M E B) → Leaves m → Leaves k → Leaves (m >> k)
  then_Leaves m k h after = >>=_Leaves m (λ _. k) h (λ _. after)

  require-Leaves : (b : Bool) (e : Error) → Leaves (require b e)
  require-Leaves true e s = refl
  require-Leaves false e s = refl

  when-Leaves : (b : Bool) (m : M E (Unit {0})) → Leaves m → Leaves (when b m)
  when-Leaves true m h = h
  when-Leaves false m h = λ s. refl

  call-Leaves : (f : E.bank.World → Result E.bank.World) → Leaves (call E f)
  unfolding call
  call-Leaves f s = elim (Result-cases (f s.world)) [
    | inl (w, done) ↦ rw (done, call) refl
    | inr (e, failed) ↦ rw (failed, call) refl
  ]

  ledger-Leaves : (d : Denom) (x : ℤ) → Leaves (ledger E d x)
  unfolding ledger
  ledger-Leaves d x s = elim (Result-cases (add_int d x s.ledger_total)) [
    | inl (m, done) ↦ rw (done, ledger) refl
    | inr (e, failed) ↦ rw (failed, ledger) refl
  ]

  add_pool-Leaves : (pool : ℕ) (d : Denom) (x : ℤ) → Leaves (add_pool E pool d x)
  unfolding add_pool
  add_pool-Leaves pool d x s = elim (Bool-cases (is_zero x)) [
    | inl nothing ↦ rw (nothing, add_pool) refl
    | inr some_share ↦
        rw (some_share, add_pool)
          (let put = λ (m' : Map (ℕ × Denom) ℤ).
              modify (λ (t : State E). record t { pools = m' }) >> ledger E d x in
            let next = λ (m : Map (ℕ × Denom) ℤ). lift (add_int (pool, d) x m) >>= put in
            >>=_Leaves (gets (λ (t : State E). t.pools)) next (λ s. refl)
              (λ m.
                >>=_Leaves (lift (add_int (pool, d) x m)) put (λ s. refl)
                  (λ m'.
                    then_Leaves (modify (λ (t : State E). record t { pools = m' })) (ledger E d x)
                      (λ s. refl) (ledger-Leaves d x)))
              s)
  ]

  check_asset-Leaves : (height : ℕ) (p : Params) (d : Denom) → Leaves (check_asset E height p d)
  unfolding check_asset
  check_asset-Leaves height p d s = ground arith

  book_shares-Leaves :
      (id : ℕ) (d : Denom) (r : SplitResult) → r.app ≡ pos 0 → Leaves (book_shares E id d r)
  unfolding book_shares add_claimable
  book_shares-Leaves id d r nothing =
      let last = add_pool E pool_treasury d r.treasury in
      let later = add_pool E pool_relayer d r.relayer >> last in
      let rest = add_pool E pool_validator d r.validator >> later in
      then_Leaves (add_claimable E id d r.app) rest (λ s. rw (nothing, add_claimable) refl)
        (then_Leaves (add_pool E pool_validator d r.validator) later (add_pool-Leaves _ d _) (
          then_Leaves (add_pool E pool_relayer d r.relayer) last (add_pool-Leaves _ d _)
            (add_pool-Leaves pool_treasury d r.treasury)))

  send_positive-Leaves : (to : Addr) (d : Denom) (x : ℤ) → Leaves (send_positive E to d x)
  unfolding send_positive
  send_positive-Leaves to d x = when-Leaves (is_positive x) _ (call-Leaves _)

  distribute-Leaves :
      (p : Params) (a : FeeAsset) (payer payee : Addr) (d : Denom) (x : ℤ)
      → Leaves (distribute E p a (plain_request E payer payee d x))
  unfolding distribute count_payment record_quota compute_split base_split to_treasury
  distribute-Leaves p a payer payee d x =
      let req = plain_request E payer payee d x in
      let fee = compute_fee x a p.fee_bps in
      let r = compute_split fee p.split false (has_referrer E req) 0 in
      let res : PayResult = record { fee = fee; net = x -ℤ fee; split = r; app_id = no_app } in
      let told = record_quota E none a payer fee >> pure res in
      let counted = count_payment E d x fee >> told in
      let booked = book_shares E no_app d r >> counted in
      let referred = send_positive E 0 d r.referrer >> booked in
      let paid = send_positive E payee d (x -ℤ fee) >> referred in
      then_Leaves (require (eqb_ℤ (split_total r) fee) Error.invariant_violation) paid
        (require-Leaves _ _)
        (then_Leaves (send_positive E payee d (x -ℤ fee)) referred (send_positive-Leaves payee d _)
          (then_Leaves (send_positive E 0 d r.referrer) booked (send_positive-Leaves 0 d _) (
            then_Leaves (book_shares E no_app d r) counted (book_shares-Leaves no_app d r refl)
              (λ s. refl))))

  pull-Leaves : (payer : Addr) (d : Denom) (x : ℤ) → Leaves (pull E true payer d x)
  unfolding pull
  pull-Leaves payer d x = call-Leaves _

  pay-Leaves :
      (height : ℕ) (payer payee : Addr) (d : Denom) (x : ℤ)
      → Leaves (pay E height (plain_request E payer payee d x))
  unfolding pay
  pay-Leaves height payer payee d x =
      let req = plain_request E payer payee d x in
      let sent = λ (p : Params) (a : FeeAsset). pull E true payer d x >> distribute E p a req in
      let other = λ (p : Params) (a : FeeAsset).
        require (not (payer == payee)) Error.self_payment >> sent p a in
      let able = λ (p : Params) (a : FeeAsset).
        require (valid_recipient E payee) Error.invalid_recipient >> other p a in
      let checked =
        λ (p : Params) (a : FeeAsset). require (is_positive x) Error.invalid_amount >> able p a in
      >>=_Leaves (gets (get_params E)) (λ p. check_asset E height p d >>= checked p) (λ s. refl)
        (λ p.
          >>=_Leaves (check_asset E height p d) (checked p) (check_asset-Leaves height p d) (λ a.
            then_Leaves (require (is_positive x) Error.invalid_amount) (able p a)
              (require-Leaves _ _)
              (then_Leaves (require (valid_recipient E payee) Error.invalid_recipient) (other p a)
                (require-Leaves _ _)
                (then_Leaves (require (not (payer == payee)) Error.self_payment) (sent p a)
                  (require-Leaves _ _)
                  (then_Leaves (pull E true payer d x) (distribute E p a req)
                    (pull-Leaves payer d x) (distribute-Leaves p a payer payee d x))))))

  address-Leaves : (a : Addr) → Leaves (address E a)
  unfolding address
  address-Leaves a =
      then_Leaves (require (E.texts.is_bech32 a) Error.bad_address) (pure a) (require-Leaves _ _)
        (λ s. refl)

  new_coin-Leaves : (d : Denom) (x : ℤ) → Leaves (new_coin E d x)
  unfolding new_coin
  new_coin-Leaves d x =
      then_Leaves (require (E.texts.valid_denom d && not (is_negative x)) Error.panicked)
        (pure (d, x)) (require-Leaves _ _) (λ s. refl)

  reply_coins-Leaves : (d : Denom) (res : PayResult) → Leaves (reply_coins E d res)
  unfolding reply_coins
  reply_coins-Leaves d res =
      let pair = λ (fee net : Denom × ℤ). pure {S = State E} (fee, net) in
      >>=_Leaves (new_coin E d res.fee) (λ fee. new_coin E d res.net >>= pair fee)
        (new_coin-Leaves d res.fee)
        (λ fee.
          >>=_Leaves (new_coin E d res.net) (pair fee) (new_coin-Leaves d res.net) (λ net s. refl))

  -- The payment message of a plain account leaves what is owed to every app in every denomination as it
  -- was, whether the message succeeds or fails.
  pub pay_msg-credits_no_app :
      (height : ℕ) (payer payee : Addr) (d : Denom) (x : ℤ) (s : State E)
      → (pay_msg E height payer payee d x s).1.claimables ≡ s.claimables
  unfolding pay_msg
  pay_msg-credits_no_app height payer payee d x =
      let paid = λ (from to : Addr). pay E height (plain_request E from to d x) in
      let both = λ (from : Addr). address E payee >>= λ to. paid from to >>= reply_coins E d in
      >>=_Leaves (address E payer) both (address-Leaves payer) (λ from.
        >>=_Leaves (address E payee) (λ to. paid from to >>= reply_coins E d) (address-Leaves payee)
          (λ to.
            >>=_Leaves (paid from to) (reply_coins E d) (pay-Leaves height from to d x)
              (reply_coins-Leaves d)))
