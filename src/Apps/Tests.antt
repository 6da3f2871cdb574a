-- ===== src/Apps/Tests.antt =====
-- The theorems of the apps module at work on a small chain.
use vapor_chain.Prelude.{
  ℕ, ◌+◌, ◌*◌, ◌%◌, ◌^◌, ◌≤◌, ◌<◌, ◌≡◌, refl, true, none, some, List, [], ◌∷◌, arith, ltb, ◌==◌,
  if◌then◌else◌, nat_eq, pair_eq, int_eq, pos, int_laws, ok, err, Ensures, Succeeds, atomically,
  Error,
}
use vapor_chain.Store.{get}
use vapor_chain.Store.Every.{get-Every}
use vapor_chain.Settle.Types.{Addr}
use vapor_chain.Settle.Tests.{small_bank, small_texts}
use vapor_chain.Apps.Types.{App, AppStatus, Params, EpochStats, Quota, OwnershipProof, ProofType}
use vapor_chain.Apps.Params.{default_params}
use vapor_chain.Apps.Env.{Env, State, get_params, normalize_contract}
use vapor_chain.Apps.Registry.{Fields, registered, recipient_or, update_app, transfer_ownership}
use vapor_chain.Apps.Bindings.{
  add_contract, accept_contract_claim, remove_contract, binding_of, move_of, finalize_moves,
}
use vapor_chain.Apps.Quota.{compute_quota}
use vapor_chain.Apps.Bonds.{bonded_total, bond_app, unbond_app, end_block, is_coin}
use vapor_chain.Apps.Msgs.{register_msg, set_app_status_msg}
use vapor_chain.Apps.Reached.{Step, Reach}
use vapor_chain.Apps.Solvency.{IsBacked, Reach-IsBacked}
use vapor_chain.Apps.Counting.{IsCount, IsCounted, Reach-IsCounted}
use vapor_chain.Apps.Revoked.{IsRevoked, Reach-IsRevoked}
use vapor_chain.Apps.Hll.{hll_estimate, sum_shares}
use vapor_chain.Apps.Sketch.{register, add_all, max_rank, add_all-max_rank, add_all-IsSketch}
use vapor_chain.Apps.Estimate.{shares, max_estimate, hll_estimate-ok}
use vapor_chain.Apps.QuotaBounds.{IsGrant, compute_quota-ok}
use vapor_chain.Apps.Ownership.{stranger-refused}
use vapor_chain.Apps.Timelock.{Stays, finalize_moves-Stays}
use vapor_chain.Apps.Liveness.{IsHoused, IsMeasured, IsFunded, IsPayable}
use vapor_chain.Apps.Genesis.{init_genesis, export_genesis}
use vapor_chain.Apps.RoundTrip.{IsKeyed, IsAlike, empty_at, init_genesis-export_genesis}
use vapor_chain.Apps.EpochEnds.{end_block-Succeeds}

abbrev apps_account : Addr
apps_account = 100

abbrev small_hash : Addr → ℕ
small_hash a = a * 2 ^ 50 % 2 ^ 64

small_hash-lt : (a : Addr) → small_hash a < 2 ^ 64
small_hash-lt a = omega arith

abbrev small_env : Env
small_env = record {
  bank = small_bank;
  texts = record small_texts { is_hex_address = λ a. true };
  text_length = λ t. 4;
  runes = λ t. 97 ∷ 46 ∷ 98 ∷ [];
  text_before = ltb;
  authority = 50;
  apps_account = apps_account;
  credit_denom = 6;
  uusdc = 5;
  hex = λ a. a;
  lower_hex = λ a. a;
  eth_address = λ a. a;
  bytes_to_address = λ bs. 0;
  from_hex = λ t. [];
  create_address = λ a n. a * 1000 + n;
  create_address2 = λ a salt code. 0;
  payer_hash = small_hash;
  is_contract = λ w a. true;
  call_owner = λ w from to. err Error.panicked;
  with_module_account = λ w. w;
  with_module_account_lem = λ w a d. refl;
  apps_account_blocked = refl;
  payer_hash-lt = small_hash-lt;
}

-- The account 7 holds a million of each coin.
abbrev start : State small_env
start = record {
  world = λ a d. if a == 7 then pos (10 ^ 18) else pos 0;
  params = none;
  next_app_id = 1;
  apps = [];
  bindings = [];
  app_contracts = [];
  pending_moves = [];
  moves_by_unlock = [];
  pending_claims = [];
  epoch_stats = [];
  quotas = [];
  bonds = [];
  unbondings = [];
  epoch_number = none;
  epoch_start = none;
}

abbrev fields : Fields
fields = record { recipient = 0; metadata_uri = 3; domain = 0; referrer_bps = 500 }

abbrev with_app : State small_env
with_app = (atomically (register_msg small_env 3 7 fields) start).1

abbrev bonded : State small_env
bonded = (atomically (bond_app small_env 7 1 (5, some (pos 3000000))) with_app).1

abbrev unbonding : State small_env
unbonding = (atomically (unbond_app small_env 4 7 1 (5, some (pos 1000000))) bonded).1

start-IsBacked : IsBacked small_env start
unfolding bonded_total
start-IsBacked = (λ d. omega arith, (omega int_laws, (tt, tt)))

start-Reach : Reach small_env start unbonding
start-Reach =
    Reach.next
      (Reach.next (Reach.next Reach.here (Step.registers 3 7 fields start refl (omega arith)))
        (Step.locks 7 1 (5, some (pos 3000000)) with_app refl))
      (Step.unlocks 4 7 1 (5, some (pos 1000000)) bonded)

Reach-IsBacked_example : IsBacked small_env unbonding
Reach-IsBacked_example =
    Reach-IsBacked small_env {s = start} {t = unbonding} tt tt start-IsBacked start-Reach

start-IsCounted : IsCounted small_env start
unfolding get get_params
start-IsCounted = (λ id app found. absurd (ground arith), (tt, (tt, omega arith)))

Reach-IsCounted_example : IsCounted small_env unbonding
Reach-IsCounted_example =
    Reach-IsCounted small_env {s = start} {t = unbonding} tt tt start-IsCounted start-Reach

abbrev my_app : App
my_app = registered small_env 3 7 (recipient_or small_env 7 fields) 1

abbrev owned : State small_env
owned = record start { next_app_id = 2; apps = (1, my_app) ∷ [] }

abbrev gone_app : App
gone_app = record my_app { status = AppStatus.revoked }

abbrev revoked : State small_env
revoked = record start { next_app_id = 2; apps = (1, gone_app) ∷ [] }

revoked-IsCounted : IsCounted small_env revoked
unfolding get_params
revoked-IsCounted = (
  λ id app found.
      get-Every (λ i a. IsCount small_env revoked i a) id app revoked.apps ((refl, omega arith), tt)
        found,
  ((omega arith, tt), (tt, omega arith)),
)

abbrev revived : State small_env
revived = (atomically (set_app_status_msg small_env 50 1 AppStatus.active) revoked).1

-- An attempt of governance to bring a revoked app back.
Reach-IsRevoked_example : IsRevoked small_env 1 revived
unfolding get
Reach-IsRevoked_example =
    Reach-IsRevoked small_env 1 {s = revoked} {t = revived} tt tt revoked-IsCounted
      (gone_app, (refl, refl))
      (Reach.next Reach.here (Step.sets_status 50 1 AppStatus.active revoked))

abbrev small_hashes : List ℕ
small_hashes = small_hash 7 ∷ small_hash 8 ∷ small_hash 7 ∷ []

add_all-max_rank_example : register 0 (add_all small_hashes) ≡ max_rank 0 small_hashes
add_all-max_rank_example =
    add_all-max_rank small_hashes 0 (small_hash-lt 7, (small_hash-lt 8, (small_hash-lt 7, tt)))

hll_estimate-ok_example :
    (e : ℕ) × ((hll_estimate (add_all small_hashes) ≡ ok e)
      × ((e ≤ max_estimate)
          × ((sum_shares 0 (add_all small_hashes) ≡ shares (add_all small_hashes))
              × (1000 * shares (add_all small_hashes) < 2 ^ 64))))
hll_estimate-ok_example = hll_estimate-ok (add_all small_hashes) (add_all-IsSketch small_hashes)

abbrev params : Params
params = default_params 6 5

abbrev stats : EpochStats
stats = record {
  app_id = 1;
  epoch = 0;
  fee_weight = pos 90000;
  payments = 3;
  hll = add_all small_hashes;
}

compute_quota-ok_example :
    (q : Quota) × ((compute_quota params stats 7500 ≡ ok q) × IsGrant params stats 7500 q)
compute_quota-ok_example =
    compute_quota-ok params stats 7500 90000 (add_all-IsSketch small_hashes) refl (omega arith)
      (omega arith)

abbrev proof : OwnershipProof
proof = record { proof_type = ProofType.deployer_create; nonce = 0; salt = 0; init_code_hash = 0 }

stranger-refused_example :
    (update_app small_env 9 1 fields owned ≡ (err Error.app_unauthorized, owned))
    × ((transfer_ownership small_env 9 1 9 owned ≡ (err Error.app_unauthorized, owned))
        × ((add_contract small_env 5 9 1 44 proof owned ≡ (err Error.app_unauthorized, owned))
            × ((accept_contract_claim small_env 5 9 1 44 owned
                  ≡ (err Error.app_unauthorized, owned))
                × (remove_contract small_env 9 1 44 owned ≡ (err Error.app_unauthorized, owned)))))
unfolding get
stranger-refused_example =
    stranger-refused small_env owned 9 1 my_app refl (λ e. absurd (ground arith)) fields 9 5 44
      proof

-- The contract 44 belongs to the app 1, and its move to the app 2 is due at block 604810.
abbrev moving : State small_env
moving = record start {
  next_app_id = 3;
  apps = (1, record my_app { contract_count = 1 }) ∷ (2, record my_app { app_id = 2 }) ∷ [];
  bindings = (44, binding_of small_env 5 44 1 my_app ProofType.deployer_create) ∷ [];
  pending_moves = (44, move_of small_env 44 1 2 ProofType.ownable (pos 604810)) ∷ [];
  moves_by_unlock = ((pos 604810, 44), tt) ∷ [];
  epoch_stats = ((0, 1), stats) ∷ [];
  bonds = (1, pos 2000000) ∷ [];
  unbondings = ((pos 3, (1, 7)), pos 5) ∷ [];
}

finalize_moves-Stays_example :
    Ensures (Stays small_env 44 moving) (finalize_moves small_env 604809 moving)
finalize_moves-Stays_example = finalize_moves-Stays small_env 44 604809 moving (λ e. refl, tt)

moving-IsHoused : IsHoused small_env moving
unfolding get
moving-IsHoused = ((refl, tt), ((_, refl), tt))

moving-IsMeasured : IsMeasured small_env moving
moving-IsMeasured = ((add_all-IsSketch small_hashes, (90000, (refl, omega arith))), tt)

moving-IsFunded : IsFunded small_env moving
unfolding get_params
moving-IsFunded = (omega arith, tt)

moving-IsPayable : IsPayable small_env moving
unfolding get_params is_coin
moving-IsPayable = (refl, tt)

end_block-Succeeds_example : Succeeds (λ _ t. Unit {0}) (end_block small_env 604810 moving)
unfolding get_params
end_block-Succeeds_example =
    end_block-Succeeds small_env 604810 moving moving-IsHoused moving-IsMeasured moving-IsFunded
      moving-IsPayable (omega arith)

abbrev exported : State small_env
exported = record moving {
  app_contracts = ((1, 44), tt) ∷ [];
  bonds = (1, pos 2000000) ∷ [];
  unbondings = ((pos 9, (1, 7)), pos 1000000) ∷ ((pos 3, (1, 7)), pos 5) ∷ [];
  epoch_number = some 4;
}

exported-IsKeyed : IsKeyed small_env exported
unfolding get normalize_contract
exported-IsKeyed = record {
  apps = ((refl, (refl, tt)), (refl, (refl, tt)));
  bindings = ((refl, tt), ((refl, refl), tt));
  moves = ((refl, tt), (refl, tt));
  claims = (tt, tt);
  stats = ((refl, tt), (refl, tt));
  quotas = (tt, tt);
  bonds = (refl, tt);
  unbondings = (refl, (refl, tt));
  app_contracts = record { marks = (refl, tt); marked = ((44, (_, (refl, refl))), tt) };
  moves_by_unlock = record { marks = (refl, tt); marked = ((44, (_, (refl, refl))), tt) };
}

init_genesis-export_genesis_example :
    (t : State small_env) × ((init_genesis small_env 12
          (export_genesis small_env exported)
          (empty_at small_env (λ a d. pos 0))
        ≡ ok t)
      × IsAlike small_env 12 exported t)
init_genesis-export_genesis_example =
    init_genesis-export_genesis small_env 12 (λ a d. pos 0) exported exported-IsKeyed
