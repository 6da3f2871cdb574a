-- ===== src/Council/Keeper.antt =====
-- chain/x/council/keeper/keeper.go, with the data of types/council.pb.go and the checks of
-- types/params.go. Texts are named by numbers, as in the settlement.
use vapor_chain.Prelude.{
  ℕ, ◌*◌, ◌^◌, Bool, true, false, not, ◌&&◌, ◌||◌, Option, none, some, List, [], ◌∷◌, ◌==◌, ltb,
  if◌then◌else◌, contains, nat_eq, pair_eq, ℤ, pos, ◌+ℤ◌, ltb_ℤ, eqb_ℤ, sub_ℕ, is_positive, Result,
  ok, err, Error, Action, ◌>>=◌, ◌>>◌, pure, gets, modify, require, lift, when, or_err,
}
use vapor_chain.Store.{Map, get, set, remove}
use vapor_chain.Settle.Types.{Addr, Denom}
use vapor_chain.Host.{Texts, Bank}

-- A target of a pause: its kind, and the denomination that follows the colon.
abbrev pub Target : Type 0
Target = ℕ × Denom

abbrev pub target_settle : Target
target_settle = (1, 0)

abbrev pub target_settle_denom : Denom → Target
target_settle_denom d = (2, d)

abbrev pub target_ibc : Target
target_ibc = (3, 0)

abbrev pub target_ibc_denom : Denom → Target
target_ibc_denom d = (4, d)

pub record Params : Type 0 where
  pub guardians : List Addr
  pub guardian_pause_max_blocks : ℕ
  pub max_power_per_validator : Option ℤ

pub record Admission : Type 0 where
  pub operator : Addr
  pub power_granted : ℤ
  pub admitted_height : ℕ
  pub removed : Bool
  pub memo : ℕ

-- `expires_height` is an int64; 0 stands for no expiry.
pub record Pause : Type 0 where
  pub target : Target
  pub set_by : Addr
  pub set_height : ℕ
  pub expires_height : ℤ
  pub reason : ℕ

-- A validator of the staking module: its consensus address, if it can be read.
pub record StakingValidator : Type 0 where
  pub cons_addr : Option Addr
  pub is_jailed : Bool

-- The keepers and checks that the council calls.
pub record Env : Type 1 where
  pub bank : Bank
  pub texts : Texts
  pub text_length : ℕ → ℕ
  pub authority : Addr
  pub module_account : Addr
  pub power_denom : Denom
  pub validator_of : bank.World → Addr → Option StakingValidator
  pub jail : Addr → bank.World → Result bank.World
  pub has_signing_info : bank.World → Addr → Bool
  pub is_tombstoned : bank.World → Addr → Bool
  pub tombstone : Addr → bank.World → Result bank.World

pub record State (E : Env) : Type 0 where
  pub world : E.bank.World
  pub params : Option Params
  pub admissions : Map Addr Admission
  pub pauses : Map Target Pause

abbrev pub default_params : Params
default_params = record {
  guardians = [];
  guardian_pause_max_blocks = 86400;
  max_power_per_validator = some (pos (1000 * 10 ^ 18));
}

-- A uint64 read as an int64.
abbrev pub to_int64 : ℕ → ℤ
to_int64 n = if ltb n (2 ^ 63) then pos n else sub_ℕ n (2 ^ 64)

-- `isPauseActive`.
unfoldable pub is_pause_active : ℕ → Pause → Bool
is_pause_active height p = eqb_ℤ p.expires_height (pos 0) || ltb_ℤ (pos height) p.expires_height

unfoldable pub active_at : ℕ → Option Pause → Bool
active_at height none = false
active_at height (some p) = is_pause_active height p

-- The keys of the pauses that have expired.
unfoldable pub expired_at : ℕ → Map Target Pause → List Target
expired_at height [] = []
expired_at height ((t, p) ∷ m) =
    let rest = expired_at height m in if is_pause_active height p then rest else t ∷ rest

unfoldable pub remove_all : List Target → Map Target Pause → Map Target Pause
remove_all [] m = m
remove_all (t ∷ ts) m = remove_all ts (remove t m)

-- The guardians parse and are distinct.
unfoldable pub valid_guardians : (ℕ → Bool) → List Addr → List Addr → Bool
valid_guardians is_bech32 seen [] = true
valid_guardians is_bech32 seen (g ∷ rest) =
    is_bech32 g && not (contains seen g) && valid_guardians is_bech32 (g ∷ seen) rest

unfoldable pub valid_power : Option ℤ → Bool
valid_power none = false
valid_power (some x) = is_positive x

-- `Params.Validate`.
unfoldable pub valid_params : (ℕ → Bool) → Params → Bool
valid_params is_bech32 p =
    valid_guardians is_bech32 [] p.guardians
    && not (p.guardian_pause_max_blocks == 0)
    && valid_power p.max_power_per_validator

module _ (E : Env) where
  abbrev pub M : Type 0 → Type 0
  M = Action (State E)

  -- A call of another keeper; one that fails writes nothing.
  unfoldable pub call : (E.bank.World → Result E.bank.World) → M (Unit {0})
  call f s = elim (f s.world) [ ok w ↦ (ok tt, record s { world = w }) | err e ↦ (err e, s) ]

  -- `GetParams`.
  unfoldable pub get_params : State E → Params
  get_params s = elim s.params [ none ↦ default_params | some p ↦ p ]

  -- `ValidateTarget`.
  unfoldable pub validate_target : Target → Result (Unit {0})
  validate_target (kind, d) =
      if kind == 1 || kind == 3
      then ok tt
      else if kind == 2
      then (if E.texts.valid_denom d then ok tt else err Error.invalid_denom)
      else if kind == 4
      then (if E.text_length d == 0 || ltb 256 (E.text_length d)
          then err Error.invalid_target
          else ok tt)
      else err Error.invalid_target

  -- `IsPaused`, at a block's height.
  unfoldable pub is_paused : State E → ℕ → Target → Bool
  is_paused s height t = active_at height (get t s.pauses)

  -- `IsSettlePaused`.
  unfoldable pub is_settle_paused : State E → ℕ → Denom → Bool
  is_settle_paused s height d =
      is_paused s height target_settle || is_paused s height (target_settle_denom d)

  unfoldable pub any_paused : State E → ℕ → List Denom → Bool
  any_paused s height [] = false
  any_paused s height (d ∷ ds) =
      (not (d == 0) && is_paused s height (target_ibc_denom d)) || any_paused s height ds

  -- `IsIBCPaused`.
  unfoldable pub is_ibc_paused : State E → ℕ → List Denom → Bool
  is_ibc_paused s height denoms = is_paused s height target_ibc || any_paused s height denoms

  -- `SetPause` of the keeper.
  unfoldable pub set_pause : ℕ → Target → Addr → ℕ → ℤ → M (Unit {0})
  set_pause height t by why expires = do
    lift (validate_target t)
    modify λ s. record s {
      pauses =
          set t
            (record {
              target = t;
              set_by = by;
              set_height = height;
              expires_height = expires;
              reason = why;
            })
            s.pauses;
    }

  -- `PruneExpiredPauses`.
  unfoldable pub prune_expired_pauses : ℕ → State E → State E
  prune_expired_pauses height s = record s {
    pauses = remove_all (expired_at height s.pauses) s.pauses;
  }

  -- `IsRemoved` and `IsAdmitted`.
  unfoldable pub is_removed : State E → Addr → Bool
  is_removed s operator = elim (get operator s.admissions) [ none ↦ false | some a ↦ a.removed ]

  unfoldable pub is_admitted : State E → Addr → Bool
  is_admitted s operator = elim (get operator s.admissions) [
    | none ↦ false
    | some a ↦ not a.removed
  ]

  -- The admission to add to: a new one, or that of an operator who was not removed.
  unfoldable pub open_admission : ℕ → Addr → Option Admission → Result Admission
  open_admission height operator none = ok (record {
    operator = operator;
    power_granted = pos 0;
    admitted_height = height;
    removed = false;
    memo = 0;
  })
  open_admission height operator (some a) = if a.removed then err Error.removed else ok a

  -- `AdmitValidator`. A limit that is nil panics in the comparison.
  unfoldable pub admit_validator : ℕ → Addr → Option ℤ → ℕ → M (Unit {0})
  admit_validator height operator asked memo = do
    params ← gets get_params
    power ← lift (or_err asked Error.invalid_power)
    require (is_positive power) Error.invalid_power
    limit ← lift (or_err params.max_power_per_validator Error.panicked)
    require (not (ltb_ℤ limit power)) Error.invalid_power
    found ← gets (λ s. get operator s.admissions)
    a ← lift (open_admission height operator found)
    require (not (ltb_ℤ limit (a.power_granted +ℤ power))) Error.invalid_power
    call (E.bank.mint_coins E.module_account ((E.power_denom, power) ∷ []))
    call (E.bank.module_to_account E.module_account operator ((E.power_denom, power) ∷ []))
    modify λ s. record s {
      admissions =
          set operator (record a { power_granted = a.power_granted +ℤ power; memo = memo })
            s.admissions;
    }

  -- The end of a validator in the staking module: jailed, and tombstoned if it has a record.
  unfoldable pub force_out : Addr → StakingValidator → M (Unit {0})
  force_out cons val = do
    when (not val.is_jailed) (call (E.jail cons))
    w ← gets (λ s. s.world)
    when (E.has_signing_info w cons && not (E.is_tombstoned w cons)) (call (E.tombstone cons))

  unfoldable pub force_out_validator : Option StakingValidator → M (Unit {0})
  force_out_validator none = pure tt
  force_out_validator (some val) = do
    cons ← lift (or_err val.cons_addr Error.staking_failure)
    force_out cons val

  -- `RemoveValidator`.
  unfoldable pub remove_validator : Addr → ℕ → M (Unit {0})
  remove_validator operator reason = do
    found ← gets (λ s. get operator s.admissions)
    a ← lift (or_err found Error.not_admitted)
    require (not a.removed) Error.removed
    modify λ s. record s {
      admissions = set operator (record a { removed = true; memo = reason }) s.admissions;
    }
    w ← gets (λ s. s.world)
    force_out_validator (E.validator_of w operator)
