-- ===== src/Apps/Types.antt =====
-- The data of chain/x/apps (types/apps.pb.go, tx.pb.go and keys.go).
use vapor_chain.Prelude.{ℕ, List, ℤ}
use vapor_chain.Settle.Types.{Addr, Denom}

-- The enum is open: a message may carry any other number.
pub data AppStatus : Type 0 where
  unspecified active paused revoked : AppStatus
  unknown : ℕ → AppStatus

pub record App : Type 0 where
  pub app_id : ℕ
  pub owner : Addr
  pub pending_owner : Addr
  pub revenue_recipient : Addr
  pub metadata_uri : ℕ
  pub domain : ℕ
  pub referrer_bps : ℕ
  pub status : AppStatus
  pub version : ℕ
  pub created_height : ℕ
  pub contract_count : ℕ

-- The attribution bucket of payments that no registered contract makes.
abbrev pub no_app : ℕ
no_app = 0

-- An open enum, too.
pub data ProofType : Type 0 where
  unproven deployer_create deployer_create2 ownable self_claim : ProofType
  unlisted : ℕ → ProofType

-- The salt and the hash are texts, as the message gives them.
pub record OwnershipProof : Type 0 where
  pub proof_type : ProofType
  pub nonce : ℕ
  pub salt : ℕ
  pub init_code_hash : ℕ

pub record ContractBinding : Type 0 where
  pub contract : ℕ
  pub app_id : ℕ
  pub proof_type : ProofType
  pub added_height : ℕ
  pub version : ℕ

pub record PendingMove : Type 0 where
  pub contract : ℕ
  pub from_app_id : ℕ
  pub to_app_id : ℕ
  pub proof_type : ProofType
  pub unlock_height : ℤ

pub record PendingClaim : Type 0 where
  pub contract : ℕ
  pub app_id : ℕ
  pub claimed_height : ℕ

-- The sketch is a list of bytes.
pub record EpochStats : Type 0 where
  pub app_id : ℕ
  pub epoch : ℕ
  pub fee_weight : ℤ
  pub payments : ℕ
  pub hll : List ℕ

pub record Quota : Type 0 where
  pub app_id : ℕ
  pub epoch : ℕ
  pub gas : ℕ
  pub unique_payers_estimate : ℕ
  pub diversity_bps : ℕ

-- The block counts are int64, the others uint32 and uint64.
pub record Params : Type 0 where
  pub registration_fee : Denom × ℤ
  pub max_contracts_per_app : ℕ
  pub contract_move_delay_blocks : ℤ
  pub epoch_length_blocks : ℤ
  pub max_gas_per_epoch : ℕ
  pub diversity_target : ℕ
  pub max_referrer_bps : ℕ
  pub bond_denom : Denom
  pub gas_per_bonded_unit : ℕ
  pub unbonding_blocks : ℤ
