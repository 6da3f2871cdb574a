-- ===== src/Apps/Genesis.antt =====
-- chain/x/apps/keeper/genesis.go and types/genesis.go: the state of the module as a file.
use vapor_chain.Prelude.{
  ℕ, Bool, true, false, not, ◌&&◌, ◌||◌, Option, none, some, List, [], ◌∷◌, ◌==◌, ltb, leb,
  if◌then◌else◌, contains, nat_eq, pair_eq, int_eq, Eq, ℤ, pos, ◌+ℤ◌, is_positive, Result, ok, err,
  Error,
}
use vapor_chain.Store.{Map, get, set}
use vapor_chain.Store.Order.{walk}
use vapor_chain.Settle.Types.{Addr}
use vapor_chain.Apps.Types.{
  App, ContractBinding, PendingMove, PendingClaim, EpochStats, Quota, Params,
}
use vapor_chain.Apps.Params.{default_params, valid_params}
use vapor_chain.Apps.Env.{Env, State, get_params, normalize_contract}
use vapor_chain.Apps.Quota.{key_before}
use vapor_chain.Apps.Bonds.{UnbondingKey, unbonding_before, amount_or_zero}

pub record AppBond : Type 0 where
  pub app_id : ℕ
  pub amount : Option ℤ

pub record Unbonding : Type 0 where
  pub app_id : ℕ
  pub owner : Addr
  pub amount : Option ℤ
  pub release_height : ℤ

pub record GenesisState : Type 0 where
  pub params : Params
  pub next_app_id : ℕ
  pub apps : List App
  pub bindings : List ContractBinding
  pub pending_moves : List PendingMove
  pub pending_claims : List PendingClaim
  pub epoch_stats : List EpochStats
  pub quotas : List Quota
  pub bonds : List AppBond
  pub unbondings : List Unbonding

module _ {A K V : Type 0} ⦃e : Eq K⦄ (key : A → K) (value : A → Option V → V) where
  -- A loop of `Set`, where a value may depend on the one it replaces.
  unfoldable pub load : List A → Map K V → Map K V
  load [] m = m
  load (a ∷ rest) m = load rest (set (key a) (value a (get (key a) m)) m)

module _ {A K V : Type 0} (item : K → V → A) where
  -- The items that a walk appends.
  unfoldable pub items : Map K V → List A
  items [] = []
  items ((k, v) ∷ m) = item k v ∷ items m

-- The ids of the apps, in range and distinct; the first argument holds those seen.
unfoldable pub valid_ids : ℕ → List ℕ → List App → Bool
valid_ids next seen [] = true
valid_ids next seen (a ∷ rest) =
    not (a.app_id == 0 || leb next a.app_id)
    && not (contains seen a.app_id)
    && valid_ids next (a.app_id ∷ seen) rest

unfoldable pub ids_of : List App → List ℕ
ids_of [] = []
ids_of (a ∷ rest) = a.app_id ∷ ids_of rest

unfoldable pub is_positive_amount : Option ℤ → Bool
is_positive_amount none = false
is_positive_amount (some x) = is_positive x

-- Bonds of known apps, at most one each, and positive.
unfoldable pub valid_bonds : List ℕ → List ℕ → List AppBond → Bool
valid_bonds ids bonded [] = true
valid_bonds ids bonded (b ∷ rest) =
    not (not (contains ids b.app_id) || contains bonded b.app_id)
    && is_positive_amount b.amount
    && valid_bonds ids (b.app_id ∷ bonded) rest

unfoldable pub valid_unbondings : (ℕ → Bool) → List Unbonding → Bool
valid_unbondings is_bech32 [] = true
valid_unbondings is_bech32 (u ∷ rest) =
    is_bech32 u.owner && is_positive_amount u.amount && valid_unbondings is_bech32 rest

unfoldable pub all_amounts : List Unbonding → Bool
all_amounts [] = true
all_amounts (u ∷ rest) = elim u.amount [ none ↦ false | some _ ↦ all_amounts rest ]

module _ (E : Env) where
  -- `DefaultGenesisState`.
  abbrev pub default_genesis : GenesisState
  default_genesis = record {
    params = default_params E.credit_denom E.uusdc;
    next_app_id = 1;
    apps = [];
    bindings = [];
    pending_moves = [];
    pending_claims = [];
    epoch_stats = [];
    quotas = [];
    bonds = [];
    unbondings = [];
  }

  -- Bindings of hex addresses, at most one for each contract, to known apps.
  unfoldable pub valid_bindings : List ℕ → List ℕ → List ContractBinding → Bool
  valid_bindings ids seen [] = true
  valid_bindings ids seen (b ∷ rest) =
      let c = normalize_contract E b.contract in
      E.texts.is_hex_address b.contract
      && not (contains seen c)
      && contains ids b.app_id
      && valid_bindings ids (c ∷ seen) rest

  -- `GenesisState.Validate`.
  unfoldable pub valid_genesis : GenesisState → Bool
  valid_genesis gs =
      valid_params E.texts.valid_denom gs.params
      && not (gs.next_app_id == 0)
      && valid_ids gs.next_app_id [] gs.apps
      && valid_bindings (ids_of gs.apps) [] gs.bindings
      && valid_bonds (ids_of gs.apps) [] gs.bonds
      && valid_unbondings E.texts.is_bech32 gs.unbondings

  abbrev pub normalized : ContractBinding → ContractBinding
  normalized b = record b { contract = normalize_contract E b.contract }

  abbrev pub key_of_unbonding : Unbonding → UnbondingKey
  key_of_unbonding u = (u.release_height, (u.app_id, u.owner))

  -- What `InitGenesis` writes, where no amount of an unbonding is nil. A bond that is nil is stored as
  -- zero.
  unfoldable pub loaded : ℕ → GenesisState → State E → State E
  loaded height gs s = record s {
    params = some gs.params;
    next_app_id = gs.next_app_id;
    apps = load (λ (a : App). a.app_id) (λ a _. a) gs.apps s.apps;
    bindings =
        load (λ (b : ContractBinding). normalize_contract E b.contract) (λ b _. normalized b)
          gs.bindings s.bindings;
    app_contracts =
        load (λ (b : ContractBinding). (b.app_id, normalize_contract E b.contract)) (λ _ _. tt)
          gs.bindings s.app_contracts;
    pending_moves =
        load (λ (mv : PendingMove). mv.contract) (λ mv _. mv) gs.pending_moves s.pending_moves;
    moves_by_unlock =
        load (λ (mv : PendingMove). (mv.unlock_height, mv.contract)) (λ _ _. tt) gs.pending_moves
          s.moves_by_unlock;
    pending_claims =
        load (λ (c : PendingClaim). (c.app_id, c.contract)) (λ c _. c) gs.pending_claims
          s.pending_claims;
    epoch_stats =
        load (λ (st : EpochStats). (st.epoch, st.app_id)) (λ st _. st) gs.epoch_stats s.epoch_stats;
    quotas = load (λ (q : Quota). q.app_id) (λ q _. q) gs.quotas s.quotas;
    bonds = load (λ (b : AppBond). b.app_id) (λ b _. amount_or_zero b.amount) gs.bonds s.bonds;
    unbondings =
        load key_of_unbonding (λ u prev. amount_or_zero prev +ℤ amount_or_zero u.amount)
          gs.unbondings s.unbondings;
    epoch_number = some 0;
    epoch_start = some (pos height);
  }

  -- `InitGenesis`, at a block's height. The addition of an amount that is nil panics.
  unfoldable pub init_genesis : ℕ → GenesisState → State E → Result (State E)
  init_genesis height gs s =
      if all_amounts gs.unbondings then ok (loaded height gs s) else err Error.panicked

  -- The keys of the claims, by app and then by contract.
  unfoldable pub claim_before : ℕ × ℕ → ℕ × ℕ → Bool
  claim_before (i, c) (j, d) = ltb i j || (i == j && E.text_before c d)

  abbrev pub bond_item : ℕ → ℤ → AppBond
  bond_item id x = record { app_id = id; amount = some x }

  abbrev pub unbonding_item : UnbondingKey → ℤ → Unbonding
  unbonding_item (h, (i, o)) x = record {
    app_id = i;
    owner = o;
    amount = some x;
    release_height = h;
  }

  -- `ExportGenesis`.
  unfoldable pub export_genesis : State E → GenesisState
  export_genesis s = record {
    params = get_params E s;
    next_app_id = s.next_app_id;
    apps = items (λ _ a. a) (walk ltb s.apps);
    bindings = items (λ _ b. b) (walk E.text_before s.bindings);
    pending_moves = items (λ _ mv. mv) (walk E.text_before s.pending_moves);
    pending_claims = items (λ _ c. c) (walk claim_before s.pending_claims);
    epoch_stats = items (λ _ st. st) (walk (key_before E) s.epoch_stats);
    quotas = items (λ _ q. q) (walk ltb s.quotas);
    bonds = items bond_item (walk ltb s.bonds);
    unbondings = items unbonding_item (walk (unbonding_before E.text_before) s.unbondings);
  }
