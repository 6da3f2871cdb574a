-- ===== src/Apps/RoundTrip.antt =====
-- What `ExportGenesis` writes, `InitGenesis` of chain/x/apps/keeper/genesis.go reads back.
use vapor_chain.Prelude.{
  ℕ, ◌≡◌, ◌≢◌, refl, sym, ap, ◌∙◌, inl, inr, Bool, true, false, Option, none, some, [], ◌∷◌, arith,
  Eq, Bool-cases, nat_eq, pair_eq, int_eq, ltb, ℤ, pos, ◌+ℤ◌, int_laws, ok,
}
use vapor_chain.Store.{Map, get, set, get-set_self, get-set_ne}
use vapor_chain.Store.Keys.{IsMap, IsMap-Every}
use vapor_chain.Store.Every.{Every, get-Every, map-Every, all-Every}
use vapor_chain.Store.Order.{walk, walk-IsMap, walk-Every}
use vapor_chain.Apps.Types.{App, ContractBinding, PendingMove, PendingClaim, EpochStats, Quota}
use vapor_chain.Apps.Env.{Env, State, get_params, normalize_contract}
use vapor_chain.Apps.Quota.{key_before}
use vapor_chain.Apps.Bonds.{UnbondingKey, unbonding_before, amount_or_zero}
use vapor_chain.Apps.Indexes.{IsIndex, load-index}
use vapor_chain.Apps.Genesis.{
  AppBond, load, items, normalized, key_of_unbonding, loaded, all_amounts, init_genesis,
  claim_before, bond_item, unbonding_item, export_genesis,
}

module _ {A K V : Type 0} ⦃e : Eq K⦄ (key : A → K) (value : A → Option V → V)
    (item : K → V → A) where
  -- An entry that its item gives back.
  abbrev pub IsFaithful : K → V → Type 0
  IsFaithful k v = (key (item k v) ≡ k) × (value (item k v) none ≡ v)

  -- What is found first in one map, then in another.
  abbrev either : Option V → Option V → Option V
  either none o = o
  either (some v) o = some v

  one_more :
      (k j : K) (v : V) (n m : Map K V)
      → get j n ≡ none
      → either (get k n) (get k (set j v m)) ≡ either (get k ((j, v) ∷ n)) (get k m)
  unfolding get
  one_more k j v n m missing = elim (Bool-cases (e.beq k j)) [
    | inl hit ↦
        let same : k ≡ j = (e.beq_iff k j).0 hit in
        let none_left : get k n ≡ none = ap (λ i. get i n) same ∙ missing in
        let found : get k (set j v m) ≡ some v =
          ap (λ i. get i (set j v m)) same ∙ get-set_self j v m in
        rw (none_left, hit) found
    | inr miss ↦
        let other : get k (set j v m) ≡ get k m = get-set_ne j k v m (apart k j miss) in
        rw (miss, other) refl
  ]
    where
      clash : false ≡ true → ⊥
      clash h = ground arith

      apart : (k j : K) → e.beq k j ≡ false → k ≢ j
      apart k j h p = let it = (e.beq_iff k j).1 p in clash (sym h ∙ it)

  load-items :
      (k : K) (n m : Map K V)
      → IsMap n
      → Every IsFaithful n
      → Every (λ j _. get j m ≡ none) n
      → get k (load key value (items item n) m) ≡ either (get k n) (get k m)
  unfolding load items get
  load-items k [] m distinct faithful fresh = refl
  load-items k ((j, v) ∷ n) m distinct faithful fresh =
      let it = item j v in
      let ((same_key, same_value), rest) = faithful in
      let written : set (key it) (value it (get (key it) m)) m ≡ set j v m =
        ap (λ i. set i (value it (get i m)) m) same_key
        ∙ (ap (λ o. set j (value it o) m) fresh.0 ∙ ap (λ w. set j w m) same_value) in
      let later =
        IsMap-Every (λ i _. get i (set j v m) ≡ none) n distinct.1
          (λ i w found.
            get-set_ne j i v m (elsewhere i w found)
            ∙ get-Every (λ i _. get i m ≡ none) i w n fresh.1 found) in
      ap (λ x. get k (load key value (items item n) x)) written
      ∙ (load-items k n (set j v m) distinct.1 rest later ∙ one_more k j v n m distinct.0)
    where
      clash : (w : V) → none ≡ some w → ⊥
      clash w h = cc

      elsewhere : (i : K) (w : V) → get i n ≡ some w → i ≢ j
      elsewhere i w found same = clash w (sym (ap (λ x. get x n) same ∙ distinct.0) ∙ found)

  nothing_yet : (n : Map K V) → Every (λ j _. get {V = V} j [] ≡ none) n
  unfolding get
  nothing_yet [] = tt
  nothing_yet ((j, v) ∷ n) = (refl, nothing_yet n)

  nothing_more : (k : K) (o : Option V) → either o (get {V = V} k []) ≡ o
  unfolding get
  nothing_more k none = refl
  nothing_more k (some v) = refl

  -- What is read back into an empty map is what was written out.
  pub load-walk :
      (before : K → K → Bool) (k : K) (m : Map K V)
      → IsMap m
      → Every IsFaithful m
      → get k (load key value (items item (walk before m)) []) ≡ get k m
  load-walk before k m distinct faithful =
      let (sorted, same) = walk-IsMap before m distinct in
      load-items k (walk before m) [] sorted (walk-Every IsFaithful before m faithful)
        (nothing_yet (walk before m))
      ∙ (nothing_more k (get k (walk before m)) ∙ same k)

module _ (E : Env) where
  abbrev contract_key : ContractBinding → ℕ × ℕ
  contract_key b = (b.app_id, normalize_contract E b.contract)

abbrev unlock_key : PendingMove → ℤ × ℕ
unlock_key mv = (mv.unlock_height, mv.contract)

module _ (E : Env) where
  -- The store of a module whose entries have the keys that their values name.
  pub record IsKeyed (s : State E) : Type 0 where
    pub apps : IsMap s.apps × Every (λ id (a : App). a.app_id ≡ id) s.apps
    pub bindings :
        IsMap s.bindings
        × Every
            (λ c (b : ContractBinding). (normalize_contract E b.contract ≡ c) × (b.contract ≡ c))
            s.bindings
    pub moves :
        IsMap s.pending_moves × Every (λ c (mv : PendingMove). mv.contract ≡ c) s.pending_moves
    pub claims :
        IsMap s.pending_claims
        × Every
            (λ key (c : PendingClaim). ◌≡◌ {A = ℕ × ℕ} (c.app_id, c.contract) key)
            s.pending_claims
    pub stats :
        IsMap s.epoch_stats
        × Every (λ key (st : EpochStats). ◌≡◌ {A = ℕ × ℕ} (st.epoch, st.app_id) key) s.epoch_stats
    pub quotas : IsMap s.quotas × Every (λ id (q : Quota). q.app_id ≡ id) s.quotas
    pub bonds : IsMap s.bonds
    pub unbondings : IsMap s.unbondings
    pub app_contracts : IsIndex (contract_key E) s.bindings s.app_contracts
    pub moves_by_unlock : IsIndex unlock_key s.pending_moves s.moves_by_unlock

  -- A store that was written out, and the one that was read back at a height: the entries are the same,
  -- the indexes too, but the epoch starts anew.
  pub record IsAlike (height : ℕ) (s t : State E) : Type 0 where
    pub params : get_params E t ≡ get_params E s
    pub next_app_id : t.next_app_id ≡ s.next_app_id
    pub apps : (id : ℕ) → get id t.apps ≡ get id s.apps
    pub bindings : (c : ℕ) → get c t.bindings ≡ get c s.bindings
    pub moves : (c : ℕ) → get c t.pending_moves ≡ get c s.pending_moves
    pub claims : (key : ℕ × ℕ) → get key t.pending_claims ≡ get key s.pending_claims
    pub stats : (key : ℕ × ℕ) → get key t.epoch_stats ≡ get key s.epoch_stats
    pub quotas : (id : ℕ) → get id t.quotas ≡ get id s.quotas
    pub bonds : (id : ℕ) → get id t.bonds ≡ get id s.bonds
    pub unbondings : (key : UnbondingKey) → get key t.unbondings ≡ get key s.unbondings
    pub app_contracts : (key : ℕ × ℕ) → get key t.app_contracts ≡ get key s.app_contracts
    pub moves_by_unlock : (key : ℤ × ℕ) → get key t.moves_by_unlock ≡ get key s.moves_by_unlock
    pub epoch_number : t.epoch_number ≡ some 0
    pub epoch_start : t.epoch_start ≡ some (pos height)

  -- A store with nothing in it.
  abbrev pub empty_at : E.bank.World → State E
  empty_at w = record {
    world = w;
    params = none;
    next_app_id = 0;
    apps = [];
    bindings = [];
    app_contracts = [];
    pending_moves = [];
    moves_by_unlock = [];
    pending_claims = [];
    epoch_stats = [];
    quotas = [];
    bonds = [];
    unbondings = [];
    epoch_number = none;
    epoch_start = none;
  }

  all_amounts-items : (m : Map UnbondingKey ℤ) → all_amounts (items (unbonding_item E) m) ≡ true
  unfolding all_amounts items
  all_amounts-items [] = refl
  all_amounts-items ((key, x) ∷ m) = all_amounts-items m

  plus_zero : (x : ℤ) → pos 0 +ℤ x ≡ x
  plus_zero x = omega int_laws

  alike :
      (height : ℕ) (w : E.bank.World) (s : State E)
      → IsKeyed s
      → IsAlike height s (loaded E height (export_genesis E s) (empty_at w))
  unfolding loaded export_genesis get_params
  alike height w s keyed = record {
    params = refl;
    next_app_id = refl;
    apps = λ id.
        load-walk (λ (a : App). a.app_id) (λ a _. a) (λ _ a. a) ltb id s.apps keyed.apps.0
          (map-Every (λ id (a : App). a.app_id ≡ id) _ s.apps (λ id a h. (h, refl)) keyed.apps.1);
    bindings = λ c.
        load-walk (λ (b : ContractBinding). normalize_contract E b.contract) (λ b _. normalized E b)
          (λ _ b. b) E.text_before c s.bindings keyed.bindings.0
          (map-Every
            (λ c (b : ContractBinding). (normalize_contract E b.contract ≡ c) × (b.contract ≡ c)) _
            s.bindings (λ c b h. (h.0, ap (λ x. record b { contract = x }) (h.0 ∙ sym h.1)))
            keyed.bindings.1);
    moves = λ c.
        load-walk (λ (mv : PendingMove). mv.contract) (λ mv _. mv) (λ _ mv. mv) E.text_before c
          s.pending_moves keyed.moves.0
          (map-Every (λ c (mv : PendingMove). mv.contract ≡ c) _ s.pending_moves
            (λ c mv h. (h, refl)) keyed.moves.1);
    claims = λ key.
        load-walk (λ (c : PendingClaim). (c.app_id, c.contract)) (λ c _. c) (λ _ c. c)
          (claim_before E) key s.pending_claims keyed.claims.0
          (map-Every (λ key (c : PendingClaim). ◌≡◌ {A = ℕ × ℕ} (c.app_id, c.contract) key) _
            s.pending_claims (λ key c h. (h, refl)) keyed.claims.1);
    stats = λ key.
        load-walk (λ (st : EpochStats). (st.epoch, st.app_id)) (λ st _. st) (λ _ st. st)
          (key_before E) key s.epoch_stats keyed.stats.0
          (map-Every (λ key (st : EpochStats). ◌≡◌ {A = ℕ × ℕ} (st.epoch, st.app_id) key) _
            s.epoch_stats (λ key st h. (h, refl)) keyed.stats.1);
    quotas = λ id.
        load-walk (λ (q : Quota). q.app_id) (λ q _. q) (λ _ q. q) ltb id s.quotas keyed.quotas.0
          (map-Every (λ id (q : Quota). q.app_id ≡ id) _ s.quotas (λ id q h. (h, refl))
            keyed.quotas.1);
    bonds = λ id.
        load-walk (λ (b : AppBond). b.app_id) (λ b _. amount_or_zero b.amount) (bond_item E) ltb id
          s.bonds keyed.bonds (all-Every _ s.bonds (λ id x. (refl, refl)));
    unbondings = λ key.
        load-walk (key_of_unbonding E) (λ u prev. amount_or_zero prev +ℤ amount_or_zero u.amount)
          (unbonding_item E) (unbonding_before E.text_before) key s.unbondings keyed.unbondings
          (all-Every _ s.unbondings (λ key x. (refl, plus_zero x)));
    app_contracts = λ key.
        load-index (contract_key E) E.text_before s.bindings s.app_contracts key keyed.bindings.0
          keyed.app_contracts;
    moves_by_unlock = λ key.
        load-index unlock_key E.text_before s.pending_moves s.moves_by_unlock key keyed.moves.0
          keyed.moves_by_unlock;
    epoch_number = refl;
    epoch_start = refl;
  }

  -- The export of a store whose entries have the keys that their values name, and whose two indexes are
  -- those of its bindings and moves, imported into an empty store at any height, succeeds. It gives the
  -- same parameters, next id, apps, bindings, moves, claims, statistics, quotas, bonds, unbondings and
  -- indexes under every key, but the epoch number 0 and a start of the epoch at that height.
  pub init_genesis-export_genesis :
      (height : ℕ) (w : E.bank.World) (s : State E)
      → IsKeyed s
      → (t : State E) × ((init_genesis E height (export_genesis E s) (empty_at w) ≡ ok t)
          × IsAlike height s t)
  unfolding init_genesis export_genesis
  init_genesis-export_genesis height w s keyed =
      let t = loaded E height (export_genesis E s) (empty_at w) in
      let given : all_amounts (export_genesis E s).unbondings ≡ true =
        all_amounts-items (walk (unbonding_before E.text_before) s.unbondings) in
      (t, (rw given refl, alike height w s keyed))
