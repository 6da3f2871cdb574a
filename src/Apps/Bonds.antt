-- ===== src/Apps/Bonds.antt =====
-- chain/x/apps/keeper/keeper.go: the capital locked behind the apps, and the end of a block.
use vapor_chain.Prelude.{
  ℕ, Bool, not, ◌&&◌, ◌||◌, Option, none, some, [], ◌∷◌, ◌==◌, ltb, if◌then◌else◌, nat_eq, pair_eq,
  int_eq, ℤ, pos, ◌+ℤ◌, ◌-ℤ◌, ltb_ℤ, leb_ℤ, is_positive, is_negative, is_zero, Result, ok, err,
  Error, ◌>>=◌, ◌>>◌, pure, gets, modify, require, lift, read, when,
}
use vapor_chain.Store.{Map, get, set, remove, total}
use vapor_chain.Store.Order.{walk, select}
use vapor_chain.Settle.Types.{Addr, Denom, empty}
use vapor_chain.Apps.Env.{Env, State, M, call, get_params, wrap_int64}
use vapor_chain.Apps.Registry.{get_app, owned_app, is_active}
use vapor_chain.Apps.Bindings.{finalize_moves}
use vapor_chain.Apps.Quota.{bond_of, rollover_epoch}

-- The key of an unbonding: its release height, its app and its owner.
abbrev pub UnbondingKey : Type 0
UnbondingKey = ℤ × (ℕ × Addr)

unfoldable pub unbonding_before : (ℕ → ℕ → Bool) → UnbondingKey → UnbondingKey → Bool
unbonding_before text_before (h, (i, a)) (k, (j, b)) =
    ltb_ℤ h k || (leb_ℤ h k && (ltb i j || (i == j && text_before a b)))

abbrev pub amount_or_zero : Option ℤ → ℤ
amount_or_zero none = pos 0
amount_or_zero (some x) = x

-- A positive amount of the bond's denomination, which is not empty.
unfoldable pub valid_bond : Denom → Denom × Option ℤ → Result ℤ
valid_bond denom (d, none) = err Error.invalid_bond
valid_bond denom (d, some x) = if d == denom && is_positive x then ok x else err Error.invalid_bond

module _ (E : Env) where
  -- `BondApp`. The amount of a coin may be nil.
  unfoldable pub bond_app : Addr → ℕ → Denom × Option ℤ → M E (Unit {0})
  bond_app owner id coin = do
    params ← gets (get_params E)
    require (not (params.bond_denom == empty)) Error.bonding_disabled
    x ← lift (valid_bond params.bond_denom coin)
    app ← read (λ s. owned_app E s owner id)
    require (is_active app.status) Error.app_inactive
    require (E.texts.is_bech32 owner) Error.app_unauthorized
    call E (E.bank.account_to_module owner E.apps_account ((params.bond_denom, x) ∷ []))
    modify (λ s. record s { bonds = set id (bond_of E s id +ℤ x) s.bonds })

  abbrev pub left_bonded : ℕ → ℤ → Map ℕ ℤ → Map ℕ ℤ
  left_bonded id left m = if is_zero left then remove id m else set id left m

  -- An amount leaves an app's bond and waits for its release.
  abbrev pub unbonded : ℕ → ℤ → UnbondingKey → State E → State E
  unbonded id x key s = record s {
    bonds = left_bonded id (bond_of E s id -ℤ x) s.bonds;
    unbondings = set key (amount_or_zero (get key s.unbondings) +ℤ x) s.unbondings;
  }

  -- `UnbondApp`, at a block's height.
  unfoldable pub unbond_app : ℕ → Addr → ℕ → Denom × Option ℤ → M E ℤ
  unbond_app height owner id coin = do
    params ← gets (get_params E)
    require (not (params.bond_denom == empty)) Error.bonding_disabled
    x ← lift (valid_bond params.bond_denom coin)
    app ← read (λ s. get_app E s id)
    require (app.owner == owner) Error.app_unauthorized
    bonded ← gets (λ s. bond_of E s id)
    require (not (ltb_ℤ bonded x)) Error.insufficient_bond
    let release = wrap_int64 (pos height +ℤ params.unbonding_blocks)
    modify (unbonded id x (release, (id, owner)))
    pure release

  -- The payout of an unbonding: one that the bank refuses is left for the next block.
  unfoldable pub pay_out : Denom → UnbondingKey → ℤ → State E → State E
  pay_out denom key x s =
      let (r, t) = call E (E.bank.module_to_account E.apps_account key.1.1 ((denom, x) ∷ [])) s in
      elim r [ ok _ ↦ record t { unbondings = remove key t.unbondings } | err e ↦ s ]

  -- What `NewCoin` checks; it panics otherwise.
  unfoldable pub is_coin : Denom → ℤ → Bool
  is_coin denom x = E.texts.valid_denom denom && not (is_negative x)

  -- One round of the loop of `releaseUnbondings`: an owner that does not parse is passed over, and a
  -- coin that is not valid panics.
  unfoldable pub release_one : Denom → UnbondingKey → ℤ → M E (Unit {0})
  release_one denom key x =
      when (E.texts.is_bech32 key.1.1)
        (require (is_coin denom x) Error.panicked >> modify (pay_out denom key x))

  unfoldable pub release_each : Denom → Map UnbondingKey ℤ → M E (Unit {0})
  release_each denom [] = pure tt
  release_each denom ((key, x) ∷ ready) = release_one denom key x >> release_each denom ready

  -- The unbondings whose release height has come, in the order of their keys.
  unfoldable pub matured : ℕ → State E → Map UnbondingKey ℤ
  matured height s =
      select (λ (key : UnbondingKey). leb_ℤ key.0 (pos height))
        (walk (unbonding_before E.text_before) s.unbondings)

  -- `releaseUnbondings`.
  unfoldable pub release_unbondings : ℕ → M E (Unit {0})
  release_unbondings height = do
    denom ← gets (λ s. (get_params E s).bond_denom)
    ready ← gets (matured height)
    release_each denom ready

  -- `BondedTotal`.
  unfoldable pub bonded_total : State E → ℤ
  bonded_total s = total (λ _ x. x) s.bonds +ℤ total (λ _ x. x) s.unbondings

  -- `EndBlock`.
  unfoldable pub end_block : ℕ → M E (Unit {0})
  end_block height = do finalize_moves E height; release_unbondings height; rollover_epoch E height
