-- ===== src/Apps/Registry.antt =====
-- chain/x/apps/keeper/keeper.go: apps, their owners and their status.
use vapor_chain.Prelude.{
  ℕ, ◌+◌, ◌%◌, ◌^◌, Bool, true, false, not, ◌&&◌, ◌||◌, List, [], ◌∷◌, ◌==◌, ltb, leb,
  if◌then◌else◌, contains, nat_eq, is_positive, Result, ok, err, Error, ◌>>=◌, ◌>>◌, pure, gets,
  modify, require, lift, read, when, or_err,
}
use vapor_chain.Store.{get, set}
use vapor_chain.Settle.Types.{Addr, empty}
use vapor_chain.Apps.Types.{App, AppStatus, Params}
use vapor_chain.Apps.Params.{max_metadata_uri_len, max_domain_len}
use vapor_chain.Apps.Env.{Env, State, M, call, get_params}

abbrev pub is_revoked : AppStatus → Bool
is_revoked AppStatus.revoked = true
is_revoked _ = false

abbrev pub is_active : AppStatus → Bool
is_active AppStatus.active = true
is_active _ = false

abbrev pub is_unspecified : AppStatus → Bool
is_unspecified AppStatus.unspecified = true
is_unspecified _ = false

-- A lower-case letter, a digit, a dot or a dash.
unfoldable pub host_rune : ℕ → Bool
host_rune c = c == 46 || c == 45 || (leb 97 c && leb c 122) || (leb 48 c && leb c 57)

unfoldable pub all_host : List ℕ → Bool
all_host [] = true
all_host (c ∷ cs) = host_rune c && all_host cs

-- What an owner says of an app.
pub record Fields : Type 0 where
  pub recipient : Addr
  pub metadata_uri : ℕ
  pub domain : ℕ
  pub referrer_bps : ℕ

-- `app.Version++`, on a uint32.
abbrev pub next_version : ℕ → ℕ
next_version n = (n + 1) % 2 ^ 32

-- The second check runs if the first has passed.
abbrev pub first_error : Result (Unit {0}) → Result (Unit {0}) → Result (Unit {0})
first_error (ok u) r = r
first_error (err e) r = err e

module _ (E : Env) where
  -- `GetApp`.
  unfoldable pub get_app : State E → ℕ → Result App
  get_app s id = or_err (get id s.apps) Error.app_not_found

  unfoldable pub check_owner : Addr → App → Result App
  check_owner owner app =
      if not (app.owner == owner)
      then err Error.app_unauthorized
      else if is_revoked app.status
      then err Error.app_inactive
      else ok app

  -- `ownedApp`.
  unfoldable pub owned_app : State E → Addr → ℕ → Result App
  owned_app s owner id = elim (get_app s id) [ err e ↦ err e | ok app ↦ check_owner owner app ]

  -- `validateURI`.
  unfoldable pub validate_uri : ℕ → Result (Unit {0})
  validate_uri uri =
      if ltb max_metadata_uri_len (E.text_length uri) then err Error.invalid_field else ok tt

  -- `validateDomain`.
  unfoldable pub validate_domain : ℕ → Result (Unit {0})
  validate_domain d =
      if d == empty
      then ok tt
      else if ltb max_domain_len (E.text_length d) || not (contains (E.runes d) 46)
      then err Error.invalid_field
      else if all_host (E.runes d)
      then ok tt
      else err Error.invalid_field

  -- `validateRecipient`.
  unfoldable pub validate_recipient : Addr → Result (Unit {0})
  validate_recipient a =
      if not (E.texts.is_bech32 a)
      then err Error.invalid_field
      else if E.bank.blocked a
      then err Error.invalid_field
      else ok tt

  -- The checks that a registration and an update share, after the recipient's.
  unfoldable pub check_fields : Params → Fields → Result (Unit {0})
  check_fields params f = first_error (validate_uri f.metadata_uri) (
      first_error (validate_domain f.domain)
        (if ltb params.max_referrer_bps f.referrer_bps then err Error.invalid_field else ok tt))

  -- `NextAppID.Next`: the number, and one more is stored.
  unfoldable pub next_id : M E ℕ
  next_id = do
    id ← gets (λ s. s.next_app_id)
    modify (λ s. record s { next_app_id = (id + 1) % 2 ^ 64 })
    pure id

  -- An id that is not the reserved 0.
  unfoldable pub fresh_id : M E ℕ
  fresh_id = do id ← next_id; if id == 0 then next_id else pure id

  -- The registration fee is taken and burned.
  unfoldable pub burn_fee : Params → Addr → M E (Unit {0})
  burn_fee params owner = when (is_positive params.registration_fee.1) (do
    call E (E.bank.account_to_module owner E.apps_account (params.registration_fee ∷ []))
    call E (E.bank.burn_coins E.apps_account (params.registration_fee ∷ [])))

  abbrev pub registered : ℕ → Addr → Fields → ℕ → App
  registered height owner f id = record {
    app_id = id;
    owner = owner;
    pending_owner = empty;
    revenue_recipient = f.recipient;
    metadata_uri = f.metadata_uri;
    domain = f.domain;
    referrer_bps = f.referrer_bps;
    status = AppStatus.active;
    version = 1;
    created_height = height;
    contract_count = 0;
  }

  abbrev pub recipient_or : Addr → Fields → Fields
  recipient_or owner f = record f {
    recipient = if f.recipient == empty then owner else f.recipient;
  }

  -- `RegisterApp`, at a block's height.
  unfoldable pub register_app : ℕ → Addr → Fields → M E ℕ
  register_app height owner given = do
    params ← gets (get_params E)
    let f = recipient_or owner given
    lift (validate_recipient f.recipient)
    lift (check_fields params f)
    burn_fee params owner
    id ← fresh_id
    modify (λ s. record s { apps = set id (registered height owner f id) s.apps })
    pure id

  abbrev pub put_app : ℕ → App → State E → State E
  put_app id app s = record s { apps = set id app s.apps }

  abbrev pub updated : Fields → App → App
  updated f app = record app {
    revenue_recipient = if f.recipient == empty then app.revenue_recipient else f.recipient;
    metadata_uri = f.metadata_uri;
    domain = f.domain;
    referrer_bps = f.referrer_bps;
    version = next_version app.version;
  }

  -- `UpdateApp`.
  unfoldable pub update_app : Addr → ℕ → Fields → M E (Unit {0})
  update_app owner id f = do
    app ← read (λ s. owned_app s owner id)
    params ← gets (get_params E)
    lift (if f.recipient == empty then ok tt else validate_recipient f.recipient)
    lift (check_fields params f)
    modify (put_app id (updated f app))

  -- `TransferOwnership`.
  unfoldable pub transfer_ownership : Addr → ℕ → Addr → M E (Unit {0})
  transfer_ownership owner id new_owner = do
    app ← read (λ s. owned_app s owner id)
    require (E.texts.is_bech32 new_owner) Error.invalid_field
    modify (put_app id (record app { pending_owner = new_owner }))

  abbrev pub accepted : Addr → App → App
  accepted new_owner app = record app {
    owner = new_owner;
    pending_owner = empty;
    version = next_version app.version;
  }

  -- `AcceptOwnership`.
  unfoldable pub accept_ownership : Addr → ℕ → M E (Unit {0})
  accept_ownership new_owner id = do
    app ← read (λ s. get_app s id)
    require (not (app.pending_owner == empty) && app.pending_owner == new_owner)
        Error.no_pending_owner
    modify (put_app id (accepted new_owner app))

  abbrev pub with_status : AppStatus → App → App
  with_status status app = record app { status = status; version = next_version app.version }

  -- `SetAppStatus` of the keeper.
  unfoldable pub set_app_status : ℕ → AppStatus → M E (Unit {0})
  set_app_status id status = do
    require (not (is_unspecified status)) Error.invalid_field
    app ← read (λ s. get_app s id)
    require (not (is_revoked app.status)) Error.app_inactive
    modify (put_app id (with_status status app))
