-- ===== src/Lib.antt =====
-- A model of the chain's own modules of VaporChain (chain/x/settle, chain/x/apps, chain/x/council,
-- chain/lane) and of what makes them correct.
--
-- The settlement module (chain/x/settle) takes payments: a payment's fee is computed and divided,
-- its shares are paid out or booked on ledgers (the claimable revenue of apps, the pools of
-- validators, relayers and treasury, the escrowed tabs), and a running total of the ledgers is
-- compared with the module's bank balance. It asks the council whether a denomination is paused and
-- the app registry for apps. The council (chain/x/council) admits validators and sets pauses, which
-- the circuit breaker in the stack of IBC transfers obeys. The lane (chain/lane) caps the block gas
-- of sponsored transactions, by the parameters of the settlement. The app registry (chain/x/apps)
-- keeps apps and their owners, the contracts that are bound to them after a proof of ownership (a
-- contract that changes its app waits for a timelock), the bonds that owners lock, and a gas quota
-- for each app and epoch, from its bond and from an estimate of how many accounts paid it.
--
--   Prelude          shared names: tests, signed integers, lists, errors and actions on a state
--   Store            the maps of a keeper's store, with Keys (distinct keys), Every and Order (walks)
--   Host             the SDK's checks of texts and its bank keeper, as parameters
--   Apps/Types       the records of the registry (chain/x/apps/types/apps.pb.go)
--   Apps/Params      defaults and validation (chain/x/apps/types/params.go)
--   Apps/Env         the keepers that the registry calls, and its store (keeper/keeper.go)
--   Apps/Registry    RegisterApp, UpdateApp, ownership, status; proofs in Ownership, Revoked
--   Apps/Bindings    VerifyProof, bindings, claims and moves; proofs in Counting, Timelock
--   Apps/Hll         the sketch of payers (keeper/hll.go); proofs in Sketch, Estimate
--   Apps/Quota       BaseQuota, ComputeQuota, epochs; proofs in QuotaBounds
--   Apps/Bonds       BondApp, UnbondApp, releases, EndBlock; proofs in Solvency, Releases, EpochEnds
--   Apps/Msgs        the messages that add checks to the keeper's (keeper/msg_server.go)
--   Apps/Genesis     InitGenesis, ExportGenesis, Validate; proofs in RoundTrip, Indexes
--   Apps/Writes      each operation as a sequence of elementary writes, by which Reached and the
--                    invariants over the steps of the module go
--   Settle/Types     data: FeeAsset, Split, Params, Tab, Totals, SplitResult
--   Settle/Fees      ComputeFee, ComputeSplit (types/fees.go); proofs in Fees/Bounds, Fees/Shares
--   Settle/Params    defaults, validation and lookups (types/params.go)
--   Settle/Env       the keepers that the settlement calls, and its store (keeper/keeper.go)
--   Settle/Ledger    addInt, ledger, addPool, addClaimable, checkAsset (keeper/keeper.go)
--   Settle/Pay       Pay, distribute, allowances (keeper/pay.go)
--   Settle/Tabs      TabDeposit, settleTab, CloseTab (keeper/tabs.go)
--   Settle/Treasury  ClaimRevenue, BuyCredits, WithdrawTreasury, DisburseRelayerPool, BurnGasFees
--                    (keeper/treasury.go)
--   Settle/Msgs      the messages of accounts (keeper/msg_server.go)
--   Settle/Payout    PayoutValidators (keeper/payout.go); proofs in Payout/Bounds
--   Settle/Blocks    RecountLedger, CheckInvariants, safe mode, BeginBlock, EndBlock
--                    (keeper/invariants.go)
--   Settle/Conservation  what each operation does to the money of a denomination, and the
--                    steps of the whole module (Conservation/Reached)
--   Settle/Checks    what the invariant checks find
--   Lane/Policy      chain/lane/lane.go; proofs in Lane/Cap and Lane/Selection
--   Council/Keeper   chain/x/council/keeper/keeper.go and types/params.go
--   Council/Msgs     chain/x/council/keeper/msg_server.go and hooks.go; proofs in Council/Pauses,
--                    Council/Admissions, Council/Removals and Council/Reached
--   Council/IbcGuard chain/x/council/ibcguard/middleware.go; proofs in Council/Breaker
--   */Tests          a small chain to run the theorems on
--
-- How code becomes definitions. An operation is an action on a state: it returns a value or an
-- error together with the state it leaves, so what was written before an error stays, and
-- `atomically` is the cached context that undoes it. `math.Int` is ℤ over the native numbers; its
-- limit of 256 bits stands in the products of the quota engine, where the end of a block could
-- panic, and is left out elsewhere; where it may be nil it is an Option, and a use of a nil one is
-- the error `panicked`. uint64 arithmetic wraps by `% 2 ^ 64`. A text (address, denomination,
-- reason) is a number that names it, the empty text being 0; a store is an association list. All
-- loops are structural recursion over lists, so nothing needs fuel. The other keepers, the bank
-- among them, share one world of an abstract type; their calls are parameters with the documented
-- effect on balances. Events, logs and gas metering are left out.
--
-- Not modelled: queries, the genesis of settlement and council, the precompile, the handshakes of
-- the IBC circuit breaker, the wiring of the application, generated code, the off-chain services,
-- and the contracts and web applications. They read the keepers, forward to them, or are programs
-- of their own. Hashes, the addresses of CREATE and CREATE2 and the calls of owner() are
-- parameters.
pub mod Prelude
pub mod Store
pub mod Host
pub mod Apps
pub mod Settle
pub mod Lane
pub mod Council
