-- ===== src/Lib.antt =====
-- idena-indexer: the part of the program that decides what is indexed.
--
-- The indexer follows an idena-go node block by block, turns each block and the change of state
-- that it makes into rows, and hands these to a PostgreSQL database. Beside that it watches the
-- node's memory pool.
--
-- Files and the code that they model:
--   Base        lists, Boolean tests, big.Int as ℤ, and Go's maps as lists of entries
--   Node        transactions, and the calls on idena-go that several parts share
--   TxPool      core/holder/transaction/mempool_txs.go: the pool of pending transactions under two
--               indexes (memPool, txsByHashWrapper, txsByAddressWrapper). A method is a function from
--               state to state, because the pool's mutex makes each writer one step
--   Timestamps  core/mempool/mempool.go: the cached timestamps of pool actions and saveData. Each
--               access to a list is a step of its own, so that listeners may come between
--   ValidationSummary
--               indexer/validation_summary.go: what each identity earned and missed, and why
--   IndexBlock  indexer/indexer.go, indexBlock: the loop that brings the database to an incoming block,
--               going back over blocks that the chain dropped and over a change of genesis. What the
--               node and the database do in each pass of the loop is a list of passes
--   Balances    indexer/balance.go, and getCoins, initializeStateIfNeeded and applyOnState of
--               indexer/indexer.go: the rows of balances and the totals; with Check and CheckAll,
--               indexer/check_balances.go
--   Delegation  indexer/delegation.go: the switches of delegation of a block and the sizes of pools.
--               Pointers to addresses carry their location, since the code compares them
--   Rewards     indexer/rewards.go, rewardsBounds: the least and greatest reward of each class of age;
--               with Delegatees and Penalties, delegateeEpochRewardsWrapper of indexer/context.go
--               and indexer/delegatee_epoch_rewards.go
--   EpochRewards  core/stats/collector.go, the calls by which the node reports the rewards of an
--               epoch (Calls), and the books they keep: rewards with the pointers into it, totals by
--               address, delegatees. A sequence of calls is a list (Run)
--   Coins       core/stats/collector.go, the coins that a block mints and burns (Ledger) and the
--               rewards for mining it (Mining, MiningCalls)
--   ContractTxs  core/mempool/contracts_pool.go, addressContractTxs: the pending transactions of an
--               address with a contract
--   TxStates    core/stats/collector.go, BeginApplyingTx and CompleteApplyingTx: the identity states
--               that each transaction changes, over the transactions of a block (Block), and the
--               number of candidates (Candidates)
--   Online      core/holder/online/online.go: the pass of the updater over the identities of the
--               state, and addToSorted (Sorted) with sort.Search, whose rounds have the length of
--               the list as fuel, since each round makes the range smaller
--   Upgrades    core/holder/upgrade/voting.go and indexer/upgrade_voting.go: the counts of votes, what
--               is saved of them, and the refresh of a short history (History) at indices that are
--               computed by floats (Steps)
--
-- Go's maps are lists of entries, in the order of some iteration. Go fixes no order; the theorems
-- hold for every list of entries, hence for every order. A nil pointer is none. Addresses and
-- hashes are numbers, since the code only compares them. Unsigned integers that can wrap have their
-- modulus written out. big.Int is ℤ, of any size. Floats and decimals are not modelled but
-- for the step of a short history: what the code computes by them is a parameter, as are the calls of
-- idena-go, of cid parsing and of the database. The loop of indexBlock recurs on the list of its
-- passes, and a loop within a pass that never ends is an outcome of it. sort.Search takes fuel, and so
-- does the search for the shift of a float, which is 23 at most since the quotient is not below one.
--
-- Not modelled: the text of SQL statements, the HTTP server and API, logging, monitoring, flip
-- loading over IPFS, the rest of the collector of statistics, and the database migrations.
pub mod Base
pub mod Node
pub mod TxPool
pub mod Timestamps
pub mod ValidationSummary
pub mod IndexBlock
pub mod Balances
pub mod Delegation
pub mod Rewards
pub mod EpochRewards
pub mod Online
pub mod Upgrades
pub mod Coins
pub mod ContractTxs
pub mod TxStates
