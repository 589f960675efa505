-- ===== src/Lib.antt =====
-- TigerSwap: a model of the trading core of the Go backend, with its correctness theorems.
--
-- The program's parts and how they interact. An exchange keeps one central limit order book for each
-- listed pair (backend/go/order_matching/orderbook/book.go). An engine in the same file owns the books,
-- gives orders and trades their ids, and routes submissions, cancellations and queries to the book of
-- the pair. Pool swaps are quoted by the package amm (backend/go/amm/amm.go), which the router and the
-- services call. What users own off the chain stands in a ledger of account balances
-- (backend/services/ledger_service.go), which deposits, withdrawals, farms, airdrops, options and sales
-- credit and debit inside their own database transactions. Options are priced by a port of the on-chain
-- library (backend/services/option_math.go). Holders of the platform's token lock it for voting power,
-- vote with it on gauges, and are paid bribes for their votes (backend/services/governance_service.go).
-- Farms pay those who stake in them from funded reward streams (backend/services/farm_service.go).
--
-- Files. Prelude: native numbers, lists, signed integers, 64-bit words and float64 patterns.
-- OrderBook/Types, Side, Tape, Book, Match and Submit are book.go from its types to Book.Trades, one
-- function for each method (submit is Book.Submit, match_order is Book.match, cancel is Book.Cancel, and
-- so on); the other files of OrderBook prove. Invariant states what a valid side is, Matching what a
-- valid book is. Step is the matching loop as a relation, Rounds and Loops show that the code runs by
-- such steps, Volume, Fairness and Depth what the steps keep, Placement and Resting are insertLevel, and
-- Taking, Removal and Removed what Cancel takes out. Engine is Engine of book.go, Amm is amm.go, Ledger is
-- ledger_service.go, OptionMath is the fixed-point part of backend/services/option_math.go, RateLimit
-- the request limits of backend/middleware/rate_limit.go and backend/go/distributed/cache/main.go.
-- Governance is backend/services/governance_service.go with the tables of backend/models/governance.go:
-- Amounts reads and writes its texts, Tables has the rows and what a handler is, Power, Locks, Gauges and
-- Bribes are its functions and handlers, Requests puts them in sequence. Effects says what each request
-- is meant to do to the tables, and Finding what the rows are that the handlers find; by the rules of
-- Rules, Opening, Granting, Voting and Refinement show that the handlers do it. Decay, Ballots, Totals, Counting, Within, Holdings, Escrow, Reading and Shares prove
-- the rest from the effects. Farm is the reward accounting of backend/services/farm_service.go on the rows
-- of backend/models/farming.go, Accrual its database calls, and Staking the handlers Stake and Unstake;
-- Emission, Rate, Sharing, Escrows, Accruing, Raising, Budget, Stakes, Steps, Staked and Serving prove.
-- A file Tests or Examples runs the code on concrete inputs.
--
-- Conventions. A Go error is a value of a data type, a nil pointer is none, a mutated struct is returned.
-- Strings that the code compares only with its constants are enumerations with one more constructor for
-- every other string. int64 quantities that validation makes positive are numbers; sums of them wrap at
-- 2^64 where the code may overflow. A float64 is its bit pattern: comparisons are those of IEEE 754, and
-- arithmetic that rounds is a parameter, as are the wall clock, big.Float, strings.ToLower and the faults
-- of the database. A level that is shared by pointer is found by its price, which no two levels share.
--
-- Fuel. insertLevel's binary search has one more round than there are levels, the loop over a level one
-- more than it has orders, the loop over levels one more than there are levels; each is shown enough. The
-- loops of StableInvariant and GetY have the code's own bound of 255 rounds, and the series of option_math.go
-- their own counts. The doubling loops there run 60 and 30 rounds, since 2^60 exceeds 10^18; the halving
-- ones run as many rounds as the argument, which halving exhausts sooner.
--
-- Not modelled: locks (each operation of a book holds its lock throughout, so operations are a sequence),
-- HTTP, JSON, logging, the other handlers of the farm service, other services, and the
-- parts in other languages.
pub mod Prelude
pub mod OrderBook
pub mod Engine
pub mod Farm
pub mod Amm
pub mod Governance
pub mod Ledger
pub mod OptionMath
pub mod RateLimit
