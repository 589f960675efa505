-- ===== src/OrderBook.antt =====
-- backend/go/order_matching/orderbook/book.go: the central limit order book and its engine.
pub mod Types
pub mod Side
pub mod Tape
pub mod Book
pub mod Match
pub mod Submit
pub mod Invariant
pub mod Step
pub mod Rounds
pub mod Runs
pub mod Loops
pub mod Volume
pub mod Fairness
pub mod Depth
pub mod Validation
pub mod Placement
pub mod Resting
pub mod Matching
pub mod Matched
pub mod Placing
pub mod Submitting
pub mod Outcome
pub mod Terms
pub mod Fok
pub mod Tests
pub mod Taking
pub mod Removal
pub mod Removed
pub mod Cancelling
pub mod History
mod Examples
