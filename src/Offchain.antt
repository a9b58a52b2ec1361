-- ===== src/Offchain.antt =====
-- The off-chain protocol: src/diem/offchain.
pub mod Objects
pub mod PaymentTypes
pub mod State
pub mod PaymentState
pub mod WriteOnce
pub mod PaymentCommand
pub mod Deal
pub mod Accepts
pub mod Exchange
pub mod NewCommand
pub mod Wallet
pub mod Limits
pub mod Client
pub mod Json
pub mod Wire
mod Tests
