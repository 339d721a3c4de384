-- ===== src/Tx.antt =====
-- src/noxipher/tx.
pub mod Compact
pub mod CompactRoundTrip
pub mod Structures
pub mod OfferRoundTrip
pub mod Transaction
pub mod SegmentOrder
pub mod Readers
pub mod TransactionRoundTrip
pub mod Builder
pub mod Selection
pub mod Conservation
pub mod Ranges
pub mod Receipt
pub mod Polling
pub mod Shielded
pub mod Envelope
pub mod Signing
pub mod SignedIntents
pub mod Serialize
pub mod Entry
pub mod EntryFailures
pub mod KeptOffers
pub mod Delivery
pub mod Plain
pub mod Sizes
pub mod PlainSize
pub mod Bytes
pub mod TypedBytes
pub mod TypedTransaction
pub mod Written
pub mod Reaching
pub mod TimedOut
pub mod ShieldedConservation
pub mod ShieldedSuccess
mod Tests
mod ShieldedTests
pub mod EntryTests
mod TimedOutTests
mod ReachingTests
