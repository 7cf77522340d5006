-- ===== src/Transfer.antt =====
-- internal/transfer: how the files are listed, agreed on, packed into the chunks of the data stream,
-- hashed, and received.
pub mod Packer
pub mod Compress
pub mod HashTree
pub mod Sparse
pub mod Plan
pub mod Faults
pub mod Batches
pub mod Listing
pub mod Paths
pub mod Negotiation
pub mod Receive
mod ReceiveTests
mod PathTests
mod ListingTests
mod Tests
