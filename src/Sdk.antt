-- ===== src/Sdk.antt =====
-- The parts of the Ledger SDK that the app calls. The SDK is not in the repository, so its
-- functions are parameters of the model; the app itself reads the fields of `buffer_t`.
pub mod Buffers
pub mod Crypto
pub mod StandIn
pub mod CryptoStandIn
