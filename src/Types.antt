-- ===== src/Types.antt =====
-- server/internal/types: the domain types that the server's packages share.
pub mod Time
pub mod Period
pub mod AssetClass
pub mod Ratio
pub mod Identifier
pub mod MarketTicker
pub mod Instr
