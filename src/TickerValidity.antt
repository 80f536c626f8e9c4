-- ===== src/TickerValidity.antt =====
-- server/internal/identity/tickervalidity: which instrument a ticker names on each day.
pub mod Facts
pub mod Current
pub mod Winners
pub mod Segments
pub mod Derive
pub mod Intervals
pub mod Load
