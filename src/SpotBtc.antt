-- ===== src/SpotBtc.antt =====
-- package spot_btc_conservative_v1: a strategy that trades by rules on paper.
pub mod Config
pub mod Position
pub mod Signal
pub mod State
pub mod Executor
pub mod Strategy
pub mod Replay
mod Tests
