-- ===== src/Indicator/Regime.antt =====
-- indicator/regime_startpoints.go: the states of the market by day and by week, their fusion, and the
-- segments of equal state.
pub mod Features
pub mod Classify
pub mod Smooth
pub mod Fuse
pub mod Segments
