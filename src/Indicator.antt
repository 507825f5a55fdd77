-- ===== src/Indicator.antt =====
-- package indicator: moving averages, oscillators, bands, volume scores and the regime detector, on
-- slices of float64. A slice that the code fills from left to right is built here from left to right;
-- `[]` is the nil slice. Periods are not negative.
pub mod Series
pub mod Averages
pub mod Atr
pub mod Rsi
pub mod Bands
pub mod Macd
pub mod Volume
pub mod Regime
mod Tests
