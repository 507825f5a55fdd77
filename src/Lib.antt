-- ===== src/Lib.antt =====
-- A model of cryptotips, a Go program that keeps candles of the Bitcoin market, computes indicators
-- and market regimes on them, and trades by rules on paper. This library stands beside the code and
-- says what its core does.
--
-- The parts, and the files that model them:
--   Indicator       indicator/*.go. Averages (sma.go, ema.go), Atr, Rsi, Bands (bollinger.go), Macd and
--                   Volume (volume_signal.go) are functions on slices of float64. Regime is
--                   regime_startpoints.go: Features and Classify score each day and week, Smooth
--                   steadies the states (the loops of classifyTrend1D and classifyCP1W), Fuse joins days
--                   and weeks (expandWeeklyToDaily, fuseStates), Segments cuts the days into segments
--                   (buildSegments).
--   SpotBtc         strategies/spot_btc_conservative_v1. Config (config.go) has the profiles, Signal
--                   (signal.go) the three entry rules, Position (position.go) the size of a trade, State
--                   (state.go) the stored state, Executor (executor.go) the orders on paper, and
--                   Strategy (strategy.go) the run: recover the position, refresh the risk gates, then
--                   enter a trade or hold the open one. It calls the indicators and the tables.
--   SpotBtc.Replay  strategies/spot_btc_conservative_v1/replay.go and regime_calibration.go: the trading
--                   of each profile on past candles. Steps has the steps of a position (stepLongPosition,
--                   stepLongPositionV8, stepRangeLongPosition and their twins for shorts), Switch the
--                   sale at a switch (applyLongSwitchTakeProfit), Rules the regime, the short rule and
--                   the range (detectRegime, evalTrendShort, buildShortPosition, detectRangeBand),
--                   Strength the scores and filters, Ledger and Book the sums and the two positions of a
--                   loop, Track the regime that a loop follows, Times the keys of days, weeks and
--                   months, Candles the candles of four hours and of weeks, Points the classification
--                   of candles (classifySeries, detectRegimeCalibrated), Labels and Search the search for
--                   its parameters (evaluateFuzzyLabels, calibrateOnBars), Calibrate the choice of
--                   the timeframe and of the loop (calibrateRegime, runProfileReplayInRange),
--                   Benchmark buy and hold; and Basic, V6, V7, V8, V9, V10 and V11 are the bar loops
--                   (runProfileReplayInRange, runV6Replay to runV11Replay). They call Signal,
--                   Position and Indicator.
--   Engine          strategies/engine: the registry of strategies, the store of a strategy's state in
--                   Redis, and the runner, whose loop calls a strategy on each tick of a clock.
--                   SpotBtc.Strategy.Looped puts the strategy of SpotBtc under it.
--   App             app/fetchklines.go: the loop that pages through the candles of the exchange and
--                   stores them.
--   Models          models/trades.go, models/trade_stats.go, models/kline.go and models/kline_meta.go: the
--                   queries of the tables, over a database interface.
--   MemoryQueue     lib/memoryqueue.go: a ring buffer of strings that grows.
--   Base, Float     what the parts share: lists and slices with the panics of Go, integers, calls that
--                   return or panic (Outcome), calls that change a world and may fail (Act), and
--                   float64 as an interface.
--
-- How the code is carried over. A Go function that can only return or panic gives a Run; a method on
-- the queue returns the new queue; a call that reaches the database is a function of the state of
-- the world that ends with a value, with an error or in a panic, and leaves a new state. A slice
-- that a loop fills is built from left to right, with the same operations in the same order. float64
-- is a type with the operations that the code uses; a proof that needs an order takes the laws of
-- Float.Order, which leave out NaN. Float.Fixed is a carrier on which the laws hold and the examples
-- run. A count or period of the code that is never negative is a natural number; the ints of the
-- queue wrap at 64 bits where the code tests for it. Times are nanoseconds since 1 January of year 1
-- in the strategy, and milliseconds since 1970 in the fetcher, where the exchange gives whole ones.
--
-- In the replays a function for longs and its mirror image for shorts are one definition with a
-- direction, and the two structs of their positions are one record. A map is an association list;
-- the texts that are its keys, such as 2006-01-02 or BULL->RANGE, are numbers. Where the code
-- ranges over a map, the order that it takes is an argument, in_order; so is what sort.Slice makes
-- of the candidates, by_objective. The state of a loop is a record with the variables that the Go
-- function declares, and each_bar walks the candles; the slices that each round copies are the
-- candles up to its own. A regime that v11 leaves empty is none.
--
-- Bounds and fuel: each loop is a recursion on the slice that it walks or on the number of rounds
-- that the Go loop counts. Only the loop of fetchAll takes fuel, one round for each millisecond from
-- its start to now and one more; each round moves the start on, so that this is enough.
--
-- Outside the program, and so parameters: the database with its mapper gorm (Models.Database; the
-- laws say that reads find the rows that pass the test, that a save appends one row and an update
-- changes the rows it names, and that a statement which reports an error may have been carried out
-- or not), the store of the strategy's state and its log (SpotBtc.State.Services), the hash of
-- record keys, and the reply of package mem on free memory. The engine takes the Redis client and
-- the JSON codec the same way, and the fetcher the exchange's client and the statements of gorm on the
-- table of candles (Models.Klines.KlineTable; the laws in Models.Klines.Upserts say that First in
-- descending order finds the latest row, and that an insert with ON DUPLICATE KEY UPDATE assigns to the
-- row of the same unique key or appends one). The size of the memory is not modelled: make gives a
-- slice unless it panics for its length. The file of the calibration report is not written, so that
-- an error of saveCalibrationReport does not occur.
--
-- Not modelled: RunReplay, which reads the table and compares profiles, the writing of reports and
-- the registry of runs (strategies/spot_btc_conservative_v1/replay_registry.go), the big-file
-- download (lib/downbigfile.go), the other services and the Telegram client (app, app/tgclient),
-- which are still to come; the copy of the 2captcha client and the wrappers of network, logging
-- and system packages, which are input and output; the commands, the scripts and the frontend.
pub mod Base
pub mod App
pub mod Engine
pub mod Float
pub mod MemoryQueue
pub mod Indicator
pub mod Models
pub mod SpotBtc
