-- ===== src/SpotBtc/Replay/Calibrate/Profiles.antt =====
-- The replays and the calibration with the configuration of every profile.
use cryptotips.SpotBtc.Signal.Safe.{Total}
use cryptotips.SpotBtc.Config.{Config}
use Prim.Native.String.{String}
use cryptotips.Float.{Float}
