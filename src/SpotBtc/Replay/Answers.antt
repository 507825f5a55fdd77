-- ===== src/SpotBtc/Replay/Answers.antt =====
-- The replays of all profiles answer: none of them panics.
pub mod Loops
pub mod V6
pub mod Basic
pub mod Others
pub mod Profiles
