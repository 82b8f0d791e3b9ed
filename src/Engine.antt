-- ===== src/Engine.antt =====
-- frontend/p2p/engine.ts, class `Engine`: the state machine of the game, run by the host.
pub mod State
pub mod Random
pub mod Roster
pub mod Tally
pub mod Round
pub mod Play
pub mod Dispatch
pub mod Frame
pub mod Flow
pub mod Secrecy
pub mod Told
pub mod Undone
pub mod Invariant
pub mod Draws
pub mod Cards
pub mod Steps
pub mod Rounds
pub mod Verdict
pub mod Rejoin
