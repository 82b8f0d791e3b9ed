-- ===== src/Tests.antt =====
-- Runs of the code in frontend/p2p on small inputs, and the theorems at concrete inputs.
pub mod Data
mod Game
mod Wire
mod Storage
mod Peers
mod Sessions
mod Pages
mod Views
