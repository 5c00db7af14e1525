-- ===== src/Examples.antt =====
-- Runs of the model at concrete inputs.
mod Items
mod Frames
mod Envelopes
mod Stores
mod Catalogs
mod Sieges
mod Gates
mod Thrones
pub mod Deaths
mod Journals
mod Policies
mod Learning
mod Channels
