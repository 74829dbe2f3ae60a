-- ===== src/Tests.antt =====
-- Runs on concrete inputs: the theorems at inputs that meet their hypotheses, and tests of the model.
mod Sample
mod Receiver
mod Proto
mod Frames
mod Rs485
mod Periodic
mod Can
mod System
mod Runs
mod Gateway
mod Atomic
mod Writers
mod Startup
