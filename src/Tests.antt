-- ===== src/Tests.antt =====
-- Tests of the models, and the theorems applied to concrete devices, packets and records.
pub mod Devices
mod Norflash
mod Samples
mod Serial
mod Update
mod Start
mod Factory
mod Command
mod Port
mod Queues
mod Fetch
mod Turns
mod Pins
mod Losses
mod Loop
mod Images
mod Catalog
