-- ===== src/Device.antt =====
-- What the firmware calls and does not implement in this repository: the check sums of libhb, the
-- external flash chip and the on-chip flash, each as a record of operations with the behaviour
-- that its documentation states.
pub mod Memory
pub mod Crc
pub mod Nor
pub mod Spi
pub mod W25q
pub mod WriteThrough
pub mod Rom
