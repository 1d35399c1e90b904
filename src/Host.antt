-- ===== src/Host.antt =====
-- The programmer's side: the receiver of replies of common/protocol.c (the part under `_MSC_VER`)
-- and the code of programmer/programmer that speaks the protocol.
pub mod Reply
pub mod Parse
pub mod Packet
pub mod Serial
pub mod Server
pub mod Flash
pub mod Rom
pub mod Image
pub mod Settings
pub mod Convert
pub mod Catalog
