-- ===== src/Lib.antt =====
-- Verification library of the STC8H boot loader with in-system programming and over-the-air
-- updates. The firmware has a boot loader (bootloader/src), an application (app/src) and common
-- code (common). A programmer on a PC sends packets over the UART; the boot loader and the
-- application answer with replies. The application downloads a new image into a slot of the
-- external flash and makes it current in a persistent update record; after the next reset the
-- boot loader copies the image that the record names into the on-chip flash and jumps to it.
--
-- Parts, and the files that model them:
-- - Prelude: Boolean tests and lists over the native numbers, and the step that may fail.
-- - Protocol: the packet formats of common/protocol.h and the checksum loops of
--   common/protocol.c. A loop over a buffer takes fuel; 256 rounds are enough where the 8-bit
--   index reaches its end, and the loop does not end for the sizes where it cannot.
-- - Uart: uart_parse and uart_send_tx of bootloader/src/uart.c (app/src/uart.c has the same text).
--   A receiver is the context, the buffer and the flag isp_parse_ok; none is a write past the
--   255-byte buffer. receive runs the receiver over a list of bytes. Uart.Queue: uart1_isr,
--   uart_send_raw and uart_run of the same file, between which interrupts come at any time. The ring
--   buffers of libhb are a parameter with the laws that ringbuf.h states; the wait for room has the
--   32767 rounds of the source, and uart_run its four.
-- - Host.Reply: ldr_parse of common/protocol.c, the programmer's receiver of replies. Host.Parse:
--   isp_parse of the same file, on the types of Uart; none is a write past its 255-byte buffer.
-- - Layout: the addresses and sizes of common/common.h.
-- - Device: interfaces of what the code relies on. Nor is the external flash as
--   common/bsp/norflash.c and the W25Q chip offer it, Rom the on-chip flash and Crc32 the check
--   sum of libhb, both code of another project. Their laws are what the data sheets and that
--   library document. Device.WriteThrough is norflash_write_no_check, whose loop needs a round for
--   each byte at most.
-- - OtaInfo: the update record of common/common.h byte by byte (big endian), its two copies, and
--   findout_which_ota_info_is_older of common/common.c.
-- - OtaClient: app/src/ota.c. A client is the file's static variables, ota_info, the bit
--   sysctx.st.otaid, the flash, and the list of requests sent. Each function of the file is a
--   function on clients; Machine takes them as the events of a step function. OtaClient.Silent:
--   seconds in which nothing arrives.
-- - Boot: try_load_flash_app of bootloader/src/main.c; Boot.Select: its check_ota and the decision
--   of main to jump to the application. A board is the bits of sysctx, ota_info and both flashes.
--   A loop over an image goes through the list of its block lengths, which needs a round
--   for each byte at most; a retry loop stops after 30 failures. Boot.Factory: the check of the
--   factory metadata and the copy of the factory image, where none is a reset.
-- - Norflash: the functions of common/bsp/norflash.c that talk to the chip, over an SPI port
--   (Device.Spi) with the chip behind it (Device.W25q, whose laws are those of the data sheet). The
--   loop that waits takes fuel, and needs one round more than the chip answers busy.
-- - Spi: common/bsp/spi.c and common/bsp/spi.h on the pins of the controller. The pins and the chip
--   behind them are a parameter, with the laws of an SPI slave in mode 0; the loops have the eight
--   rounds of the source. Spi.Chip compares the port on the pins with the chip alone.
-- - App: isp_handle of app/src/main.c on the packet and the client; App.Send: the messages of
--   app/src/uart.c to the update server. App.Loop: the main loop of app/src/main.c, a turn at a time,
--   with the timer of app/src/timer.c; App.Loop.Events relates it to OtaClient.Machine.
-- - Host.Packet, Host.Serial: what programmer/programmer/Serial.cpp sends; none is a write past
--   the 255-byte packet. Host.Server: the update server in slot_serial_parsed of
--   programmer/programmer/programmer.cpp.
-- - Host.Flash: the loop of programmer/programmer/flash.cpp that programs a range in chunks, and its
--   rounds with isp_handle of the boot loader; Host.Flash.Fetch: the loop that reads a range, and what
--   the window shows of an update record or an application that was read. Host.Rom: the same for the loops of
--   programmer/programmer/programmer.cpp that read and program the on-chip flash; Host.Rom.Read and
--   Host.Rom.Program run them with isp_handle.
-- - Host.Image: slotOpen, slotPatch and slotMerge of programmer/programmer/programmer.cpp, which make
--   an image of the on-chip flash from the snippets of hex files. Host.Convert: the converter
--   programmer/hex2metabin/main.cpp. Host.Catalog: the applications that the update server offers,
--   with the slots of the window that add, remove, save and load them. Host.Settings: what they
--   rely on of QSettings, which is a parameter with the laws of its documentation.
-- - Update: the client and the server in turn; Update.Whole: from the announcement on;
--   Update.Lossy: over a port that loses messages.
-- - Command: isp_handle of bootloader/src/main.c, on the packet and both flashes. Version numbers, the
--   chip's identification and the erase of the whole external flash are parameters.
-- - MainLoop: the main loop of bootloader/src/main.c, a turn at a time: the queues, isp_handle, the
--   reply and the counters. The interrupts and the key come from outside; a turn fails on an access
--   past a buffer and on a checksum loop that 256 rounds do not end.
-- - Tests: tests on concrete devices, packets and records.
--
-- A uint8_t, uint16_t or uint32_t is a native number, and its wrap-around is written out. Log
-- output is left out, and so are delays.
--
-- Not modelled: the set-up of pins, ports and the timer, and the interrupt vectors, which write
-- registers only; libhb, QHexView and the Qt libraries, which are other projects' code; the windows and
-- files of the programmer, with the time limits of their reads; and programmer/serial_hijack, which
-- prints what passes a port.
pub mod App
pub mod Update
pub mod Prelude
pub mod Protocol
pub mod Uart
pub mod Host
pub mod Device
pub mod Layout
pub mod OtaInfo
pub mod OtaClient
pub mod Boot
pub mod Command
pub mod MainLoop
pub mod Spi
pub mod Norflash
mod Tests
