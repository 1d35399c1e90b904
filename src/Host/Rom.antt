-- ===== src/Host/Rom.antt =====
-- How the programmer's main window reads and programs the on-chip flash in blocks: program,
-- read_rom and the cases LDR_STATUS_OK and LDR_STATUS_ROM of slot_serial_parsed in
-- programmer/programmer/programmer.cpp. A size_t has 64 bits.
pub mod Read
pub mod Program
use stc_isp_demo.Prelude.{
  ℕ, ◌+◌, ◌-◌, ◌%◌, ◌^◌, Bool, not, ◌&&◌, List, [], ◌∷◌, ◌++◌, Option, none, some, length, take,
  drop, zeros, ◌==◌, ltb, if◌then◌else◌,
}
use stc_isp_demo.Protocol.{pkt_dat_max_len, ldr_size}

-- The bytes `e2`, the numbers `e2sent` and `e2recv`, and the fields `leReadOffset` and `leReadLen`.
pub record Window : Type 0 where
  pub e2 : List ℕ
  pub e2sent : ℕ  -- size_t
  pub e2recv : ℕ  -- size_t
  pub read_offset : ℕ  -- uint16_t
  pub read_len : ℕ  -- uint32_t

-- The arguments of a call of `serial->program_bin` or `serial->read_rom`.
pub data RomRequest : Type 0 where
  program_bin : ℕ → List ℕ → RomRequest
  read_rom : ℕ → ℕ → RomRequest

-- `program`
unfoldable pub program : Window → Window × RomRequest
program w =
    let bin = take pkt_dat_max_len (drop w.e2sent w.e2) in
    (record w { e2sent = w.e2sent + length bin }, program_bin (w.e2sent % 65536) bin)

-- `slotProgram`
unfoldable pub slot_program : Window → Window × RomRequest
unfolding program
slot_program w = program (record w { e2sent = 0 })

-- `case LDR_STATUS_OK`, without the version that is shown and asked for
unfoldable pub on_ok : Window → Window × Option RomRequest
unfolding program
on_ok w =
    let (w', next) = program w in
    if not (w.e2sent == 0) && ltb w.e2sent (length w.e2) then (w', some next) else (w, none)

-- `size -= addr + e2recv;`, which wraps around, and the limit of a block
abbrev pub read_size : Window → ℕ
read_size w =
    let size =
      (18446744073709551616 + w.read_len - (w.read_offset + w.e2recv)) % 18446744073709551616 in
    if ltb pkt_dat_max_len size then pkt_dat_max_len else size

-- `read_rom`
unfoldable pub read_next : Window → RomRequest
read_next w = read_rom ((w.read_offset + w.e2recv) % 65536) (read_size w % 256)

-- `slotReadRom`
unfoldable pub slot_read_rom : Window → Window × RomRequest
unfolding read_next
slot_read_rom w = let start = record w { e2recv = 0 } in (start, read_next start)

-- `e2.resize(total)` if it is shorter, and `e2.replace(offset, size, …)`
abbrev pub put_block : ℕ → List ℕ → List ℕ → List ℕ
put_block offset bs e2 =
    let grown = e2 ++ zeros (offset + length bs - length e2) in
    take offset grown ++ bs ++ drop (offset + length bs) grown

-- `case LDR_STATUS_ROM`, with the data of the packet
unfoldable pub on_rom : List ℕ → Window → Window × Option RomRequest
unfolding read_next
on_rom bs w =
    let w' = record w { e2 = put_block w.e2recv bs w.e2; e2recv = w.e2recv + length bs } in
    (w', if ltb w'.e2recv w'.read_len then some (read_next w') else none)
