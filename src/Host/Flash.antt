-- ===== src/Host/Flash.antt =====
-- How the programmer's window for the external flash programs a range in chunks: slotProgram,
-- program_next_chunk and the case LDR_STATUS_W25Q_PROGRAM_RES of slot_serial_parsed in
-- programmer/programmer/flash.cpp.
pub mod Span
pub mod Programmed
pub mod Fetch
use stc_isp_demo.Prelude.{
  ℕ, ◌+◌, ◌-◌, ◌%◌, Bool, not, List, [], ◌∷◌, Option, none, some, length, take, drop, get_or, ◌==◌,
  ltb, if◌then◌else◌, same_bytes,
}
use stc_isp_demo.OtaClient.{u32}
use stc_isp_demo.Protocol.{pkt_dat_max_len, ldr_size}
use stc_isp_demo.App.{le32_at}

-- The bytes `e2`, the fields `leOffset` and `leSize`, and how much is to be sent and was sent.
pub record Editor : Type 0 where
  pub e2 : List ℕ
  pub offset : ℕ  -- uint32_t
  pub range : ℕ  -- uint32_t
  pub e2send : ℕ  -- size_t
  pub e2sent : ℕ  -- size_t

-- The arguments of a call of `serial->program_flash`.
pub record Chunk : Type 0 where
  pub addr : ℕ
  pub bin : List ℕ

-- The highest value of a `size_t`
abbrev pub size_t_max : ℕ
size_t_max = 18446744073709551615

-- `if (size > PKT_DAT_MAX_LEN) size = PKT_DAT_MAX_LEN;`
abbrev pub chunk_size : ℕ → ℕ
chunk_size n = if ltb pkt_dat_max_len n then pkt_dat_max_len else n

-- `e2.mid(a, n)`
abbrev pub mid : List ℕ → ℕ → ℕ → List ℕ
mid e2 a n = take n (drop a e2)

-- `slotProgram`; without a chunk it is the warning that the data exceeds the flash.
unfoldable pub slot_program : Editor → Editor × Option Chunk
slot_program ed =
    let first : Chunk = record {
      addr = ed.offset;
      bin = mid ed.e2 ed.offset (chunk_size ed.range);
    } in
    if ltb (length ed.e2) (ed.offset + ed.range)
    then (record ed { e2send = ed.range }, none)
    else (record ed { e2send = ed.range; e2sent = 0 }, some first)

unfoldable pub program_next_chunk : Editor → Chunk
program_next_chunk ed =
    let addr = ed.offset + ed.e2sent in
    record {
      addr = u32 addr;
      bin = mid ed.e2 addr (chunk_size (u32 (size_t_max + 1 + ed.e2send - ed.e2sent)));
    }

-- The answer to a chunk, as the packet that was received: its address has to be that of the chunk,
-- and its bytes those that were sent.
unfoldable pub on_program_res : Editor → List ℕ → Editor × Option Chunk
unfolding program_next_chunk
on_program_res ed pkt =
    let addr = le32_at pkt 3 in
    let size = (256 + ldr_size pkt - 4) % 256 in
    let done = record ed { e2sent = (ed.e2sent + size) % (size_t_max + 1) } in
    if not (addr == (ed.offset + ed.e2sent))
    then (ed, none)
    else if not (same_bytes (mid ed.e2 addr size) (mid pkt 7 size))
    then (ed, none)
    else if ltb done.e2sent done.e2send
    then (done, some (program_next_chunk done))
    else (done, none)
