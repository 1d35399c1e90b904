-- ===== src/Command.antt =====
-- isp_handle of bootloader/src/main.c: the commands of the programmer. A packet is the 255 bytes of
-- `rx`; a multi-byte field of it is read big endian, as the chip does.
pub mod Bounds
pub mod Program
use stc_isp_demo.Prelude.{
  ℕ, ◌+◌, ◌*◌, ◌/◌, ◌%◌, Bool, true, false, List, [], ◌∷◌, ◌++◌, Option, none, some, length, take,
  drop, get_or, ◌==◌, ltb, leb, if◌then◌else◌,
}
use stc_isp_demo.Boot.{erase_pages, app_pages}
use stc_isp_demo.Device.Crc.{Crc32, crc_of}
use stc_isp_demo.Device.Nor.{Nor}
use stc_isp_demo.Device.Rom.{Rom}
use stc_isp_demo.Device.WriteThrough.{norflash_write_no_check}
use stc_isp_demo.Layout.{iap_addr_app_start}
use stc_isp_demo.OtaInfo.{be32}
use stc_isp_demo.Protocol.{pkt_dat_max_len}

-- The fields of a packet.
abbrev pub cmd : List ℕ → ℕ
cmd rx = get_or rx 2 0

abbrev pub addr : List ℕ → ℕ
addr rx = get_or rx 5 0 * 256 + get_or rx 6 0

abbrev pub size : List ℕ → ℕ
size rx = get_or rx 7 0

-- `rev32(*(uint32_t *)&rx.pkt.dat[0])`
abbrev pub dat_addr : List ℕ → ℕ
dat_addr rx =
    get_or rx 8 0 + get_or rx 9 0 * 256 + get_or rx 10 0 * 65536 + get_or rx 11 0 * 16777216

-- the four bytes of it, as they are echoed
abbrev pub echo : List ℕ → List ℕ
echo rx = get_or rx 8 0 ∷ get_or rx 9 0 ∷ get_or rx 10 0 ∷ get_or rx 11 0 ∷ []

-- `if (rx.pkt.size > PKT_DAT_MAX_LEN) rx.pkt.size = PKT_DAT_MAX_LEN;`
abbrev pub limited : ℕ → ℕ
limited n = if ltb pkt_dat_max_len n then pkt_dat_max_len else n

-- `n` bytes of the packet from `o` on; `none` reads past the end of the packet.
abbrev pub bytes_at : ℕ → ℕ → List ℕ → Option (List ℕ)
bytes_at o n rx = if leb (o + n) (length rx) then some (take n (drop o rx)) else none

-- What the build and the chip give.
pub record ChipInfo : Type 0 where
  pub version_major : ℕ
  pub version_minor : ℕ
  pub version : ℕ
  pub build_time : ℕ
  pub chip_id : List ℕ
  pub chip_version : ℕ
  pub norflash_type : ℕ

module _ (crc : Crc32) (nor : Nor) (rom : Rom) (erase_chip : nor.State → nor.State)
    (info : ChipInfo) where
  -- The end of a command: a read past the packet, a reset, or the status and the data of the reply
  -- with both flashes. A reply that is too long for its packet fails where it is sent.
  pub data Outcome : Type 0 where
    fault : Outcome
    reset : Outcome
    reply : ℕ → List ℕ → nor.State → rom.State → Outcome

  -- `ok` or the other status, by the result of a checked access
  abbrev pub checked : ℕ → nor.State → Bool × rom.State → Outcome
  checked failed s done = if done.0 then reply 0 [] s done.1 else reply failed [] s done.1

  abbrev pub program : List ℕ → nor.State → rom.State → Outcome
  program rx s r = elim (bytes_at 8 (size rx) rx) [
    | none ↦ fault
    | some bs ↦ checked 3 s (rom.write_bytes_check ((iap_addr_app_start + addr rx) % 65536) bs r)
  ]

  abbrev pub program_w25q : List ℕ → nor.State → rom.State → Outcome
  program_w25q rx s r = elim (bytes_at 12 (limited (size rx)) rx) [
    | none ↦ fault
    | some bs ↦
        let s' = norflash_write_no_check nor (dat_addr rx) bs s in
        reply 0x88 (echo rx ++ nor.read (dat_addr rx) (limited (size rx)) s') s' r
  ]

  abbrev pub calc_crc32 : List ℕ → nor.State → rom.State → Outcome
  calc_crc32 rx s r = elim (bytes_at 8 (size rx) rx) [
    | none ↦ fault
    | some bs ↦ reply 0x8B (be32 (crc_of crc bs)) s r
  ]

  abbrev pub erase_w25q_sector : List ℕ → nor.State → rom.State → Outcome
  erase_w25q_sector rx s r = reply 0x86 (echo rx) (nor.erase_sector (dat_addr rx) s) r

  abbrev pub read_w25q : List ℕ → nor.State → rom.State → Outcome
  read_w25q rx s r = reply 0x87 (echo rx ++ nor.read (dat_addr rx) (limited (size rx)) s) s r

  -- the commands that the external flash serves, and those behind them
  unfoldable pub handle_w25q : List ℕ → nor.State → rom.State → Outcome
  handle_w25q rx s r =
      if cmd rx == 0xB2
      then reply 0x84 (info.norflash_type / 256 % 256 ∷ info.norflash_type % 256 ∷ []) s r
      else if cmd rx == 0xB3
      then reply 0x85 [] (erase_chip s) r
      else if cmd rx == 0xB4
      then erase_w25q_sector rx s r
      else if cmd rx == 0xB5
      then read_w25q rx s r
      else if cmd rx == 0xB6
      then program_w25q rx s r
      else if cmd rx == 0xB9
      then calc_crc32 rx s r
      else reply 1 [] s r

  -- the `switch` of `isp_handle`
  unfoldable pub isp_handle : List ℕ → nor.State → rom.State → Outcome
  isp_handle rx s r =
      if cmd rx == 0xA0
      then reply 0 (info.version_major ∷ info.version_minor ∷ []) s r
      else if cmd rx == 0xA1
      then reply 0x83 (rom.read_bytes (addr rx) (size rx) r) s r
      else if cmd rx == 0xA2
      then program rx s r
      else if cmd rx == 0xA3
      then checked 3 s (erase_pages crc nor rom app_pages 0 iap_addr_app_start r)
      else if cmd rx == 0xA5
      then checked 4 s (rom.erase_page_check (addr rx) r)
      else if cmd rx == 0xA4
      then reset
      else if cmd rx == 0xB0
      then reply 0x80 info.chip_id s r
      else if cmd rx == 0xB1
      then reply 0x81 (info.chip_version ∷ []) s r
      else if cmd rx == 0xB7
      then reply 0x89 (be32 info.version ++ be32 info.build_time) s r
      else handle_w25q rx s r
