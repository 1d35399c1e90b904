-- ===== src/Host/Flash/Fetch.antt =====
-- How the window of programmer/programmer/flash.cpp for the external flash reads a range in chunks, and
-- what it shows of it: slotRead, read_next_chunk, the case LDR_STATUS_W25Q_DATA of slot_serial_parsed,
-- and the slots of the buttons that read an update record or an application. The comparison with the
-- files of the update server is log output.
pub mod Whole
pub mod Shown
use stc_isp_demo.Prelude.{
  ℕ, ◌+◌, ◌-◌, ◌%◌, Bool, true, false, ◌||◌, List, ◌++◌, Option, none, some, ◌>>=◌, length, take,
  drop, ◌==◌, leb, ltb, if◌then◌else◌,
}
use stc_isp_demo.App.{le32_at}
use stc_isp_demo.Device.Crc.{Crc32, crc_of}
use stc_isp_demo.Host.Flash.{size_t_max, chunk_size, mid}
use stc_isp_demo.Layout.{norflash_factory_app_addr, norflash_app1_addr, norflash_app2_addr}
use stc_isp_demo.OtaClient.{u32}
use stc_isp_demo.OtaInfo.{
  AppInfo, OtaInfo, OtaId, master, backup, addr_of, ota_info_size, info_of_bytes,
}
use stc_isp_demo.Protocol.{ldr_size}

-- The bytes `e2`, the fields `leOffset` and `leSize`, how much is to be received and was received,
-- and the update record by which an application is checked.
pub record Reader : Type 0 where
  pub e2 : List ℕ
  pub offset : ℕ  -- uint32_t
  pub range : ℕ  -- uint32_t
  pub e2recv : ℕ  -- size_t
  pub e2recvd : ℕ  -- size_t
  pub reading_master : Bool

-- The arguments of a call of `serial->read_flash`.
pub record ReadCall : Type 0 where
  pub addr : ℕ
  pub size : ℕ

-- What is shown of a range that was read: nothing, an update record, or whether the check sum of an
-- application is that of its record; `beyond` is a read past the end of `e2`.
pub data Report : Type 0 where
  nothing beyond : Report
  shown : OtaId → OtaInfo → Report
  crc_check : Bool → Report

-- What follows on a chunk: the next call, the error that it exceeds the flash, or the report.
pub data After : Type 0 where
  exceeds : After
  more : ReadCall → After
  ended : Report → After

-- `slotRead`
unfoldable pub slot_read : Reader → Reader × ReadCall
slot_read rd = (
  record rd { e2recv = rd.range; e2recvd = 0 },
  record { addr = rd.offset; size = chunk_size rd.range },
)

unfoldable pub read_next_chunk : Reader → ReadCall
read_next_chunk rd = record {
  addr = u32 (rd.offset + rd.e2recvd);
  size = chunk_size (u32 (size_t_max + 1 + rd.e2recv - rd.e2recvd));
}

-- `*(ota_info_t*)(e2.constData() + a)` with `ota_info_to_little_endian`
abbrev pub info_in : List ℕ → ℕ → Option OtaInfo
info_in e2 a =
    if leb (a + ota_info_size) (length e2)
    then some (info_of_bytes (mid e2 a ota_info_size))
    else none

-- The application that a record names for an address.
abbrev pub app_for : ℕ → OtaInfo → AppInfo
app_for offset info =
    if offset == norflash_factory_app_addr
    then info.factory
    else if offset == norflash_app1_addr
    then info.app1
    else info.app2

abbrev pub reading : Bool → OtaId
reading m = if m then master else backup

abbrev pub shown_info : OtaId → Option OtaInfo → Report
shown_info id none = beyond
shown_info id (some info) = shown id info

-- `memcpy(e2.data() + a, bs, length bs)`
abbrev pub put_at : ℕ → List ℕ → List ℕ → List ℕ
put_at a bs e2 = take a e2 ++ (bs ++ drop (a + length bs) e2)

module _ (crc : Crc32) where
  abbrev pub checked_app : Reader → Option OtaInfo → Report
  checked_app rd none = beyond
  checked_app rd (some info) =
      let app = app_for rd.offset info in
      if leb (rd.offset + app.size) (length rd.e2)
      then crc_check (crc_of crc (mid rd.e2 rd.offset app.size) == app.crc)
      else nothing

  -- The part behind "Flash read OK"
  unfoldable pub report : Reader → Report
  report rd =
      if rd.range == ota_info_size
      then (if rd.offset == addr_of master
          then shown_info master (info_in rd.e2 (addr_of master))
          else if rd.offset == addr_of backup
          then shown_info backup (info_in rd.e2 (addr_of backup))
          else nothing)
      else if (rd.offset == norflash_factory_app_addr)
          || ((rd.offset == norflash_app1_addr) || (rd.offset == norflash_app2_addr))
      then checked_app rd (info_in rd.e2 (addr_of (reading rd.reading_master)))
      else nothing

  -- `case LDR_STATUS_W25Q_DATA`, with the packet that was received
  unfoldable pub on_data : Reader → List ℕ → Reader × After
  unfolding read_next_chunk report
  on_data rd pkt =
      let addr = le32_at pkt 3 in
      let size = (256 + ldr_size pkt - 4) % 256 in
      let rd' = record rd {
        e2 = put_at addr (mid pkt 7 size) rd.e2;
        e2recvd = (rd.e2recvd + size) % (size_t_max + 1);
      } in
      if ltb (length rd.e2) (addr + size)
      then (rd, exceeds)
      else if ltb rd'.e2recvd rd'.e2recv
      then (rd', more (read_next_chunk rd'))
      else (rd', ended (report rd'))

-- `slotReadMasterOtaInfo` and `slotReadBackupOtaInfo`
unfoldable pub slot_read_ota_info : OtaId → Reader → Reader × ReadCall
unfolding slot_read
slot_read_ota_info id rd = slot_read (record rd { offset = addr_of id; range = ota_info_size })

-- The slots of the six buttons that read an application and check it, for the address of its slot;
-- `none` is a read past the end of `e2`.
unfoldable pub slot_read_app : Bool → ℕ → Reader → Option (Reader × ReadCall)
unfolding slot_read
slot_read_app by_master app_addr rd = info_in rd.e2 (addr_of (reading by_master)) >>= λ info.
    let (rd', call) =
      slot_read (record rd { offset = app_addr; range = (app_for app_addr info).size }) in
    some (record rd' { reading_master = by_master }, call)
