-- ===== src/App.antt =====
-- isp_handle of app/src/main.c: the commands that the application answers, and the messages of
-- the update server.
pub mod Shared
pub mod Message
pub mod Send
pub mod Loop
use stc_isp_demo.Prelude.{
  ℕ, ◌+◌, ◌*◌, ◌/◌, ◌%◌, List, [], ◌∷◌, ◌++◌, none, some, drop, get_or, ◌==◌, leb, if◌then◌else◌,
}
use stc_isp_demo.Command.{cmd, size, dat_addr, echo, limited, bytes_at, ChipInfo}
use stc_isp_demo.Device.Crc.{Crc32, crc_of}
use stc_isp_demo.Device.Nor.{Nor}
use stc_isp_demo.Device.WriteThrough.{norflash_write_no_check}
use stc_isp_demo.OtaInfo.{AppInfo, be32}
use stc_isp_demo.OtaClient.{Client, LatestAppInfo, AppData, ota_on_latest_app_info, ota_on_app_data}

-- `rev32` of the four bytes at `o`: the low byte is in front.
abbrev pub le32_at : List ℕ → ℕ → ℕ
le32_at rx o =
    get_or rx o 0
    + get_or rx (o + 1) 0 * 256
    + get_or rx (o + 2) 0 * 65536
    + get_or rx (o + 3) 0 * 16777216

-- `app_info_to_big_endian` of the record at `o`
abbrev pub app_le_at : List ℕ → ℕ → AppInfo
app_le_at rx o = record {
  size = le32_at rx o;
  crc = le32_at rx (o + 4);
  timestamp = le32_at rx (o + 8);
  version = le32_at rx (o + 12);
}

-- The data of a packet as a `latest_app_info_t` and as a `get_app_data_res_t`.
abbrev pub latest_of : List ℕ → LatestAppInfo
latest_of rx = record { result = get_or rx 8 0; info = app_le_at rx 9 }

abbrev pub app_data_of : List ℕ → AppData
app_data_of rx = record {
  result = get_or rx 8 0;
  offset = le32_at rx 9;
  size = le32_at rx 13;
  crc = le32_at rx 17;
  dat = drop 21 rx;
}

module _ (crc : Crc32) (nor : Nor) (erase_chip : nor.State → nor.State) (info : ChipInfo) where
  -- The end of a command: a read past the packet, a reset, no reply, or the status and the data
  -- of the reply.
  pub data Outcome : Type 0 where
    fault : Outcome
    reset : Outcome
    quiet : Client nor → Outcome
    reply : ℕ → List ℕ → Client nor → Outcome

  abbrev pub with_flash : nor.State → Client nor → Client nor
  with_flash s c = record c { flash = s }

  abbrev pub program_w25q : List ℕ → Client nor → Outcome
  program_w25q rx c = elim (bytes_at 12 (limited (size rx)) rx) [
    | none ↦ fault
    | some bs ↦
        let s = norflash_write_no_check nor (dat_addr rx) bs c.flash in
        reply 0x88 (echo rx ++ nor.read (dat_addr rx) (limited (size rx)) s) (with_flash s c)
  ]

  abbrev pub calc_crc32 : List ℕ → Client nor → Outcome
  calc_crc32 rx c = elim (bytes_at 8 (size rx) rx) [
    | none ↦ fault
    | some bs ↦ reply 0x8B (be32 (crc_of crc bs)) c
  ]

  -- `case OTA2APP_CMD_LATEST_APP_INFO`, with `sizeof(latest_app_info_t)` 17
  unfoldable pub on_latest : List ℕ → Client nor → Client nor
  on_latest rx c = if size rx == 17 then ota_on_latest_app_info (latest_of rx) c else c

  -- `case OTA2APP_CMD_APP_DATA`, with `sizeof(get_app_data_res_t)` 14
  unfoldable pub on_app_data : List ℕ → Client nor → Client nor
  on_app_data rx c = if leb 14 (size rx) then ota_on_app_data crc (app_data_of rx) c else c

  -- the commands that the external flash serves, and those behind them
  unfoldable pub handle_flash : List ℕ → Client nor → Outcome
  unfolding on_latest on_app_data
  handle_flash rx c =
      if cmd rx == 0xB2
      then reply 0x84 (info.norflash_type / 256 % 256 ∷ info.norflash_type % 256 ∷ []) c
      else if cmd rx == 0xB3
      then reply 0x85 [] (with_flash (erase_chip c.flash) c)
      else if cmd rx == 0xB4
      then reply 0x86 (echo rx) (with_flash (nor.erase_sector (dat_addr rx) c.flash) c)
      else if cmd rx == 0xB5
      then reply 0x87 (echo rx ++ nor.read (dat_addr rx) (limited (size rx)) c.flash) c
      else if cmd rx == 0xB6
      then program_w25q rx c
      else if cmd rx == 0xB9
      then calc_crc32 rx c
      else if cmd rx == 0xC0
      then quiet (on_latest rx c)
      else if cmd rx == 0xC1
      then quiet (on_app_data rx c)
      else reply 1 [] c

  -- the `switch` of `isp_handle`
  unfoldable pub isp_handle : List ℕ → Client nor → Outcome
  unfolding handle_flash
  isp_handle rx c =
      if cmd rx == 0xA0
      then reply 0 (info.version_major ∷ info.version_minor ∷ []) c
      else if cmd rx == 0xA4
      then reset
      else if cmd rx == 0xB0
      then reply 0x80 info.chip_id c
      else if cmd rx == 0xB1
      then reply 0x81 (info.chip_version ∷ []) c
      else if cmd rx == 0xB8
      then reply 0x8A (be32 info.version ++ be32 info.build_time) c
      else handle_flash rx c
