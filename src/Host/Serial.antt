-- ===== src/Host/Serial.antt =====
-- The commands that the programmer sends: programmer/programmer/Serial.cpp, the messages of the
-- update server included. Each function gives the bytes that it writes to the port; `none` is a
-- write past the 255-byte packet, or a checksum loop that needs more than `fuel` tests.
pub mod Sent
pub mod Overrun
use stc_isp_demo.Prelude.{
  copy, ℕ, ◌+◌, ◌/◌, ◌%◌, List, [], ◌∷◌, ◌++◌, Option, none, some, ◌>>=◌, length, take,
}
use stc_isp_demo.OtaClient.{LatestAppInfo, AppData}
use stc_isp_demo.OtaInfo.{AppInfo}
use stc_isp_demo.Host.Packet.{fields, put_end, send_tx}

-- The four bytes of a number as a PC stores it.
abbrev pub le32 : ℕ → List ℕ
le32 x = x % 256 ∷ x / 256 % 256 ∷ x / 65536 % 256 ∷ x / 16777216 % 256 ∷ []

-- The bytes of a `latest_app_info_t` on a PC.
abbrev pub bytes_of_latest : LatestAppInfo → List ℕ
bytes_of_latest m =
    m.result % 256
    ∷ (le32 m.info.size ++ le32 m.info.crc ++ le32 m.info.timestamp ++ le32 m.info.version)

-- The bytes of a `get_app_data_res_t` on a PC, as far as its data goes.
abbrev pub bytes_of_app_data : AppData → List ℕ
bytes_of_app_data res =
    res.result % 256 ∷ (le32 res.offset ++ le32 res.size ++ le32 res.crc ++ take res.size res.dat)

module _ (fuel : ℕ) where
  -- A packet without data.
  unfoldable pub send_fields : ℕ → ℕ → ℕ → Option (List ℕ)
  unfolding send_tx
  send_fields cmd addr size = do tx ← put_end (fields 6 cmd addr size); send_tx fuel tx

  unfoldable pub send_reboot : Option (List ℕ)
  unfolding send_fields
  send_reboot = send_fields 0xA4 0 0

  unfoldable pub read_rom : ℕ → ℕ → Option (List ℕ)
  unfolding send_fields
  read_rom addr size = send_fields 0xA1 addr size

  unfoldable pub connect_ldr : Option (List ℕ)
  unfolding send_fields
  connect_ldr = send_fields 0xA0 0 0

  unfoldable pub read_ldr_version : Option (List ℕ)
  unfolding send_fields
  read_ldr_version = send_fields 0xB7 0 0

  unfoldable pub read_app_version : Option (List ℕ)
  unfolding send_fields
  read_app_version = send_fields 0xB8 0 0

  unfoldable pub read_chip_info : Option (List ℕ)
  unfolding send_fields
  read_chip_info = send_fields 0xB0 0 0

  unfoldable pub read_chip_version : Option (List ℕ)
  unfolding send_fields
  read_chip_version = send_fields 0xB1 0 0

  unfoldable pub erase_all : Option (List ℕ)
  unfolding send_fields
  erase_all = send_fields 0xA3 0 0

  unfoldable pub erase_page : ℕ → Option (List ℕ)
  unfolding send_fields
  erase_page addr = send_fields 0xA5 addr 0

  unfoldable pub read_flash_size : Option (List ℕ)
  unfolding send_fields
  read_flash_size = send_fields 0xB2 0 0

  unfoldable pub erase_flash : Option (List ℕ)
  unfolding send_fields
  erase_flash = send_fields 0xB3 0 0

  unfoldable pub program_bin : ℕ → List ℕ → Option (List ℕ)
  unfolding send_tx
  program_bin addr bin = do
    ended ← put_end (fields (6 + length bin) 0xA2 addr (length bin))
    tx ← copy 8 bin ended
    send_tx fuel tx

  unfoldable pub calc_crc32 : List ℕ → Option (List ℕ)
  unfolding send_tx
  calc_crc32 dat = do
    ended ← put_end (fields (6 + length dat) 0xB9 0 (length dat))
    tx ← copy 8 dat ended
    send_tx fuel tx

  unfoldable pub erase_flash_sector : ℕ → Option (List ℕ)
  unfolding send_tx
  erase_flash_sector addr = do
    filled ← copy 8 (le32 addr) (fields 10 0xB4 0 0)
    tx ← put_end filled
    send_tx fuel tx

  unfoldable pub read_flash : ℕ → ℕ → Option (List ℕ)
  unfolding send_tx
  read_flash addr size = do
    filled ← copy 8 (le32 addr) (fields 10 0xB5 0 size)
    tx ← put_end filled
    send_tx fuel tx

  unfoldable pub program_flash : ℕ → List ℕ → Option (List ℕ)
  unfolding send_tx
  program_flash addr bin = do
    ended ← put_end (fields (6 + 4 + length bin) 0xB6 0 (length bin))
    placed ← copy 8 (le32 addr) ended
    tx ← copy 12 bin placed
    send_tx fuel tx

  unfoldable pub reply_latest_ota_app_info : LatestAppInfo → Option (List ℕ)
  unfolding send_tx
  reply_latest_ota_app_info m = do
    filled ← copy 8 (bytes_of_latest m) (fields (6 + 17) 0xC0 0 17)
    tx ← put_end filled
    send_tx fuel tx

  unfoldable pub reply_app_data : AppData → Option (List ℕ)
  unfolding send_tx
  reply_app_data res = do
    filled ← copy 8 (bytes_of_app_data res) (fields (6 + 13 + res.size) 0xC1 0 (13 + res.size))
    tx ← put_end filled
    send_tx fuel tx
