-- ===== src/OtaInfo.antt =====
-- The persistent records of common/common.h, and the choice between their two copies in the
-- external flash (common/common.c). Records are stored big endian, as the chip holds them in RAM.
pub mod Codec
pub mod Older
use stc_isp_demo.Prelude.{
  ℕ, ◌+◌, ◌*◌, ◌/◌, ◌%◌, Bool, true, false, ◌&&◌, List, [], ◌∷◌, ◌++◌, ◌==◌, leb, if◌then◌else◌,
  get_or,
}
use stc_isp_demo.Device.Nor.{Nor}
use stc_isp_demo.Layout.{norflash_ota_master_addr, norflash_ota_backup_addr}

-- `app_info_t`, 16 bytes
pub record AppInfo : Type 0 where
  pub size : ℕ  -- uint32_t
  pub crc : ℕ  -- uint32_t
  pub timestamp : ℕ  -- uint32_t
  pub version : ℕ  -- uint32_t

-- `init_app_info`
abbrev pub no_app : AppInfo
no_app = record { size = 0; crc = 0; timestamp = 0; version = 0 }

-- The values of `flash_app_dl_state_t`, as the byte that the record holds.
abbrev pub dl_invalid : ℕ
dl_invalid = 255

abbrev pub dl_idle : ℕ
dl_idle = 0

abbrev pub dl_erasing : ℕ
dl_erasing = 1

abbrev pub dl_downloading : ℕ
dl_downloading = 2

-- `flash_app_download_ctx_t`, 12 bytes
pub record DownloadCtx : Type 0 where
  pub state : ℕ  -- uint8_t
  pub appid : ℕ  -- uint8_t
  pub resv0 : ℕ
  pub resv1 : ℕ
  pub received : ℕ  -- uint32_t
  pub crc : ℕ  -- uint32_t

-- `init_flash_app_download_ctx`, which leaves `resv` alone
abbrev pub init_download_ctx : DownloadCtx → DownloadCtx
init_download_ctx d = record d { state = dl_idle; appid = 0; received = 0; crc = 0 }

-- `ota_info_t`, 68 bytes
pub record OtaInfo : Type 0 where
  pub seq : ℕ  -- uint32_t
  pub current_app : ℕ  -- uint8_t
  pub resv0 : ℕ
  pub resv1 : ℕ
  pub resv2 : ℕ
  pub dlctx : DownloadCtx
  pub factory : AppInfo
  pub app1 : AppInfo
  pub app2 : AppInfo

abbrev pub be32 : ℕ → List ℕ
be32 x = x / 16777216 % 256 ∷ x / 65536 % 256 ∷ x / 256 % 256 ∷ x % 256 ∷ []

abbrev pub u32_at : List ℕ → ℕ → ℕ
u32_at bs o =
    get_or bs o 0 * 16777216
    + get_or bs (o + 1) 0 * 65536
    + get_or bs (o + 2) 0 * 256
    + get_or bs (o + 3) 0

abbrev pub bytes_of_app : AppInfo → List ℕ
bytes_of_app a = be32 a.size ++ be32 a.crc ++ be32 a.timestamp ++ be32 a.version

abbrev pub app_at : List ℕ → ℕ → AppInfo
app_at bs o = record {
  size = u32_at bs o;
  crc = u32_at bs (o + 4);
  timestamp = u32_at bs (o + 8);
  version = u32_at bs (o + 12);
}

abbrev pub bytes_of_ctx : DownloadCtx → List ℕ
bytes_of_ctx d =
    d.state % 256 ∷ d.appid % 256 ∷ d.resv0 % 256 ∷ d.resv1 % 256 ∷ (be32 d.received ++ be32 d.crc)

abbrev pub ota_info_size : ℕ
ota_info_size = 68

-- The bytes of an `ota_info_t` in memory.
unfoldable pub bytes_of_info : OtaInfo → List ℕ
bytes_of_info i =
    be32 i.seq
    ++ (i.current_app % 256 ∷ i.resv0 % 256 ∷ i.resv1 % 256 ∷ i.resv2 % 256 ∷ [])
    ++ bytes_of_ctx i.dlctx
    ++ bytes_of_app i.factory
    ++ bytes_of_app i.app1
    ++ bytes_of_app i.app2

-- The `ota_info_t` that bytes in memory are.
unfoldable pub info_of_bytes : List ℕ → OtaInfo
info_of_bytes bs = record {
  seq = u32_at bs 0;
  current_app = get_or bs 4 0;
  resv0 = get_or bs 5 0;
  resv1 = get_or bs 6 0;
  resv2 = get_or bs 7 0;
  dlctx = record {
    state = get_or bs 8 0;
    appid = get_or bs 9 0;
    resv0 = get_or bs 10 0;
    resv1 = get_or bs 11 0;
    received = u32_at bs 12;
    crc = u32_at bs 16;
  };
  factory = app_at bs 20;
  app1 = app_at bs 36;
  app2 = app_at bs 52;
}

-- `FLASH_OTA_ID_MASTER` and `FLASH_OTA_ID_BACKUP`, the values of the bit `sysctx.st.otaid`
pub data OtaId : Type 0 where
  master backup : OtaId

-- `!sysctx.st.otaid`
abbrev pub flip : OtaId → OtaId
flip master = backup
flip backup = master

abbrev pub addr_of : OtaId → ℕ
addr_of master = norflash_ota_master_addr
addr_of backup = norflash_ota_backup_addr

abbrev pub blank_seq : ℕ
blank_seq = 4294967295

-- The tests of `findout_which_ota_info_is_older`, the repeated one included.
unfoldable pub older_of : ℕ → ℕ → OtaId
older_of seq_master seq_backup =
    if seq_master == blank_seq && seq_backup == blank_seq
    then master
    else if seq_master == blank_seq
    then master
    else if seq_master == blank_seq
    then backup
    else if leb seq_master seq_backup
    then master
    else backup

module _ (nor : Nor) where
  open nor use {State, read}

  -- the new value of `sysctx.st.otaid`
  unfoldable pub findout_which_ota_info_is_older : State → OtaId
  findout_which_ota_info_is_older s =
      older_of (u32_at (read norflash_ota_master_addr 4 s) 0)
        (u32_at (read norflash_ota_backup_addr 4 s) 0)

  -- `norflash_read(..., (uint8_t*)&ota_info, sizeof(ota_info_t))`
  unfoldable pub read_info : OtaId → State → OtaInfo
  unfolding info_of_bytes
  read_info id s = info_of_bytes (read (addr_of id) ota_info_size s)

  -- `norflash_erase_sector(...); norflash_write_page(..., (uint8_t*)&ota_info, sizeof(ota_info_t));`
  unfoldable pub write_info : OtaId → OtaInfo → State → State
  unfolding bytes_of_info
  write_info id i s =
      nor.write_page (addr_of id) (bytes_of_info i) (nor.erase_sector (addr_of id) s)
