-- ===== src/OtaClient.antt =====
-- The update client of the application (app/src/ota.c): it asks the server for the latest
-- version, erases a slot of the external flash, downloads the image block by block and then makes
-- it the current application. Requests that go out over the UART are kept as a list.
pub mod Download
pub mod Apply
pub mod Erase
pub mod Machine
pub mod Silent
use stc_isp_demo.Prelude.{
  ℕ, zero, suc, ◌+◌, ◌-◌, ◌*◌, ◌/◌, ◌%◌, Bool, true, false, ◌&&◌, ◌||◌, not, List, [], ◌∷◌, ◌++◌,
  ◌==◌, ltb, leb, if◌then◌else◌, take, same_bytes,
}
use stc_isp_demo.Device.Crc.{Crc32, crc_of}
use stc_isp_demo.Device.Nor.{Nor, norflash_sector_size}
use stc_isp_demo.Layout.{
  app_max_size, norflash_app1_addr, norflash_app2_addr, flash_app_id_factory, flash_app_id_app1,
  flash_app_id_app2,
}
use stc_isp_demo.Protocol.{pkt_dat_max_len}
use stc_isp_demo.OtaInfo.{
  AppInfo, DownloadCtx, OtaInfo, OtaId, master, backup, flip, dl_idle, dl_erasing, dl_downloading,
  dl_invalid, findout_which_ota_info_is_older, read_info, write_info,
}

abbrev pub u32 : ℕ → ℕ
u32 n = n % 4294967296

abbrev pub u16 : ℕ → ℕ
u16 n = n % 65536

-- The constants of app/src/ota.c and common/protocol.h.
abbrev pub ota_timeout_max : ℕ
ota_timeout_max = 20

abbrev pub ota_check_interval : ℕ
ota_check_interval = 5

-- `ota_result_t`
abbrev pub ota_ok : ℕ
ota_ok = 0

abbrev pub ota_no_new_version : ℕ
ota_no_new_version = 5

-- The values of `ota_state`; `unknown` stands for every other value of the byte.
pub data OtaState : Type 0 where
  idle timeup timeout checking preparing erasing downloading applying error unknown : OtaState

-- The records that `papp` and `pappu` point into: fields of `ota_info`.
pub data Slot : Type 0 where
  factory app1 app2 : Slot

abbrev pub slot_info : Slot → OtaInfo → AppInfo
slot_info factory i = i.factory
slot_info app1 i = i.app1
slot_info app2 i = i.app2

abbrev pub set_slot : Slot → AppInfo → OtaInfo → OtaInfo
set_slot factory a i = record i { factory = a }
set_slot app1 a i = record i { app1 = a }
set_slot app2 a i = record i { app2 = a }

-- What goes out over the UART.
pub data Request : Type 0 where
  check_ota : AppInfo → Request
  get_app_data : ℕ → ℕ → ℕ → Request  -- version, offset, size

-- `latest_app_info_t` and `get_app_data_res_t`
pub record LatestAppInfo : Type 0 where
  pub result : ℕ
  pub info : AppInfo

pub record AppData : Type 0 where
  pub result : ℕ
  pub offset : ℕ
  pub size : ℕ
  pub crc : ℕ
  pub dat : List ℕ

-- The file's static variables, `ota_info`, `sysctx.st.otaid`, the flash and what was sent.
pub record Client (nor : Nor) : Type 0 where
  pub ota_state : OtaState
  pub ota_timeout : ℕ  -- uint16_t
  pub ota_1s_counter : ℕ  -- uint16_t
  pub appid_to_upgrade : ℕ
  pub papp : Slot
  pub pappu : Slot
  pub flash_addr : ℕ  -- uint32_t
  pub erase_size : ℕ  -- uint32_t
  pub addr : ℕ  -- uint32_t
  pub ota_info : OtaInfo
  pub otaid : OtaId
  pub flash : nor.State
  pub sent : List Request

-- The states in which `ota_1s_event` counts `ota_timeout` down.
abbrev pub is_timed : OtaState → Bool
is_timed checking = true
is_timed preparing = true
is_timed erasing = true
is_timed downloading = true
is_timed _ = false

abbrev pub is_idle : OtaState → Bool
is_idle idle = true
is_idle _ = false

abbrev pub is_downloading : OtaState → Bool
is_downloading downloading = true
is_downloading _ = false

abbrev pub is_checking : OtaState → Bool
is_checking checking = true
is_checking _ = false

-- `if (req.size > PKT_DAT_MAX_LEN) req.size = PKT_DAT_MAX_LEN;`
abbrev pub block_size : ℕ → ℕ
block_size left = if ltb pkt_dat_max_len left then pkt_dat_max_len else left

module _ {nor : Nor} where
  abbrev pub send : Request → Client nor → Client nor
  send r c = record c { sent = c.sent ++ (r ∷ []) }

  -- `*pappu`
  abbrev pub target : Client nor → AppInfo
  target c = slot_info c.pappu c.ota_info

  abbrev pub set_ctx : DownloadCtx → Client nor → Client nor
  set_ctx d c = record c { ota_info = record c.ota_info { dlctx = d } }

  -- `if (otaid == MASTER) { erase; write master } else { erase; write backup }; otaid = !otaid`
  abbrev pub write_back : Client nor → Client nor
  write_back c = record c {
    flash = write_info nor c.otaid c.ota_info c.flash;
    otaid = flip c.otaid;
  }

  unfoldable pub request_next_block : Client nor → Client nor
  request_next_block c =
      let offset = c.ota_info.dlctx.received in
      let left = (4294967296 + (target c).size - offset) % 4294967296 in
      send (get_app_data (target c).version offset (block_size left)) c

  -- `ota_1s_event`, its first `if`
  abbrev tick_idle : Client nor → Client nor
  tick_idle c =
      let n = u16 (c.ota_1s_counter + 1) in
      if is_idle c.ota_state
      then (if n == ota_check_interval
          then record c { ota_1s_counter = 0; ota_state = timeup }
          else record c { ota_1s_counter = n })
      else c

  -- what follows when the counted time is over
  abbrev timed_out : Client nor → Client nor
  timed_out c =
      if is_downloading c.ota_state
      then request_next_block (record c { ota_timeout = ota_timeout_max })
      else record c { ota_state = timeout }

  abbrev tick_timeout : Client nor → Client nor
  tick_timeout c =
      if not (c.ota_timeout == 0) && is_timed c.ota_state
      then (if c.ota_timeout - 1 == 0
          then timed_out (record c { ota_timeout = 0 })
          else record c { ota_timeout = c.ota_timeout - 1 })
      else c

  unfoldable pub ota_1s_event : Client nor → Client nor
  unfolding request_next_block
  ota_1s_event c = tick_timeout (tick_idle c)

  abbrev pub is_newer_app : AppInfo → Client nor → Bool
  is_newer_app a c =
      ltb (slot_info c.papp c.ota_info).version a.version && ltb 0 a.size && leb a.size app_max_size

  unfoldable pub ota_on_latest_app_info : LatestAppInfo → Client nor → Client nor
  ota_on_latest_app_info m c =
      if is_checking c.ota_state
      then (if m.result == ota_ok
          then (if is_newer_app m.info c
              then record c {
                ota_info = set_slot c.pappu m.info c.ota_info;
                ota_timeout = ota_timeout_max;
                ota_state = preparing;
              }
              else record c { ota_1s_counter = 0; ota_state = idle })
          else if m.result == ota_no_new_version
          then record c { ota_1s_counter = 0; ota_state = idle }
          else c)
      else c

  -- `case OTA_STATE_PREPARING`; `& ~(NORFLASH_SECTOR_SIZE - 1)` rounds down to a whole sector.
  unfoldable pub prepare : Client nor → Client nor
  prepare c =
      let last = u32 (c.flash_addr + u32 ((target c).size + norflash_sector_size - 1)) in
      let d = record c.ota_info.dlctx { state = dl_erasing; received = 0; crc = 0 } in
      let i = record c.ota_info { seq = u32 (c.ota_info.seq + 1); dlctx = d } in
      write_back (record c {
        erase_size = last / norflash_sector_size * norflash_sector_size;
        addr = c.flash_addr;
        ota_info = i;
        ota_state = erasing;
      })

-- The bytes of a block: `res->size` bytes from `res->dat` on.
abbrev pub block : AppData → List ℕ
block res = take res.size res.dat

-- A size past the data of the packet, for which the source reads on behind them, is cut here; the sum is
-- compared in front of the size, and either test refuses such a block.
abbrev pub verify_app_data_res : Crc32 → AppData → Bool
verify_app_data_res crc res = crc_of crc (block res) == res.crc

module _ {nor : Nor} (crc : Crc32) where
  -- `case OTA_STATE_ERASING` when the slot is erased
  unfoldable pub begin_download : Client nor → Client nor
  unfolding request_next_block
  begin_download c =
      let d = record c.ota_info.dlctx { state = dl_downloading; received = 0; crc = crc.init } in
      let i = record c.ota_info { seq = u32 (c.ota_info.seq + 1); dlctx = d } in
      request_next_block (record (write_back (record c { addr = c.flash_addr; ota_info = i })) {
        ota_state = downloading;
      })

  -- `case OTA_STATE_ERASING`
  unfoldable pub erase : Client nor → Client nor
  unfolding begin_download
  erase c =
      if ltb c.addr c.erase_size
      then record c {
        flash = nor.erase_sector c.addr c.flash;
        addr = u32 (c.addr + norflash_sector_size);
      }
      else begin_download c

  -- the `switch` of `ota_run`
  pub run_in : OtaState → Client nor → Client nor
  unfolding prepare erase
  run_in timeup c = record (send (check_ota (slot_info c.papp c.ota_info)) c) {
    ota_state = checking;
    ota_timeout = ota_timeout_max;
  }
  run_in timeout c = record c { ota_timeout = ota_timeout_max; ota_state = idle }
  run_in preparing c = prepare c
  run_in erasing c = erase c
  run_in unknown c = record c {
    ota_1s_counter = 0;
    ota_timeout = ota_timeout_max;
    ota_state = idle;
  }
  run_in _ c = c

  unfoldable pub ota_run : Client nor → Client nor
  unfolding run_in
  ota_run c = run_in c.ota_state c

  -- the end of a download: the whole image was received
  unfoldable pub finish_download : Client nor → Client nor
  finish_download c =
      let sum = crc.finalize c.ota_info.dlctx.crc in
      let summed = set_ctx (record c.ota_info.dlctx { crc = sum }) c in
      let d = record c.ota_info.dlctx { state = dl_idle; received = 0; crc = 0 } in
      let i = record c.ota_info {
        seq = u32 (c.ota_info.seq + 1);
        current_app = c.appid_to_upgrade;
        dlctx = d;
      } in
      if sum == (target c).crc
      then record (write_back (record summed { ota_timeout = ota_timeout_max; ota_info = i })) {
        ota_state = applying;
      }
      else record summed { ota_state = error }

  -- where the next block goes
  abbrev pub block_addr : Client nor → ℕ
  block_addr c = u32 (c.flash_addr + c.ota_info.dlctx.received)

  unfoldable pub write_block : AppData → Client nor → Client nor
  write_block res c = record c {
    ota_timeout = ota_timeout_max;
    flash = nor.write_page (block_addr c) (block res) c.flash;
  }

  -- `received += res->size` and the running sum
  unfoldable pub advance : AppData → Client nor → Client nor
  advance res c =
      let d = record c.ota_info.dlctx {
        received = u32 (c.ota_info.dlctx.received + res.size);
        crc = crc.update c.ota_info.dlctx.crc (block res);
      } in
      set_ctx d c

  -- the block as it is read back
  abbrev pub read_back : AppData → Client nor → List ℕ
  read_back res c = nor.read (block_addr c) res.size c.flash

  -- a block that passed the tests, written to the flash and read back
  unfoldable pub store_block : AppData → Client nor → Client nor
  unfolding request_next_block finish_download write_block advance
  store_block res c =
      let written = write_block res c in
      let next = advance res written in
      if same_bytes (read_back res written) (block res)
      then (if ltb next.ota_info.dlctx.received (target next).size
          then request_next_block next
          else finish_download next)
      else record written { ota_state = error }

  unfoldable pub ota_on_app_data : AppData → Client nor → Client nor
  unfolding store_block
  ota_on_app_data res c =
      if is_downloading c.ota_state
      then (if res.result == ota_ok
            && verify_app_data_res crc res
            && res.offset == c.ota_info.dlctx.received
            && ltb 0 res.size
            && leb res.size pkt_dat_max_len
          then store_block res c
          else record c { ota_state = error })
      else c

-- The application to replace, by the one that runs: where `papp` and `pappu` point, the slot's
-- address and its id.
abbrev pub plan : ℕ → Slot × Slot × ℕ × ℕ
plan current_app =
    if current_app == flash_app_id_factory
    then (factory, app1, norflash_app1_addr, flash_app_id_app1)
    else if current_app == flash_app_id_app1
    then (app1, app2, norflash_app2_addr, flash_app_id_app2)
    else (app2, app1, norflash_app1_addr, flash_app_id_app1)

module _ {nor : Nor} where
  -- the `switch` of `ota_init` on `dlctx.state`
  pub recover : Client nor → Client nor
  recover c =
      if c.ota_info.dlctx.state == dl_invalid || c.ota_info.dlctx.state == dl_idle
      then c
      else write_back (record c {
        ota_info = record c.ota_info {
          dlctx = record c.ota_info.dlctx { state = dl_idle };
          seq = u32 (c.ota_info.seq + 1);
        };
      })

  unfoldable pub ota_init : Client nor → Client nor
  unfolding recover
  ota_init c =
      let id = findout_which_ota_info_is_older nor c.flash in
      let i = read_info nor (flip id) c.flash in
      let (running, next, a, appid) = plan i.current_app in
      recover (record c {
        otaid = id;
        papp = running;
        pappu = next;
        flash_addr = a;
        appid_to_upgrade = appid;
        ota_info = record i { dlctx = record i.dlctx { appid = appid } };
      })
