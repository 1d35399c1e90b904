-- ===== src/Boot/Select.antt =====
-- check_ota of bootloader/src/main.c, which selects the application image, and the decision of its
-- main to jump to the on-chip application.
use stc_isp_demo.Prelude.{ℕ, ◌+◌, ◌%◌, Bool, true, false, List, [], ◌∷◌, ◌==◌, leb, if◌then◌else◌}
use stc_isp_demo.Boot.{Board, try_load_flash_app}
use stc_isp_demo.Device.Crc.{Crc32}
use stc_isp_demo.Device.Nor.{Nor}
use stc_isp_demo.Device.Rom.{Rom}
use stc_isp_demo.Layout.{
  flash_app_id_factory, flash_app_id_app1, flash_app_id_app2, flash_app_id_max,
}
use stc_isp_demo.OtaInfo.{OtaId, flip, findout_which_ota_info_is_older, read_info, write_info}

-- `boot[0 .. n - 1]` for a `current_app` that is an id
abbrev pub boot_order : ℕ → List ℕ
boot_order current =
    if current == flash_app_id_factory
    then flash_app_id_factory ∷ []
    else current
      ∷ (if current == flash_app_id_app1 then flash_app_id_app2 else flash_app_id_app1)
      ∷ flash_app_id_factory
      ∷ []

module _ (crc : Crc32) (nor : Nor) (rom : Rom) where
  -- `retry:` the record that is not the older one
  unfoldable pub load_newer : OtaId → Board nor rom → Board nor rom
  load_newer id b = record b { otaid = id; ota_info = read_info nor (flip id) b.flash }

  -- the branch of the boot loop for an image that was loaded
  unfoldable pub loaded : ℕ → Board nor rom → Board nor rom
  loaded appid b =
      let ready = record b { appid = appid; onchip_app_valid = true } in
      let info = record b.ota_info {
        seq = (b.ota_info.seq + 1) % 4294967296;
        current_app = appid;
      } in
      let updated = record ready {
        ota_info = info;
        flash = write_info nor b.otaid info b.flash;
        otaid = flip b.otaid;
      } in
      if b.ota_info.current_app == appid then ready else updated

  unfoldable pub boot_in : List ℕ → Board nor rom → Board nor rom
  boot_in [] b = b
  boot_in (appid ∷ rest) b =
      let t = try_load_flash_app crc nor rom appid b in
      let next = boot_in rest t.1 in if t.0 then loaded appid t.1 else next

  unfoldable pub check_ota : Board nor rom → Board nor rom
  check_ota b =
      let first = load_newer (findout_which_ota_info_is_older nor b.flash) b in
      let second = load_newer (flip first.otaid) first in
      if leb first.ota_info.current_app flash_app_id_max
      then boot_in (boot_order first.ota_info.current_app) first
      else if leb second.ota_info.current_app flash_app_id_max
      then boot_in (boot_order second.ota_info.current_app) second
      else second

  -- `main` from the test of the force DFU flag on; `true` is the jump to the application
  unfoldable pub start : Board nor rom → Bool × Board nor rom
  start b =
      let c = check_ota b in
      if b.dfu
      then (false, record b { dfu = false })
      else if c.onchip_app_valid
      then (true, record c { dfu = false; ldr = false })
      else (false, record c { dfu = false })
