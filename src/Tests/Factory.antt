-- ===== src/Tests/Factory.antt =====
-- The first start of a small board, with a factory image and its metadata in the on-chip flash.
use stc_isp_demo.Prelude.{ℕ, ◌≡◌, refl, arith, true, false, [], ◌∷◌, some}
use stc_isp_demo.Boot.{Board, blocks_in}
use stc_isp_demo.Boot.Factory.{
  sum_chip, read_meta, check_onchip_factory_metadata, erase_sectors, copy_pages, verify_blocks,
  copy_image, write_verified, erase_meta, install_record, copy_onchip_factory_app_to_norflash,
}
use stc_isp_demo.Boot.Factory.Copied.{Installed, copy_onchip-Installed}
use stc_isp_demo.Layout.{iap_addr_app_start, iap_addr_factory_meta}
use stc_isp_demo.OtaInfo.{
  AppInfo, OtaInfo, master, backup, no_app, older_of, info_of_bytes, bytes_of_info, bytes_of_app,
  findout_which_ota_info_is_older, read_info, write_info,
}
use stc_isp_demo.OtaInfo.Codec.{IsAppInfo, IsOtaInfo}
use stc_isp_demo.Tests.Devices.{nor_chip, rom_chip, sum_crc, overlay, erased}

abbrev blank : ℕ → ℕ
blank i = 255

abbrev meta : AppInfo
meta = record { size = 2; crc = 1187; timestamp = 4; version = 16777216 }

abbrev factory_chip : ℕ → ℕ
factory_chip =
    overlay iap_addr_factory_meta (bytes_of_app meta)
      (overlay iap_addr_app_start (7 ∷ 9 ∷ []) blank)

-- The record that the copy makes of a blank one.
abbrev made : OtaInfo
made = record {
  seq = 0;
  current_app = 0;
  resv0 = 255;
  resv1 = 255;
  resv2 = 255;
  dlctx = record { state = 0; appid = 0; resv0 = 255; resv1 = 255; received = 0; crc = 0 };
  factory = meta;
  app1 = no_app;
  app2 = no_app;
}

abbrev board : Board nor_chip rom_chip
board = record {
  dfu = false;
  ldr = true;
  onchip_app_valid = true;
  appid = 0;
  otaid = master;
  ota_info = made;
  flash = blank;
  chip = factory_chip;
}

abbrev installed_flash : ℕ → ℕ
installed_flash =
    write_info nor_chip backup made
      (write_info nor_chip master made (copy_image sum_crc nor_chip rom_chip 2 factory_chip blank))

abbrev installed : Board nor_chip rom_chip
installed = record board {
  otaid = backup;
  flash = installed_flash;
  chip = erased 512 iap_addr_factory_meta factory_chip;
}

meta_checked : check_onchip_factory_metadata sum_crc nor_chip rom_chip factory_chip ≡ true
unfolding check_onchip_factory_metadata sum_chip
meta_checked = refl

copied :
    copy_onchip_factory_app_to_norflash sum_crc nor_chip rom_chip
      (read_meta sum_crc nor_chip rom_chip factory_chip)
      board
    ≡ some installed
unfolding copy_onchip_factory_app_to_norflash install_record erase_meta write_verified copy_image
    verify_blocks copy_pages erase_sectors blocks_in older_of info_of_bytes bytes_of_info
    findout_which_ota_info_is_older read_info write_info
copied = refl

meta-IsAppInfo : IsAppInfo meta
meta-IsAppInfo = record {
  size = omega arith;
  crc = omega arith;
  timestamp = omega arith;
  version = omega arith;
}

no_app-IsAppInfo : IsAppInfo no_app
no_app-IsAppInfo = record {
  size = omega arith;
  crc = omega arith;
  timestamp = omega arith;
  version = omega arith;
}

made-IsOtaInfo : IsOtaInfo made
made-IsOtaInfo = record {
  seq = omega arith;
  current_app = omega arith;
  resv0 = omega arith;
  resv1 = omega arith;
  resv2 = omega arith;
  state = omega arith;
  appid = omega arith;
  ctx_resv0 = omega arith;
  ctx_resv1 = omega arith;
  received = omega arith;
  crc = omega arith;
  factory = meta-IsAppInfo;
  app1 = no_app-IsAppInfo;
  app2 = no_app-IsAppInfo;
}

copy_onchip-Installed_example : Installed sum_crc nor_chip rom_chip installed
copy_onchip-Installed_example =
    copy_onchip-Installed sum_crc nor_chip rom_chip board installed meta_checked copied
      made-IsOtaInfo
