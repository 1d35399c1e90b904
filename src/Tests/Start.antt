-- ===== src/Tests/Start.antt =====
-- Boots of small boards.
use stc_isp_demo.Prelude.{ℕ, ◌≤◌, ◌≡◌, ◌⊎◌, refl, arith, true, false, [], ◌∷◌}
use stc_isp_demo.Boot.{
  Board, try_load_flash_app, sum_blocks, compare_blocks, erase_pages, program_blocks, need_copy,
  copy_to_chip, blocks_in, app_pages, fail_times_max,
}
use stc_isp_demo.Boot.Load.{Complete, Programmed, try_load_flash_app_lem}
use stc_isp_demo.Boot.Select.{load_newer, boot_order, start, check_ota}
use stc_isp_demo.Boot.Start.{
  Ready, Refused, newer, check_ota-Ready, start_jumps, start_unprogrammed,
}
use stc_isp_demo.Layout.{norflash_app1_addr}
use stc_isp_demo.OtaInfo.{
  OtaInfo, master, backup, no_app, older_of, info_of_bytes, bytes_of_info,
  findout_which_ota_info_is_older, read_info, write_info,
}
use stc_isp_demo.Tests.Devices.{nor_chip, rom_chip, sum_crc, overlay}

abbrev blank : ℕ → ℕ
blank i = 255

-- The first slot holds an image of two bytes.
abbrev image_flash : ℕ → ℕ
image_flash = overlay norflash_app1_addr (7 ∷ 9 ∷ []) blank

abbrev info : OtaInfo
info = record {
  seq = 5;
  current_app = 1;
  resv0 = 0;
  resv1 = 0;
  resv2 = 0;
  dlctx = record { state = 0; appid = 0; resv0 = 0; resv1 = 0; received = 0; crc = 0 };
  factory = no_app;
  app1 = record { size = 2; crc = 1187; timestamp = 4; version = 16777216 };
  app2 = no_app;
}

abbrev board : Board nor_chip rom_chip
board = record {
  dfu = false;
  ldr = true;
  onchip_app_valid = true;
  appid = 0;
  otaid = master;
  ota_info = info;
  flash = image_flash;
  chip = blank;
}

loads : (try_load_flash_app sum_crc nor_chip rom_chip 1 board).0 ≡ true
unfolding try_load_flash_app sum_blocks compare_blocks erase_pages program_blocks need_copy
    copy_to_chip blocks_in app_pages fail_times_max
loads = refl

try_load_flash_app_lem_example :
    Complete sum_crc nor_chip rom_chip 1 board
    × Programmed sum_crc nor_chip rom_chip 1
        (try_load_flash_app sum_crc nor_chip rom_chip 1 board).1
try_load_flash_app_lem_example = try_load_flash_app_lem sum_crc nor_chip rom_chip 1 board refl loads

-- The same board before the boot: the update record is in the backup copy.
abbrev installed : Board nor_chip rom_chip
installed = record board { flash = write_info nor_chip backup info image_flash }

newer_names_app1 : (newer sum_crc nor_chip rom_chip installed).ota_info.current_app ≡ 1
unfolding load_newer findout_which_ota_info_is_older older_of read_info info_of_bytes write_info
    bytes_of_info
newer_names_app1 = refl

newer_in_range : (newer sum_crc nor_chip rom_chip installed).ota_info.current_app ≤ 2
newer_in_range = rw newer_names_app1 (omega arith)

check_ota-Ready_example :
    Ready sum_crc nor_chip rom_chip (check_ota sum_crc nor_chip rom_chip installed)
    ⊎ Refused sum_crc nor_chip rom_chip
        (boot_order (newer sum_crc nor_chip rom_chip installed).ota_info.current_app)
        (newer sum_crc nor_chip rom_chip installed)
check_ota-Ready_example = check_ota-Ready sum_crc nor_chip rom_chip installed refl newer_in_range

start_jumps_example : (start sum_crc nor_chip rom_chip installed).0 ≡ true
start_jumps_example = start_jumps sum_crc nor_chip rom_chip installed refl refl

-- A board with an empty on-chip flash.
abbrev bare : Board nor_chip rom_chip
bare = record installed { onchip_app_valid = false }

bare_names_app1 : (newer sum_crc nor_chip rom_chip bare).ota_info.current_app ≡ 1
unfolding load_newer findout_which_ota_info_is_older older_of read_info info_of_bytes write_info
    bytes_of_info
bare_names_app1 = refl

bare-Complete :
    Complete sum_crc nor_chip rom_chip
      (newer sum_crc nor_chip rom_chip bare).ota_info.current_app
      (newer sum_crc nor_chip rom_chip bare)
unfolding load_newer findout_which_ota_info_is_older older_of read_info info_of_bytes write_info
    bytes_of_info
bare-Complete = (omega arith, omega arith, refl)

start_unprogrammed_example :
    ((start sum_crc nor_chip rom_chip bare).0 ≡ true)
    × ((start sum_crc nor_chip rom_chip bare).1.chip ≡ blank)
start_unprogrammed_example =
    start_unprogrammed sum_crc nor_chip rom_chip bare refl refl (rw bare_names_app1 (omega arith))
      bare-Complete
