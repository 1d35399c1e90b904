-- ===== src/Tests/Fetch.antt =====
-- What the programmer's window reads from the external flash of a board.
use stc_isp_demo.Prelude.{
  ℕ, ◌+◌, ◌≤◌, ◌≡◌, ◌∙◌, inl, refl, ap, arith, true, [], ◌∷◌, ◌++◌, some, length, length-append,
  leb, ◌==◌, zeros, length-zeros, take_of_eq,
}
use stc_isp_demo.Device.Crc.{crc_of}
use stc_isp_demo.Device.Memory.{window}
use stc_isp_demo.Layout.{norflash_factory_app_addr}
use stc_isp_demo.OtaInfo.{OtaInfo, master, write_info, bytes_of_info, info_of_bytes, ota_info_size}
use stc_isp_demo.OtaInfo.Codec.{IsOtaInfo, info_of_bytes-bytes_of_info, length-bytes_of_info}
use stc_isp_demo.Host.Flash.Fetch.{
  Reader, ReadCall, more, ended, shown, crc_check, info_in, slot_read, slot_read_ota_info,
  slot_read_app,
}
use stc_isp_demo.Host.Flash.Fetch.Whole.{rounds, finished, slot_read-finished}
use stc_isp_demo.Host.Flash.Fetch.Shown.{slot_read_app-checked, slot_read_ota_info-write_info}
use stc_isp_demo.Tests.Port.{chip_info, erase_chip}
use stc_isp_demo.Tests.Update.{image_info-IsAppInfo, no_app-IsAppInfo}
use stc_isp_demo.Tests.Samples.{blank, image_info, info}
use stc_isp_demo.Tests.Devices.{nor_chip, rom_chip, sum_crc}

-- Two bytes from 1 on
abbrev reader : Reader
reader = record {
  e2 = 7 ∷ 9 ∷ 3 ∷ [];
  offset = 1;
  range = 2;
  e2recv = 0;
  e2recvd = 5;
  reading_master = true;
}

slot_read-finished_example :
    rounds sum_crc nor_chip rom_chip erase_chip chip_info [] blank blank 1
      (record { reader = (slot_read reader).0; after = some (more (slot_read reader).1) })
    ≡ finished sum_crc nor_chip rom_chip erase_chip chip_info [] blank blank
        (7 ∷ 9 ∷ 3 ∷ [])
        (slot_read reader).0
slot_read-finished_example =
    slot_read-finished sum_crc nor_chip rom_chip erase_chip chip_info [] blank blank reader
      (omega arith) (omega arith) (omega arith)

-- A record with an image as the factory application
abbrev made : OtaInfo
made = record info { factory = image_info }

made-IsOtaInfo : IsOtaInfo made
made-IsOtaInfo = record {
  seq = omega arith;
  current_app = omega arith;
  resv0 = omega arith;
  resv1 = omega arith;
  resv2 = omega arith;
  state = omega arith;
  appid = omega arith;
  ctx_resv0 = omega arith;
  ctx_resv1 = omega arith;
  received = omega arith;
  crc = omega arith;
  factory = image_info-IsAppInfo;
  app1 = image_info-IsAppInfo;
  app2 = no_app-IsAppInfo;
}

-- The bytes of the window with that record in front
abbrev with_made : Reader
with_made = record reader { e2 = bytes_of_info made ++ zeros 20000 }

with_made_room : (n : ℕ) → n ≤ 20000 → n ≤ length with_made.e2
with_made_room n h =
    omega (arith, h, length-append (bytes_of_info made) (zeros 20000), length-zeros 20000)

with_made_info : info_in with_made.e2 0 ≡ some made
with_made_info =
    let room : leb (0 + ota_info_size) (length with_made.e2) ≡ true =
      ground (arith, with_made_room 68 (omega arith)) in
    rw room (
      ap (λ bs. some (info_of_bytes bs))
        (take_of_eq ota_info_size (bytes_of_info made) (zeros 20000) with_made.e2
          (omega (arith, length-bytes_of_info made)) refl)
      ∙ ap {A = OtaInfo} some (info_of_bytes-bytes_of_info made made-IsOtaInfo))

slot_read_ota_info-write_info_example :
    (rounds sum_crc nor_chip rom_chip erase_chip chip_info []
      (write_info nor_chip master made blank)
      blank
      1
      (record {
        reader = (slot_read_ota_info master with_made).0;
        after = some (more (slot_read_ota_info master with_made).1);
      })).after
    ≡ some (ended (shown master made))
slot_read_ota_info-write_info_example =
    slot_read_ota_info-write_info sum_crc nor_chip rom_chip erase_chip chip_info [] blank with_made
      master made blank made-IsOtaInfo (with_made_room 68 (omega arith))

slot_read_app-checked_example :
    (start : Reader × ReadCall) × (slot_read_app true norflash_factory_app_addr with_made
      ≡ some start)
    × ((rounds sum_crc nor_chip rom_chip erase_chip chip_info [] blank blank 1
          (record { reader = start.0; after = some (more start.1) })).after
        ≡ some
            (ended (crc_check (crc_of sum_crc (window blank norflash_factory_app_addr 2) == 1187))))
slot_read_app-checked_example =
    slot_read_app-checked sum_crc nor_chip rom_chip erase_chip chip_info [] blank blank with_made
      true norflash_factory_app_addr made with_made_info (inl refl) (omega arith) (omega arith)
      (with_made_room (norflash_factory_app_addr + 2) (omega arith)) (omega arith)
