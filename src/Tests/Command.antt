-- ===== src/Tests/Command.antt =====
-- Commands to a small board.
use stc_isp_demo.Prelude.{zeros, ℕ, ◌≡◌, refl, arith, List, [], ◌∷◌}
use stc_isp_demo.Command.{ChipInfo, reply, isp_handle}
use stc_isp_demo.Command.Program.{isp_handle_program_w25q}
use stc_isp_demo.Device.Memory.{window}
use stc_isp_demo.Device.WriteThrough.{norflash_write_no_check}
use stc_isp_demo.Tests.Devices.{nor_chip, rom_chip, sum_crc}

abbrev blank : ℕ → ℕ
blank i = 255

abbrev erase_chip : (ℕ → ℕ) → ℕ → ℕ
erase_chip s = blank

abbrev info : ChipInfo
info = record {
  version_major = 1;
  version_minor = 2;
  version = 3;
  build_time = 4;
  chip_id = 1 ∷ 2 ∷ 3 ∷ 4 ∷ 5 ∷ 6 ∷ 7 ∷ [];
  chip_version = 5;
  norflash_type = 61205;
}

-- PROGRAM_W25Q of the bytes 7 and 9 at the address 255
abbrev packet : List ℕ
packet = 35 ∷ 12 ∷ 0xB6 ∷ 0 ∷ 0 ∷ 0 ∷ 0 ∷ 2 ∷ 255 ∷ 0 ∷ 0 ∷ 0 ∷ 7 ∷ 9 ∷ zeros 241

isp_handle_program_w25q_example :
    (isp_handle sum_crc nor_chip rom_chip erase_chip info packet blank blank
      ≡ reply 0x88
          (255 ∷ 0 ∷ 0 ∷ 0 ∷ 7 ∷ 9 ∷ [])
          (norflash_write_no_check nor_chip 255 (7 ∷ 9 ∷ []) blank)
          blank)
    × (window (norflash_write_no_check nor_chip 255 (7 ∷ 9 ∷ []) blank) 255 2 ≡ 7 ∷ 9 ∷ [])
isp_handle_program_w25q_example =
    isp_handle_program_w25q sum_crc nor_chip rom_chip erase_chip info packet (7 ∷ 9 ∷ []) blank
      blank refl refl (omega arith, (omega arith, tt)) (omega arith) (λ i p q. refl)
