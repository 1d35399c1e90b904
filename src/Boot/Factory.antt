-- ===== src/Boot/Factory.antt =====
-- The factory image: check_onchip_factory_metadata and copy_onchip_factory_app_to_norflash of
-- bootloader/src/main.c. `none` is a reset of the chip.
pub mod Copied
use stc_isp_demo.Prelude.{
  ℕ, zero, suc, ◌+◌, ◌*◌, ◌/◌, Bool, true, false, ◌||◌, List, [], ◌∷◌, Option, none, some, ◌==◌,
  ltb, if◌then◌else◌, same_bytes, ◌>>=◌,
}
use stc_isp_demo.Boot.{Board, blocks}
use stc_isp_demo.Device.Crc.{Crc32}
use stc_isp_demo.Device.Nor.{Nor, norflash_page_size, norflash_sector_size}
use stc_isp_demo.Device.Rom.{Rom}
use stc_isp_demo.Layout.{
  app_max_size, iap_addr_app_start, iap_addr_factory_meta, norflash_factory_app_addr,
  flash_app_id_factory,
}
use stc_isp_demo.OtaInfo.{
  AppInfo, OtaInfo, OtaId, master, backup, addr_of, flip, no_app, app_at, bytes_of_info,
  ota_info_size, init_download_ctx, findout_which_ota_info_is_older, read_info, write_info,
}

module _ (crc : Crc32) (nor : Nor) (rom : Rom) where
  -- the loop under `check meta crc`: `n` bytes from `a` on
  unfoldable pub sum_chip : ℕ → ℕ → ℕ → rom.State → ℕ
  sum_chip zero a c r = c
  sum_chip (suc n) a c r = sum_chip n (a + 1) (crc.update1 c (rom.read_byte a r)) r

  -- `meta`
  abbrev pub read_meta : rom.State → AppInfo
  read_meta r = app_at (rom.read_bytes iap_addr_factory_meta 16 r) 0

  -- the value of `onchip_meta_valid` afterwards
  unfoldable pub check_onchip_factory_metadata : rom.State → Bool
  check_onchip_factory_metadata r =
      let meta = read_meta r in
      let sum = crc.finalize (sum_chip meta.size iap_addr_app_start crc.init r) in
      if meta.size == 0 || ltb app_max_size meta.size
      then false
      else if sum == meta.crc
      then true
      else false

  -- 1.1, `n` sectors
  unfoldable pub erase_sectors : ℕ → ℕ → nor.State → nor.State
  erase_sectors zero a s = s
  erase_sectors (suc n) a s = erase_sectors n (a + norflash_sector_size) (nor.erase_sector a s)

  -- 1.2
  unfoldable pub copy_pages : List ℕ → ℕ → ℕ → rom.State → nor.State → nor.State
  copy_pages [] ia fa r s = s
  copy_pages (len ∷ ls) ia fa r s =
      copy_pages ls (ia + len) (fa + len) r (nor.write_page fa (rom.read_bytes ia len r) s)

  -- 1.3
  unfoldable pub verify_blocks : List ℕ → ℕ → ℕ → rom.State → nor.State → Bool
  verify_blocks [] ia fa r s = true
  verify_blocks (len ∷ ls) ia fa r s =
      let rest = verify_blocks ls (ia + len) (fa + len) r s in
      if same_bytes (rom.read_bytes ia len r) (nor.read fa len s) then rest else false

  -- 1: the image in the external flash
  unfoldable pub copy_image : ℕ → rom.State → nor.State → nor.State
  copy_image size r s =
      copy_pages (blocks norflash_page_size size) iap_addr_app_start norflash_factory_app_addr r
        (erase_sectors ((size + 4095) / norflash_sector_size) norflash_factory_app_addr s)

  -- 2.3
  abbrev pub factory_info : AppInfo → OtaInfo → OtaInfo
  factory_info meta i = record i {
    seq = 0;
    current_app = flash_app_id_factory;
    factory = meta;
    app1 = no_app;
    app2 = no_app;
    dlctx = init_download_ctx i.dlctx;
  }

  -- 2.4, one copy: written, read back and compared
  unfoldable pub write_verified : OtaId → OtaInfo → nor.State → Option nor.State
  write_verified id i s =
      let s' = write_info nor id i s in
      if same_bytes (bytes_of_info i) (nor.read (addr_of id) ota_info_size s')
      then some s'
      else none

  -- 3
  unfoldable pub erase_meta : Board nor rom → Option (Board nor rom)
  erase_meta b =
      let done = rom.erase_page_check iap_addr_factory_meta b.chip in
      if done.0 then some (record b { chip = done.1 }) else none

  -- 2 and 3, on a flash that holds the image
  unfoldable pub install_record : AppInfo → Board nor rom → nor.State → Option (Board nor rom)
  install_record meta b s =
      let id = findout_which_ota_info_is_older nor s in
      let i = factory_info meta (read_info nor id s) in
      do
        s1 ← write_verified master i s
        s2 ← write_verified backup i s1
        erase_meta (record b { ota_info = i; flash = s2; otaid = flip id })

  unfoldable pub copy_onchip_factory_app_to_norflash :
      AppInfo → Board nor rom → Option (Board nor rom)
  copy_onchip_factory_app_to_norflash meta b =
      let s = copy_image meta.size b.chip b.flash in
      if verify_blocks (blocks 128 meta.size) iap_addr_app_start norflash_factory_app_addr b.chip s
      then install_record meta b s
      else none
