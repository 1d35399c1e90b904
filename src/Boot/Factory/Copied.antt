-- ===== src/Boot/Factory/Copied.antt =====
-- What the copy of the factory image leaves behind (bootloader/src/main.c).
use stc_isp_demo.Prelude.{
  ℕ, zero, suc, ◌+◌, ◌/◌, ◌≤◌, ◌<◌, ◌≡◌, ◌≢◌, ◌∙◌, refl, sym, ap, subst, arith, Bool, true, false,
  List, [], ◌∷◌, ◌++◌, Option, none, some, ◌||◌, ◌==◌, ltb, if◌then◌else◌, same_bytes,
  same_bytes→eq, >>=-eq-some,
}
use stc_isp_demo.Boot.{Board, blocks}
use stc_isp_demo.Boot.Blocks.{total, total-blocks_in}
use stc_isp_demo.Boot.Factory.{
  sum_chip, read_meta, check_onchip_factory_metadata, copy_image, verify_blocks, factory_info,
  write_verified, erase_meta, install_record, copy_onchip_factory_app_to_norflash,
}
use stc_isp_demo.Boot.Load.{Complete, Programmed}
use stc_isp_demo.Boot.Start.{image_kept}
use stc_isp_demo.Device.Crc.{Crc32, crc_of}
use stc_isp_demo.Device.Memory.{window, window-add, window_ext}
use stc_isp_demo.Device.Nor.{Nor, nor_size}
use stc_isp_demo.Device.Rom.{Rom, rom_size}
use stc_isp_demo.Layout.{
  app_max_size, iap_addr_app_start, iap_addr_factory_meta, norflash_factory_app_addr,
  flash_app_id_factory,
}
use stc_isp_demo.OtaInfo.{
  AppInfo, OtaInfo, OtaId, master, backup, addr_of, flip, info_of_bytes,
  findout_which_ota_info_is_older, read_info, write_info,
}
use stc_isp_demo.OtaInfo.Codec.{IsOtaInfo, read_info-write_info, write_info_outside}

-- The two outcomes of a test that may reset the chip.
passed :
    {A : Type 0} (t : Bool) (x : Option A) {c : A}
    → (if t then x else none) ≡ some c
    → (t ≡ true) × (x ≡ some c)
passed true x h = (refl, h)
passed false x h = cc

-- The tests of the metadata, in their order.
valid_meta :
    (invalid right : Bool)
    → (if invalid then false else if right then true else false) ≡ true
    → (invalid ≡ false) × (right ≡ true)
valid_meta true right h = cc
valid_meta false true h = (refl, refl)
valid_meta false false h = cc

master_apart : (a : ℕ) → a < 4096 → a / 4096 ≢ addr_of backup / 4096
master_apart a h = omega arith

module _ (crc : Crc32) (nor : Nor) (rom : Rom) where
  pub sum_chip_lem :
      (n a c : ℕ) (r : rom.State)
      → a + n ≤ rom_size
      → sum_chip crc nor rom n a c r ≡ crc.update c (window (rom.byte_at r) a n)
  unfolding sum_chip
  sum_chip_lem zero a c r h = sym (crc.update-nil c)
  sum_chip_lem (suc n) a c r h =
      sum_chip_lem n (a + 1) (crc.update1 c (rom.read_byte a r)) r (omega arith)
      ∙ ap (λ x. crc.update (crc.update1 c x) (window (rom.byte_at r) (a + 1) n))
          (rom.read_byte_lem a r (omega arith))
      ∙ sym (crc.update-cons c (rom.byte_at r a) (window (rom.byte_at r) (a + 1) n))

  verify_blocks_lem :
      (ls : List ℕ) (ia fa : ℕ) (r : rom.State) (s : nor.State)
      → fa + total ls ≤ nor_size
      → ia + total ls ≤ rom_size
      → verify_blocks crc nor rom ls ia fa r s ≡ true
      → window (rom.byte_at r) ia (total ls) ≡ window (nor.byte_at s) fa (total ls)
  unfolding verify_blocks
  verify_blocks_lem [] ia fa r s f g h = refl
  verify_blocks_lem (len ∷ ls) ia fa r s f g h =
      let rest = verify_blocks crc nor rom ls (ia + len) (fa + len) r s in
      let both : (same_bytes (rom.read_bytes ia len r) (nor.read fa len s) ≡ true) × (rest ≡ true) =
        ground arith in
      let one : window (rom.byte_at r) ia len ≡ window (nor.byte_at s) fa len =
        sym (rom.read_lem ia len r (omega arith))
        ∙ same_bytes→eq (rom.read_bytes ia len r) (nor.read fa len s) both.0
        ∙ nor.read_lem fa len s (omega arith) in
      sym (window-add (rom.byte_at r) ia len (total ls))
      ∙ ap (◌++ window (rom.byte_at r) (ia + len) (total ls)) one
      ∙ ap (window (nor.byte_at s) fa len ++◌)
          (verify_blocks_lem ls (ia + len) (fa + len) r s (omega arith) (omega arith) both.1)
      ∙ window-add (nor.byte_at s) fa len (total ls)

  write_verified_lem :
      (id : OtaId) (i : OtaInfo) (s s' : nor.State)
      → write_verified crc nor rom id i s ≡ some s'
      → write_info nor id i s ≡ s'
  unfolding write_verified
  write_verified_lem id i s s' h = let k = passed _ (some (write_info nor id i s)) h in cc

  -- Writing the backup copy leaves the master copy.
  master_kept :
      (i : OtaInfo) (s : nor.State)
      → read_info nor master (write_info nor backup i s) ≡ read_info nor master s
  unfolding read_info
  master_kept i s = ap info_of_bytes (
      nor.read_lem 0 68 (write_info nor backup i s) (omega arith)
      ∙ window_ext _ _ 0 68
          (λ a p q. write_info_outside nor backup i s a (master_apart a (omega arith)))
      ∙ sym (nor.read_lem 0 68 s (omega arith)))

  -- The erased page is in front of the application.
  meta_apart : (i : ℕ) → iap_addr_app_start ≤ i → i / 512 ≢ iap_addr_factory_meta / 512
  meta_apart i h = omega arith

  erase_meta_lem :
      (b c : Board nor rom) (n : ℕ)
      → erase_meta crc nor rom b ≡ some c
      → (c.flash ≡ b.flash)
        × (c.ota_info ≡ b.ota_info)
        × (window (rom.byte_at c.chip) iap_addr_app_start n
            ≡ window (rom.byte_at b.chip) iap_addr_app_start n)
  unfolding erase_meta
  erase_meta_lem b c n h =
      let done = rom.erase_page_check iap_addr_factory_meta b.chip in
      let k = passed done.0 (some (record b { chip = done.1 })) h in
      let kept : window (rom.byte_at done.1) iap_addr_app_start n
          ≡ window (rom.byte_at b.chip) iap_addr_app_start n =
        window_ext _ _ iap_addr_app_start n (λ i p q.
          rom.erase_outside iap_addr_factory_meta i b.chip (omega arith) (meta_apart i p)) in
      let eq : record b { chip = done.1 } ≡ c = cc in
      subst
        (λ m.
          (m.flash ≡ b.flash)
          × (m.ota_info ≡ b.ota_info)
          × (window (rom.byte_at m.chip) iap_addr_app_start n
              ≡ window (rom.byte_at b.chip) iap_addr_app_start n))
        eq (refl, refl, kept)

  -- What the install step leaves: both copies hold the new record, the image is where it was.
  pub record Recorded (meta : AppInfo) (b : Board nor rom) (s : nor.State) (c : Board nor rom)
      : Type 0 where
    pub info :
        c.ota_info
        ≡ factory_info crc nor rom meta (read_info nor (findout_which_ota_info_is_older nor s) s)
    pub copies : c.flash ≡ write_info nor backup c.ota_info (write_info nor master c.ota_info s)
    pub chip :
        (n : ℕ)
        → window (rom.byte_at c.chip) iap_addr_app_start n
          ≡ window (rom.byte_at b.chip) iap_addr_app_start n

  install_record_lem :
      (meta : AppInfo) (b : Board nor rom) (s : nor.State) (c : Board nor rom)
      → install_record crc nor rom meta b s ≡ some c
      → Recorded meta b s c
  unfolding install_record
  install_record_lem meta b s c h =
      let id = findout_which_ota_info_is_older nor s in
      let i = factory_info crc nor rom meta (read_info nor id s) in
      let (s1, e1, h1) = >>=-eq-some (write_verified crc nor rom master i s) _ h in
      let (s2, e2, h2) = >>=-eq-some (write_verified crc nor rom backup i s1) _ h1 in
      let w1 = write_verified_lem master i s s1 e1 in
      let w2 = write_verified_lem backup i s1 s2 e2 in
      let after =
        λ (n : ℕ). erase_meta_lem (record b { ota_info = i; flash = s2; otaid = flip id }) c n h2 in
      record {
        info = (after 0).1;
        copies =
            (after 0).0
            ∙ sym w2
            ∙ ap (write_info nor backup i) (sym w1)
            ∙ ap (λ j. write_info nor backup j (write_info nor master j s)) (sym (after 0).1);
        chip = λ n. (after n).2;
      }

  check_lem :
      (r : rom.State)
      → check_onchip_factory_metadata crc nor rom r ≡ true
      → (0 < (read_meta crc nor rom r).size)
        × ((read_meta crc nor rom r).size ≤ app_max_size)
        × (crc_of crc (window (rom.byte_at r) iap_addr_app_start (read_meta crc nor rom r).size)
            ≡ (read_meta crc nor rom r).crc)
  unfolding check_onchip_factory_metadata
  check_lem r h =
      let meta = read_meta crc nor rom r in
      let sum = crc.finalize (sum_chip crc nor rom meta.size iap_addr_app_start crc.init r) in
      let v = valid_meta (meta.size == 0 || ltb app_max_size meta.size) (sum == meta.crc) h in
      let sizes : (0 < meta.size) × (meta.size ≤ app_max_size) = ground (arith, v.0) in
      let same : sum ≡ meta.crc = ground (arith, v.1) in
      (
        sizes.0,
        sizes.1,
        ap crc.finalize
              (sym (sum_chip_lem meta.size iap_addr_app_start crc.init r (omega (arith, sizes.1))))
            ∙ same,
      )

  -- The factory image is installed: the slot of the external flash holds it whole, it is what the
  -- on-chip flash holds, and both copies of the update record name it.
  pub record Installed (c : Board nor rom) : Type 0 where
    pub current : c.ota_info.current_app ≡ flash_app_id_factory
    pub image : Complete crc nor rom flash_app_id_factory c
    pub same : Programmed crc nor rom flash_app_id_factory c
    pub master_copy : read_info nor master c.flash ≡ c.ota_info
    pub backup_copy : read_info nor backup c.flash ≡ c.ota_info

  verified :
      (size : ℕ) (r : rom.State) (s : nor.State)
      → size ≤ app_max_size
      → verify_blocks crc nor rom (blocks 128 size) iap_addr_app_start norflash_factory_app_addr r s
        ≡ true
      → window (rom.byte_at r) iap_addr_app_start size
        ≡ window (nor.byte_at s) norflash_factory_app_addr size
  verified size r s h e =
      let t = total-blocks_in size 128 size (omega arith) (omega arith) in
      subst
        (λ m.
          window (rom.byte_at r) iap_addr_app_start m
          ≡ window (nor.byte_at s) norflash_factory_app_addr m)
        t
        (verify_blocks_lem (blocks 128 size) iap_addr_app_start norflash_factory_app_addr r s
          (omega (arith, t)) (omega (arith, t)) e)

  installed :
      (meta : AppInfo) (b c : Board nor rom) (s : nor.State)
      → (0 < meta.size)
        × (meta.size ≤ app_max_size)
        × (crc_of crc (window (rom.byte_at b.chip) iap_addr_app_start meta.size) ≡ meta.crc)
      → window (rom.byte_at b.chip) iap_addr_app_start meta.size
        ≡ window (nor.byte_at s) norflash_factory_app_addr meta.size
      → Recorded meta b s c
      → IsOtaInfo c.ota_info
      → Installed c
  installed meta b c s check same r v =
      let n = meta.size in
      let fm : c.ota_info.factory ≡ meta = ap (λ i. i.factory) r.info in
      let slot : window (nor.byte_at c.flash) norflash_factory_app_addr n
          ≡ window (nor.byte_at s) norflash_factory_app_addr n =
        ap (λ f. window (nor.byte_at f) norflash_factory_app_addr n) r.copies
        ∙ image_kept crc nor rom backup c.ota_info (write_info nor master c.ota_info s)
            flash_app_id_factory n
        ∙ image_kept crc nor rom master c.ota_info s flash_app_id_factory n in
      record {
        current = ap (λ i. i.current_app) r.info;
        image =
            subst
              (λ (a : AppInfo).
                (0 < a.size)
                × (a.size ≤ app_max_size)
                × (crc_of crc (window (nor.byte_at c.flash) norflash_factory_app_addr a.size)
                    ≡ a.crc))
              (sym fm) (check.0, check.1, ap (crc_of crc) (slot ∙ sym same) ∙ check.2);
        same =
            subst
              (λ (a : AppInfo).
                window (rom.byte_at c.chip) iap_addr_app_start a.size
                ≡ window (nor.byte_at c.flash) norflash_factory_app_addr a.size)
              (sym fm) (r.chip n ∙ same ∙ sym slot);
        master_copy =
            ap (read_info nor master) r.copies
            ∙ master_kept c.ota_info (write_info nor master c.ota_info s)
            ∙ read_info-write_info nor master c.ota_info s v;
        backup_copy =
            ap (read_info nor backup) r.copies
            ∙ read_info-write_info nor backup c.ota_info (write_info nor master c.ota_info s) v;
      }

  -- A board whose metadata page describes the on-chip application, size and check sum, and on which
  -- the copy does not end in a reset; every field of the new record has a value of its type.
  -- Then the factory slot holds the on-chip application whole and with the recorded check
  -- sum, both are the same bytes, and both copies of the update record are the record in memory,
  -- which names the factory application.
  pub copy_onchip-Installed :
      (b c : Board nor rom)
      → check_onchip_factory_metadata crc nor rom b.chip ≡ true
      → copy_onchip_factory_app_to_norflash crc nor rom (read_meta crc nor rom b.chip) b ≡ some c
      → IsOtaInfo c.ota_info
      → Installed c
  unfolding copy_onchip_factory_app_to_norflash
  copy_onchip-Installed b c m h v =
      let meta = read_meta crc nor rom b.chip in
      let s = copy_image crc nor rom meta.size b.chip b.flash in
      let k = passed _ (install_record crc nor rom meta b s) h in
      installed meta b c s (check_lem b.chip m)
        (verified meta.size b.chip s (check_lem b.chip m).1 k.0) (install_record_lem meta b s c k.1)
        v
