-- ===== src/Boot/Load.antt =====
-- What try_load_flash_app of bootloader/src/main.c promises when it reports an image as loaded.
use stc_isp_demo.Prelude.{
  ◌+◌, ℕ, ◌≤◌, ◌<◌, ◌≡◌, ◌⊎◌, ◌∙◌, inl, inr, refl, sym, subst, arith, Bool, true, false, not, ◌||◌,
  ◌==◌, Bool-cases, ltb, if◌then◌else◌,
}
use stc_isp_demo.Boot.{
  Board, blocks, app_of, sum_blocks, compare_blocks, need_copy, copy_to_chip, erase_pages,
  program_blocks, try_load_flash_app, app_pages, fail_times_max,
}
use stc_isp_demo.Boot.Guards.{guards, chain_kept, chain_all, chain_done, kept}
use stc_isp_demo.Boot.Blocks.{
  total, total-blocks_in, sum_blocks_lem, compare_blocks_lem, program_blocks_lem,
}
use stc_isp_demo.Device.Crc.{Crc32, crc_of}
use stc_isp_demo.Device.Memory.{window}
use stc_isp_demo.Device.Nor.{Nor, nor_size, norflash_page_size}
use stc_isp_demo.Device.Rom.{Rom, rom_size}
use stc_isp_demo.Layout.{app_max_size, get_norflash_app_addr, iap_addr_app_start}
use stc_isp_demo.OtaInfo.{AppInfo}

-- An image that fits the on-chip flash fits every slot of the external one.
image_room : (appid n : ℕ) → n ≤ app_max_size → get_norflash_app_addr appid + n ≤ nor_size
image_room appid n h = ground arith

module _ (crc : Crc32) (nor : Nor) (rom : Rom) where
  -- The image of `appid` in the external flash is complete.
  abbrev pub Complete : ℕ → Board nor rom → Type 0
  Complete appid b =
      (0 < (app_of appid b.ota_info).size)
      × ((app_of appid b.ota_info).size ≤ app_max_size)
      × (crc_of crc (
            window (nor.byte_at b.flash) (get_norflash_app_addr appid)
              (app_of appid b.ota_info).size)
          ≡ (app_of appid b.ota_info).crc)

  -- The on-chip application is the image of `appid`.
  abbrev pub Programmed : ℕ → Board nor rom → Type 0
  Programmed appid b =
      window (rom.byte_at b.chip) iap_addr_app_start (app_of appid b.ota_info).size
      ≡ window (nor.byte_at b.flash) (get_norflash_app_addr appid) (app_of appid b.ota_info).size

  summed :
      (appid : ℕ) (b : Board nor rom)
      → (app_of appid b.ota_info).size ≤ app_max_size
      → crc.finalize (
          sum_blocks crc nor rom
            (blocks norflash_page_size (app_of appid b.ota_info).size)
            (get_norflash_app_addr appid)
            crc.init
            b.flash)
        ≡ crc_of crc (
            window
              (nor.byte_at b.flash)
              (get_norflash_app_addr appid)
              (app_of appid b.ota_info).size)
  summed appid b h =
      let n = (app_of appid b.ota_info).size in
      let t = total-blocks_in n norflash_page_size n (omega arith) (omega arith) in
      let room : get_norflash_app_addr appid + total (blocks norflash_page_size n) ≤ nor_size =
        subst (λ m. get_norflash_app_addr appid + m ≤ nor_size) (sym t) (image_room appid n h) in
      rw
        (
          sum_blocks_lem crc nor rom (blocks norflash_page_size n) (get_norflash_app_addr appid)
              crc.init b.flash room,
          t,
        )
        refl

  abbrev image_sum : ℕ → Board nor rom → ℕ
  image_sum appid b = crc.finalize (
      sum_blocks crc nor rom (blocks norflash_page_size (app_of appid b.ota_info).size)
        (get_norflash_app_addr appid) crc.init b.flash)

  -- What a load that reports success has tested, and which board it leaves.
  load_cases :
      (appid : ℕ) (b : Board nor rom)
      → (try_load_flash_app crc nor rom appid b).0 ≡ true
      → (((app_of appid b.ota_info).size == 0 || ltb app_max_size (app_of appid b.ota_info).size)
          ≡ false)
        × (not (image_sum appid b == (app_of appid b.ota_info).crc) ≡ false)
        × (((need_copy crc nor rom b (app_of appid b.ota_info) (get_norflash_app_addr appid) ≡ true)
              × ((copy_to_chip crc nor rom b
                    (app_of appid b.ota_info)
                    (get_norflash_app_addr appid)).0
                  ≡ true)
              × (try_load_flash_app crc nor rom appid b
                  ≡ copy_to_chip crc nor rom b
                      (app_of appid b.ota_info)
                      (get_norflash_app_addr appid)))
            ⊎ ((need_copy crc nor rom b (app_of appid b.ota_info) (get_norflash_app_addr appid)
                  ≡ false)
                × (try_load_flash_app crc nor rom appid b ≡ (true, b))))
  unfolding try_load_flash_app
  load_cases appid b h =
      let i = app_of appid b.ota_info in
      guards (i.size == 0 || ltb app_max_size i.size) (not (image_sum appid b == i.crc))
        (need_copy crc nor rom b i (get_norflash_app_addr appid)) b
        (copy_to_chip crc nor rom b i (get_norflash_app_addr appid)) h

  -- A load reports success only for a complete image.
  pub try_load-Complete :
      (appid : ℕ) (b : Board nor rom)
      → (try_load_flash_app crc nor rom appid b).0 ≡ true
      → Complete appid b
  try_load-Complete appid b h =
      let i = app_of appid b.ota_info in
      let g = load_cases appid b h in
      let same : image_sum appid b ≡ i.crc = ground (arith, g.1) in
      let sizes : (0 < i.size) × (i.size ≤ app_max_size) = ground (arith, g.0) in
      (sizes.0, sizes.1, sym (summed appid b sizes.1) ∙ same)

  -- The last step of a copy, by whether the erase succeeded.
  chosen :
      (ok : Bool) (b : Board nor rom) (e : rom.State) (p : Bool × rom.State)
      → (if◌then◌else◌ {A = Bool × Board nor rom} ok
          (p.0, record b { chip = p.1 })
          (false, record b { chip = e })).0
        ≡ true
      → (ok ≡ true) × (p.0 ≡ true)
  chosen true b e p h = (refl, h)
  chosen false b e p h = cc

  -- `copy_to_chip` that succeeds.
  pub copy_to_chip_lem :
      (appid : ℕ) (b : Board nor rom)
      → (app_of appid b.ota_info).size ≤ app_max_size
      → (copy_to_chip crc nor rom b (app_of appid b.ota_info) (get_norflash_app_addr appid)).0
        ≡ true
      → Programmed appid
          (copy_to_chip crc nor rom b (app_of appid b.ota_info) (get_norflash_app_addr appid)).1
  unfolding copy_to_chip
  copy_to_chip_lem appid b sz h =
      let i = app_of appid b.ota_info in
      let fa = get_norflash_app_addr appid in
      let e = erase_pages crc nor rom app_pages fail_times_max iap_addr_app_start b.chip in
      let ls = blocks norflash_page_size i.size in
      let p = program_blocks crc nor rom ls fail_times_max iap_addr_app_start fa b.flash e.1 in
      let done = chosen e.0 b e.1 p h in
      let n : total ls ≡ i.size =
        total-blocks_in i.size norflash_page_size i.size (omega arith) (omega arith) in
      let stored : window (rom.byte_at p.1) iap_addr_app_start i.size
          ≡ window (nor.byte_at b.flash) fa i.size =
        subst
          (λ m. window (rom.byte_at p.1) iap_addr_app_start m ≡ window (nor.byte_at b.flash) fa m) n
          (program_blocks_lem crc nor rom ls fail_times_max iap_addr_app_start fa b.flash e.1
            (subst (λ m. fa + m ≤ nor_size) (sym n) (image_room appid i.size sz))
            (subst (λ m. iap_addr_app_start + m ≤ rom_size) (sym n) (omega arith)) done.1) in
      rw done.0 stored

  -- Without a copy the board stays as it is, and the compare found no difference.
  pub no_copy_lem :
      (appid : ℕ) (b : Board nor rom)
      → (app_of appid b.ota_info).size ≤ app_max_size
      → b.onchip_app_valid ≡ true
      → need_copy crc nor rom b (app_of appid b.ota_info) (get_norflash_app_addr appid) ≡ false
      → Programmed appid b
  unfolding need_copy
  no_copy_lem appid b sz v h =
      let i = app_of appid b.ota_info in
      let fa = get_norflash_app_addr appid in
      let ls = blocks 128 i.size in
      let n : total ls ≡ i.size = total-blocks_in i.size 128 i.size (omega arith) (omega arith) in
      let same =
        kept b.onchip_app_valid
          (compare_blocks crc nor rom ls fa iap_addr_app_start crc.init b.flash b.chip)
          (λ c. not (crc.finalize c == i.crc)) v h in
      subst
        (λ m. window (rom.byte_at b.chip) iap_addr_app_start m ≡ window (nor.byte_at b.flash) fa m)
        n
        (compare_blocks_lem crc nor rom ls fa iap_addr_app_start crc.init same.0 b.flash b.chip
          (subst (λ m. fa + m ≤ nor_size) (sym n) (image_room appid i.size sz))
          (subst (λ m. iap_addr_app_start + m ≤ rom_size) (sym n) (omega arith)) same.1)

  -- Loading an image changes the on-chip flash only.
  abbrev pub SameFlash : Board nor rom → Board nor rom → Type 0
  SameFlash b c =
      (c.flash ≡ b.flash)
      × (c.ota_info ≡ b.ota_info)
      × (c.onchip_app_valid ≡ b.onchip_app_valid)
      × (c.otaid ≡ b.otaid)

  copy_to_chip-SameFlash :
      (b : Board nor rom) (i : AppInfo) (fa : ℕ) → SameFlash b (copy_to_chip crc nor rom b i fa).1
  unfolding copy_to_chip
  copy_to_chip-SameFlash b i fa =
      elim (Bool-cases
        (erase_pages crc nor rom app_pages fail_times_max iap_addr_app_start b.chip).0) [
          | inl e ↦ rw e (refl, refl, refl, refl)
          | inr e ↦ rw e (refl, refl, refl, refl)
        ]

  pub try_load-SameFlash :
      (appid : ℕ) (b : Board nor rom) → SameFlash b (try_load_flash_app crc nor rom appid b).1
  unfolding try_load_flash_app
  try_load-SameFlash appid b =
      let i = app_of appid b.ota_info in
      chain_all (SameFlash b) (i.size == 0 || ltb app_max_size i.size)
        (not (image_sum appid b == i.crc)) (need_copy crc nor rom b i (get_norflash_app_addr appid))
        b (copy_to_chip crc nor rom b i (get_norflash_app_addr appid)) (refl, refl, refl, refl)
        (copy_to_chip-SameFlash b i (get_norflash_app_addr appid))

  try_load-Programmed :
      (appid : ℕ) (b : Board nor rom)
      → b.onchip_app_valid ≡ true
      → (try_load_flash_app crc nor rom appid b).0 ≡ true
      → Programmed appid (try_load_flash_app crc nor rom appid b).1
  try_load-Programmed appid b v h = elim (load_cases appid b h).2 [
    | inl c ↦
        subst (λ r. Programmed appid r.1) (sym c.2)
          (copy_to_chip_lem appid b (try_load-Complete appid b h).1 c.1)
    | inr c ↦
        subst (λ r. Programmed appid r.1) (sym c.1)
          (no_copy_lem appid b (try_load-Complete appid b h).1 v c.0)
  ]

  -- `try_load_flash_app` that reports success on a board whose on-chip application starts like a
  -- valid one: the image of `appid` in the external flash is complete (its size is within
  -- bounds and its check sum is the recorded one), and afterwards the on-chip flash holds
  -- this image byte by byte, copied or found equal.
  pub try_load_flash_app_lem :
      (appid : ℕ) (b : Board nor rom)
      → b.onchip_app_valid ≡ true
      → (try_load_flash_app crc nor rom appid b).0 ≡ true
      → Complete appid b × Programmed appid (try_load_flash_app crc nor rom appid b).1
  try_load_flash_app_lem appid b v h =
      (try_load-Complete appid b h, try_load-Programmed appid b v h)

  -- `try_load_flash_app` on a board without a valid on-chip application changes nothing: also
  -- when it reports the image as loaded, the on-chip flash is what it was.
  pub try_load_flash_app_blank :
      (appid : ℕ) (b : Board nor rom)
      → b.onchip_app_valid ≡ false
      → (try_load_flash_app crc nor rom appid b).1 ≡ b
  unfolding try_load_flash_app need_copy
  try_load_flash_app_blank appid b v =
      let i = app_of appid b.ota_info in
      chain_kept (i.size == 0 || ltb app_max_size i.size) (not (image_sum appid b == i.crc))
        (need_copy crc nor rom b i (get_norflash_app_addr appid)) b
        (copy_to_chip crc nor rom b i (get_norflash_app_addr appid)) (rw v refl)

  -- A complete image is reported as loaded when there is no valid on-chip application.
  pub try_load_flash_app_blank_reports :
      (appid : ℕ) (b : Board nor rom)
      → b.onchip_app_valid ≡ false
      → Complete appid b
      → try_load_flash_app crc nor rom appid b ≡ (true, b)
  unfolding try_load_flash_app need_copy
  try_load_flash_app_blank_reports appid b v h =
      let i = app_of appid b.ota_info in
      let same : image_sum appid b ≡ i.crc = summed appid b h.1 ∙ h.2 in
      let p : (i.size == 0 || ltb app_max_size i.size) ≡ false = ground (arith, h.0, h.1) in
      let q : not (image_sum appid b == i.crc) ≡ false = ground (arith, same) in
      chain_done (i.size == 0 || ltb app_max_size i.size) (not (image_sum appid b == i.crc))
        (need_copy crc nor rom b i (get_norflash_app_addr appid)) b
        (copy_to_chip crc nor rom b i (get_norflash_app_addr appid)) p q (rw v refl)
