-- ===== src/OtaClient/Erase.antt =====
-- From the announcement of a new application to the first block: app/src/ota.c erases the slot,
-- one sector for each call of `ota_run`, and starts the download.
use stc_isp_demo.Prelude.{
  ℕ, zero, suc, ◌+◌, ◌-◌, ◌*◌, ◌/◌, ◌%◌, ◌≤◌, ◌<◌, ◌≡◌, ◌⊎◌, inl, inr, refl, sym, ◌∙◌, subst, arith,
  lt→ltb, dec_lt,
}
use stc_isp_demo.Layout.{app_max_size, norflash_app1_addr, norflash_app2_addr}
use stc_isp_demo.Device.Crc.{Crc32}
use stc_isp_demo.Device.Nor.{Nor, nor_size, norflash_sector_size}
use stc_isp_demo.OtaInfo.{DownloadCtx, OtaInfo, dl_erasing, dl_downloading}
use stc_isp_demo.OtaInfo.Codec.{write_info_outside}
use stc_isp_demo.OtaClient.{
  Slot, factory, app1, app2, slot_info, preparing, erasing, downloading, Client, u32, target,
  prepare, erase, begin_download, request_next_block, ota_run, run_in,
}
use stc_isp_demo.OtaClient.Download.{Downloads}
use stc_isp_demo.OtaClient.Apply.{slot_apart}

-- The image records do not change with the sequence number and the download context.
pub target_seq :
    (p : Slot) (i : OtaInfo) (n : ℕ) (d : DownloadCtx)
    → slot_info p (record i { seq = n; dlctx = d }) ≡ slot_info p i
target_seq factory i n d = refl
target_seq app1 i n d = refl
target_seq app2 i n d = refl

-- The end of the range to erase, for an image that fits: whole sectors that cover the image.
round_up :
    (a size : ℕ)
    → (a ≡ norflash_app1_addr) ⊎ (a ≡ norflash_app2_addr)
    → size ≤ app_max_size
    → (a + norflash_sector_size * ((size + 4095) / 4096)
        ≡ u32 (a + u32 (size + norflash_sector_size - 1))
          / norflash_sector_size
          * norflash_sector_size)
      × (a + size
          ≤ u32 (a + u32 (size + norflash_sector_size - 1))
            / norflash_sector_size
            * norflash_sector_size)
      × (u32 (a + u32 (size + norflash_sector_size - 1))
            / norflash_sector_size
            * norflash_sector_size
          < a + 65536)
      × (a % norflash_sector_size ≡ 0)
round_up a size (inl e) h = omega arith
round_up a size (inr e) h = omega arith

-- The next sector does not wrap round the address space.
next_sector :
    (a b : ℕ)
    → (a ≡ norflash_app1_addr) ⊎ (a ≡ norflash_app2_addr)
    → b < a + 65536
    → u32 (b + norflash_sector_size) ≡ b + norflash_sector_size
next_sector a b (inl e) h = omega arith
next_sector a b (inr e) h = omega arith

erase_room :
    (a b : ℕ) → (a ≡ norflash_app1_addr) ⊎ (a ≡ norflash_app2_addr) → b < a + 65536 → b < nor_size
erase_room a b (inl e) h = omega arith
erase_room a b (inr e) h = omega arith

module _ {nor : Nor} (crc : Crc32) where
  -- An image of size `size` can be stored from `a` on.
  pub record FitsSlot (c : Client nor) : Type 0 where
    pub in_slot : (c.flash_addr ≡ norflash_app1_addr) ⊎ (c.flash_addr ≡ norflash_app2_addr)
    pub some_bytes : 0 < (target c).size
    pub bounded : (target c).size ≤ app_max_size

  -- The bytes from the start of the slot up to `e` are blank.
  abbrev pub BlankTo : ℕ → Client nor → Type 0
  BlankTo e c = (i : ℕ) → c.flash_addr ≤ i → i < e → nor.byte_at c.flash i ≡ 255

  -- `j` sectors are left to erase.
  pub record Erases (j : ℕ) (c : Client nor) : Type 0 where
    pub state : c.ota_state ≡ erasing
    pub fits : FitsSlot c
    pub left : c.addr + norflash_sector_size * j ≡ c.erase_size
    pub covers : c.flash_addr + (target c).size ≤ c.erase_size
    pub short : c.erase_size < c.flash_addr + 65536
    pub aligned : c.addr % norflash_sector_size ≡ 0
    pub from_start : c.flash_addr ≤ c.addr
    pub blank : BlankTo c.addr c

  -- The download has begun, at a slot that is blank where the image goes.
  pub record Begun (c : Client nor) : Type 0 where
    pub state : c.ota_state ≡ downloading
    pub downloads : Downloads crc c
    pub nothing_yet : c.ota_info.dlctx.received ≡ 0
    pub blank : BlankTo (c.flash_addr + (target c).size) c

  abbrev pub sectors : Client nor → ℕ
  sectors c = ((target c).size + 4095) / 4096

  pub prepare-Erases : (c : Client nor) → FitsSlot c → Erases (sectors c) (prepare c)
  unfolding prepare
  prepare-Erases c f =
      let i = c.ota_info in
      let d = record i.dlctx { state = dl_erasing; received = 0; crc = 0 } in
      let same = target_seq c.pappu i (u32 (i.seq + 1)) d in
      let (whole, covered, near, start) =
        round_up c.flash_addr (target c).size f.in_slot f.bounded in
      record {
        state = refl;
        fits = record {
          in_slot = f.in_slot;
          some_bytes = rw same f.some_bytes;
          bounded = rw same f.bounded;
        };
        left = whole;
        covers = rw same covered;
        short = near;
        aligned = start;
        from_start = omega arith;
        blank = λ i h k. absurd (omega arith);
      }

  erased :
      (j : ℕ) (c : Client nor)
      → Erases (suc j) c
      → (i : ℕ) → c.flash_addr ≤ i
      → i < c.addr + norflash_sector_size
      → nor.byte_at (nor.erase_sector c.addr c.flash) i ≡ 255
  erased j c e i h k = elim (dec_lt i c.addr) [
    | yes p ↦
        nor.erase_sector_outside c.addr i c.flash
          (erase_room c.flash_addr c.addr e.fits.in_slot (omega (arith, e.left, e.short)))
          (omega (arith, e.aligned))
        ∙ e.blank i h p
    | no p ↦
        nor.erase_sector_inside c.addr i c.flash
          (erase_room c.flash_addr c.addr e.fits.in_slot (omega (arith, e.left, e.short)))
          (omega (arith, e.aligned))
  ]

  pub erase-Erases : (j : ℕ) (c : Client nor) → Erases (suc j) c → Erases j (erase crc c)
  unfolding erase
  erase-Erases j c e =
      let wraps_not =
        next_sector c.flash_addr c.addr e.fits.in_slot (omega (arith, e.left, e.short)) in
      rw (lt→ltb c.addr c.erase_size (omega (arith, e.left))) (
        rw wraps_not (record {
          state = e.state;
          fits = record {
            in_slot = e.fits.in_slot;
            some_bytes = e.fits.some_bytes;
            bounded = e.fits.bounded;
          };
          left = omega (arith, e.left);
          covers = e.covers;
          short = e.short;
          aligned = omega (arith, e.aligned);
          from_start = omega (arith, e.from_start);
          blank = λ i h k. erased j c e i h k;
        }))

  begin_download-Begun : (c : Client nor) → Erases 0 c → Begun (begin_download crc c)
  unfolding begin_download request_next_block
  begin_download-Begun c e =
      let i = c.ota_info in
      let d = record i.dlctx { state = dl_downloading; received = 0; crc = crc.init } in
      let same = target_seq c.pappu i (u32 (i.seq + 1)) d in
      let info = record i { seq = u32 (i.seq + 1); dlctx = d } in
      record {
        state = refl;
        downloads = record {
          in_slot = e.fits.in_slot;
          unfinished = rw same e.fits.some_bytes;
          bounded = rw same e.fits.bounded;
          summed = sym (crc.update-nil crc.init);
        };
        nothing_yet = refl;
        blank = λ j h k.
            write_info_outside nor c.otaid info c.flash j
              (slot_apart c.otaid c.flash_addr j e.fits.in_slot h)
            ∙ e.blank j h (omega (arith, e.left, e.covers, rw same at k));
      }

  -- `n` calls of `ota_run`
  unfoldable pub runs : ℕ → Client nor → Client nor
  runs zero c = c
  runs (suc n) c = runs n (ota_run crc c)

  pub ota_run-preparing : (c : Client nor) → c.ota_state ≡ preparing → ota_run crc c ≡ prepare c
  unfolding ota_run
  ota_run-preparing c e = subst (λ s. run_in crc s c ≡ prepare c) (sym e) refl

  pub ota_run-erasing : (c : Client nor) → c.ota_state ≡ erasing → ota_run crc c ≡ erase crc c
  unfolding ota_run
  ota_run-erasing c e = subst (λ s. run_in crc s c ≡ erase crc c) (sym e) refl

  pub erase_last : (c : Client nor) → Erases 0 c → erase crc c ≡ begin_download crc c
  unfolding erase
  erase_last c e = ground (arith, e.left)

  runs-Begun : (j : ℕ) (c : Client nor) → Erases j c → Begun (runs (suc j) c)
  unfolding runs
  runs-Begun zero c e = rw (ota_run-erasing c e.state, erase_last c e) (begin_download-Begun c e)
  runs-Begun (suc j) c e =
      rw (ota_run-erasing c e.state) (runs-Begun j (erase crc c) (erase-Erases j c e))

  -- A client that prepares an image that fits its slot needs one call of `ota_run` for each sector
  -- of the image, and two more, to be downloading: the count and the sum are those of an empty
  -- download, and every byte of the slot that the image will
  -- take is blank.
  pub erase_completes :
      (c : Client nor) → c.ota_state ≡ preparing → FitsSlot c → Begun (runs (sectors c + 2) c)
  unfolding runs
  erase_completes c e f =
      let two : sectors c + 2 ≡ suc (suc (sectors c)) = omega arith in
      rw two (
        subst (λ m. Begun (runs (suc (sectors c)) m)) (sym (ota_run-preparing c e))
          (runs-Begun (sectors c) (prepare c) (prepare-Erases c f)))
