-- ===== src/Command/Bounds.antt =====
-- The length of the replies of the boot loader (isp_handle of bootloader/src/main.c).
use stc_isp_demo.Prelude.{
  ℕ, ◌+◌, ◌≤◌, ◌≡◌, ◌≢◌, arith, Bool, true, false, List, Option, none, some, length, ◌==◌, ap, ◌∙◌,
  if◌then◌else◌, ◌%◌,
}
use stc_isp_demo.Command.{
  cmd, addr, size, dat_addr, limited, bytes_at, ChipInfo, Outcome, fault, reset, reply, handle_w25q,
  isp_handle, checked, program, program_w25q, calc_crc32,
}
use stc_isp_demo.Device.Crc.{Crc32}
use stc_isp_demo.Device.Memory.{length-window}
use stc_isp_demo.Device.Nor.{Nor, nor_size}
use stc_isp_demo.Device.Rom.{Rom}
use stc_isp_demo.Device.WriteThrough.{norflash_write_no_check}
use stc_isp_demo.Layout.{iap_addr_app_start}
use stc_isp_demo.Boot.{erase_pages, app_pages}

limited_le : (n : ℕ) → limited n ≤ 128
limited_le n = ground arith

module _ (crc : Crc32) (nor : Nor) (rom : Rom) (erase_chip : nor.State → nor.State)
    (info : ChipInfo) where
  -- A reply of at most `n` bytes, or none.
  abbrev pub Short : ℕ → Outcome crc nor rom erase_chip info → Type 0
  Short n fault = Unit
  Short n reset = Unit
  Short n (reply status dat s r) = length dat ≤ n

  read_le :
      (rx : List ℕ) (s : nor.State)
      → dat_addr rx + 128 ≤ nor_size
      → length (nor.read (dat_addr rx) (limited (size rx)) s) ≤ 128
  read_le rx s h =
      let l = limited_le (size rx) in
      let e : length (nor.read (dat_addr rx) (limited (size rx)) s) ≡ limited (size rx) =
        ap length (nor.read_lem (dat_addr rx) (limited (size rx)) s (omega (arith, l)))
        ∙ length-window (nor.byte_at s) (dat_addr rx) (limited (size rx)) in
      omega (arith, l, e)

  Short-if :
      (t : Bool) (x y : Outcome crc nor rom erase_chip info)
      → Short 132 x
      → Short 132 y
      → Short 132 (if t then x else y)
  Short-if true x y p q = p
  Short-if false x y p q = q

  Short-elim :
      (o : Option (List ℕ)) (f : List ℕ → Outcome crc nor rom erase_chip info)
      → ((bs : List ℕ) → Short 132 (f bs))
      → Short 132 (elim o [ none ↦ fault | some bs ↦ f bs ])
  Short-elim none f h = tt
  Short-elim (some bs) f h = h bs

  checked-Short :
      (failed : ℕ) (s : nor.State) (done : Bool × rom.State)
      → Short 132 (checked crc nor rom erase_chip info failed s done)
  checked-Short failed s done = Short-if done.0 _ _ (omega arith) (omega arith)

  program-Short :
      (rx : List ℕ) (s : nor.State) (r : rom.State)
      → Short 132 (program crc nor rom erase_chip info rx s r)
  program-Short rx s r = Short-elim (bytes_at 8 (size rx) rx) _ (λ bs.
      checked-Short 3 s (rom.write_bytes_check ((iap_addr_app_start + addr rx) % 65536) bs r))

  calc_crc32-Short :
      (rx : List ℕ) (s : nor.State) (r : rom.State)
      → Short 132 (calc_crc32 crc nor rom erase_chip info rx s r)
  calc_crc32-Short rx s r = Short-elim (bytes_at 8 (size rx) rx) _ (λ bs. omega arith)

  program_w25q-Short :
      (rx : List ℕ) (s : nor.State) (r : rom.State)
      → dat_addr rx + 128 ≤ nor_size
      → Short 132 (program_w25q crc nor rom erase_chip info rx s r)
  program_w25q-Short rx s r h =
      Short-elim (bytes_at 12 (limited (size rx)) rx) _
        (λ bs. omega (arith, read_le rx (norflash_write_no_check nor (dat_addr rx) bs s) h))

  handle_w25q-Short :
      (rx : List ℕ) (s : nor.State) (r : rom.State)
      → dat_addr rx + 128 ≤ nor_size
      → Short 132 (handle_w25q crc nor rom erase_chip info rx s r)
  unfolding handle_w25q
  handle_w25q-Short rx s r h = Short-if (cmd rx == 0xB2) _ _ (omega arith) (
      Short-if (cmd rx == 0xB3) _ _ (omega arith) (
        Short-if (cmd rx == 0xB4) _ _ (omega arith) (
          Short-if (cmd rx == 0xB5) _ _ (omega (arith, read_le rx s h)) (
            Short-if (cmd rx == 0xB6) _ _ (program_w25q-Short rx s r h)
              (Short-if (cmd rx == 0xB9) _ _ (calc_crc32-Short rx s r) (omega arith))))))

  -- The reply to any command but READ has at most 132 data bytes, so it fits the reply packet and
  -- can be sent, if the chip's identification does; the address in the packet has 128 bytes of
  -- the external flash behind it.
  pub isp_handle-Short :
      (rx : List ℕ) (s : nor.State) (r : rom.State)
      → cmd rx ≢ 0xA1
      → length info.chip_id ≤ 132
      → dat_addr rx + 128 ≤ nor_size
      → Short 132 (isp_handle crc nor rom erase_chip info rx s r)
  unfolding isp_handle
  isp_handle-Short rx s r n k h =
      let not_read : (cmd rx == 0xA1) ≡ false = ground arith in
      rw not_read (
        Short-if (cmd rx == 0xA0) _ _ (omega arith) (
          Short-if (cmd rx == 0xA2) _ _ (program-Short rx s r) (
            Short-if (cmd rx == 0xA3) _ _
              (checked-Short 3 s (erase_pages crc nor rom app_pages 0 iap_addr_app_start r))
              (Short-if (cmd rx == 0xA5) _ _ (checked-Short 4 s (rom.erase_page_check (addr rx) r))
                (Short-if (cmd rx == 0xA4) _ _ tt (
                  Short-if (cmd rx == 0xB0) _ _ k (
                    Short-if (cmd rx == 0xB1) _ _ (omega arith) (
                      Short-if (cmd rx == 0xB7) _ _ (omega arith)
                        (handle_w25q-Short rx s r h)))))))))
