-- ===== src/Command/Program.antt =====
-- Programming the external flash by a command (isp_handle of bootloader/src/main.c).
use stc_isp_demo.Prelude.{
  ℕ, ◌+◌, ◌≤◌, ◌<◌, ◌≡◌, ◌∙◌, refl, sym, ap, subst, arith, Bool, true, false, List, ◌++◌, Option,
  none, some, length, take, drop, length-take, length-drop, leb, Bool-cases, inl, inr,
  if◌then◌else◌,
}
use stc_isp_demo.Command.{
  cmd, size, dat_addr, echo, limited, bytes_at, ChipInfo, fault, reply, program_w25q, handle_w25q,
  isp_handle,
}
use stc_isp_demo.Device.Crc.{Crc32}
use stc_isp_demo.Device.Memory.{window, AllBytes}
use stc_isp_demo.Device.Nor.{Nor, nor_size}
use stc_isp_demo.Device.Rom.{Rom}
use stc_isp_demo.Device.WriteThrough.{norflash_write_no_check, norflash_write_no_check_lem}

length-bytes_at : (o n : ℕ) (rx bs : List ℕ) → bytes_at o n rx ≡ some bs → length bs ≡ n
length-bytes_at o n rx bs h = elim (Bool-cases (leb (o + n) (length rx))) [
  | inl e ↦
      let t : take n (drop o rx) ≡ bs = inside e in
      let k : o + n ≤ length rx = ground (arith, e) in
      ap length (sym t) ∙ length-take n (drop o rx) (omega (arith, length-drop o rx))
  | inr e ↦ outside e
]
  where
    taken : Bool → Option (List ℕ)
    taken t = if t then some (take n (drop o rx)) else none

    inside : leb (o + n) (length rx) ≡ true → take n (drop o rx) ≡ bs
    inside e =
        let k : some (take n (drop o rx)) ≡ some bs = subst (λ t. taken t ≡ some bs) e h in cc

    outside : leb (o + n) (length rx) ≡ false → length bs ≡ n
    outside e = let k : none ≡ some bs = subst (λ t. taken t ≡ some bs) e h in cc

module _ (crc : Crc32) (nor : Nor) (rom : Rom) (erase_chip : nor.State → nor.State)
    (info : ChipInfo) where
  program_reached :
      (rx : List ℕ) (s : nor.State) (r : rom.State)
      → cmd rx ≡ 0xB6
      → isp_handle crc nor rom erase_chip info rx s r
        ≡ program_w25q crc nor rom erase_chip info rx s r
  unfolding isp_handle handle_w25q
  program_reached rx s r h = rw h refl

  programmed :
      (rx bs : List ℕ) (s : nor.State) (r : rom.State)
      → bytes_at 12 (limited (size rx)) rx ≡ some bs
      → program_w25q crc nor rom erase_chip info rx s r
        ≡ reply 0x88
            (echo rx
              ++ nor.read
                  (dat_addr rx)
                  (limited (size rx))
                  (norflash_write_no_check nor (dat_addr rx) bs s))
            (norflash_write_no_check nor (dat_addr rx) bs s)
            r
  programmed rx bs s r e =
      ap {A = Option (List ℕ)}
        (λ o. elim o [
          | none ↦ fault
          | some xs ↦
              reply 0x88
                (echo rx
                  ++ nor.read (dat_addr rx) (limited (size rx))
                      (norflash_write_no_check nor (dat_addr rx) xs s))
                (norflash_write_no_check nor (dat_addr rx) xs s) r
        ])
        e

  -- The command PROGRAM_W25Q with `bs` as the bytes to program, at most 128 of them, at blank
  -- addresses of the external flash: they are stored, wherever the page ends fall, and the reply
  -- holds the address and these bytes as they are read back.
  pub isp_handle_program_w25q :
      (rx bs : List ℕ) (s : nor.State) (r : rom.State)
      → cmd rx ≡ 0xB6
      → bytes_at 12 (limited (size rx)) rx ≡ some bs
      → AllBytes bs
      → dat_addr rx + length bs ≤ nor_size
      → ((i : ℕ) → dat_addr rx ≤ i → i < dat_addr rx + length bs → nor.byte_at s i ≡ 255)
      → (isp_handle crc nor rom erase_chip info rx s r
          ≡ reply 0x88 (echo rx ++ bs) (norflash_write_no_check nor (dat_addr rx) bs s) r)
        × (window
              (nor.byte_at (norflash_write_no_check nor (dat_addr rx) bs s))
              (dat_addr rx)
              (length bs)
            ≡ bs)
  isp_handle_program_w25q rx bs s r h e v room blank =
      let s' = norflash_write_no_check nor (dat_addr rx) bs s in
      let stored = (norflash_write_no_check_lem nor (dat_addr rx) bs s room v blank).0 in
      let back : nor.read (dat_addr rx) (limited (size rx)) s' ≡ bs =
        subst (λ m. nor.read (dat_addr rx) m s' ≡ bs)
          (length-bytes_at 12 (limited (size rx)) rx bs e)
          (nor.read_lem (dat_addr rx) (length bs) s' room ∙ stored) in
      (
        program_reached rx s r h
            ∙ programmed rx bs s r e
            ∙ ap (λ xs. reply 0x88 (echo rx ++ xs) s' r) back,
        stored,
      )
