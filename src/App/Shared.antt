-- ===== src/App/Shared.antt =====
-- The commands that isp_handle of app/src/main.c shares with the boot loader's.
use stc_isp_demo.Prelude.{ℕ, ◌≡◌, ◌⊎◌, refl, List, Option, none, some, inl, inr}
use stc_isp_demo.Command
use stc_isp_demo.Command.{cmd, bytes_at, limited, size, ChipInfo}
use stc_isp_demo.Device.Crc.{Crc32}
use stc_isp_demo.Device.Nor.{Nor}
use stc_isp_demo.Device.Rom.{Rom}
use stc_isp_demo.OtaClient.{Client}
use stc_isp_demo.App
use stc_isp_demo.App.{Outcome, fault, reset, quiet, reply, with_flash, isp_handle, handle_flash}

module _ (crc : Crc32) (nor : Nor) (rom : Rom) (erase_chip : nor.State → nor.State)
    (info : ChipInfo) where
  -- An outcome of the boot loader, as one of the application: the flash of the client is changed.
  abbrev pub as_app :
      Client nor → Command.Outcome crc nor rom erase_chip info → Outcome crc nor erase_chip info
  as_app c Command.fault = fault
  as_app c Command.reset = reset
  as_app c (Command.reply status dat s r) =
      reply status dat (with_flash crc nor erase_chip info s c)

  -- The commands of both: CONNECT, REBOOT, the chip's identification and version, all commands of
  -- the external flash, and CALC_CRC32.
  abbrev pub Both : ℕ → Type 0
  Both n =
      (n ≡ 0xA0)
      ⊎ (n ≡ 0xA4)
      ⊎ (n ≡ 0xB0)
      ⊎ (n ≡ 0xB1)
      ⊎ (n ≡ 0xB2)
      ⊎ (n ≡ 0xB3)
      ⊎ (n ≡ 0xB4)
      ⊎ (n ≡ 0xB5)
      ⊎ (n ≡ 0xB6)
      ⊎ (n ≡ 0xB9)

  through_bytes :
      (c : Client nor) (o : Option (List ℕ)) (f : List ℕ → Outcome crc nor erase_chip info)
      → (g : List ℕ → Command.Outcome crc nor rom erase_chip info)
      → ((bs : List ℕ) → f bs ≡ as_app c (g bs))
      → elim o [ none ↦ fault | some bs ↦ f bs ]
        ≡ as_app c (elim o [ none ↦ Command.fault | some bs ↦ g bs ])
  through_bytes c none f g h = refl
  through_bytes c (some bs) f g h = h bs

  program_same :
      (rx : List ℕ) (c : Client nor) (r : rom.State)
      → App.program_w25q crc nor erase_chip info rx c
        ≡ as_app c (Command.program_w25q crc nor rom erase_chip info rx c.flash r)
  program_same rx c r = through_bytes c (bytes_at 12 (limited (size rx)) rx) _ _ (λ bs. refl)

  calc_same :
      (rx : List ℕ) (c : Client nor) (r : rom.State)
      → App.calc_crc32 crc nor erase_chip info rx c
        ≡ as_app c (Command.calc_crc32 crc nor rom erase_chip info rx c.flash r)
  calc_same rx c r = through_bytes c (bytes_at 8 (size rx) rx) _ _ (λ bs. refl)

  -- The application and the boot loader, given the same version numbers, answer each command that
  -- both have with the same reply and the same change of the external flash.
  pub isp_handle_same :
      (rx : List ℕ) (c : Client nor) (r : rom.State)
      → Both (cmd rx)
      → isp_handle crc nor erase_chip info rx c
        ≡ as_app c (Command.isp_handle crc nor rom erase_chip info rx c.flash r)
  unfolding isp_handle handle_flash Command.isp_handle Command.handle_w25q
  isp_handle_same rx c r (inl h) = rw h refl
  isp_handle_same rx c r (inr (inl h)) = rw h refl
  isp_handle_same rx c r (inr (inr (inl h))) = rw h refl
  isp_handle_same rx c r (inr (inr (inr (inl h)))) = rw h refl
  isp_handle_same rx c r (inr (inr (inr (inr (inl h))))) = rw h refl
  isp_handle_same rx c r (inr (inr (inr (inr (inr (inl h)))))) = rw h refl
  isp_handle_same rx c r (inr (inr (inr (inr (inr (inr (inl h))))))) = rw h refl
  isp_handle_same rx c r (inr (inr (inr (inr (inr (inr (inr (inl h)))))))) = rw h refl
  isp_handle_same rx c r (inr (inr (inr (inr (inr (inr (inr (inr (inl h))))))))) =
      rw h (program_same rx c r)
  isp_handle_same rx c r (inr (inr (inr (inr (inr (inr (inr (inr (inr h))))))))) =
      rw h (calc_same rx c r)
