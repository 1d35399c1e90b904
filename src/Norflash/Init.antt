-- ===== src/Norflash/Init.antt =====
-- norflash_init of common/bsp/norflash.c finds the chip and its address mode.
use stc_isp_demo.Prelude.{
  ℕ, ◌+◌, ◌*◌, ◌/◌, ◌%◌, ◌≡◌, ◌∙◌, refl, sym, ap, arith, true, false, [], ◌∷◌, ◌==◌, Bool-cases,
  inl, inr, get_or, ==_iff,
}
use stc_isp_demo.Device.Spi.{SpiPort, query, command}
use stc_isp_demo.Device.W25q.{W25q}
use stc_isp_demo.Norflash.{
  nft_w25q256, is_known_norflash_type, norflash_read_sr, norflash_write_sr, norflash_enable_write,
  norflash_powerup, norflash_read_id, enable_4byte_addr, check_type, norflash_init, with_adp,
  send_command,
}
use stc_isp_demo.Norflash.Ready.{Ready, norflash_enable_write_lem}
use stc_isp_demo.Norflash.Implements.{Suits}

module _ {port : SpiPort} (chip : W25q port) where
  open chip use {busy, byte_at, latch, wide}

  Ready-trans : (s s' s'' : port.State) → Ready chip s s' → Ready chip s' s'' → Ready chip s s''
  Ready-trans s s' s'' p q = record {
    free = q.free;
    bytes = q.bytes ∙ p.bytes;
    mode = q.mode ∙ p.mode;
  }

  norflash_powerup-Ready : (s : port.State) → busy s ≡ 0 → Ready chip s (norflash_powerup port s)
  unfolding norflash_powerup
  norflash_powerup-Ready s z =
      let (b, m, w) = chip.release s z in
      let (b', m', w') = chip.delay 20 (command port (0xAB ∷ []) s) (omega arith) in
      record { free = b'; bytes = m' ∙ m; mode = w' ∙ w }

  norflash_read_id_lem :
      (s : port.State)
      → busy s ≡ 0
      → ((norflash_read_id port s).1 ≡ chip.id) × Ready chip s (norflash_read_id port s).2
  unfolding norflash_read_id
  norflash_read_id_lem s z =
      let (e, b, m, w) = chip.read_device_id s z in
      let q = (query port (0x90 ∷ 0 ∷ 0 ∷ 0 ∷ []) 2 s).0 in
      let same : get_or q 0 0 * 256 + get_or q 1 0 ≡ chip.id / 256 * 256 + chip.id % 256 =
        ap (λ l. get_or l 0 0 * 256 + get_or l 1 0) e in
      (same ∙ omega arith, record { free = b; bytes = m; mode = w })

  made_wide :
      (v : ℕ) (s : port.State)
      → busy s ≡ 0
      → chip.id ≡ nft_w25q256
      → let s' =
          send_command port 0xB7
            (port.delay_ms 20 (norflash_write_sr port 3 v (norflash_enable_write port s))) in
        (busy s' ≡ 0) × (byte_at s' ≡ byte_at s) × (wide s' ≡ true)
  unfolding norflash_write_sr
  made_wide v s z k =
      let s1 = norflash_enable_write port s in
      let (r, _) = norflash_enable_write_lem chip s z in
      let (q, l) = norflash_enable_write_lem chip s1 r.free in
      let s2 = norflash_enable_write port s1 in
      let (m, _) = chip.write_status3 v s2 q.free l in
      let (b, n, _) = chip.delay 20 (command port (0x11 ∷ v ∷ []) s2) (omega arith) in
      let s3 = port.delay_ms 20 (command port (0x11 ∷ v ∷ []) s2) in
      let (b', n', w) = chip.enter_wide s3 b k in (b', n' ∙ n ∙ m ∙ q.bytes ∙ r.bytes, w)

  -- A chip that has the wide mode is in it afterwards.
  enable_4byte_addr_lem :
      (s : port.State)
      → busy s ≡ 0
      → chip.id ≡ nft_w25q256
      → (busy (enable_4byte_addr port s) ≡ 0)
        × (byte_at (enable_4byte_addr port s) ≡ byte_at s)
        × (wide (enable_4byte_addr port s) ≡ true)
  unfolding enable_4byte_addr norflash_read_sr norflash_write_sr
  enable_4byte_addr_lem s z k =
      let ((b, e, narrow, broad), y, m, w) = chip.status3 s z in
      let read : get_or (query port (0x15 ∷ []) 1 s).0 0 0 ≡ b = ap (λ l. get_or l 0 0) e in
      elim (Bool-cases (wide s)) [
        | inl v ↦
            let odd : (get_or (query port (0x15 ∷ []) 1 s).0 0 0 % 2 == 0) ≡ false =
              rw (read, broad v) refl in
            rw odd (y, m, w ∙ v)
        | inr v ↦
            let even : (get_or (query port (0x15 ∷ []) 1 s).0 0 0 % 2 == 0) ≡ true =
              rw (read, narrow v) refl in
            let s' = (query port (0x15 ∷ []) 1 s).1 in
            let (b', n, t) = made_wide (with_adp (norflash_read_sr port 3 s).0) s' y k in
            rw even (b', n ∙ m, t)
      ]

  check_type_lem :
      (s : port.State)
      → busy s ≡ 0
      → ((check_type port chip.id s).0 ≡ is_known_norflash_type chip.id)
        × (busy (check_type port chip.id s).1 ≡ 0)
        × (byte_at (check_type port chip.id s).1 ≡ byte_at s)
        × (is_known_norflash_type chip.id ≡ true → Suits chip chip.id (check_type port chip.id s).1)
  unfolding check_type
  check_type_lem s z = elim (Bool-cases (is_known_norflash_type chip.id)) [
    | inr u ↦ rw u (refl, z, refl, λ h. cc)
    | inl u ↦ elim (Bool-cases (chip.id == nft_w25q256)) [
      | inl e ↦
          let (b, m, w) = enable_4byte_addr_lem s z ((==_iff _ _).0 e) in
          rw (u, e) (refl, b, m, λ h. sym w)
      | inr e ↦ rw (u, e) (refl, z, refl, λ h. sym (chip.wide_only s (λ k. ground (arith, e, k))))
    ]
  ]

  -- The start of a chip that is ready: `norflash_init` finds its type, succeeds exactly if the type
  -- is known, and then the chip takes addresses of the width that the driver sends to that type.
  -- The stored bytes stay, and the chip is ready.
  pub norflash_init_lem :
      (s : port.State)
      → busy s ≡ 0
      → let r = norflash_init port s in
        (r.0 ≡ is_known_norflash_type chip.id)
        × (r.1 ≡ chip.id)
        × (busy r.2 ≡ 0)
        × (byte_at r.2 ≡ byte_at s)
        × (r.0 ≡ true → Suits chip r.1 r.2)
  unfolding norflash_init
  norflash_init_lem s z =
      let p = norflash_powerup-Ready s z in
      let s1 = norflash_powerup port s in
      let (i, r) = norflash_read_id_lem s1 p.free in
      let (a, b, m, w) = check_type_lem (norflash_read_id port s1).2 r.free in
      rw i (a, refl, b, m ∙ r.bytes ∙ p.bytes, λ h. w (sym a ∙ h))
