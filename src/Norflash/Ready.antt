-- ===== src/Norflash/Ready.antt =====
-- norflash_wait_busy of common/bsp/norflash.c ends, and what precedes each command.
use stc_isp_demo.Prelude.{
  ℕ, zero, suc, ◌-◌, ◌%◌, ◌<◌, ◌≡◌, ◌∙◌, refl, ap, arith, true, false, some, ◌==◌, Bool-cases,
  get_or, inl, inr,
}
use stc_isp_demo.Device.Spi.{SpiPort}
use stc_isp_demo.Device.W25q.{W25q}
use stc_isp_demo.Norflash.{norflash_read_sr, norflash_wait_busy, norflash_enable_write}

module _ {port : SpiPort} (chip : W25q port) where
  open chip use {busy, byte_at, latch, wide}

  -- A chip that is ready, with the bytes and the mode of an earlier one.
  pub record Ready (s s' : port.State) : Type 0 where
    pub free : busy s' ≡ 0
    pub bytes : byte_at s' ≡ byte_at s
    pub mode : wide s' ≡ wide s

  -- The chip behind a read of its first status register.
  abbrev polled : port.State → port.State
  polled s = (norflash_read_sr port 1 s).1

  polled_lem :
      (s : port.State)
      → (busy (polled s) ≡ busy s - 1)
        × (byte_at (polled s) ≡ byte_at s)
        × (latch (polled s) ≡ latch s)
        × (wide (polled s) ≡ wide s)
  unfolding norflash_read_sr
  polled_lem s = let l = chip.status1 s in (l.2, l.3, l.4, l.5)

  still_busy : (s : port.State) → 0 < busy s → ((norflash_read_sr port 1 s).0 % 2 == 1) ≡ true
  unfolding norflash_read_sr
  still_busy s h =
      let (b, e, o) = (chip.status1 s).1 h in
      let k : (norflash_read_sr port 1 s).0 ≡ b = ap (λ l. get_or l 0 0) e in rw (k, o) refl

  is_free : (s : port.State) → busy s ≡ 0 → ((norflash_read_sr port 1 s).0 % 2 == 1) ≡ false
  unfolding norflash_read_sr
  is_free s h =
      let (b, e, o) = (chip.status1 s).0 h in
      let k : (norflash_read_sr port 1 s).0 ≡ b = ap (λ l. get_or l 0 0) e in rw (k, o) refl

  -- The loop ends as soon as the chip is ready, and changes nothing else.
  pub norflash_wait_busy_lem :
      (fuel : ℕ) (s : port.State)
      → busy s < fuel
      → (s' : port.State) × (norflash_wait_busy port fuel s ≡ some s')
        × Ready s s'
        × (latch s' ≡ latch s)
  unfolding norflash_wait_busy
  norflash_wait_busy_lem zero s h = absurd (omega arith)
  norflash_wait_busy_lem (suc fuel) s h =
      let (b, m, l, w) = polled_lem s in
      elim (Bool-cases (busy s == 0)) [
        | inl e ↦
            let z : busy s ≡ 0 = ground (arith, e) in
            (
              polled s,
              rw (is_free s z) refl,
              record { free = omega (arith, b, z); bytes = m; mode = w },
              l,
            )
        | inr e ↦
            let p : 0 < busy s = ground (arith, e) in
            let (s', x, r, k) = norflash_wait_busy_lem fuel (polled s) (omega (arith, b, h, p)) in
            (
              s',
              rw (still_busy s p) x,
              record { free = r.free; bytes = r.bytes ∙ m; mode = r.mode ∙ w },
              k ∙ l,
            )
      ]

  -- A chip that is not busy takes the write enable command.
  pub norflash_enable_write_lem :
      (s : port.State)
      → busy s ≡ 0
      → Ready s (norflash_enable_write port s) × (latch (norflash_enable_write port s) ≡ true)
  unfolding norflash_enable_write
  norflash_enable_write_lem s h =
      let (a, b, c, d) = chip.enable s h in (record { free = a; bytes = b; mode = d }, c)
