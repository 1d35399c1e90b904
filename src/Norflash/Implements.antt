-- ===== src/Norflash/Implements.antt =====
-- The functions of common/bsp/norflash.c do what the code above them relies on (Device.Nor), on a
-- chip that is ready and takes addresses of the width that the driver sends.
use stc_isp_demo.Prelude.{
  ℕ, ◌+◌, ◌/◌, ◌%◌, ◌≤◌, ◌<◌, ◌≡◌, ◌≢◌, ◌⊎◌, ◌∙◌, refl, sym, ap, arith, Bool, true, false, List, [],
  ◌∷◌, ◌++◌, some, ◌==◌, if◌then◌else◌, length,
}
use stc_isp_demo.Device.Memory.{window, AllBytes}
use stc_isp_demo.Device.Nor.{FitsPage, nor_size, norflash_sector_size}
use stc_isp_demo.Device.Spi.{SpiPort, command, send_all}
use stc_isp_demo.Device.W25q.{W25q, wire_addr}
use stc_isp_demo.Norflash.{
  nft_w25q256, norflash_wait_busy, norflash_enable_write, norflash_send_addr, norflash_write_page,
  norflash_erase_sector, norflash_erase_chip, norflash_read,
}
use stc_isp_demo.Norflash.Ready.{Ready, norflash_wait_busy_lem, norflash_enable_write_lem}

module _ {port : SpiPort} (chip : W25q port) (t : ℕ) where
  open chip use {busy, byte_at, latch, wide}

  -- The driver sends addresses of the width that the chip takes.
  abbrev pub Suits : port.State → Type 0
  Suits s = (t == nft_w25q256) ≡ wide s

  sent_addr :
      (high : Bool) (a : ℕ) (s : port.State)
      → port.send (a % 256) (
          port.send
            (a / 256 % 256)
            (port.send (a / 65536 % 256) (if high then port.send (a / 16777216 % 256) s else s)))
        ≡ send_all port (wire_addr high a) s
  sent_addr true a s = refl
  sent_addr false a s = refl

  norflash_send_addr_lem :
      (a : ℕ) (high : Bool) (s : port.State)
      → (t == nft_w25q256) ≡ high
      → norflash_send_addr port t a s ≡ send_all port (wire_addr high a) s
  unfolding norflash_send_addr
  norflash_send_addr_lem a high s e =
      sent_addr (t == nft_w25q256) a s ∙ ap (λ h. send_all port (wire_addr h a) s) e

  -- A read of a chip that is ready returns the stored bytes and changes nothing.
  pub norflash_read_lem :
      (a n : ℕ) (s : port.State)
      → busy s ≡ 0
      → Suits s
      → a + n ≤ nor_size
      → ((norflash_read port t a n s).0 ≡ window (byte_at s) a n)
        × Ready chip s (norflash_read port t a n s).1
  unfolding norflash_read
  norflash_read_lem a n s z w h =
      let (d, b, m, o) = chip.read_data a n s z h in
      rw (norflash_send_addr_lem a (wide s) (port.send 0x03 (port.select s)) w)
        (d, record { free = b; bytes = m; mode = o })

  send_all-append :
      (xs ys : List ℕ) (s : port.State)
      → send_all port (xs ++ ys) s ≡ send_all port ys (send_all port xs s)
  send_all-append [] ys s = refl
  send_all-append (x ∷ xs) ys s = send_all-append xs ys (port.send x s)

  -- The chip behind a command, as soon as it is ready again.
  Ready-again :
      (fuel : ℕ) (s : port.State)
      → chip.busy_max < fuel
      → (s' : port.State) × (norflash_wait_busy port fuel s ≡ some s')
        × Ready chip s s'
        × (latch s' ≡ latch s)
  Ready-again fuel s h = norflash_wait_busy_lem chip fuel s (omega (arith, chip.busy_le s, h))

  -- A write inside a page, on a chip that is ready, comes to its end, leaves all other bytes as
  -- they are, and stores its bytes if they were blank. The chip is ready again.
  pub norflash_write_page_lem :
      (fuel a : ℕ) (bs : List ℕ) (s : port.State)
      → chip.busy_max < fuel
      → busy s ≡ 0
      → Suits s
      → FitsPage a bs
      → a + length bs ≤ nor_size
      → (s' : port.State) × (norflash_write_page port fuel t a bs s ≡ some s')
        × (busy s' ≡ 0)
        × Suits s'
        × ((i : ℕ) → (i < a) ⊎ (a + length bs ≤ i) → byte_at s' i ≡ byte_at s i)
        × (AllBytes bs
            → ((i : ℕ) → a ≤ i → i < a + length bs → byte_at s i ≡ 255)
            → window (byte_at s') a (length bs) ≡ bs)
  unfolding norflash_write_page
  norflash_write_page_lem fuel a bs s f z w p h =
      let (r, l) = norflash_enable_write_lem chip s z in
      let s1 = norflash_enable_write port s in
      let (o, i, m) = chip.page_program a bs s1 r.free l p h in
      let s2 = command port (0x02 ∷ (wire_addr (wide s1) a ++ bs)) s1 in
      let (s', e, q, _) = Ready-again fuel s2 f in
      let suits : (t == nft_w25q256) ≡ wide s1 = w ∙ sym r.mode in
      let sent : send_all port bs (norflash_send_addr port t a (port.send 0x02 (port.select s1)))
          ≡ send_all port (wire_addr (wide s1) a ++ bs) (port.send 0x02 (port.select s1)) =
        ap (send_all port bs)
          (norflash_send_addr_lem a (wide s1) (port.send 0x02 (port.select s1)) suits)
        ∙ sym (send_all-append (wire_addr (wide s1) a) bs (port.send 0x02 (port.select s1))) in
      (
        s',
        rw sent e,
        q.free,
        suits ∙ sym m ∙ sym q.mode,
        λ j k. ap (λ g. g j) q.bytes ∙ o j k ∙ ap (λ g. g j) r.bytes,
        λ v b.
            ap (λ g. window g a (length bs)) q.bytes
            ∙ i v (λ j k n. ap (λ g. g j) r.bytes ∙ b j k n),
      )

  -- The erase of a sector, on a chip that is ready, comes to its end, blanks the sector and leaves
  -- the others as they are. The chip is ready again.
  pub norflash_erase_sector_lem :
      (fuel a : ℕ) (s : port.State)
      → chip.busy_max < fuel
      → busy s ≡ 0
      → Suits s
      → a < nor_size
      → (s' : port.State) × (norflash_erase_sector port fuel t a s ≡ some s')
        × (busy s' ≡ 0)
        × Suits s'
        × ((i : ℕ) → i / norflash_sector_size ≡ a / norflash_sector_size → byte_at s' i ≡ 255)
        × ((i : ℕ)
            → i / norflash_sector_size ≢ a / norflash_sector_size
            → byte_at s' i ≡ byte_at s i)
  unfolding norflash_erase_sector
  norflash_erase_sector_lem fuel a s f z w h =
      let (r, l) = norflash_enable_write_lem chip s z in
      let s1 = norflash_enable_write port s in
      let (s2, e2, r2, l2) = Ready-again fuel s1 f in
      let (i, o, m) = chip.sector_erase a s2 r2.free (l2 ∙ l) h in
      let s3 = command port (0x20 ∷ wire_addr (wide s2) a) s2 in
      let (s', e, q, _) = Ready-again fuel s3 f in
      let suits : (t == nft_w25q256) ≡ wide s2 = w ∙ sym r.mode ∙ sym r2.mode in
      let sent = norflash_send_addr_lem a (wide s2) (port.send 0x20 (port.select s2)) suits in
      (
        s',
        rw e2 (rw sent e),
        q.free,
        suits ∙ sym m ∙ sym q.mode,
        λ j k. ap (λ g. g j) q.bytes ∙ i j k,
        λ j k. ap (λ g. g j) q.bytes ∙ o j k ∙ ap (λ g. g j) (r2.bytes ∙ r.bytes),
      )

  -- The erase of a chip that is ready comes to its end, and every byte is blank.
  pub norflash_erase_chip_lem :
      (fuel : ℕ) (s : port.State)
      → chip.busy_max < fuel
      → busy s ≡ 0
      → Suits s
      → (s' : port.State) × (norflash_erase_chip port fuel t s ≡ some s')
        × (busy s' ≡ 0)
        × Suits s'
        × ((i : ℕ) → byte_at s' i ≡ 255)
  unfolding norflash_erase_chip
  norflash_erase_chip_lem fuel s f z w =
      let (r, l) = norflash_enable_write_lem chip s z in
      let (s2, e2, r2, l2) = Ready-again fuel (norflash_enable_write port s) f in
      let (i, m) = chip.chip_erase s2 r2.free (l2 ∙ l) in
      let (s', e, q, _) = Ready-again fuel (command port (0xC7 ∷ []) s2) f in
      (
        s',
        rw e2 e,
        q.free,
        w ∙ sym r.mode ∙ sym r2.mode ∙ sym m ∙ sym q.mode,
        λ j. ap (λ g. g j) q.bytes ∙ i j,
      )
