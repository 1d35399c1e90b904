-- ===== src/Spi/Chip.antt =====
-- What the driver of the external flash sees through the pins of common/bsp/spi.c: a port with the chip
-- alone behind it.
use stc_isp_demo.Prelude.{ℕ, zero, suc, ◌≡◌, refl, true, List, [], ◌∷◌}
use stc_isp_demo.Device.Memory.{AllBytes}
use stc_isp_demo.Device.Spi.{send_all, recv_all, query}
use stc_isp_demo.Spi.{Pins, spi_select, spi_unselect, spi_send, spi_recv, spi_port, chip_port}
use stc_isp_demo.Spi.Bytes.{spi_send-At, spi_recv-At}

module _ (pins : Pins) where
  -- The pins are at rest in front of a byte.
  abbrev pub Rests : pins.Chip → pins.State → Type 0
  Rests c s = pins.At c [] true s

  send_all-Rests :
      (bs : List ℕ) (c : pins.Chip) (s : pins.State)
      → AllBytes bs
      → Rests c s
      → Rests (send_all (chip_port pins) bs c) (send_all (spi_port pins) bs s)
  send_all-Rests [] c s v h = h
  send_all-Rests (b ∷ bs) c s v h =
      send_all-Rests bs (pins.take b c) (spi_send pins b s) v.1 (spi_send-At pins b c true s v.0 h)

  recv_all-Rests :
      (n : ℕ) (c : pins.Chip) (s : pins.State)
      → Rests c s
      → ((recv_all (spi_port pins) n s).0 ≡ (recv_all (chip_port pins) n c).0)
        × Rests (recv_all (chip_port pins) n c).1 (recv_all (spi_port pins) n s).1
  recv_all-Rests zero c s h = (refl, h)
  recv_all-Rests (suc n) c s h =
      let (e, g) = spi_recv-At pins c s h in
      let (f, k) = recv_all-Rests n (pins.take 255 c) (spi_recv pins s).1 g in ((λ i. e i ∷ f i), k)

  -- Through the pins, every command and its answer are those of the chip itself: the bytes that are
  -- sent arrive whole and in order, the bytes of the answer are those that the chip gives, and the
  -- pins are at rest again behind it. What is sent is bytes, and the pins were at rest.
  pub query-Rests :
      (bs : List ℕ) (n : ℕ) (c : pins.Chip) (s : pins.State)
      → AllBytes bs
      → Rests c s
      → ((query (spi_port pins) bs n s).0 ≡ (query (chip_port pins) bs n c).0)
        × Rests (query (chip_port pins) bs n c).1 (query (spi_port pins) bs n s).1
  unfolding spi_select spi_unselect
  query-Rests bs n c s v h =
      let (e, g) =
        recv_all-Rests n _ _
          (send_all-Rests bs (pins.opened c) (spi_select pins s) v (pins.select_lem c true s h)) in
      (e, pins.unselect_lem _ true _ g)
