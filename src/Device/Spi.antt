-- ===== src/Device/Spi.antt =====
-- The SPI port of common/bsp/spi.h as the driver of the external flash uses it: spi_select,
-- spi_unselect, spi_send and spi_recv, and delay_ms of the support library.
use stc_isp_demo.Prelude.{ℕ, zero, suc, List, [], ◌∷◌}

pub record SpiPort : Type 1 where
  pub State : Type 0
  pub select : State → State
  pub unselect : State → State
  pub send : ℕ → State → State
  pub recv : State → ℕ × State
  pub delay_ms : ℕ → State → State

module _ (port : SpiPort) where
  -- Bytes sent one after the other, and `n` bytes received.
  abbrev pub send_all : List ℕ → port.State → port.State
  send_all [] s = s
  send_all (b ∷ bs) s = send_all bs (port.send b s)

  abbrev pub recv_all : ℕ → port.State → List ℕ × port.State
  recv_all zero s = ([], s)
  recv_all (suc n) s = let (b, s') = port.recv s in let (bs, s'') = recv_all n s' in (b ∷ bs, s'')

  -- A command without an answer, and one with `n` bytes of answer.
  abbrev pub command : List ℕ → port.State → port.State
  command bs s = port.unselect (send_all bs (port.select s))

  abbrev pub query : List ℕ → ℕ → port.State → List ℕ × port.State
  query bs n s =
      let (answer, s') = recv_all n (send_all bs (port.select s)) in (answer, port.unselect s')
