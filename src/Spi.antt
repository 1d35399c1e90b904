-- ===== src/Spi.antt =====
-- The bit-wise SPI driver, common/bsp/spi.c and common/bsp/spi.h, on the pins of the controller.
pub mod Bytes
pub mod Chip
use stc_isp_demo.Prelude.{
  ℕ, zero, suc, ◌+◌, ◌-◌, ◌*◌, ◌/◌, ◌%◌, ◌^◌, ◌<◌, ◌≡◌, Bool, true, false, List, [], ◌∷◌, ◌++◌,
  length, leb, ◌==◌, if◌then◌else◌,
}
use stc_isp_demo.Device.Spi.{SpiPort}

-- The value of bits behind those of `acc`, the high one first
abbrev pub from_bits : ℕ → List Bool → ℕ
from_bits acc [] = acc
from_bits acc (b ∷ bs) = from_bits (acc * 2 + (if b then 1 else 0)) bs

-- The bit with number `k` of a byte, counted from the high one
abbrev pub bit_at : ℕ → ℕ → Bool
bit_at k n = (n / 2 ^ (7 - k)) % 2 == 1

-- The pins, the interrupt enable bit EA and delay_ms, and a chip behind the pins. `At c bs m s` says
-- that the chip is in the state `c` but for the bits `bs` of the byte under way, that MOSI has the level
-- `m`, and that the clock is low.
pub record Pins : Type 1 where
  pub State : Type 0
  pub ea : Bool → State → State
  pub nss : Bool → State → State
  pub sck : Bool → State → State
  pub mosi : Bool → State → State
  pub miso : State → Bool
  pub delay_ms : ℕ → State → State
  pub Chip : Type 0
  pub opened : Chip → Chip
  pub closed : Chip → Chip
  pub take : ℕ → Chip → Chip
  pub give : Chip → ℕ
  pub wait : ℕ → Chip → Chip
  pub At : Chip → List Bool → Bool → State → Type 0
  -- A byte of the chip, whose bits MISO shows one after the other, the high one first.
  pub give_lt : (c : Chip) → give c < 256
  pub miso_lem :
      (c : Chip) (bs : List Bool) (m : Bool) (s : State)
      → At c bs m s
      → miso s ≡ bit_at (length bs) (give c)
  pub mosi_lem :
      (c : Chip) (bs : List Bool) (m b : Bool) (s : State) → At c bs m s → At c bs b (mosi b s)
  -- A pulse of the clock takes the level of MOSI,
  pub pulse_lem :
      (c : Chip) (bs : List Bool) (m : Bool) (s : State)
      → At c bs m s
      → length bs < 7
      → At c (bs ++ (m ∷ [])) m (sck false (sck true s))
  -- and the eighth one completes the byte.
  pub last_pulse_lem :
      (c : Chip) (bs : List Bool) (m : Bool) (s : State)
      → At c bs m s
      → length bs ≡ 7
      → At (take (from_bits 0 (bs ++ (m ∷ []))) c) [] m (sck false (sck true s))
  pub select_lem :
      (c : Chip) (m : Bool) (s : State) → At c [] m s → At (opened c) [] m (nss false (ea false s))
  pub unselect_lem :
      (c : Chip) (m : Bool) (s : State) → At c [] m s → At (closed c) [] m (ea true (nss true s))
  pub wait_lem :
      (n : ℕ) (c : Chip) (m : Bool) (s : State) → At c [] m s → At (wait n c) [] m (delay_ms n s)

module _ (pins : Pins) where
  unfoldable pub spi_select : pins.State → pins.State
  spi_select s = pins.nss false (pins.ea false s)

  unfoldable pub spi_unselect : pins.State → pins.State
  spi_unselect s = pins.ea true (pins.nss true s)

  -- `SPI_SCK = 1; SPI_SCK = 0;`
  abbrev pub pulse : pins.State → pins.State
  pulse s = pins.sck false (pins.sck true s)

  -- `n` rounds of the loop of `spi_send`; the carry of the shift is the high bit of the byte.
  unfoldable pub send_bits : ℕ → ℕ → pins.State → pins.State
  send_bits zero dat s = s
  send_bits (suc n) dat s = send_bits n (dat * 2 % 256) (pulse (pins.mosi (leb 128 dat) s))

  unfoldable pub spi_send : ℕ → pins.State → pins.State
  unfolding send_bits
  spi_send dat s = pins.mosi true (send_bits 8 dat s)

  -- `n` rounds of the loop of `spi_recv`
  unfoldable pub recv_bits : ℕ → ℕ → pins.State → ℕ × pins.State
  recv_bits zero dat s = (dat, s)
  recv_bits (suc n) dat s = recv_bits n (dat * 2 % 256 + (if pins.miso s then 1 else 0)) (pulse s)

  unfoldable pub spi_recv : pins.State → ℕ × pins.State
  unfolding recv_bits
  spi_recv s = recv_bits 8 0 s

  -- `spi_init`, with the interrupts and the other pins left alone
  unfoldable pub spi_init : pins.State → pins.State
  spi_init s = pins.mosi true (pins.sck false (pins.nss true s))

  -- The port that the driver of the external flash uses
  abbrev pub spi_port : SpiPort
  spi_port = record {
    State = pins.State;
    select = spi_select;
    unselect = spi_unselect;
    send = spi_send;
    recv = spi_recv;
    delay_ms = pins.delay_ms;
  }

  -- The same port, with the chip alone behind it and whole bytes between them.
  abbrev pub chip_port : SpiPort
  chip_port = record {
    State = pins.Chip;
    select = pins.opened;
    unselect = pins.closed;
    send = pins.take;
    recv = λ c. (pins.give c, pins.take 255 c);
    delay_ms = pins.wait;
  }
