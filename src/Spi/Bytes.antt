-- ===== src/Spi/Bytes.antt =====
-- The bits that the driver of common/bsp/spi.c sends and receives make up the byte.
use stc_isp_demo.Prelude.{
  ℕ, zero, suc, ◌+◌, ◌-◌, ◌*◌, ◌/◌, ◌%◌, ◌^◌, ◌<◌, ◌≡◌, ◌∙◌, refl, ap, subst, arith, Bool, true,
  List, [], ◌∷◌, ◌++◌, append_snoc, length, length-append, leb, if◌then◌else◌,
}
use stc_isp_demo.Spi.{Pins, from_bits, bit_at, pulse, send_bits, spi_send, recv_bits, spi_recv}

-- The bits that `n` rounds of the loop of `spi_send` put on MOSI
abbrev pub carries : ℕ → ℕ → List Bool
carries zero dat = []
carries (suc n) dat = leb 128 dat ∷ carries n (dat * 2 % 256)

-- What is left of the byte behind them
abbrev shifted : ℕ → ℕ → ℕ
shifted zero dat = dat
shifted (suc n) dat = shifted n (dat * 2 % 256)

shifted-lt : (n dat : ℕ) → dat < 256 → shifted n dat < 256
shifted-lt zero dat h = h
shifted-lt (suc n) dat h = shifted-lt n (dat * 2 % 256) (omega arith)

abbrev doubled : ℕ → ℕ → ℕ
doubled zero x = x
doubled (suc n) x = doubled n (x * 2)

carry_lem :
    (acc dat : ℕ)
    → dat < 256
    → (acc * 2 + (if leb 128 dat then 1 else 0)) * 256 + dat * 2 % 256 ≡ (acc * 256 + dat) * 2
carry_lem acc dat h = ground arith

from_bits-carries_lem :
    (n acc dat : ℕ)
    → dat < 256
    → from_bits acc (carries n dat) * 256 + shifted n dat ≡ doubled n (acc * 256 + dat)
from_bits-carries_lem zero acc dat h = refl
from_bits-carries_lem (suc n) acc dat h =
    from_bits-carries_lem n (acc * 2 + (if leb 128 dat then 1 else 0)) (dat * 2 % 256) (omega arith)
    ∙ ap (doubled n) (carry_lem acc dat h)

pub from_bits-carries : (dat : ℕ) → dat < 256 → from_bits 0 (carries 8 dat) ≡ dat
from_bits-carries dat h = omega (arith, from_bits-carries_lem 8 0 dat h, shifted-lt 8 dat h)

-- The bits of a byte, the high one first, and the value that the loop of `spi_recv` makes of them
abbrev bits_from : ℕ → ℕ → ℕ → List Bool
bits_from zero k n = []
bits_from (suc j) k n = bit_at k n ∷ bits_from j (suc k) n

abbrev received : ℕ → List Bool → ℕ
received acc [] = acc
received acc (b ∷ bs) = received (acc * 2 % 256 + (if b then 1 else 0)) bs

bit_value : (k n : ℕ) → (if bit_at k n then 1 else 0) ≡ (n / 2 ^ (7 - k)) % 2
bit_value k n = ground arith

received-bits_from : (n : ℕ) → n < 256 → received 0 (bits_from 8 0 n) ≡ n
received-bits_from n h = omega (
  arith,
  bit_value 0 n,
  bit_value 1 n,
  bit_value 2 n,
  bit_value 3 n,
  bit_value 4 n,
  bit_value 5 n,
  bit_value 6 n,
  bit_value 7 n,
)

module _ (pins : Pins) where
  sent :
      (n dat : ℕ) (c : pins.Chip) (bs : List Bool) (m : Bool) (s : pins.State)
      → length bs + suc n ≡ 8
      → pins.At c bs m s
      → (m' : Bool) × pins.At
          (pins.take (from_bits 0 (bs ++ carries (suc n) dat)) c)
          []
          m'
          (send_bits pins (suc n) dat s)
  unfolding send_bits
  sent zero dat c bs m s e h = (
    leb 128 dat,
    pins.last_pulse_lem c bs _ _ (pins.mosi_lem c bs m (leb 128 dat) s h) (omega (arith, e)),
  )
  sent (suc n) dat c bs m s e h =
      let b = leb 128 dat in
      let (m', g) =
        sent n (dat * 2 % 256) c (bs ++ (b ∷ [])) b (pulse pins (pins.mosi b s))
          (omega (arith, e, length-append bs (b ∷ [])))
          (pins.pulse_lem c bs b _ (pins.mosi_lem c bs m b s h) (omega (arith, e))) in
      (
        m',
        subst
            (λ l.
              pins.At (pins.take (from_bits 0 l) c) [] m'
                (send_bits pins (suc n) (dat * 2 % 256) (pulse pins (pins.mosi b s))))
            (append_snoc bs b (carries (suc n) (dat * 2 % 256))) g,
      )

  -- A byte that is sent arrives at the chip, and MOSI is high behind it.
  pub spi_send-At :
      (dat : ℕ) (c : pins.Chip) (m : Bool) (s : pins.State)
      → dat < 256
      → pins.At c [] m s
      → pins.At (pins.take dat c) [] true (spi_send pins dat s)
  unfolding spi_send
  spi_send-At dat c m s h a =
      let (m', g) = sent 7 dat c [] m s refl a in
      pins.mosi_lem _ [] m' true _ (
        subst (λ k. pins.At (pins.take k c) [] m' (send_bits pins 8 dat s))
          (from_bits-carries dat h) g)

  abbrev highs : ℕ → List Bool
  highs zero = []
  highs (suc n) = true ∷ highs n

  taken :
      (n acc k : ℕ) (c : pins.Chip) (bs : List Bool) (s : pins.State)
      → length bs ≡ k
      → k + suc n ≡ 8
      → pins.At c bs true s
      → ((recv_bits pins (suc n) acc s).0 ≡ received acc (bits_from (suc n) k (pins.give c)))
        × pins.At
            (pins.take (from_bits 0 (bs ++ highs (suc n))) c)
            []
            true
            (recv_bits pins (suc n) acc s).1
  unfolding recv_bits
  taken zero acc k c bs s l e h = (
    ap (λ b. acc * 2 % 256 + (if b then 1 else 0))
        (pins.miso_lem c bs true s h ∙ ap (λ j. bit_at j (pins.give c)) l),
    pins.last_pulse_lem c bs true s h (omega (arith, e, l)),
  )
  taken (suc n) acc k c bs s l e h =
      let put = λ (b : Bool). acc * 2 % 256 + (if b then 1 else 0) in
      let shown : pins.miso s ≡ bit_at k (pins.give c) =
        pins.miso_lem c bs true s h ∙ ap (λ j. bit_at j (pins.give c)) l in
      let (f, g) =
        taken n (put (pins.miso s)) (suc k) c (bs ++ (true ∷ [])) (pulse pins s)
          (omega (arith, l, length-append bs (true ∷ []))) (omega (arith, e))
          (pins.pulse_lem c bs true s h (omega (arith, e, l))) in
      (
        f ∙ ap (λ b. received (put b) (bits_from (suc n) (suc k) (pins.give c))) shown,
        subst
            (λ t.
              pins.At (pins.take (from_bits 0 t) c) [] true
                (recv_bits pins (suc n) (put (pins.miso s)) (pulse pins s)).1)
            (append_snoc bs true (highs (suc n))) g,
      )

  -- The byte that the chip gives is received, while the chip takes a byte of ones.
  pub spi_recv-At :
      (c : pins.Chip) (s : pins.State)
      → pins.At c [] true s
      → ((spi_recv pins s).0 ≡ pins.give c) × pins.At (pins.take 255 c) [] true (spi_recv pins s).1
  unfolding spi_recv
  spi_recv-At c s h =
      let (f, g) = taken 7 0 0 c [] s refl refl h in
      (f ∙ received-bits_from (pins.give c) (pins.give_lt c), g)
