-- ===== src/Tests/Pins.antt =====
-- A chip that takes down what it is sent, and gives one byte again and again.
use stc_isp_demo.Prelude.{
  ℕ, ◌≡◌, ◌∙◌, refl, ap, arith, Bool, true, List, [], ◌∷◌, ◌++◌, length, ◌==◌, ==_ne, if◌then◌else◌,
}
use stc_isp_demo.Device.Spi.{query}
use stc_isp_demo.Spi.{Pins, from_bits, bit_at, spi_port, chip_port}
use stc_isp_demo.Spi.Chip.{Rests, query-Rests}

-- What the chip has taken, the bits of the byte under way, and the level of MOSI
record Shift : Type 0 where
  taken : List ℕ
  bits : List Bool
  level : Bool

abbrev clocked : Shift → Shift
clocked s =
    let bs = s.bits ++ (s.level ∷ []) in
    if length s.bits == 7
    then record s { taken = s.taken ++ (from_bits 0 bs ∷ []); bits = [] }
    else record s { bits = bs }

abbrev state : List ℕ → List Bool → Bool → Shift
state c bs m = record { taken = c; bits = bs; level = m }

abbrev pins : Pins
pins = record {
  State = Shift;
  ea = λ b s. s;
  nss = λ b s. s;
  sck = λ b s. if b then clocked s else s;
  mosi = λ b s. record s { level = b };
  miso = λ s. bit_at (length s.bits) 90;
  delay_ms = λ n s. s;
  Chip = List ℕ;
  opened = λ c. c;
  closed = λ c. c;
  take = λ b c. c ++ (b ∷ []);
  give = λ c. 90;
  wait = λ n c. c;
  At = λ c bs m s. s ≡ state c bs m;
  give_lt = λ c. omega arith;
  miso_lem = λ c bs m s h. ap (λ (x : Shift). bit_at (length x.bits) 90) h;
  mosi_lem = λ c bs m b s h. ap (λ (x : Shift). record x { level = b }) h;
  pulse_lem = λ c bs m s h k. ap clocked h ∙ rw (==_ne (length bs) 7 (omega arith)) refl;
  last_pulse_lem = λ c bs m s h k. ap clocked h ∙ rw (k) refl;
  select_lem = λ c m s h. h;
  unselect_lem = λ c m s h. h;
  wait_lem = λ n c m s h. h;
}

-- A command of one byte with an answer of two
query-Rests_example :
    ((query (spi_port pins) (0x9F ∷ []) 2 (state [] [] true)).0
      ≡ (query (chip_port pins) (0x9F ∷ []) 2 []).0)
    × Rests pins
        (query (chip_port pins) (0x9F ∷ []) 2 []).1
        (query (spi_port pins) (0x9F ∷ []) 2 (state [] [] true)).1
query-Rests_example = query-Rests pins (0x9F ∷ []) 2 [] (state [] [] true) (omega arith, tt) refl
