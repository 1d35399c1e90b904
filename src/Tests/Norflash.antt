-- ===== src/Tests/Norflash.antt =====
-- The driver of common/bsp/norflash.c on a small W25Q128 behind an SPI port: a chip that is busy for one status read after each
-- change, in three-byte address mode.
use stc_isp_demo.Prelude.{
  ℕ, zero, suc, ◌+◌, ◌-◌, ◌*◌, ◌/◌, ◌%◌, ◌≤◌, ◌<◌, ◌≡◌, ◌⊎◌, ◌∙◌, refl, sym, ap, arith, Bool, true,
  false, List, [], ◌∷◌, ◌++◌, append_snoc, append-nil, some, length, drop, get_or, ◌==◌,
  if◌then◌else◌,
}
use stc_isp_demo.Device.Memory.{window, AllBytes}
use stc_isp_demo.Device.Nor.{nor_size}
use stc_isp_demo.Device.Spi.{SpiPort, send_all, recv_all, command}
use stc_isp_demo.Device.W25q.{W25q, wire_addr}
use stc_isp_demo.Norflash.{norflash_write_page, norflash_erase_chip}
use stc_isp_demo.Norflash.Implements.{Suits, norflash_write_page_lem, norflash_erase_chip_lem}
use stc_isp_demo.Tests.Devices.{
  overlay, overlay_outside, overlay_inside, erased, erased_inside, erased_outside,
}

record Chip : Type 0 where
  frame : List ℕ
  answered : ℕ
  mem : ℕ → ℕ
  busy : Bool
  latch : Bool

abbrev addr_of : List ℕ → ℕ
addr_of f = get_or f 1 0 * 65536 + get_or f 2 0 * 256 + get_or f 3 0

abbrev busy_bit : Bool → ℕ
busy_bit true = 1
busy_bit false = 0

abbrev busy_of : Chip → ℕ
busy_of c = busy_bit c.busy

abbrev exec : ℕ → Chip → Chip
exec cmd c =
    if cmd == 0x05
    then record c { busy = false }
    else if cmd == 0x06
    then record c { latch = true }
    else if cmd == 0x02
    then record c {
      mem = overlay (addr_of c.frame) (drop 4 c.frame) c.mem;
      busy = true;
      latch = false;
    }
    else if cmd == 0x20
    then record c { mem = erased 4096 (addr_of c.frame) c.mem; busy = true; latch = false }
    else if cmd == 0xC7
    then record c { mem = λ i. 255; busy = true; latch = false }
    else c

abbrev answer : ℕ → Chip → ℕ
answer cmd c =
    if cmd == 0x05
    then busy_of c
    else if cmd == 0x90
    then (if c.answered == 0 then 0xEF else 0x17)
    else if cmd == 0x03
    then c.mem (addr_of c.frame + c.answered)
    else 0

abbrev spi : SpiPort
spi = record {
  State = Chip;
  select = λ c. record c { frame = []; answered = 0 };
  unselect = λ c. exec (get_or c.frame 0 0) c;
  send = λ b c. record c { frame = c.frame ++ (b ∷ []) };
  recv = λ c. (answer (get_or c.frame 0 0) c, record c { answered = c.answered + 1 });
  delay_ms = λ n c. record c { busy = false };
}

sent : (bs : List ℕ) (c : Chip) → send_all spi bs c ≡ record c { frame = c.frame ++ bs }
sent [] c = ap (λ f. record c { frame = f }) (sym (append-nil c.frame))
sent (b ∷ bs) c =
    sent bs (record c { frame = c.frame ++ (b ∷ []) })
    ∙ ap (λ f. record c { frame = f }) (append_snoc c.frame b bs)

-- The chip in the middle of a read.
abbrev reading : ℕ → ℕ → ℕ → ℕ → Chip → Chip
reading x y z k c = record c { frame = 0x03 ∷ x ∷ y ∷ z ∷ []; answered = k }

received :
    (n x y z k : ℕ) (c : Chip)
    → recv_all spi n (reading x y z k c)
      ≡ (window c.mem (x * 65536 + y * 256 + z + k) n, reading x y z (k + n) c)
received zero x y z k c = ap (λ j. ([], reading x y z j c)) {x = k} (omega arith)
received (suc n) x y z k c =
    let a = x * 65536 + y * 256 + z in
    ap (λ (r : List ℕ × Chip). (c.mem (a + k) ∷ r.0, r.1)) (received n x y z (k + 1) c)
    ∙ ap (λ (j : ℕ × ℕ). (c.mem (a + k) ∷ window c.mem j.0 n, reading x y z j.1 c))
        (λ i. (shifted a i, counted i))
  where
    shifted : (a : ℕ) → a + (k + 1) ≡ a + k + 1
    shifted a = omega arith

    counted : k + 1 + n ≡ k + suc n
    counted = omega arith

from_wire : (a : ℕ) → a ≤ nor_size → a / 65536 % 256 * 65536 + a / 256 % 256 * 256 + a % 256 ≡ a
from_wire a h = omega arith

-- The bytes behind a page program.
programmed :
    (a : ℕ) (bs : List ℕ) (c : Chip)
    → a ≤ nor_size
    → (command spi (0x02 ∷ (wire_addr false a ++ bs)) c).mem ≡ overlay a bs c.mem
programmed a bs c h =
    let start = record c { frame = 0x02 ∷ wire_addr false a; answered = 0 } in
    ap (λ (d : Chip). Chip.mem (spi.unselect d)) (sent bs start)
    ∙ ap (λ k. overlay k bs c.mem) (from_wire a h)

free : (c : Chip) → busy_of c ≡ 0 → c.busy ≡ false
free c h = go c.busy h
  where
    go : (b : Bool) → busy_bit b ≡ 0 → b ≡ false
    go true h = absurd (omega (arith, h))
    go false h = refl

taken : (c : Chip) → 0 < busy_of c → c.busy ≡ true
taken c h = go c.busy h
  where
    go : (b : Bool) → 0 < busy_bit b → b ≡ true
    go true h = refl
    go false h = absurd (omega (arith, h))

busy_le_one : (b : Bool) → busy_bit b ≤ 1
busy_le_one true = omega arith
busy_le_one false = omega arith

busy_less : (b : Bool) → 0 ≡ busy_bit b - 1
busy_less true = refl
busy_less false = refl

abbrev w25q128 : W25q spi
w25q128 = record {
  byte_at = λ c. c.mem;
  busy = busy_of;
  latch = λ c. c.latch;
  wide = λ c. false;
  id = 0xEF17;
  id_lt = omega arith;
  busy_max = 1;
  busy_le = λ c. busy_le_one c.busy;
  wide_only = λ c h. refl;
  status1 = λ c. (
    λ h. (0, ap (λ b. busy_bit b ∷ []) (free c h), refl),
    λ h. (1, ap (λ b. busy_bit b ∷ []) (taken c h), refl),
    busy_less c.busy,
    refl,
    refl,
    refl,
  );
  enable = λ c h. (h, refl, refl, refl);
  read_data = λ a n c h k.
      let e = received n (a / 65536 % 256) (a / 256 % 256) (a % 256) 0 c in
      let p : a / 65536 % 256 * 65536 + a / 256 % 256 * 256 + a % 256 + 0 ≡ a =
        omega (arith, from_wire a (omega arith)) in
      (
        ap (λ r. r.0) e ∙ ap (λ j. window c.mem j n) p,
        ap (λ (r : List ℕ × Chip). busy_of (spi.unselect r.1)) e ∙ h,
        ap (λ (r : List ℕ × Chip). Chip.mem (spi.unselect r.1)) e,
        refl,
      );
  page_program = λ a bs c h l f k.
      let e = programmed a bs c (omega arith) in
      (
        λ i o. ap (λ g. g i) e ∙ overlay_outside a bs c.mem i o,
        λ v b. ap (λ g. window g a (length bs)) e ∙ overlay_inside a bs c.mem,
        refl,
      );
  sector_erase = λ a c h l k.
      let e : (command spi (0x20 ∷ wire_addr false a) c).mem ≡ erased 4096 a c.mem =
        ap (λ j. erased 4096 j c.mem) (from_wire a (omega arith)) in
      (
        λ i o. ap (λ g. g i) e ∙ erased_inside 4096 a c.mem i o,
        λ i o. ap (λ g. g i) e ∙ erased_outside 4096 a c.mem i o,
        refl,
      );
  chip_erase = λ c h l. (λ i. refl, refl);
  release = λ c h. (h, refl, refl);
  read_device_id = λ c h. (refl, h, refl, refl);
  status3 = λ c h. ((0, refl, λ k. refl, λ k. cc), h, refl, refl);
  write_status3 = λ v c h l. (refl, refl);
  delay = λ n c h. (refl, refl, refl);
  enter_wide = λ c h k. absurd (omega (arith, k));
}

-- A blank chip with the byte 7 at the address 300.
abbrev chip : Chip
chip = record {
  frame = [];
  answered = 0;
  mem = overlay 300 (7 ∷ []) (λ i. 255);
  busy = false;
  latch = false;
}

norflash_write_page_lem_example :
    (s : Chip) × (norflash_write_page spi 2 0xEF17 512 (1 ∷ 2 ∷ []) chip ≡ some s)
    × (busy_of s ≡ 0)
    × Suits w25q128 0xEF17 s
    × ((i : ℕ) → (i < 512) ⊎ (514 ≤ i) → s.mem i ≡ chip.mem i)
    × (AllBytes (1 ∷ 2 ∷ [])
        → ((i : ℕ) → 512 ≤ i → i < 514 → chip.mem i ≡ 255)
        → window s.mem 512 2 ≡ 1 ∷ 2 ∷ [])
norflash_write_page_lem_example =
    norflash_write_page_lem w25q128 0xEF17 2 512 (1 ∷ 2 ∷ []) chip (omega arith) refl refl
      (omega arith) (omega arith)

chip_erased :
    (s : Chip) × (norflash_erase_chip spi 2 0xEF17 chip ≡ some s)
    × (busy_of s ≡ 0)
    × Suits w25q128 0xEF17 s
    × ((i : ℕ) → s.mem i ≡ 255)
chip_erased = norflash_erase_chip_lem w25q128 0xEF17 2 chip (omega arith) refl refl
