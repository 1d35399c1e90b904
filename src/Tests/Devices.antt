-- ===== src/Tests/Devices.antt =====
-- Small devices for the tests: both flashes as a byte for each address, and a simple check sum.
use stc_isp_demo.Prelude.{
  ℕ, ◌+◌, ◌*◌, ◌/◌, ◌%◌, ◌≤◌, ◌<◌, ◌≡◌, ◌≢◌, ◌⊎◌, ◌∙◌, inl, inr, refl, ap, arith, true, List, [],
  ◌∷◌, length, ◌==◌, ==_refl, ==_ne, if◌then◌else◌,
}
use stc_isp_demo.Device.Crc.{Crc32}
use stc_isp_demo.Device.Memory.{window, window_ext}
use stc_isp_demo.Device.Nor.{Nor}
use stc_isp_demo.Device.Rom.{Rom}

-- The memory with `bs` stored from `a` on.
abbrev pub overlay : ℕ → List ℕ → (ℕ → ℕ) → ℕ → ℕ
overlay a [] m i = m i
overlay a (b ∷ bs) m i = let rest = overlay (a + 1) bs m i in if i == a then b else rest

pub overlay_outside :
    (a : ℕ) (bs : List ℕ) (m : ℕ → ℕ) (i : ℕ)
    → (i < a) ⊎ (a + length bs ≤ i)
    → overlay a bs m i ≡ m i
overlay_outside a [] m i h = refl
overlay_outside a (b ∷ bs) m i (inl h) =
    rw (==_ne i a (omega arith)) (overlay_outside (a + 1) bs m i (inl (omega arith)))
overlay_outside a (b ∷ bs) m i (inr h) =
    rw (==_ne i a (omega arith)) (overlay_outside (a + 1) bs m i (inr (omega arith)))

pub overlay_inside : (a : ℕ) (bs : List ℕ) (m : ℕ → ℕ) → window (overlay a bs m) a (length bs) ≡ bs
overlay_inside a [] m = refl
overlay_inside a (b ∷ bs) m =
    let tail : window (overlay a (b ∷ bs) m) (a + 1) (length bs) ≡ bs =
      window_ext (overlay a (b ∷ bs) m) (overlay (a + 1) bs m) (a + 1) (length bs)
        (λ i p q. rw (==_ne i a (omega arith)) refl)
      ∙ overlay_inside (a + 1) bs m in
    rw (==_refl a) (ap (◌∷◌ b) tail)

-- The memory with the block of `n` bytes around `a` blank.
abbrev pub erased : ℕ → ℕ → (ℕ → ℕ) → ℕ → ℕ
erased n a m i = if (i / n) == (a / n) then 255 else m i

pub erased_inside : (n a : ℕ) (m : ℕ → ℕ) (i : ℕ) → i / n ≡ a / n → erased n a m i ≡ 255
erased_inside n a m i h = rw (h, ==_refl (a / n)) refl

pub erased_outside : (n a : ℕ) (m : ℕ → ℕ) (i : ℕ) → i / n ≢ a / n → erased n a m i ≡ m i
erased_outside n a m i h = rw (==_ne (i / n) (a / n) h) refl

abbrev pub nor_chip : Nor
nor_chip = record {
  State = ℕ → ℕ;
  byte_at = λ s. s;
  read = λ a n s. window s a n;
  write_page = overlay;
  erase_sector = erased 4096;
  read_lem = λ a n s k. refl;
  write_page_outside = λ a bs s i f k h. overlay_outside a bs s i h;
  write_page_inside = λ a bs s f k v blank. overlay_inside a bs s;
  erase_sector_inside = λ a i s k h. erased_inside 4096 a s i h;
  erase_sector_outside = λ a i s k h. erased_outside 4096 a s i h;
}

abbrev pub rom_chip : Rom
rom_chip = record {
  State = ℕ → ℕ;
  byte_at = λ s. s;
  read_byte = λ a s. s a;
  read_byte_lem = λ a s h. refl;
  read_bytes = λ a n s. window s a n;
  write_bytes_check = λ a bs s. (true, overlay a bs s);
  erase_page_check = λ a s. (true, erased 512 a s);
  read_lem = λ a n s k. refl;
  write_inside = λ a bs s k h. overlay_inside a bs s;
  write_outside = λ a bs s i k h. overlay_outside a bs s i h;
  erase_outside = λ a i s k h. erased_outside 512 a s i h;
}

abbrev sum_byte : ℕ → ℕ → ℕ
sum_byte c x = (c * 31 + x) % 65521

abbrev sum_bytes : ℕ → List ℕ → ℕ
sum_bytes c [] = c
sum_bytes c (x ∷ xs) = sum_bytes (sum_byte c x) xs

abbrev pub sum_crc : Crc32
sum_crc = record {
  init = 1;
  update1 = sum_byte;
  update = sum_bytes;
  finalize = λ c. c;
  update-nil = λ c. refl;
  update-cons = λ c x xs. refl;
}
