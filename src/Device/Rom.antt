-- ===== src/Device/Rom.antt =====
-- The on-chip flash as the boot loader uses it: iap_read_byte, iap_read_bytes,
-- iap_write_bytes_check and iap_erase_page_check of libhb/libstc.
use stc_isp_demo.Prelude.{ℕ, ◌+◌, ◌/◌, ◌≤◌, ◌<◌, ◌≡◌, ◌≢◌, ◌⊎◌, Bool, true, List, length}
use stc_isp_demo.Device.Memory.{window}

abbrev pub iap_page_size : ℕ
iap_page_size = 512

-- The addresses of the on-chip flash, which has 64 KB.
abbrev pub rom_size : ℕ
rom_size = 0x10000

pub record Rom : Type 1 where
  pub State : Type 0
  pub byte_at : State → ℕ → ℕ
  pub read_byte : ℕ → State → ℕ
  pub read_bytes : ℕ → ℕ → State → List ℕ
  pub write_bytes_check : ℕ → List ℕ → State → Bool × State
  pub erase_page_check : ℕ → State → Bool × State
  -- A read returns the stored bytes.
  pub read_byte_lem : (a : ℕ) (s : State) → a < rom_size → read_byte a s ≡ byte_at s a
  pub read_lem :
      (a n : ℕ) (s : State) → a + n ≤ rom_size → read_bytes a n s ≡ window (byte_at s) a n
  -- A checked write that reports success has stored its bytes; it never touches others.
  pub write_inside :
      (a : ℕ) (bs : List ℕ) (s : State)
      → a + length bs ≤ rom_size
      → (write_bytes_check a bs s).0 ≡ true
      → window (byte_at (write_bytes_check a bs s).1) a (length bs) ≡ bs
  pub write_outside :
      (a : ℕ) (bs : List ℕ) (s : State) (i : ℕ)
      → a + length bs ≤ rom_size
      → (i < a) ⊎ (a + length bs ≤ i)
      → byte_at (write_bytes_check a bs s).1 i ≡ byte_at s i
  -- An erase touches one page only.
  pub erase_outside :
      (a i : ℕ) (s : State)
      → a < rom_size
      → i / iap_page_size ≢ a / iap_page_size
      → byte_at (erase_page_check a s).1 i ≡ byte_at s i
