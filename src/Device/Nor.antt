-- ===== src/Device/Nor.antt =====
-- The external flash as the code above common/bsp/norflash.c uses it: the functions
-- norflash_read, norflash_write_page and norflash_erase_sector, and what the W25Q chip does.
use stc_isp_demo.Prelude.{ℕ, ◌+◌, ◌/◌, ◌%◌, ◌≤◌, ◌<◌, ◌≡◌, ◌≢◌, ◌⊎◌, List, length}
use stc_isp_demo.Device.Memory.{window, AllBytes}

abbrev pub norflash_sector_size : ℕ
norflash_sector_size = 4096

abbrev pub norflash_page_size : ℕ
norflash_page_size = 256

-- The addresses that the layout uses; the chip has at least as many.
abbrev pub nor_size : ℕ
nor_size = 0x200000

-- A write of bytes that stay inside one page.
abbrev pub FitsPage : ℕ → List ℕ → Type 0
FitsPage a bs = a % norflash_page_size + length bs ≤ norflash_page_size

pub record Nor : Type 1 where
  pub State : Type 0
  pub byte_at : State → ℕ → ℕ
  pub read : ℕ → ℕ → State → List ℕ
  pub write_page : ℕ → List ℕ → State → State
  pub erase_sector : ℕ → State → State
  -- A read returns the stored bytes.
  pub read_lem : (a n : ℕ) (s : State) → a + n ≤ nor_size → read a n s ≡ window (byte_at s) a n
  -- A page program inside a page leaves all other bytes as they are,
  pub write_page_outside :
      (a : ℕ) (bs : List ℕ) (s : State) (i : ℕ)
      → FitsPage a bs
      → a + length bs ≤ nor_size
      → (i < a) ⊎ (a + length bs ≤ i)
      → byte_at (write_page a bs s) i ≡ byte_at s i
  -- and a program of blank bytes stores what is written.
  pub write_page_inside :
      (a : ℕ) (bs : List ℕ) (s : State)
      → FitsPage a bs
      → a + length bs ≤ nor_size
      → AllBytes bs
      → ((i : ℕ) → a ≤ i → i < a + length bs → byte_at s i ≡ 255)
      → window (byte_at (write_page a bs s)) a (length bs) ≡ bs
  -- An erase blanks the sector and leaves the others as they are.
  pub erase_sector_inside :
      (a i : ℕ) (s : State)
      → a < nor_size
      → i / norflash_sector_size ≡ a / norflash_sector_size
      → byte_at (erase_sector a s) i ≡ 255
  pub erase_sector_outside :
      (a i : ℕ) (s : State)
      → a < nor_size
      → i / norflash_sector_size ≢ a / norflash_sector_size
      → byte_at (erase_sector a s) i ≡ byte_at s i
