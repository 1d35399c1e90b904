-- ===== src/Device/W25q.antt =====
-- The W25Q chips behind the SPI port, by their data sheets: what each command answers and changes.
use stc_isp_demo.Prelude.{
  ℕ, ◌+◌, ◌-◌, ◌/◌, ◌%◌, ◌≤◌, ◌<◌, ◌≡◌, ◌≢◌, ◌⊎◌, Bool, true, false, List, [], ◌∷◌, ◌++◌, length,
}
use stc_isp_demo.Device.Memory.{window, AllBytes}
use stc_isp_demo.Device.Nor.{FitsPage, nor_size, norflash_sector_size}
use stc_isp_demo.Device.Spi.{SpiPort, command, query}

-- An address on the wire, the high byte in front: four bytes in the wide mode, else three.
abbrev pub wire_addr : Bool → ℕ → List ℕ
wire_addr true a = a / 16777216 % 256 ∷ a / 65536 % 256 ∷ a / 256 % 256 ∷ a % 256 ∷ []
wire_addr false a = a / 65536 % 256 ∷ a / 256 % 256 ∷ a % 256 ∷ []

-- The type of the only chip that has the wide mode, the W25Q256.
abbrev pub wide_type : ℕ
wide_type = 0xEF18

pub record W25q (port : SpiPort) : Type 0 where
  -- the stored bytes, how many more status reads find the chip busy, the write enable latch, the
  -- address mode, and the manufacturer and device bytes as one number
  pub byte_at : port.State → ℕ → ℕ
  pub busy : port.State → ℕ
  pub latch : port.State → Bool
  pub wide : port.State → Bool
  pub id : ℕ
  pub id_lt : id < 65536
  pub busy_max : ℕ
  pub busy_le : (s : port.State) → busy s ≤ busy_max
  pub wide_only : (s : port.State) → id ≢ wide_type → wide s ≡ false
  -- READ STATUS REGISTER-1: bit 0 is set while the chip is busy.
  pub status1 :
      (s : port.State)
      → (busy s ≡ 0 → (b : ℕ) × ((query port (0x05 ∷ []) 1 s).0 ≡ b ∷ []) × (b % 2 ≡ 0))
        × (0 < busy s → (b : ℕ) × ((query port (0x05 ∷ []) 1 s).0 ≡ b ∷ []) × (b % 2 ≡ 1))
        × (busy (query port (0x05 ∷ []) 1 s).1 ≡ busy s - 1)
        × (byte_at (query port (0x05 ∷ []) 1 s).1 ≡ byte_at s)
        × (latch (query port (0x05 ∷ []) 1 s).1 ≡ latch s)
        × (wide (query port (0x05 ∷ []) 1 s).1 ≡ wide s)
  -- WRITE ENABLE
  pub enable :
      (s : port.State)
      → busy s ≡ 0
      → (busy (command port (0x06 ∷ []) s) ≡ 0)
        × (byte_at (command port (0x06 ∷ []) s) ≡ byte_at s)
        × (latch (command port (0x06 ∷ []) s) ≡ true)
        × (wide (command port (0x06 ∷ []) s) ≡ wide s)
  -- READ DATA
  pub read_data :
      (a n : ℕ) (s : port.State)
      → busy s ≡ 0
      → a + n ≤ nor_size
      → ((query port (0x03 ∷ wire_addr (wide s) a) n s).0 ≡ window (byte_at s) a n)
        × (busy (query port (0x03 ∷ wire_addr (wide s) a) n s).1 ≡ 0)
        × (byte_at (query port (0x03 ∷ wire_addr (wide s) a) n s).1 ≡ byte_at s)
        × (wide (query port (0x03 ∷ wire_addr (wide s) a) n s).1 ≡ wide s)
  -- PAGE PROGRAM: inside a page, blank bytes take what is sent.
  pub page_program :
      (a : ℕ) (bs : List ℕ) (s : port.State)
      → busy s ≡ 0
      → latch s ≡ true
      → FitsPage a bs
      → a + length bs ≤ nor_size
      → ((i : ℕ)
          → (i < a) ⊎ (a + length bs ≤ i)
          → byte_at (command port (0x02 ∷ (wire_addr (wide s) a ++ bs)) s) i ≡ byte_at s i)
        × (AllBytes bs
            → ((i : ℕ) → a ≤ i → i < a + length bs → byte_at s i ≡ 255)
            → window (byte_at (command port (0x02 ∷ (wire_addr (wide s) a ++ bs)) s)) a (length bs)
              ≡ bs)
        × (wide (command port (0x02 ∷ (wire_addr (wide s) a ++ bs)) s) ≡ wide s)
  -- SECTOR ERASE
  pub sector_erase :
      (a : ℕ) (s : port.State)
      → busy s ≡ 0
      → latch s ≡ true
      → a < nor_size
      → ((i : ℕ)
          → i / norflash_sector_size ≡ a / norflash_sector_size
          → byte_at (command port (0x20 ∷ wire_addr (wide s) a) s) i ≡ 255)
        × ((i : ℕ)
            → i / norflash_sector_size ≢ a / norflash_sector_size
            → byte_at (command port (0x20 ∷ wire_addr (wide s) a) s) i ≡ byte_at s i)
        × (wide (command port (0x20 ∷ wire_addr (wide s) a) s) ≡ wide s)
  -- CHIP ERASE
  pub chip_erase :
      (s : port.State)
      → busy s ≡ 0
      → latch s ≡ true
      → ((i : ℕ) → byte_at (command port (0xC7 ∷ []) s) i ≡ 255)
        × (wide (command port (0xC7 ∷ []) s) ≡ wide s)
  -- RELEASE POWER-DOWN and READ MANUFACTURER / DEVICE ID, also of a chip that was powered down
  pub release :
      (s : port.State)
      → busy s ≡ 0
      → (busy (command port (0xAB ∷ []) s) ≡ 0)
        × (byte_at (command port (0xAB ∷ []) s) ≡ byte_at s)
        × (wide (command port (0xAB ∷ []) s) ≡ wide s)
  pub read_device_id :
      (s : port.State)
      → busy s ≡ 0
      → ((query port (0x90 ∷ 0 ∷ 0 ∷ 0 ∷ []) 2 s).0 ≡ id / 256 ∷ id % 256 ∷ [])
        × (busy (query port (0x90 ∷ 0 ∷ 0 ∷ 0 ∷ []) 2 s).1 ≡ 0)
        × (byte_at (query port (0x90 ∷ 0 ∷ 0 ∷ 0 ∷ []) 2 s).1 ≡ byte_at s)
        × (wide (query port (0x90 ∷ 0 ∷ 0 ∷ 0 ∷ []) 2 s).1 ≡ wide s)
  -- READ STATUS REGISTER-3: bit 0 is the address mode.
  pub status3 :
      (s : port.State)
      → busy s ≡ 0
      → ((b : ℕ) × ((query port (0x15 ∷ []) 1 s).0 ≡ b ∷ [])
          × (wide s ≡ false → b % 2 ≡ 0)
          × (wide s ≡ true → b % 2 ≡ 1))
        × (busy (query port (0x15 ∷ []) 1 s).1 ≡ 0)
        × (byte_at (query port (0x15 ∷ []) 1 s).1 ≡ byte_at s)
        × (wide (query port (0x15 ∷ []) 1 s).1 ≡ wide s)
  -- WRITE STATUS REGISTER-3 keeps the bytes and the mode, and is over after 15 ms.
  pub write_status3 :
      (v : ℕ) (s : port.State)
      → busy s ≡ 0
      → latch s ≡ true
      → (byte_at (command port (0x11 ∷ v ∷ []) s) ≡ byte_at s)
        × (wide (command port (0x11 ∷ v ∷ []) s) ≡ wide s)
  pub delay :
      (n : ℕ) (s : port.State)
      → 15 ≤ n
      → (busy (port.delay_ms n s) ≡ 0)
        × (byte_at (port.delay_ms n s) ≡ byte_at s)
        × (wide (port.delay_ms n s) ≡ wide s)
  -- ENTER 4-BYTE ADDRESS MODE
  pub enter_wide :
      (s : port.State)
      → busy s ≡ 0
      → id ≡ wide_type
      → (busy (command port (0xB7 ∷ []) s) ≡ 0)
        × (byte_at (command port (0xB7 ∷ []) s) ≡ byte_at s)
        × (wide (command port (0xB7 ∷ []) s) ≡ true)
