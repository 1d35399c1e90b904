-- ===== src/Tests/Images.antt =====
-- Images of the on-chip flash and the applications that a server offers, on a small application.
use stc_isp_demo.Prelude.{
  ℕ, suc, ◌+◌, ◌-◌, ◌≡◌, ◌∙◌, refl, ap, arith, Bool, true, List, [], ◌∷◌, some, ◌>>=◌, length, drop,
  get_or,
}
use stc_isp_demo.Device.Memory.{window}
use stc_isp_demo.Layout.{iap_addr_app_start}
use stc_isp_demo.OtaInfo.{app_at}
use stc_isp_demo.Boot.Factory.{read_meta, check_onchip_factory_metadata}
use stc_isp_demo.Host.Image.{Snippet, Opened, slot_open_hex, slot_patch, slot_merge}
use stc_isp_demo.Host.Image.Boots.{slot_merge_boots}
use stc_isp_demo.Host.Convert.{Options, Files, append_snippets, hex2metabin, merge_snippets}
use stc_isp_demo.Host.Convert.Accepted.{Mergeable}
use stc_isp_demo.Host.Convert.RoundTrip.{slot_merge-hex2metabin}
use stc_isp_demo.Host.Convert.Patched.{slot_patch-slot_open_hex}
use stc_isp_demo.Tests.Devices.{nor_chip, rom_chip, sum_crc}

-- A disassembler that takes everything.
abbrev takes_all : ℕ → List ℕ → Bool
takes_all a bs = true

abbrev options : Options
options = record {
  ldr_size = 0x3800;
  meta_size = 0x200;
  fill_value = 255;
  app_build_timestamp = 4;
  app_version = 16777216;
}

-- `LJMP 0x3A05`, and two bytes of code behind a gap of two bytes
abbrev jump : Snippet
jump = record { addr = 0; dat = 2 ∷ 0x3A ∷ 5 ∷ [] }

abbrev code : Snippet
code = record { addr = 0x3A05; dat = 34 ∷ 5 ∷ [] }

abbrev boot_loader : Snippet
boot_loader = record { addr = 0; dat = 2 ∷ 0 ∷ 9 ∷ [] }

abbrev binary : List ℕ
binary = 2 ∷ 0x3A ∷ 5 ∷ 255 ∷ 255 ∷ 34 ∷ 5 ∷ []

abbrev files : Files
files = record {
  meta = 0 ∷ 0 ∷ 0 ∷ 7 ∷ 0 ∷ 0 ∷ 0 ∷ 46 ∷ 0 ∷ 0 ∷ 0 ∷ 4 ∷ 1 ∷ 0 ∷ 0 ∷ 0 ∷ [];
  bin = binary;
}

abbrev source : List Snippet
source = jump ∷ code ∷ []

converted : hex2metabin sum_crc options source ≡ some files
unfolding hex2metabin merge_snippets append_snippets
converted = refl

source-Mergeable : Mergeable takes_all 0x3A00 (boot_loader ∷ []) source binary
source-Mergeable = record {
  some_ldr = λ h. cc;
  ldr_below = (omega arith, tt);
  ldr_taken = (refl, tt);
  user_taken = (refl, (refl, tt));
  ordered = (omega arith, tt);
  has_code = refl;
  short = omega arith;
}

slot_merge-hex2metabin_example :
    (e2 : List ℕ) × (slot_merge sum_crc takes_all 255 0x3800 0x200
        (boot_loader ∷ [])
        files.meta
        source
        []
      ≡ some (record { e2 = e2; done = true }))
    × (drop 0x3A00 e2 ≡ binary)
slot_merge-hex2metabin_example =
    slot_merge-hex2metabin sum_crc takes_all options (boot_loader ∷ []) source [] files converted
      source-Mergeable (omega arith) (omega arith)

-- A flash that holds a list of bytes from 0 on.
abbrev flash_of : List ℕ → ℕ → ℕ
flash_of xs i = get_or xs i 0

window-flash_of :
    (m : ℕ → ℕ) (a : ℕ) (xs : List ℕ)
    → ((i : ℕ) → m (a + i) ≡ flash_of xs i)
    → window m a (length xs) ≡ xs
window-flash_of m a [] h = refl
window-flash_of m a (x ∷ xs) h =
    let here : m a ≡ x = ap m (omega arith) ∙ h 0 in
    ap (◌∷◌ (m a)) (window-flash_of m (a + 1) xs (λ i. ap m (omega arith) ∙ h (suc i)))
    ∙ ap (λ y. y ∷ xs) here

merged_source :
    (e2 : List ℕ) × (slot_merge sum_crc takes_all 255 0x3800 0x200
        (boot_loader ∷ [])
        files.meta
        source
        []
      ≡ some (record { e2 = e2; done = true }))
    × (drop 0x3A00 e2 ≡ binary)
merged_source =
    slot_merge-hex2metabin sum_crc takes_all options (boot_loader ∷ []) source [] files converted
      source-Mergeable (omega arith) (omega arith)

abbrev merged : List ℕ
merged = merged_source.0

abbrev merged_image : Opened
merged_image = record { e2 = merged; done = true }

slot_merge_boots_example :
    (read_meta sum_crc nor_chip rom_chip (flash_of merged) ≡ app_at files.meta 0)
    × ((app_at files.meta 0).size ≡ length merged - iap_addr_app_start)
    × (check_onchip_factory_metadata sum_crc nor_chip rom_chip (flash_of merged) ≡ true)
slot_merge_boots_example =
    slot_merge_boots sum_crc nor_chip rom_chip takes_all 255 (boot_loader ∷ []) files.meta source []
      merged_image (flash_of merged) merged_source.1 refl
      (window-flash_of (flash_of merged) 0 merged (λ i. ap (flash_of merged) (omega arith)))

slot_patch-slot_open_hex_example :
    (slot_open_hex takes_all 255 source [] >>= λ opened. slot_patch 0x3800 0x200 opened.e2)
    ≡ some (record { e2 = binary; done = true })
slot_patch-slot_open_hex_example =
    slot_patch-slot_open_hex sum_crc takes_all options jump code [] [] files converted
      (refl, (refl, tt)) (omega arith, tt) (omega arith) (omega arith)
