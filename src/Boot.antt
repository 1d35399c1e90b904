-- ===== src/Boot.antt =====
-- The boot decision of bootloader/src/main.c: which application image is loaded from the external
-- flash, and whether the application is started. Addresses of both flashes stay far below 2 ^ 32,
-- so sums of addresses are plain sums.
pub mod Blocks
mod Guards
pub mod Load
pub mod Select
pub mod Start
pub mod Factory
use stc_isp_demo.Prelude.{
  ℕ, zero, suc, ◌+◌, ◌-◌, ◌*◌, ◌/◌, ◌%◌, Bool, true, false, not, ◌&&◌, ◌||◌, List, [], ◌∷◌, Option,
  none, some, ◌==◌, ltb, leb, if◌then◌else◌, same_bytes,
}
use stc_isp_demo.Layout.{
  app_max_size, iap_addr_app_start, get_norflash_app_addr, flash_app_id_factory, flash_app_id_app1,
  flash_app_id_app2, flash_app_id_max,
}
use stc_isp_demo.Device.Crc.{Crc32}
use stc_isp_demo.Device.Nor.{Nor, norflash_page_size}
use stc_isp_demo.Device.Rom.{Rom, iap_page_size}
use stc_isp_demo.OtaInfo.{
  AppInfo, OtaInfo, OtaId, flip, findout_which_ota_info_is_older, read_info, write_info,
}

-- `sysctx.st`, `ota_info` and the two flashes
pub record Board (nor : Nor) (rom : Rom) : Type 0 where
  pub dfu : Bool
  pub ldr : Bool
  pub onchip_app_valid : Bool
  pub appid : ℕ
  pub otaid : OtaId
  pub ota_info : OtaInfo
  pub flash : nor.State
  pub chip : rom.State

-- The lengths of the blocks in which a loop
-- `for (i = 0; i < size;) { len = min(size - i, most); ...; i += len; }` goes through `left` bytes.
-- Each block has a byte or more, so `left` rounds are enough.
unfoldable pub blocks_in : ℕ → ℕ → ℕ → List ℕ
blocks_in zero most left = []
blocks_in (suc fuel) most left =
    let len = if ltb most left then most else left in
    let rest = len ∷ blocks_in fuel most (left - len) in if left == 0 then [] else rest

abbrev pub blocks : ℕ → ℕ → List ℕ
blocks most left = blocks_in left most left

-- `if (++fail_times < 30) continue; else return false;`: the failures that are still forgiven
unfoldable pub fail_times_max : ℕ
fail_times_max = 29

-- The record that `papp` points to.
abbrev pub app_of : ℕ → OtaInfo → AppInfo
app_of appid i =
    if appid == flash_app_id_factory
    then i.factory
    else if appid == flash_app_id_app1
    then i.app1
    else i.app2

-- the pages from IAP_ADDR_APP_START to IAP_ADDR_APP_END
unfoldable pub app_pages : ℕ
app_pages = app_max_size / iap_page_size

module _ (crc : Crc32) (nor : Nor) (rom : Rom) where
  -- the loop under `validate crc`
  unfoldable pub sum_blocks : List ℕ → ℕ → ℕ → nor.State → ℕ
  sum_blocks [] a c s = c
  sum_blocks (len ∷ ls) a c s = sum_blocks ls (a + len) (crc.update c (nor.read a len s)) s

  -- the loop that compares the image with the on-chip application; `none` is the `break`
  unfoldable pub compare_blocks : List ℕ → ℕ → ℕ → ℕ → nor.State → rom.State → Option ℕ
  compare_blocks [] fa ia c s r = some c
  compare_blocks (len ∷ ls) fa ia c s r =
      let chip = rom.read_bytes ia len r in
      let rest = compare_blocks ls (fa + len) (ia + len) (crc.update c chip) s r in
      if same_bytes (nor.read fa len s) chip then rest else none

  -- the loop that erases `n` pages from `ia` on; a failed page is tried again
  unfoldable pub erase_pages : ℕ → ℕ → ℕ → rom.State → Bool × rom.State
  erase_pages zero tries ia r = (true, r)
  erase_pages (suc n) zero ia r =
      let done = rom.erase_page_check ia r in
      let rest = erase_pages n zero (ia + iap_page_size) done.1 in
      if done.0 then rest else (false, done.1)
  erase_pages (suc n) (suc tries) ia r =
      let done = rom.erase_page_check ia r in
      let rest = erase_pages n (suc tries) (ia + iap_page_size) done.1 in
      let again = erase_pages (suc n) tries ia done.1 in if done.0 then rest else again

  -- the loop that programs the image; a failed block is written again
  unfoldable pub program_blocks : List ℕ → ℕ → ℕ → ℕ → nor.State → rom.State → Bool × rom.State
  program_blocks [] tries ia fa s r = (true, r)
  program_blocks (len ∷ ls) zero ia fa s r =
      let done = rom.write_bytes_check ia (nor.read fa len s) r in
      let rest = program_blocks ls zero (ia + len) (fa + len) s done.1 in
      if done.0 then rest else (false, done.1)
  program_blocks (len ∷ ls) (suc tries) ia fa s r =
      let done = rom.write_bytes_check ia (nor.read fa len s) r in
      let rest = program_blocks ls (suc tries) (ia + len) (fa + len) s done.1 in
      let again = program_blocks (len ∷ ls) tries ia fa s done.1 in if done.0 then rest else again

  -- `need_copy_flash_to_chip` for an image of check sum `sum` at `fa`
  unfoldable pub need_copy : Board nor rom → AppInfo → ℕ → Bool
  unfolding compare_blocks
  need_copy b papp fa =
      if b.onchip_app_valid
      then elim (compare_blocks (blocks (norflash_page_size / 2) papp.size) fa iap_addr_app_start
          crc.init b.flash b.chip) [ none ↦ true | some c ↦ not (crc.finalize c == papp.crc) ]
      else false

  unfoldable pub copy_to_chip : Board nor rom → AppInfo → ℕ → Bool × Board nor rom
  unfolding erase_pages program_blocks
  copy_to_chip b papp fa =
      let erased = erase_pages app_pages fail_times_max iap_addr_app_start b.chip in
      let programmed =
        program_blocks (blocks norflash_page_size papp.size) fail_times_max iap_addr_app_start fa
          b.flash erased.1 in
      if erased.0
      then (programmed.0, record b { chip = programmed.1 })
      else (false, record b { chip = erased.1 })

  unfoldable pub try_load_flash_app : ℕ → Board nor rom → Bool × Board nor rom
  unfolding sum_blocks need_copy copy_to_chip
  try_load_flash_app appid b =
      let papp = app_of appid b.ota_info in
      let fa = get_norflash_app_addr appid in
      let sum =
        crc.finalize (sum_blocks (blocks norflash_page_size papp.size) fa crc.init b.flash) in
      if papp.size == 0 || ltb app_max_size papp.size
      then (false, b)
      else if not (sum == papp.crc)
      then (false, b)
      else if need_copy b papp fa
      then copy_to_chip b papp fa
      else (true, b)
