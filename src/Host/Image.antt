-- ===== src/Host/Image.antt =====
-- Images of the on-chip flash in the main window of the programmer: slotOpen for a hex file,
-- slotPatch and slotMerge of programmer/programmer/programmer.cpp. The hex parser and the
-- disassembler are other projects' code: the snippets of a file and the disassembler's verdict are
-- arguments.
pub mod Place
pub mod Boots
pub mod Patch
use stc_isp_demo.Prelude.{
  ℕ, zero, suc, ◌+◌, ◌-◌, ◌*◌, ◌%◌, Bool, true, false, not, ◌||◌, List, [], ◌∷◌, ◌++◌, Option, none,
  some, ◌>>=◌, length, take, drop, get_or, write, copy, ◌==◌, ltb, leb, if◌then◌else◌,
}
use stc_isp_demo.Device.Crc.{Crc32, crc_of}
use stc_isp_demo.OtaInfo.{app_at}

-- `jlib::hex80_code_snippet_t`: bytes that follow one another, from an address on
pub record Snippet : Type 0 where
  pub addr : ℕ
  pub dat : List ℕ

-- `E2_MAX_SIZE`
abbrev pub e2_max_size : ℕ
e2_max_size = 0x10000

abbrev pub filled : ℕ → ℕ → List ℕ
filled zero v = []
filled (suc n) v = v ∷ filled n v

-- The loop over the snippets that finds the size of the image; `none` is a snippet that the
-- disassembler refuses.
unfoldable pub image_size : (ℕ → List ℕ → Bool) → ℕ → List Snippet → Option ℕ
image_size disasm size [] = some size
image_size disasm size (s ∷ ss) =
    let end = s.addr + length s.dat in
    let rest = image_size disasm (if ltb size end then end else size) ss in
    if disasm s.addr s.dat then rest else none

-- The loop that copies the snippets; `none` is a copy past the end of the image.
unfoldable pub place : List Snippet → List ℕ → Option (List ℕ)
place [] e2 = some e2
place (s ∷ ss) e2 = do next ← copy s.addr s.dat e2; place ss next

-- What a slot of the window leaves in `e2`, and whether it came to its end.
pub record Opened : Type 0 where
  pub e2 : List ℕ
  pub done : Bool

abbrev pub refused : List ℕ → Option Opened
refused e2 = some (record { e2 = e2; done = false })

-- `slotOpen` on the snippets of a hex file
unfoldable pub slot_open_hex : (ℕ → List ℕ → Bool) → ℕ → List Snippet → List ℕ → Option Opened
slot_open_hex disasm filler snippets e2 = elim (image_size disasm 0 snippets) [
  | none ↦ refused e2
  | some size ↦ if ltb e2_max_size size then refused e2 else (do
    image ← place snippets (filled size filler)
    some (record { e2 = image; done = true }))
]

-- `for (i = 0; i < valid_size; i++) e2[i] = e2[i + ldr_meta_size];`, from `i` on for `n` rounds
unfoldable pub move_down : ℕ → ℕ → ℕ → List ℕ → Option (List ℕ)
move_down zero i by e2 = some e2
move_down (suc n) i by e2 = do next ← write e2 i (get_or e2 (i + by) 0); move_down n (i + 1) by next

-- `ldr_size + meta_size` as a `uint16_t`
abbrev pub ldr_meta : ℕ → ℕ → ℕ
ldr_meta ldr_size meta_size = (ldr_size + meta_size) % 65536

-- `none` is a write past the end of `e2`, where Qt would make it longer with bytes that it leaves open.
unfoldable pub slot_patch : ℕ → ℕ → List ℕ → Option Opened
unfolding move_down
slot_patch ldr_size meta_size e2 =
    let by = ldr_meta ldr_size meta_size in
    let valid_size = length e2 - by in
    if leb (length e2) by then refused e2 else (do
      e2' ← write e2 by (get_or e2 0 0)
      e2'' ← write e2' (by + 1) (get_or e2' 1 0)
      e2''' ← write e2'' (by + 2) (get_or e2'' 2 0)
      moved ← move_down valid_size 0 by e2'''
      some (record { e2 = take valid_size moved; done = true }))

-- `ldr_snippets.back().addr + ldr_snippets.back().dat.size()`, of a list that is not empty
abbrev pub last_end : List Snippet → ℕ
last_end [] = 0
last_end (s ∷ []) = s.addr + length s.dat
last_end (s ∷ t ∷ ss) = last_end (t ∷ ss)

abbrev pub no_ldr : ℕ → List Snippet → Bool
no_ldr by [] = true
no_ldr by (s ∷ ss) = ltb by (last_end (s ∷ ss))

-- The tests of the user's snippets.
abbrev pub no_app_code : ℕ → List Snippet → Bool
no_app_code by [] = true
no_app_code by (s ∷ []) = true
no_app_code by (s ∷ t ∷ ss) =
    not (s.addr == 0)
    || not (length s.dat == 3)
    || not (get_or s.dat 0 0 == 2)
    || ltb (get_or s.dat 1 0 * 256 + get_or s.dat 2 0) (by + 3)

-- `user_snippets[0].addr += ldr_meta_size;`
abbrev pub moved_up : ℕ → List Snippet → List Snippet
moved_up by [] = []
moved_up by (s ∷ ss) = record s { addr = s.addr + by } ∷ ss

module _ (crc : Crc32) where
  -- The block "verify and copy meta data", on an image with the snippets in it.
  unfoldable pub put_meta : ℕ → ℕ → List ℕ → List ℕ → Option Opened
  put_meta ldr_size by mdat e2 =
      let meta = app_at mdat 0 in
      let my_app_size = (length e2 - by) % 65536 in
      if not (meta.size == my_app_size)
      then refused e2
      else if not (meta.crc == crc_of crc (take my_app_size (drop by e2)))
      then refused e2
      else (do image ← copy ldr_size mdat e2; some (record { e2 = image; done = true }))

  -- `slotMerge` on the snippets of the boot loader, the bytes of the metadata file and the snippets
  -- of the application; the window writes the image to a file when it is done.
  unfoldable pub slot_merge :
      (ℕ → List ℕ → Bool)
      → ℕ
      → ℕ
      → ℕ
      → List Snippet
      → List ℕ
      → List Snippet
      → List ℕ
      → Option Opened
  unfolding put_meta
  slot_merge disasm filler ldr_size meta_size ldr mdat user e2 =
      let by = ldr_meta ldr_size meta_size in
      let all_in_one = ldr ++ moved_up by user in
      if no_ldr by ldr
      then refused e2
      else if not (length mdat == 16) || ltb meta_size (length mdat)
      then refused e2
      else if no_app_code by user
      then refused e2
      else elim (image_size disasm 0 all_in_one) [
        | none ↦ refused e2
        | some size ↦
            if ltb e2_max_size size
            then refused e2
            else (do image ← place all_in_one (filled size filler); put_meta ldr_size by mdat image)
      ]
