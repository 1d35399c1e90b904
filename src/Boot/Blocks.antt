-- ===== src/Boot/Blocks.antt =====
-- The block loops of try_load_flash_app in bootloader/src/main.c: summing, comparing and programming
-- block by block.
use stc_isp_demo.Prelude.{
  ℕ, zero, suc, ◌+◌, ◌-◌, ◌≤◌, ◌<◌, ◌≡◌, ◌∙◌, inl, inr, refl, sym, ap, subst, arith, Bool, true,
  false, List, [], ◌∷◌, ◌++◌, Option, some, none, length, Bool-cases, same_bytes, same_bytes→eq,
  ltb, if◌then◌else◌,
}
use stc_isp_demo.Boot.{blocks_in, sum_blocks, compare_blocks, program_blocks}
use stc_isp_demo.Device.Crc.{Crc32, update-append}
use stc_isp_demo.Device.Memory.{window, length-window, window-add, window_ext}
use stc_isp_demo.Device.Nor.{Nor, nor_size}
use stc_isp_demo.Device.Rom.{Rom, rom_size}

-- The bytes that the blocks cover.
abbrev pub total : List ℕ → ℕ
total [] = 0
total (len ∷ ls) = len + total ls

-- A loop with a round for every byte covers all of them.
pub total-blocks_in :
    (fuel most left : ℕ) → 0 < most → left ≤ fuel → total (blocks_in fuel most left) ≡ left
unfolding blocks_in
total-blocks_in zero most left h le = omega arith
total-blocks_in (suc fuel) most left h le = elim (Bool-cases (ltb most left)) [
  | inl e ↦ rw e (ground (arith, total-blocks_in fuel most (left - most) h))
  | inr e ↦ rw e (ground (arith, total-blocks_in fuel most (left - left) h))
]

if_some :
    {A : Type 0} (t : Bool) (x : Option A) {k : A}
    → (if t then x else none) ≡ some k
    → (t ≡ true) × (x ≡ some k)
if_some true x h = (refl, h)
if_some false x h = cc

module _ (crc : Crc32) (nor : Nor) (rom : Rom) where
  -- Summing by blocks sums the whole image.
  pub sum_blocks_lem :
      (ls : List ℕ) (a c : ℕ) (s : nor.State)
      → a + total ls ≤ nor_size
      → sum_blocks crc nor rom ls a c s ≡ crc.update c (window (nor.byte_at s) a (total ls))
  unfolding sum_blocks
  sum_blocks_lem [] a c s b = sym (crc.update-nil c)
  sum_blocks_lem (len ∷ ls) a c s b =
      rw
        (
          nor.read_lem a len s (omega arith),
          sum_blocks_lem ls (a + len) (crc.update c (window (nor.byte_at s) a len)) s (omega arith),
          ← window-add (nor.byte_at s) a len (total ls),
        )
        (sym (
          update-append crc c (window (nor.byte_at s) a len)
            (window (nor.byte_at s) (a + len) (total ls))))

  -- A compare that finds no difference has compared every byte and summed them.
  pub compare_blocks_lem :
      (ls : List ℕ) (fa ia c k : ℕ) (s : nor.State) (r : rom.State)
      → fa + total ls ≤ nor_size
      → ia + total ls ≤ rom_size
      → compare_blocks crc nor rom ls fa ia c s r ≡ some k
      → window (rom.byte_at r) ia (total ls) ≡ window (nor.byte_at s) fa (total ls)
  unfolding compare_blocks
  compare_blocks_lem [] fa ia c k s r f g h = refl
  compare_blocks_lem (len ∷ ls) fa ia c k s r f g h =
      let both =
        if_some (same_bytes (nor.read fa len s) (rom.read_bytes ia len r))
          (compare_blocks crc nor rom ls (fa + len) (ia + len)
            (crc.update c (rom.read_bytes ia len r)) s r)
          h in
      let one : window (rom.byte_at r) ia len ≡ window (nor.byte_at s) fa len =
        sym (rom.read_lem ia len r (omega arith))
        ∙ sym (same_bytes→eq (nor.read fa len s) (rom.read_bytes ia len r) both.0)
        ∙ nor.read_lem fa len s (omega arith) in
      let rest =
        compare_blocks_lem ls (fa + len) (ia + len) (crc.update c (rom.read_bytes ia len r)) k s r
          (omega arith) (omega arith) both.1 in
      sym (window-add (rom.byte_at r) ia len (total ls))
      ∙ ap (◌++ window (rom.byte_at r) (ia + len) (total ls)) one
      ∙ ap (window (nor.byte_at s) fa len ++◌) rest
      ∙ window-add (nor.byte_at s) fa len (total ls)

  length-read :
      (fa len : ℕ) (s : nor.State) → fa + len ≤ nor_size → length (nor.read fa len s) ≡ len
  length-read fa len s h =
      ap length (nor.read_lem fa len s h) ∙ length-window (nor.byte_at s) fa len

  -- Programming touches no byte below its first address, whatever fails.
  pub program_below :
      (ls : List ℕ) (tries ia fa : ℕ) (s : nor.State) (r : rom.State) (i : ℕ)
      → fa + total ls ≤ nor_size
      → ia + total ls ≤ rom_size
      → i < ia
      → rom.byte_at (program_blocks crc nor rom ls tries ia fa s r).1 i ≡ rom.byte_at r i
  unfolding program_blocks
  program_below [] tries ia fa s r i f g h = refl
  program_below (len ∷ ls) zero ia fa s r i f g h =
      let bs = nor.read fa len s in
      let n = length-read fa len s (omega arith) in
      let out = rom.write_outside ia bs r i (omega (arith, n)) (inl h) in
      elim (Bool-cases (rom.write_bytes_check ia bs r).0) [
        | inl e ↦ rw e (
            program_below ls zero (ia + len) (fa + len) s (rom.write_bytes_check ia bs r).1 i
              (omega arith) (omega arith) (omega arith)
            ∙ out)
        | inr e ↦ rw e out
      ]
  program_below (len ∷ ls) (suc tries) ia fa s r i f g h =
      let bs = nor.read fa len s in
      let n = length-read fa len s (omega arith) in
      let out = rom.write_outside ia bs r i (omega (arith, n)) (inl h) in
      elim (Bool-cases (rom.write_bytes_check ia bs r).0) [
        | inl e ↦ rw e (
            program_below ls (suc tries) (ia + len) (fa + len) s (rom.write_bytes_check ia bs r).1 i
              (omega arith) (omega arith) (omega arith)
            ∙ out)
        | inr e ↦
            rw e (
              program_below (len ∷ ls) tries ia fa s (rom.write_bytes_check ia bs r).1 i f g h
              ∙ out)
      ]

  -- A written block stays while the blocks behind it are programmed.
  written_stays :
      (len : ℕ) (ls : List ℕ) (tries ia fa : ℕ) (s : nor.State) (r : rom.State)
      → fa + (len + total ls) ≤ nor_size
      → ia + (len + total ls) ≤ rom_size
      → (rom.write_bytes_check ia (nor.read fa len s) r).0 ≡ true
      → window
          (rom.byte_at
            (program_blocks crc nor rom ls tries
              (ia + len)
              (fa + len)
              s
              (rom.write_bytes_check ia (nor.read fa len s) r).1).1)
          (ia + len)
          (total ls)
        ≡ window (nor.byte_at s) (fa + len) (total ls)
      → window
          (rom.byte_at
            (program_blocks crc nor rom ls tries
              (ia + len)
              (fa + len)
              s
              (rom.write_bytes_check ia (nor.read fa len s) r).1).1)
          ia
          (len + total ls)
        ≡ window (nor.byte_at s) fa (len + total ls)
  written_stays len ls tries ia fa s r f g ok rest =
      let bs = nor.read fa len s in
      let r1 = (rom.write_bytes_check ia bs r).1 in
      let r2 = (program_blocks crc nor rom ls tries (ia + len) (fa + len) s r1).1 in
      let n : length bs ≡ len = length-read fa len s (omega arith) in
      let one : window (rom.byte_at r2) ia len ≡ window (nor.byte_at s) fa len =
        window_ext (rom.byte_at r2) (rom.byte_at r1) ia len (λ i p q.
          program_below ls tries (ia + len) (fa + len) s r1 i (omega arith) (omega arith) q)
        ∙ subst (λ m. window (rom.byte_at r1) ia m ≡ bs) n
            (rom.write_inside ia bs r (omega (arith, n)) ok)
        ∙ nor.read_lem fa len s (omega arith) in
      sym (window-add (rom.byte_at r2) ia len (total ls))
      ∙ ap (◌++ window (rom.byte_at r2) (ia + len) (total ls)) one
      ∙ ap (window (nor.byte_at s) fa len ++◌) rest
      ∙ window-add (nor.byte_at s) fa len (total ls)

  -- A programming loop that reports success has stored the image.
  pub program_blocks_lem :
      (ls : List ℕ) (tries ia fa : ℕ) (s : nor.State) (r : rom.State)
      → fa + total ls ≤ nor_size
      → ia + total ls ≤ rom_size
      → (program_blocks crc nor rom ls tries ia fa s r).0 ≡ true
      → window (rom.byte_at (program_blocks crc nor rom ls tries ia fa s r).1) ia (total ls)
        ≡ window (nor.byte_at s) fa (total ls)
  unfolding program_blocks
  program_blocks_lem [] tries ia fa s r f g h = refl
  program_blocks_lem (len ∷ ls) zero ia fa s r f g h =
      let d = rom.write_bytes_check ia (nor.read fa len s) r in
      elim (Bool-cases d.0) [
        | inl e ↦
            let ok =
              subst
                (λ t.
                  (if t
                    then program_blocks crc nor rom ls zero (ia + len) (fa + len) s d.1
                    else (false, d.1)).0
                  ≡ true)
                e h in
            rw e (
              written_stays len ls zero ia fa s r f g e (
                program_blocks_lem ls zero (ia + len) (fa + len) s d.1 (omega arith) (omega arith)
                  ok))
        | inr e ↦
            let bad : false ≡ true =
              subst
                (λ t.
                  (if t
                    then program_blocks crc nor rom ls zero (ia + len) (fa + len) s d.1
                    else (false, d.1)).0
                  ≡ true)
                e h in
            cc
      ]
  program_blocks_lem (len ∷ ls) (suc tries) ia fa s r f g h =
      let d = rom.write_bytes_check ia (nor.read fa len s) r in
      let go : Bool → Type 0 = λ t.
        (if t
          then program_blocks crc nor rom ls (suc tries) (ia + len) (fa + len) s d.1
          else program_blocks crc nor rom (len ∷ ls) tries ia fa s d.1).0
        ≡ true in
      elim (Bool-cases d.0) [
        | inl e ↦ rw e (
            written_stays len ls (suc tries) ia fa s r f g e (
              program_blocks_lem ls (suc tries) (ia + len) (fa + len) s d.1 (omega arith)
                (omega arith) (subst go e h)))
        | inr e ↦ rw e (program_blocks_lem (len ∷ ls) tries ia fa s d.1 f g (subst go e h))
      ]
