-- ===== src/Host/Convert/Patched.antt =====
-- Opening a hex file and slotPatch in programmer/programmer/programmer.cpp make the binary that
-- programmer/hex2metabin/main.cpp makes.
use stc_isp_demo.Prelude.{
  ℕ, ◌+◌, ◌-◌, ◌≤◌, ◌<◌, ◌≡◌, ◌∙◌, refl, sym, ap, subst, arith, Bool, true, false, List, [], ◌∷◌,
  ◌++◌, append_assoc, append-nil, none, some, ◌>>=◌, length, length-append, copy, copy-append, ltb,
  if◌then◌else◌,
}
use stc_isp_demo.Device.Crc.{Crc32}
use stc_isp_demo.OtaClient.{u32}
use stc_isp_demo.Host.Image.{
  Snippet, e2_max_size, filled, image_size, place, ldr_meta, slot_open_hex, slot_patch,
}
use stc_isp_demo.Host.Image.Place.{filled-add, length-filled}
use stc_isp_demo.Host.Image.Patch.{slot_patch_lem}
use stc_isp_demo.Host.Convert.{Options, Files, append_snippets, merge_snippets, hex2metabin}
use stc_isp_demo.Host.Convert.Merged.{
  Disassembled, InOrder, next, append_next, length-append_snippets, image_size-ordered,
  place-ordered,
}
use stc_isp_demo.Host.Convert.RoundTrip.{hex2metabin_lem, first_snippet}

three_of_length : (xs : List ℕ) → length xs ≡ 3 → (x y z : ℕ) × (xs ≡ x ∷ (y ∷ (z ∷ [])))
three_of_length [] h = absurd (omega arith)
three_of_length (x ∷ []) h = absurd (omega arith)
three_of_length (x ∷ y ∷ []) h = absurd (omega arith)
three_of_length (x ∷ y ∷ z ∷ []) h = (x, y, z, refl)
three_of_length (x ∷ y ∷ z ∷ w ∷ xs) h = absurd (omega arith)

module _ (a fill : ℕ) where
  -- What is appended depends on the length of what is there only.
  same_tail :
      (xs ys : List ℕ) (ss : List Snippet)
      → length xs ≡ length ys
      → (tail : List ℕ) × (append_snippets a fill xs ss ≡ xs ++ tail)
        × (append_snippets a fill ys ss ≡ ys ++ tail)
  unfolding append_snippets
  same_tail xs ys [] h = ([], sym (append-nil xs), sym (append-nil ys))
  same_tail xs ys (s ∷ ss) h =
      let g = filled (s.addr - (length xs + a)) fill in
      let gap : next a fill ys s ≡ (ys ++ g) ++ s.dat =
        ap (λ k. (ys ++ filled (s.addr - (k + a)) fill) ++ s.dat) (sym h) in
      let (tail, e, f) = same_tail ((xs ++ g) ++ s.dat) ((ys ++ g) ++ s.dat) ss (
        omega (
          arith,
          h,
          length-append (xs ++ g) s.dat,
          length-append xs g,
          length-append (ys ++ g) s.dat,
          length-append ys g,
        )) in
      (
        g ++ (s.dat ++ tail),
        append_next a fill xs s ss ∙ e ∙ regroup xs g s.dat tail,
        append_next a fill ys s ss
            ∙ ap (λ b. append_snippets a fill b ss) gap
            ∙ f
            ∙ regroup ys g s.dat tail,
      )
    where
      regroup : (xs g d tail : List ℕ) → ((xs ++ g) ++ d) ++ tail ≡ xs ++ (g ++ (d ++ tail))
      regroup xs g d tail = append_assoc (xs ++ g) d tail ∙ append_assoc xs g (d ++ tail)

  -- The size of the image of all snippets, the first one at 0.
  size_found :
      (disasm : ℕ → List ℕ → Bool) (s t : Snippet) (ts : List Snippet)
      → s.addr ≡ 0
      → length s.dat ≡ 3
      → Disassembled disasm (s ∷ (t ∷ ts))
      → InOrder (a + 3) (t ∷ ts)
      → image_size disasm 0 (s ∷ (t ∷ ts))
        ≡ some (length (append_snippets a fill s.dat (t ∷ ts)) + a)
  unfolding image_size
  size_found disasm s t ts z l d o =
      let end = t.addr + length t.dat in
      let first = s.addr + length s.dat in
      let size : ℕ = if ltb 0 first then first else 0 in
      let e : (if ltb size end then end else size)
          ≡ (if ltb (length s.dat + a) end then end else length s.dat + a) =
        ground (arith, z, l, o.0) in
      let same : image_size disasm size (t ∷ ts) ≡ image_size disasm (length s.dat + a) (t ∷ ts) =
        ap (λ i. if disasm t.addr t.dat then image_size disasm i ts else none) e in
      let order : InOrder (length s.dat + a) (t ∷ ts) =
        subst (λ i. InOrder i (t ∷ ts)) {x = a + 3} (omega (arith, l)) o in
      rw (d.0) (same ∙ image_size-ordered a fill disasm s.dat (t ∷ ts) order d.1)

  -- The image of all snippets: the first instruction, bytes to fill, and from `a` on what the
  -- converter makes of the others.
  image_placed :
      (s : Snippet) (ts : List Snippet) (n : ℕ)
      → s.addr ≡ 0
      → length s.dat ≡ 3
      → 3 ≤ a
      → InOrder (a + 3) ts
      → n ≡ length (append_snippets a fill s.dat ts)
      → place (s ∷ ts) (filled (n + a) fill)
        ≡ some ((s.dat ++ filled (a - 3) fill) ++ append_snippets a fill (filled 3 fill) ts)
  unfolding place
  image_placed s ts n z l h o e =
      let long = length-append_snippets a fill s.dat ts in
      let k = n - 3 in
      let (tail, u, v) = same_tail (filled 3 fill) s.dat ts (sym l) in
      let split : filled (n + a) fill
          ≡ filled 3 fill ++ (filled (a - 3) fill ++ (filled 3 fill ++ filled k fill)) =
        ap (λ i. filled i fill) {x = n + a} {y = 3 + (a - 3 + (3 + k))}
          (omega (arith, long, e, l, h))
        ∙ filled-add 3 (a - 3 + (3 + k)) fill
        ∙ ap (◌++◌ (filled 3 fill)) (
            filled-add (a - 3) (3 + k) fill
            ∙ ap (◌++◌ (filled (a - 3) fill)) (filled-add 3 k fill)) in
      let rest = filled (a - 3) fill ++ (filled 3 fill ++ filled k fill) in
      let pre = s.dat ++ filled (a - 3) fill in
      let front : copy s.addr s.dat (filled (n + a) fill)
          ≡ some (pre ++ (filled 3 fill ++ filled k fill)) =
        ap (copy s.addr s.dat) split
        ∙ copy-append s.dat [] (filled 3 fill) rest s.addr z (sym l)
        ∙ ap (λ x. some x)
            (sym (append_assoc s.dat (filled (a - 3) fill) (filled 3 fill ++ filled k fill))) in
      rw front (
        place-ordered a fill pre (filled 3 fill) k ts
          (omega
            (arith, length-append s.dat (filled (a - 3) fill), length-filled (a - 3) fill, l, h))
          (subst (λ i. InOrder i ts) {x = a + 3} (omega arith) o)
          (omega (
            arith,
            e,
            long,
            l,
            ap length u,
            ap length v,
            length-append (filled 3 fill) tail,
            length-append s.dat tail,
          )))

  -- slotPatch on that image.
  image_patched :
      (ldr_size meta_size : ℕ) (s : Snippet) (ts : List Snippet)
      → ldr_meta ldr_size meta_size ≡ a
      → length s.dat ≡ 3
      → 3 ≤ a
      → slot_patch ldr_size meta_size
          ((s.dat ++ filled (a - 3) fill) ++ append_snippets a fill (filled 3 fill) ts)
        ≡ some (record { e2 = append_snippets a fill s.dat ts; done = true })
  image_patched ldr_size meta_size s ts by l h =
      let (x, y, z, e) = three_of_length s.dat l in
      let (tail, u, v) = same_tail (filled 3 fill) s.dat ts (sym l) in
      let mid = filled (a - 3) fill in
      slot_patch_lem ldr_size meta_size x y z fill fill fill mid tail
        ((s.dat ++ mid) ++ append_snippets a fill (filled 3 fill) ts)
        (omega (arith, length-filled (a - 3) fill, by, h))
        (ap (λ w. (s.dat ++ mid) ++ w) u
          ∙ append_assoc s.dat mid (filled 3 fill ++ tail)
          ∙ ap (λ w. w ++ (mid ++ (filled 3 fill ++ tail))) e)
      ∙ ap (λ w. some (record { e2 = w; done = true })) (ap (λ w. w ++ tail) (sym e) ∙ sym v)

slot_open_hex_lem :
    (disasm : ℕ → List ℕ → Bool) (filler size : ℕ) (ss : List Snippet) (e2 image : List ℕ)
    → image_size disasm 0 ss ≡ some size
    → ltb e2_max_size size ≡ false
    → place ss (filled size filler) ≡ some image
    → slot_open_hex disasm filler ss e2 ≡ some (record { e2 = image; done = true })
unfolding slot_open_hex
slot_open_hex_lem disasm filler size ss e2 image n fits p =
    rw (n, slot_open_hex) (rw fits (rw p refl))

module _ (crc : Crc32) where
  -- An application that the converter takes, with at least two snippets, its snippets in order, all
  -- of them accepted by the disassembler, and of a size that fits the chip. Then opening its hex
  -- file with the same byte for the gaps and patching it for the same sizes gives the converter's
  -- binary.
  pub slot_patch-slot_open_hex :
      (disasm : ℕ → List ℕ → Bool) (o : Options) (s t : Snippet) (ts : List Snippet) (e2 : List ℕ)
      (f : Files)
      → hex2metabin crc o (s ∷ (t ∷ ts)) ≡ some f
      → Disassembled disasm (s ∷ (t ∷ ts))
      → InOrder (o.ldr_size + o.meta_size + 3) (t ∷ ts)
      → 3 ≤ o.ldr_size + o.meta_size
      → o.ldr_size + o.meta_size + length f.bin ≤ e2_max_size
      → (slot_open_hex disasm o.fill_value (s ∷ (t ∷ ts)) e2 >>= λ opened.
          slot_patch o.ldr_size o.meta_size opened.e2)
        ≡ some (record { e2 = f.bin; done = true })
  unfolding merge_snippets
  slot_patch-slot_open_hex disasm o s t ts e2 f h d i r m =
      let a = o.ldr_size + o.meta_size in
      let fill = o.fill_value in
      let us = t ∷ ts in
      let k = hex2metabin_lem crc o (s ∷ us) f h in
      let (z, l) = first_snippet (u32 a) s us k.0 in
      let far : a < 65536 =
        omega (arith, ap length k.1, length-append_snippets (u32 a) fill s.dat us, l, m) in
      let wide : u32 a ≡ a = omega (arith, far) in
      let bin : f.bin ≡ append_snippets a fill s.dat us =
        k.1 ∙ ap (λ j. append_snippets j fill s.dat us) wide in
      let n = length (append_snippets a fill s.dat us) in
      let fits : ltb e2_max_size (n + a) ≡ false = ground (arith, m, ap length bin) in
      ap (λ q. q >>= λ opened. slot_patch o.ldr_size o.meta_size opened.e2)
        (slot_open_hex_lem disasm fill (n + a) (s ∷ us) e2 _
          (size_found a fill disasm s t ts z l d i) fits (image_placed a fill s us n z l r i refl))
      ∙ image_patched a fill o.ldr_size o.meta_size s us (omega (arith, far)) l r
      ∙ ap (λ w. some (record { e2 = w; done = true })) (sym bin)
