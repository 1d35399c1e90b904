-- ===== src/Host/Convert/Accepted.antt =====
-- slotMerge of programmer/programmer/programmer.cpp takes what programmer/hex2metabin/main.cpp writes.
use stc_isp_demo.Prelude.{
  ℕ, ◌+◌, ◌-◌, ◌≤◌, ◌≡◌, ◌≢◌, ◌∙◌, sym, ap, subst, arith, Bool, false, List, [], ◌∷◌, ◌++◌, none,
  some, ◌>>=◌, length, ltb, if◌then◌else◌,
}
use stc_isp_demo.Host.Image.{Snippet, e2_max_size, filled, image_size, place, no_app_code, moved_up}
use stc_isp_demo.Host.Image.Place.{AllBelow, place-append, place-inside, filled-add, length-filled}
use stc_isp_demo.Host.Convert.{append_snippets, others}
use stc_isp_demo.Host.Convert.Merged.{
  Disassembled, InOrder, image_size-below, image_size-ordered, append_next, place-ordered,
}

-- What the snippets of a boot loader and of an application must be like for one image to hold
-- both: the boot loader is in front of `a`, and the application's snippets follow one another.
pub record Mergeable (disasm : ℕ → List ℕ → Bool) (a : ℕ) (ldr user : List Snippet) (bin : List ℕ)
    : Type 0 where
  pub some_ldr : ldr ≢ []
  pub ldr_below : AllBelow a ldr
  pub ldr_taken : Disassembled disasm ldr
  pub user_taken : Disassembled disasm (moved_up a user)
  pub ordered : InOrder (a + 3) (others user)
  pub has_code : no_app_code a user ≡ false
  pub short : a + length bin ≤ e2_max_size

module _ (disasm : ℕ → List ℕ → Bool) (a fill : ℕ) (ldr : List Snippet) (s : Snippet)
    (ts : List Snippet) (at_zero : s.addr ≡ 0) (jump : length s.dat ≡ 3) (bin : List ℕ)
    (appended : bin ≡ append_snippets a fill s.dat ts)
    (m : Mergeable disasm a ldr (s ∷ ts) bin) where
  moved_up-InOrder : InOrder (length {A = ℕ} [] + a) (moved_up a (s ∷ ts))
  moved_up-InOrder =
      let e : a + 3 ≡ s.addr + a + length s.dat = omega (arith, at_zero, jump) in
      (omega (arith, at_zero), subst (λ k. InOrder k ts) e m.ordered)

  append-moved_up : append_snippets a fill [] (moved_up a (s ∷ ts)) ≡ bin
  append-moved_up =
      let gap : s.addr + a - (length {A = ℕ} [] + a) ≡ 0 = omega (arith, at_zero) in
      append_next a fill [] (record s { addr = s.addr + a }) ts
      ∙ ap (λ k. append_snippets a fill (filled k fill ++ s.dat) ts) gap
      ∙ sym appended

  first_step :
      (k : ℕ)
      → k ≤ a
      → image_size disasm k (moved_up a (s ∷ ts))
        ≡ image_size disasm (length {A = ℕ} [] + a) (moved_up a (s ∷ ts))
  unfolding image_size
  first_step k h =
      let end = s.addr + a + length s.dat in
      let e : (if ltb k end then end else k)
          ≡ (if ltb (length {A = ℕ} [] + a) end then end else length {A = ℕ} [] + a) =
        ground (arith, h, jump) in
      ap (λ i. if disasm (s.addr + a) s.dat then image_size disasm i ts else none) e

  pub image_size_found : image_size disasm 0 (ldr ++ moved_up a (s ∷ ts)) ≡ some (length bin + a)
  image_size_found =
      let up = moved_up a (s ∷ ts) in
      let (k, e, l) = image_size-below disasm 0 a ldr up (omega arith) m.ldr_below m.ldr_taken in
      e
      ∙ first_step k l
      ∙ image_size-ordered a fill disasm [] up moved_up-InOrder m.user_taken
      ∙ ap (λ (x : List ℕ). some (length x + a)) append-moved_up

  pub placed :
      (pre : List ℕ) × (place (ldr ++ moved_up a (s ∷ ts)) (filled (length bin + a) fill)
        ≡ some (pre ++ bin))
      × (length pre ≡ a)
  placed =
      let up = moved_up a (s ∷ ts) in
      let n = length bin in
      let front = length-filled a fill in
      let (pre, e, l) =
        place-inside ldr (filled a fill) (filled n fill)
          (subst (λ k. AllBelow k ldr) (sym front) m.ldr_below) in
      let whole : filled (n + a) fill ≡ filled a fill ++ filled n fill =
        ap (λ k. filled k fill) {x = n + a} {y = a + n} (omega arith) ∙ filled-add a n fill in
      (
        pre,
        place-append ldr up (filled (n + a) fill)
            ∙ ap (λ x. place ldr x >>= place up) whole
            ∙ ap (λ x. x >>= place up) e
            ∙ place-ordered a fill pre [] n up (l ∙ front) moved_up-InOrder
                (omega (arith, ap length append-moved_up))
            ∙ ap (λ x. some (pre ++ x)) append-moved_up,
        l ∙ front,
      )
