-- ===== src/Host/Convert/Merged.antt =====
-- The converter of programmer/hex2metabin/main.cpp and slotMerge of programmer/programmer/programmer.cpp
-- on the same application.
use stc_isp_demo.Prelude.{
  ℕ, ◌+◌, ◌-◌, ◌≤◌, ◌≡◌, ◌∙◌, refl, sym, ap, subst, arith, Bool, true, List, [], ◌∷◌, ◌++◌,
  append_assoc, append-nil, some, length, length-append, Bool-cases, inl, inr, copy, copy-append,
  ltb, if◌then◌else◌,
}
use stc_isp_demo.Host.Image.{Snippet, filled, image_size, place}
use stc_isp_demo.Host.Image.Place.{AllBelow, filled-add, length-filled}
use stc_isp_demo.Host.Convert.{append_snippets}

-- The disassembler takes every snippet.
abbrev pub Disassembled : (ℕ → List ℕ → Bool) → List Snippet → Type 0
Disassembled disasm [] = Unit
Disassembled disasm (s ∷ ss) = (disasm s.addr s.dat ≡ true) × Disassembled disasm ss

-- Every snippet begins at or behind the end of the one before; the first one, at or behind `a`.
abbrev pub InOrder : ℕ → List Snippet → Type 0
InOrder a [] = Unit
InOrder a (s ∷ ss) = (a ≤ s.addr) × InOrder (s.addr + length s.dat) ss

module _ (disasm : ℕ → List ℕ → Bool) where
  -- Snippets below `n` leave the size at most `n`.
  pub image_size-below :
      (m n : ℕ) (ss ts : List Snippet)
      → m ≤ n
      → AllBelow n ss
      → Disassembled disasm ss
      → (k : ℕ) × (image_size disasm m (ss ++ ts) ≡ image_size disasm k ts) × (k ≤ n)
  unfolding image_size
  image_size-below m n [] ts h b d = (m, refl, h)
  image_size-below m n (s ∷ ss) ts h b d =
      let end = s.addr + length s.dat in
      let (k, e, l) =
        image_size-below (if ltb m end then end else m) n ss ts (ground (arith, h, b.0)) b.1 d.1 in
      (k, rw d.0 e, l)

module _ (a fill : ℕ) where
  -- The bytes that fill a gap, none of them where there is no gap.
  padded :
      (bin : List ℕ) (at : ℕ)
      → (if ltb (length bin + a) at then bin ++ filled (at - (length bin + a)) fill else bin)
        ≡ bin ++ filled (at - (length bin + a)) fill
  padded bin at = elim (Bool-cases (ltb (length bin + a) at)) [
    | inl t ↦ rw t refl
    | inr t ↦
        let z : at - (length bin + a) ≡ 0 = ground (arith, t) in rw (t, z) (sym (append-nil bin))
  ]

  -- The binary with the next snippet behind it.
  abbrev pub next : List ℕ → Snippet → List ℕ
  next bin s = (bin ++ filled (s.addr - (length bin + a)) fill) ++ s.dat

  pub append_next :
      (bin : List ℕ) (s : Snippet) (ss : List Snippet)
      → append_snippets a fill bin (s ∷ ss) ≡ append_snippets a fill (next bin s) ss
  unfolding append_snippets
  append_next bin s ss = ap (λ x. append_snippets a fill (x ++ s.dat) ss) (padded bin s.addr)

  length-next :
      (bin : List ℕ) (s : Snippet)
      → length bin + a ≤ s.addr
      → length (next bin s) + a ≡ s.addr + length s.dat
  length-next bin s h =
      let g = s.addr - (length bin + a) in
      omega (
        arith,
        length-append (bin ++ filled g fill) s.dat,
        length-append bin (filled g fill),
        length-filled g fill,
      )

  pub image_size-ordered :
      (disasm : ℕ → List ℕ → Bool) (bin : List ℕ) (ss : List Snippet)
      → InOrder (length bin + a) ss
      → Disassembled disasm ss
      → image_size disasm (length bin + a) ss ≡ some (length (append_snippets a fill bin ss) + a)
  unfolding image_size append_snippets
  image_size-ordered disasm bin [] o d = refl
  image_size-ordered disasm bin (s ∷ ss) o d =
      let end = s.addr + length s.dat in
      let n = length-next bin s o.0 in
      let e : (if ltb (length bin + a) end then end else length bin + a) ≡ length (next bin s) + a =
        ground (arith, n, o.0) in
      rw (d.0) (
        ap (λ k. image_size disasm k ss) e
        ∙ image_size-ordered disasm (next bin s) ss (subst (λ k. InOrder k ss) (sym n) o.1) d.1
        ∙ ap (λ (x : List ℕ). some (length x + a)) (sym (append_next bin s ss)))

  pub length-append_snippets :
      (bin : List ℕ) (ss : List Snippet) → length bin ≤ length (append_snippets a fill bin ss)
  unfolding append_snippets
  length-append_snippets bin [] = omega arith
  length-append_snippets bin (s ∷ ss) =
      let g = s.addr - (length bin + a) in
      omega (
        arith,
        ap length (append_next bin s ss),
        length-append_snippets (next bin s) ss,
        length-append (bin ++ filled g fill) s.dat,
        length-append bin (filled g fill),
      )

  -- Copying the snippets into the filled image appends them.
  pub place-ordered :
      (pre bin : List ℕ) (k : ℕ) (ss : List Snippet)
      → length pre ≡ a
      → InOrder (length bin + a) ss
      → length bin + k ≡ length (append_snippets a fill bin ss)
      → place ss (pre ++ (bin ++ filled k fill)) ≡ some (pre ++ append_snippets a fill bin ss)
  unfolding place append_snippets
  place-ordered pre bin k [] p o h =
      let z : k ≡ 0 = omega (arith, h) in rw z (ap (λ x. some (pre ++ x)) (append-nil bin))
  place-ordered pre bin k (s ∷ ss) p o h =
      let g = s.addr - (length bin + a) in
      let n = length s.dat in
      let j = k - (g + n) in
      let m = length-next bin s o.0 in
      let room : g + n ≤ k = omega (
        arith,
        h,
        ap length (append_next bin s ss),
        length-append_snippets (next bin s) ss,
        m,
        o.0,
      ) in
      let front = pre ++ (bin ++ filled g fill) in
      let split : pre ++ (bin ++ filled k fill) ≡ front ++ (filled n fill ++ filled j fill) =
        let e : k ≡ g + (n + j) = omega (arith, room) in
        ap (λ x. pre ++ (bin ++ x))
          (ap (λ i. filled i fill) e
            ∙ filled-add g (n + j) fill
            ∙ ap (◌++◌ (filled g fill)) (filled-add n j fill))
        ∙ ap (◌++◌ pre) (sym (append_assoc bin (filled g fill) (filled n fill ++ filled j fill)))
        ∙ sym (append_assoc pre (bin ++ filled g fill) (filled n fill ++ filled j fill)) in
      let here : s.addr ≡ length front = omega (
        arith,
        p,
        o.0,
        length-append pre (bin ++ filled g fill),
        length-append bin (filled g fill),
        length-filled g fill,
      ) in
      let copied : copy s.addr s.dat (pre ++ (bin ++ filled k fill))
          ≡ some (pre ++ (next bin s ++ filled j fill)) =
        ap (copy s.addr s.dat) split
        ∙ copy-append s.dat front (filled n fill) (filled j fill) s.addr here (length-filled n fill)
        ∙ ap (λ x. some x)
            (append_assoc pre (bin ++ filled g fill) (s.dat ++ filled j fill)
              ∙ ap (◌++◌ pre) (sym (append_assoc (bin ++ filled g fill) s.dat (filled j fill)))) in
      let e = append_next bin s ss in
      rw copied (
        place-ordered pre (next bin s) j ss p (subst (λ i. InOrder i ss) (sym m) o.1)
          (omega (arith, h, ap length e, m, room, o.0))
        ∙ ap (λ x. some (pre ++ x)) (sym e))
