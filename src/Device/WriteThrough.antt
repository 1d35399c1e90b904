-- ===== src/Device/WriteThrough.antt =====
-- norflash_write_no_check of common/bsp/norflash.c: a write of any length, split at the page ends.
use stc_isp_demo.Prelude.{
  ℕ, zero, suc, ◌+◌, ◌-◌, ◌%◌, ◌≤◌, ◌<◌, ◌≡◌, ◌⊎◌, ◌∙◌, inl, inr, refl, sym, ap, subst, arith,
  false, Bool-cases, List, [], ◌∷◌, ◌++◌, length, take, drop, length-take, length-drop,
  take-append-drop, ltb, ◌==◌, if◌then◌else◌,
}
use stc_isp_demo.Device.Memory.{window, window-add, window_ext, AllBytes}
use stc_isp_demo.Device.Nor.{Nor, FitsPage, nor_size, norflash_page_size}

-- `write_len` for `len` bytes from `a` on
abbrev pub write_len : ℕ → ℕ → ℕ
write_len a len =
    let page_remain = norflash_page_size - a % norflash_page_size in
    if ltb len page_remain then len else page_remain

pub take-AllBytes : (n : ℕ) (bs : List ℕ) → AllBytes bs → AllBytes (take n bs)
take-AllBytes zero bs h = tt
take-AllBytes (suc n) [] h = tt
take-AllBytes (suc n) (x ∷ bs) h = (h.0, take-AllBytes n bs h.1)

pub drop-AllBytes : (n : ℕ) (bs : List ℕ) → AllBytes bs → AllBytes (drop n bs)
drop-AllBytes zero bs h = h
drop-AllBytes (suc n) [] h = tt
drop-AllBytes (suc n) (x ∷ bs) h = drop-AllBytes n bs h.1

-- A step writes a byte or more, all of them inside one page.
write_len_lem :
    (a len : ℕ)
    → 0 < len
    → (0 < write_len a len)
      × (write_len a len ≤ len)
      × (a % norflash_page_size + write_len a len ≤ norflash_page_size)
write_len_lem a len h = ground arith

outside_rest :
    (i a len n k : ℕ) → n + k ≡ len → (i < a) ⊎ (a + len ≤ i) → (i < a + n) ⊎ (a + n + k ≤ i)
outside_rest i a len n k h (inl p) = inl (omega arith)
outside_rest i a len n k h (inr p) = inr (omega arith)

outside_first : (i a len n : ℕ) → n ≤ len → (i < a) ⊎ (a + len ≤ i) → (i < a) ⊎ (a + n ≤ i)
outside_first i a len n h (inl p) = inl p
outside_first i a len n h (inr p) = inr (omega arith)

module _ (nor : Nor) where
  -- `while (len > 0)`: each round writes a byte or more, so as many rounds as bytes are enough.
  unfoldable pub write_in : ℕ → ℕ → List ℕ → nor.State → nor.State
  write_in zero a bs s = s
  write_in (suc fuel) a bs s =
      let n = write_len a (length bs) in
      let rest = write_in fuel (a + n) (drop n bs) (nor.write_page a (take n bs) s) in
      if length bs == 0 then s else rest

  unfoldable pub norflash_write_no_check : ℕ → List ℕ → nor.State → nor.State
  norflash_write_no_check a bs s = write_in (length bs) a bs s

  -- Bytes outside the write stay.
  write_in_outside :
      (fuel a : ℕ) (bs : List ℕ) (s : nor.State) (i : ℕ)
      → a + length bs ≤ nor_size
      → (i < a) ⊎ (a + length bs ≤ i)
      → nor.byte_at (write_in fuel a bs s) i ≡ nor.byte_at s i
  unfolding write_in
  write_in_outside zero a bs s i h k = refl
  write_in_outside (suc fuel) a bs s i h k = elim (Bool-cases (length bs == 0)) [
    | inl e ↦ rw e refl
    | inr e ↦
        let n = write_len a (length bs) in
        let l = write_len_lem a (length bs) (ground (arith, e)) in
        let t = length-take n bs l.1 in
        let d = length-drop n bs in
        rw e (
          write_in_outside fuel (a + n) (drop n bs) (nor.write_page a (take n bs) s) i
            (omega (arith, d, l.1))
            (outside_rest i a (length bs) n (length (drop n bs)) (omega (arith, d, l.1)) k)
          ∙ nor.write_page_outside a (take n bs) s i (omega (arith, t, l.2)) (omega (arith, t, l.1))
              (outside_first i a (length bs) (length (take n bs)) (omega (arith, t, l.1)) k))
  ]

  write_in_step :
      (fuel a : ℕ) (bs : List ℕ) (s : nor.State)
      → 0 < length bs
      → write_in (suc fuel) a bs s
        ≡ write_in fuel
            (a + write_len a (length bs))
            (drop (write_len a (length bs)) bs)
            (nor.write_page a (take (write_len a (length bs)) bs) s)
  unfolding write_in
  write_in_step fuel a bs s h = let more : (length bs == 0) ≡ false = ground arith in rw more refl

  abbrev Blank : ℕ → ℕ → nor.State → Type 0
  Blank a n s = (i : ℕ) → a ≤ i → i < a + n → nor.byte_at s i ≡ 255

  write_in_lem :
      (fuel a : ℕ) (bs : List ℕ) (s : nor.State)
      → length bs ≤ fuel
      → a + length bs ≤ nor_size
      → AllBytes bs
      → Blank a (length bs) s
      → window (nor.byte_at (write_in fuel a bs s)) a (length bs) ≡ bs
  write_in_lem zero a [] s f h v b = refl
  write_in_lem zero a (x ∷ xs) s f h v b = absurd (omega arith)
  write_in_lem (suc fuel) a [] s f h v b = refl
  write_in_lem (suc fuel) a (x ∷ xs) s f h v b =
      let bs = x ∷ xs in
      let n = write_len a (length bs) in
      let l = write_len_lem a (length bs) (omega arith) in
      let t = length-take n bs l.1 in
      let d = length-drop n bs in
      let s1 = nor.write_page a (take n bs) s in
      let s2 = write_in fuel (a + n) (drop n bs) s1 in
      let fits : FitsPage a (take n bs) = omega (arith, t, l.2) in
      let room : a + length (take n bs) ≤ nor_size = omega (arith, t, l.1) in
      let first : window (nor.byte_at s2) a n ≡ take n bs =
        window_ext (nor.byte_at s2) (nor.byte_at s1) a n
          (λ i p q. write_in_outside fuel (a + n) (drop n bs) s1 i (omega (arith, d, l.1)) (inl q))
        ∙ subst (λ m. window (nor.byte_at s1) a m ≡ take n bs) t
            (nor.write_page_inside a (take n bs) s fits room (take-AllBytes n bs v)
              (λ i p q. b i p (omega (arith, t, l.1)))) in
      let blank : Blank (a + n) (length (drop n bs)) s1 = λ i p q.
        nor.write_page_outside a (take n bs) s i fits room (inr (omega (arith, t)))
        ∙ b i (omega arith) (omega (arith, d, l.1)) in
      let rest : window (nor.byte_at s2) (a + n) (length bs - n) ≡ drop n bs =
        subst (λ m. window (nor.byte_at s2) (a + n) m ≡ drop n bs) d
          (write_in_lem fuel (a + n) (drop n bs) s1 (omega (arith, d, l.0)) (omega (arith, d, l.1))
            (drop-AllBytes n bs v) blank) in
      let whole : n + (length bs - n) ≡ length bs = omega (arith, l.1) in
      ap (λ m. window (nor.byte_at m) a (length bs)) (write_in_step fuel a bs s (omega arith))
      ∙ subst (λ m. window (nor.byte_at s2) a m ≡ bs) whole
          (sym (window-add (nor.byte_at s2) a n (length bs - n))
            ∙ ap (◌++ window (nor.byte_at s2) (a + n) (length bs - n)) first
            ∙ ap (take n bs ++◌) rest
            ∙ take-append-drop n bs)

  -- A write of any length, to bytes that are blank, stores all its bytes, wherever the page ends
  -- fall, and leaves all other bytes as they were.
  pub norflash_write_no_check_lem :
      (a : ℕ) (bs : List ℕ) (s : nor.State)
      → a + length bs ≤ nor_size
      → AllBytes bs
      → ((i : ℕ) → a ≤ i → i < a + length bs → nor.byte_at s i ≡ 255)
      → (window (nor.byte_at (norflash_write_no_check a bs s)) a (length bs) ≡ bs)
        × ((i : ℕ)
            → (i < a) ⊎ (a + length bs ≤ i)
            → nor.byte_at (norflash_write_no_check a bs s) i ≡ nor.byte_at s i)
  unfolding norflash_write_no_check
  norflash_write_no_check_lem a bs s h v b = (
    write_in_lem (length bs) a bs s (omega arith) h v b,
    λ i k. write_in_outside (length bs) a bs s i h k,
  )
