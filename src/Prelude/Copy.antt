-- ===== src/Prelude/Copy.antt =====
-- Copies of several bytes into a buffer, and buffers of zeros.
use Prim.Native.Nat.{ℕ, zero, suc, ◌+◌, ◌<◌}
use mathlib.Core.Path.{◌≡◌, refl, sym, ap, ◌∙◌}
use mathlib.Core.Logic.{inl, inr}
use mathlib.Core.List.{List, [], ◌∷◌, ◌++◌}
use mathlib.Core.Option.{Option, none, some}
use native.Mathlib.Omega.{arith}
use stc_isp_demo.Prelude.Tests.{◌>>=◌, Option-cases}
use stc_isp_demo.Prelude.Lists.{
  length, length-append, length-write, append_snoc, write, write-append, write_past,
}

abbrev pub zeros : ℕ → List ℕ
zeros zero = []
zeros (suc n) = 0 ∷ zeros n

-- `memcpy(&tx.buf[o], bs, length bs)`; `none` is a copy past the end of the buffer.
abbrev pub copy : ℕ → List ℕ → List ℕ → Option (List ℕ)
copy o [] buf = some buf
copy o (b ∷ bs) buf = do next ← write buf o b; copy (o + 1) bs next

pub length-zeros : (n : ℕ) → length (zeros n) ≡ n
length-zeros zero = refl
length-zeros (suc n) = ap suc (length-zeros n)

pub zeros-add : (n m : ℕ) → zeros (n + m) ≡ zeros n ++ zeros m
zeros-add zero m = ground arith
zeros-add (suc n) m =
    let e : suc n + m ≡ suc (n + m) = omega arith in rw e (ap (◌∷◌ 0) (zeros-add n m))

-- A copy replaces as many elements as it has.
pub copy-append :
    (bs pre dst suf : List ℕ) (o : ℕ)
    → o ≡ length pre
    → length dst ≡ length bs
    → copy o bs (pre ++ (dst ++ suf)) ≡ some (pre ++ (bs ++ suf))
copy-append [] pre [] suf o e h = refl
copy-append [] pre (d ∷ dst) suf o e h = absurd (omega arith)
copy-append (b ∷ bs) pre [] suf o e h = absurd (omega arith)
copy-append (b ∷ bs) pre (d ∷ dst) suf o e h =
    let ih =
      copy-append bs (pre ++ (b ∷ [])) dst suf (o + 1)
        (omega (arith, e, length-append pre (b ∷ []))) (omega arith) in
    let there : write (pre ++ (d ∷ (dst ++ suf))) o b ≡ some (pre ++ (b ∷ (dst ++ suf))) =
      rw e (write-append pre d (dst ++ suf) b) in
    rw (there) (
      ap (copy (o + 1) bs) (sym (append_snoc pre b (dst ++ suf)))
      ∙ ih
      ∙ ap {A = List ℕ} some (append_snoc pre b (bs ++ suf)))

-- A copy in two parts.
pub copy-two :
    (xs ys : List ℕ) (o n : ℕ) (buf : List ℕ)
    → n ≡ o + length xs
    → (copy o xs buf >>= copy n ys) ≡ copy o (xs ++ ys) buf
copy-two [] ys o n buf e = rw e (ap (λ k. copy k ys buf) (omega arith))
copy-two (x ∷ xs) ys o n buf e = elim (Option-cases (write buf o x)) [
  | inl w ↦ rw w refl
  | inr (next, w) ↦ rw w (copy-two xs ys (o + 1) n next (omega (arith, e)))
]

pub copy_past :
    (bs : List ℕ) (o : ℕ) (buf : List ℕ)
    → length buf < o + length bs
    → 0 < length bs
    → copy o bs buf ≡ none
copy_past [] o buf h p = absurd (omega arith)
copy_past (b ∷ []) o buf h p = rw (write_past buf o b (omega arith)) refl
copy_past (b ∷ c ∷ bs) o buf h p = elim (Option-cases (write buf o b)) [
  | inl w ↦ rw w refl
  | inr (next, w) ↦ rw w (
      copy_past (c ∷ bs) (o + 1) next (omega (arith, h, length-write buf o b next w)) (omega arith))
]
