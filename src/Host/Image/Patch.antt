-- ===== src/Host/Image/Patch.antt =====
-- slotPatch of programmer/programmer/programmer.cpp: the first instruction of an application and the code
-- behind the boot loader's place become one binary.
use stc_isp_demo.Prelude.{
  ℕ, ◌+◌, ◌-◌, ◌<◌, ◌≡◌, ◌∙◌, refl, sym, ap, arith, true, false, List, [], ◌∷◌, ◌++◌, append_assoc,
  append-nil, append_snoc, some, length, length-append, take-append, get_or, get_or-append, write,
  write-append, leb,
}
use stc_isp_demo.Host.Image.{move_down, ldr_meta, slot_patch}

-- The loop moves what is left to do in front of what was there.
move_down_lem :
    (todo junk out : List ℕ) (i by : ℕ)
    → i ≡ length out
    → by ≡ length junk
    → 0 < by
    → (rest : List ℕ) × (move_down (length todo) i by (out ++ (junk ++ todo))
        ≡ some ((out ++ todo) ++ rest))
unfolding move_down
move_down_lem [] junk out i by e f p = (
  junk,
  ap (λ x. some x) (ap (◌++◌ out) (append-nil junk) ∙ ap (λ x. x ++ junk) (sym (append-nil out))),
)
move_down_lem (t ∷ todo) [] out i by e f p = absurd (omega arith)
move_down_lem (t ∷ todo) (j ∷ junk) out i by e f p =
    let regroup : out ++ (j ∷ (junk ++ (t ∷ todo))) ≡ (out ++ (j ∷ junk)) ++ (t ∷ todo) =
      sym (append_assoc out (j ∷ junk) (t ∷ todo)) in
    let read : get_or (out ++ (j ∷ (junk ++ (t ∷ todo)))) (i + by) 0 ≡ t =
      ap (λ x. get_or x (i + by) 0) regroup
      ∙ ap (λ k. get_or ((out ++ (j ∷ junk)) ++ (t ∷ todo)) k 0) {x = i + by}
          (omega (arith, length-append out (j ∷ junk), e, f))
      ∙ get_or-append (out ++ (j ∷ junk)) t todo 0 in
    let there : write (out ++ (j ∷ (junk ++ (t ∷ todo)))) i t
        ≡ some (out ++ (t ∷ (junk ++ (t ∷ todo)))) =
      ap (λ k. write (out ++ (j ∷ (junk ++ (t ∷ todo)))) k t) e
      ∙ write-append out j (junk ++ (t ∷ todo)) t in
    let shape : out ++ (t ∷ (junk ++ (t ∷ todo)))
        ≡ (out ++ (t ∷ [])) ++ ((junk ++ (t ∷ [])) ++ todo) =
      sym (append_snoc out t (junk ++ (t ∷ todo)))
      ∙ ap (◌++◌ (out ++ (t ∷ []))) (sym (append_snoc junk t todo)) in
    let (rest, ih) =
      move_down_lem todo (junk ++ (t ∷ [])) (out ++ (t ∷ [])) (i + 1) by
        (omega (arith, e, length-append out (t ∷ [])))
        (omega (arith, f, length-append junk (t ∷ []))) p in
    (
      rest,
      rw read (
          rw there (
            ap (move_down (length todo) (i + 1) by) shape
            ∙ ih
            ∙ ap (λ x. some (x ++ rest)) (append_snoc out t todo))),
    )

-- A write behind a front part.
write_at :
    (pre : List ℕ) (k a x : ℕ) (suf : List ℕ)
    → k ≡ length pre
    → write (pre ++ (a ∷ suf)) k x ≡ some (pre ++ (x ∷ suf))
write_at pre k a x suf e = ap (λ i. write (pre ++ (a ∷ suf)) i x) e ∙ write-append pre a suf x

-- The first three bytes replace those at the application's start, and the image begins there.
pub slot_patch_lem :
    (ldr_size meta_size x y z a b c : ℕ) (mid tail e2 : List ℕ)
    → length mid + 3 ≡ ldr_meta ldr_size meta_size
    → e2 ≡ x ∷ (y ∷ (z ∷ (mid ++ (a ∷ (b ∷ (c ∷ tail))))))
    → slot_patch ldr_size meta_size e2 ≡ some (record { e2 = x ∷ (y ∷ (z ∷ tail)); done = true })
unfolding slot_patch
slot_patch_lem ldr_size meta_size x y z a b c mid tail e2 h s =
    let by = ldr_meta ldr_size meta_size in
    let pre : List ℕ = x ∷ (y ∷ (z ∷ mid)) in
    let at : by ≡ length pre = omega (arith, h) in
    let todo : List ℕ = x ∷ (y ∷ (z ∷ tail)) in
    let n = length-append mid (a ∷ (b ∷ (c ∷ tail))) in
    let long : leb (length (pre ++ (a ∷ (b ∷ (c ∷ tail))))) by ≡ false = ground (arith, n, h) in
    let valid : length (pre ++ (a ∷ (b ∷ (c ∷ tail)))) - by ≡ length todo = omega (arith, n, h) in
    let one : write (pre ++ (a ∷ (b ∷ (c ∷ tail)))) by x ≡ some (pre ++ (x ∷ (b ∷ (c ∷ tail)))) =
      write_at pre by a x (b ∷ (c ∷ tail)) at in
    let two : write (pre ++ (x ∷ (b ∷ (c ∷ tail)))) (by + 1) y
        ≡ some (pre ++ (x ∷ (y ∷ (c ∷ tail)))) =
      ap (λ l. write l (by + 1) y) (sym (append_snoc pre x (b ∷ (c ∷ tail))))
      ∙ write_at (pre ++ (x ∷ [])) (by + 1) b y (c ∷ tail)
          (omega (arith, at, length-append pre (x ∷ [])))
      ∙ ap (λ l. some l) (append_snoc pre x (y ∷ (c ∷ tail))) in
    let three : write (pre ++ (x ∷ (y ∷ (c ∷ tail)))) (by + 2) z ≡ some (pre ++ todo) =
      ap (λ l. write l (by + 2) z) (sym (append_assoc pre (x ∷ (y ∷ [])) (c ∷ tail)))
      ∙ write_at (pre ++ (x ∷ (y ∷ []))) (by + 2) c z tail
          (omega (arith, at, length-append pre (x ∷ (y ∷ []))))
      ∙ ap (λ l. some l) (append_assoc pre (x ∷ (y ∷ [])) (z ∷ tail)) in
    let (rest, moved) = move_down_lem todo pre [] 0 by refl at (omega (arith, at)) in
    ap (slot_patch ldr_size meta_size) s
    ∙ rw long (
        rw one (
          rw two (
            rw three (
              rw valid (
                rw moved
                  (ap (λ l. some (record { e2 = l; done = true })) (take-append todo rest)))))))
