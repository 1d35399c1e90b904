-- ===== src/Protocol/Checksum.antt =====
-- The checksum loops of common/protocol.c: where they end, and with what.
use stc_isp_demo.Prelude.{
  ℕ, zero, suc, ◌+◌, ◌%◌, ◌≤◌, ◌<◌, ◌≡◌, refl, List, [], ◌∷◌, ◌++◌, none, some, arith, length,
  get_or, get_or-append, append_snoc, length-append,
}
use stc_isp_demo.Protocol.{negated, sum_loop}

-- The running 8-bit sum of a list of bytes.
abbrev pub byte_sum : ℕ → List ℕ → ℕ
byte_sum s [] = s
byte_sum s (x ∷ xs) = byte_sum ((s + x) % 256) xs

pub byte_sum-append : (s : ℕ) (xs ys : List ℕ) → byte_sum s (xs ++ ys) ≡ byte_sum (byte_sum s xs) ys
byte_sum-append s [] ys = refl
byte_sum-append s (x ∷ xs) ys = byte_sum-append ((s + x) % 256) xs ys

pub byte_sum-lt : (s : ℕ) (xs : List ℕ) → s < 256 → byte_sum s xs < 256
byte_sum-lt s [] h = h
byte_sum-lt s (x ∷ xs) h = byte_sum-lt ((s + x) % 256) xs (omega arith)

-- The loop sums exactly the bytes from its index to its bound, if the bound fits the index type.
pub sum_loop-byte_sum :
    (fuel : ℕ) (pre xs post : List ℕ) (n s : ℕ)
    → n ≡ length pre + length xs
    → n ≤ 255
    → length xs < fuel
    → sum_loop fuel (pre ++ (xs ++ post)) n (length pre) s ≡ some (negated (byte_sum s xs))
unfolding sum_loop
sum_loop-byte_sum zero pre xs post n s e h f = absurd (omega arith)
sum_loop-byte_sum (suc fuel) pre [] post n s e h f = ground arith
sum_loop-byte_sum (suc fuel) pre (x ∷ xs) post n s e h f =
    let ih =
      sum_loop-byte_sum fuel (pre ++ (x ∷ [])) xs post n ((s + x) % 256)
        (omega (arith, length-append pre (x ∷ []))) h (omega arith) in
    ground (
      arith,
      ih,
      append_snoc pre x (xs ++ post),
      length-append pre (x ∷ []),
      get_or-append pre x (xs ++ post) 0,
    )

-- Past 255 the 8-bit index never reaches the bound: no number of tests ends the loop.
pub sum_loop_endless :
    (fuel : ℕ) (buf : List ℕ) (n i s : ℕ) → 256 ≤ n → i < 256 → sum_loop fuel buf n i s ≡ none
unfolding sum_loop
sum_loop_endless zero buf n i s h k = refl
sum_loop_endless (suc fuel) buf n i s h k =
    ground (arith, sum_loop_endless fuel buf n ((i + 1) % 256) ((s + get_or buf i 0) % 256) h)
