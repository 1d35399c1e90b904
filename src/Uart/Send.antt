-- ===== src/Uart/Send.antt =====
-- The packets that `uart_send_tx` of bootloader/src/uart.c sends.
use stc_isp_demo.Prelude.{
  ℕ, ◌+◌, ◌%◌, ◌≤◌, ◌<◌, ◌≡◌, sym, ◌∙◌, ap, List, [], ◌∷◌, ◌++◌, none, some, arith, length,
  length-append, append_assoc, append_snoc, take, take_of_eq, write, write-append, write_past,
  length-write, get_or-write_ne, Option-cases, inl, inr,
}
use stc_isp_demo.Protocol.{ldr_pkt_head, pkt_end, negated, ldr_size, ldr_pkt_calc_sum, sum_loop}
use stc_isp_demo.Protocol.Checksum.{byte_sum, sum_loop-byte_sum, sum_loop_endless}
use stc_isp_demo.Uart.{uart_send_tx}

-- The head, status, size and payload of a reply.
abbrev pub ldr_prefix : ℕ → List ℕ → List ℕ
ldr_prefix status dat = ldr_pkt_head ∷ status ∷ length dat ∷ dat

abbrev pub ldr_sum : ℕ → List ℕ → ℕ
ldr_sum status dat = byte_sum 0 (ldr_prefix status dat ++ (pkt_end ∷ []))

abbrev pub ldr_frame : ℕ → List ℕ → List ℕ
ldr_frame status dat = ldr_prefix status dat ++ (pkt_end ∷ negated (ldr_sum status dat) ∷ [])

module _ (fuel status : ℕ) (dat : List ℕ) (x y : ℕ) (spare : List ℕ) where
  ended :
      ldr_pkt_calc_sum fuel (ldr_prefix status dat ++ (pkt_end ∷ y ∷ spare))
      ≡ sum_loop fuel
          ((ldr_prefix status dat ++ (pkt_end ∷ [])) ++ (y ∷ spare))
          (4 + length dat)
          0
          0
  unfolding ldr_pkt_calc_sum
  ended = ground (arith, append_snoc dat pkt_end (y ∷ spare))

  calc_sum-ldr_prefix :
      length dat ≤ 250
      → 255 < fuel
      → ldr_pkt_calc_sum fuel (ldr_prefix status dat ++ (pkt_end ∷ y ∷ spare))
        ≡ some (negated (ldr_sum status dat))
  calc_sum-ldr_prefix h f =
      ended
      ∙ sum_loop-byte_sum fuel [] (ldr_prefix status dat ++ (pkt_end ∷ [])) (y ∷ spare)
          (4 + length dat) 0 (omega (arith, length-append dat (pkt_end ∷ []))) (omega arith)
          (omega (arith, length-append dat (pkt_end ∷ [])))

  take_frame :
      length dat ≤ 250
      → take
          ((5 + length dat) % 256)
          (ldr_prefix status dat ++ (pkt_end ∷ negated (ldr_sum status dat) ∷ spare))
        ≡ ldr_frame status dat
  take_frame h =
      let tail = pkt_end ∷ negated (ldr_sum status dat) ∷ [] in
      take_of_eq _ (ldr_frame status dat) spare _ (omega (arith, length-append dat tail))
        (ap (λ l. ldr_pkt_head ∷ status ∷ length dat ∷ l) (sym (append_assoc dat tail spare)))

  write_end :
      write (ldr_prefix status dat ++ (x ∷ y ∷ spare)) (3 + length dat) pkt_end
      ≡ some (ldr_prefix status dat ++ (pkt_end ∷ y ∷ spare))
  write_end = ground (arith, write-append (ldr_prefix status dat) x (y ∷ spare) pkt_end)

  write_sum :
      (c : ℕ)
      → write (ldr_prefix status dat ++ (pkt_end ∷ y ∷ spare)) (4 + length dat) c
        ≡ some (ldr_prefix status dat ++ (pkt_end ∷ c ∷ spare))
  write_sum c = ground (
    arith,
    write-append (ldr_prefix status dat ++ (pkt_end ∷ [])) y spare c,
    append_snoc dat pkt_end (y ∷ spare),
    append_snoc dat pkt_end (c ∷ spare),
    length-append dat (pkt_end ∷ []),
  )

  -- A reply whose payload has at most 250 bytes is sent whole: head, status, size, payload, end
  -- byte and the checksum of all these.
  pub uart_send_tx-ldr_frame :
      length dat ≤ 250
      → 255 < fuel
      → uart_send_tx fuel (ldr_prefix status dat ++ (x ∷ y ∷ spare)) ≡ some (ldr_frame status dat)
  unfolding uart_send_tx
  uart_send_tx-ldr_frame h f = rw write_end (
      rw (calc_sum-ldr_prefix h f)
        (rw (write_sum (negated (ldr_sum status dat))) (ap some (take_frame h))))

-- A reply whose size byte is above 250 cannot be sent: its end byte or its checksum is written
-- past the 255-byte buffer, whatever the buffer holds.
pub uart_send_tx_overrun :
    (fuel : ℕ) (tx : List ℕ) → length tx ≡ 255 → 250 < ldr_size tx → uart_send_tx fuel tx ≡ none
unfolding uart_send_tx
uart_send_tx_overrun fuel tx n h = elim (Option-cases (write tx (3 + ldr_size tx) pkt_end)) [
  | inl e ↦ rw e
  | inr (ys, e) ↦ rw e (elim (Option-cases (ldr_pkt_calc_sum fuel ys)) [
    | inl e' ↦ rw e'
    | inr (c, e') ↦ rw e' (
        rw (
          write_past ys (4 + ldr_size ys) c (
            omega (
              arith,
              length-write tx (3 + ldr_size tx) pkt_end ys e,
              get_or-write_ne tx (3 + ldr_size tx) 2 pkt_end 0 ys e (omega arith),
            ))))
  ])
]

-- From 252 payload bytes on the loop of `ldr_pkt_calc_sum` never ends: its 8-bit index does not
-- reach the bound, however often it is tested.
pub ldr_pkt_calc_sum_endless :
    (fuel : ℕ) (buf : List ℕ) → 251 < ldr_size buf → ldr_pkt_calc_sum fuel buf ≡ none
unfolding ldr_pkt_calc_sum
ldr_pkt_calc_sum_endless fuel buf h = sum_loop_endless fuel buf _ 0 0 (omega arith) (omega arith)
