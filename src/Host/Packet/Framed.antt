-- ===== src/Host/Packet/Framed.antt =====
-- What Serial::send_tx makes of a packet that is filled: a frame with its checksum.
use stc_isp_demo.Prelude.{
  zeros, copy, copy-append, zeros-add, length-zeros, ℕ, suc, ◌+◌, ◌-◌, ◌/◌, ◌%◌, ◌≤◌, ◌<◌, ◌≡◌, ◌∙◌,
  refl, sym, ap, subst, arith, List, [], ◌∷◌, ◌++◌, some, ◌>>=◌, >>=_assoc, length, length-append,
  append_snoc, append_assoc, take, take_of_eq, write, write-append,
}
use stc_isp_demo.Protocol.{isp_pkt_head, pkt_end, negated, sum_loop, isp_pkt_calc_sum}
use stc_isp_demo.Protocol.Checksum.{sum_loop-byte_sum}
use stc_isp_demo.Uart.Receive.{isp_sum, isp_frame}
use stc_isp_demo.Host.Packet.{fields, put_end, send_tx}

-- A packet whose body and end byte are in place is sent as the frame of its body.
pub send_tx-isp_frame :
    (fuel x : ℕ) (body spare : List ℕ)
    → length body ≤ 251
    → 255 < fuel
    → send_tx fuel (isp_pkt_head ∷ length body ∷ (body ++ (pkt_end ∷ x ∷ spare)))
      ≡ some (isp_frame body)
unfolding send_tx isp_pkt_calc_sum
send_tx-isp_frame fuel x body spare h f =
    let xs = isp_pkt_head ∷ length body ∷ (body ++ (pkt_end ∷ [])) in
    let n : length xs ≡ 3 + length body = omega (arith, length-append body (pkt_end ∷ [])) in
    let split : (y : ℕ)
        → isp_pkt_head ∷ length body ∷ (body ++ (pkt_end ∷ y ∷ spare)) ≡ xs ++ (y ∷ spare) =
      λ y. ap (λ l. isp_pkt_head ∷ length body ∷ l) (sym (append_snoc body pkt_end (y ∷ spare))) in
    let summed : sum_loop fuel (isp_pkt_head ∷ length body ∷ (body ++ (pkt_end ∷ x ∷ spare)))
          (2 + length body + 2 - 1) 0 0
        ≡ some (negated (isp_sum body)) =
      ap (λ l. sum_loop fuel l (2 + length body + 2 - 1) 0 0) (split x)
      ∙ sum_loop-byte_sum fuel [] xs (x ∷ spare) (2 + length body + 2 - 1) 0 (omega (arith, n))
          (omega arith) (omega (arith, n)) in
    let put : write (isp_pkt_head ∷ length body ∷ (body ++ (pkt_end ∷ x ∷ spare))) (3 + length body)
          (negated (isp_sum body))
        ≡ some (isp_pkt_head ∷ length body ∷ (body ++ (pkt_end ∷ negated (isp_sum body) ∷ spare))) =
      ap (λ l. write l (3 + length body) (negated (isp_sum body))) (split x)
      ∙ subst
          (λ i.
            write (xs ++ (x ∷ spare)) i (negated (isp_sum body))
            ≡ some (xs ++ (negated (isp_sum body) ∷ spare)))
          n (write-append xs x spare (negated (isp_sum body)))
      ∙ ap {A = List ℕ} some (sym (split (negated (isp_sum body)))) in
    let cut : take (2 + length body + 2)
          (isp_pkt_head ∷ length body ∷ (body ++ (pkt_end ∷ negated (isp_sum body) ∷ spare)))
        ≡ isp_frame body =
      take_of_eq (2 + length body + 2) (isp_frame body) spare _
        (omega (arith, length-append body (pkt_end ∷ negated (isp_sum body) ∷ [])))
        (ap (λ l. isp_pkt_head ∷ length body ∷ l)
          (sym (append_assoc body (pkt_end ∷ negated (isp_sum body) ∷ []) spare))) in
    rw summed (rw put (ap {A = List ℕ} some cut))

-- The eight header bytes of a packet in front of `n` bytes for data.
abbrev pub header : ℕ → ℕ → ℕ → ℕ → List ℕ
header len cmd addr size =
    isp_pkt_head ∷ len % 256 ∷ cmd ∷ 0 ∷ 0 ∷ addr / 256 % 256 ∷ addr % 256 ∷ size % 256 ∷ []

-- The body of a packet, from the command on.
abbrev pub body_of : ℕ → ℕ → ℕ → List ℕ → List ℕ
body_of cmd addr size dat = cmd ∷ 0 ∷ 0 ∷ addr / 256 % 256 ∷ addr % 256 ∷ size % 256 ∷ dat

module _ (fuel cmd addr size : ℕ) (dat : List ℕ) where
  -- The packet with its data and its end byte.
  abbrev pub filled : List ℕ
  filled = header (6 + length dat) cmd addr size ++ (dat ++ (pkt_end ∷ zeros (246 - length dat)))

  put_end-header :
      (mid spare : List ℕ)
      → length mid ≤ 246
      → put_end (header (6 + length mid) cmd addr size ++ (mid ++ (0 ∷ spare)))
        ≡ some (header (6 + length mid) cmd addr size ++ (mid ++ (pkt_end ∷ spare)))
  put_end-header mid spare h =
      let hd = header (6 + length mid) cmd addr size in
      let e : 2 + (6 + length mid) % 256 ≡ length (hd ++ mid) =
        omega (arith, length-append hd mid) in
      ap (λ l. write l (2 + (6 + length mid) % 256) pkt_end) (sym (append_assoc hd mid (0 ∷ spare)))
      ∙ subst
          (λ i.
            write ((hd ++ mid) ++ (0 ∷ spare)) i pkt_end ≡ some ((hd ++ mid) ++ (pkt_end ∷ spare)))
          (sym e) (write-append (hd ++ mid) 0 spare pkt_end)
      ∙ ap {A = List ℕ} some (append_assoc hd mid (pkt_end ∷ spare))

  spaced :
      (n : ℕ)
      → n ≤ 246
      → fields (6 + n) cmd addr size
        ≡ header (6 + n) cmd addr size ++ (zeros n ++ (0 ∷ zeros (246 - n)))
  spaced n h =
      let e : 247 ≡ n + suc (246 - n) = omega arith in
      ap (λ m. header (6 + n) cmd addr size ++ zeros m) e
      ∙ ap (λ l. header (6 + n) cmd addr size ++ l) (zeros-add n (suc (246 - n)))

  -- The two orders in which data and end byte are put.
  pub end_copy :
      length dat ≤ 246
      → (put_end (fields (6 + length dat) cmd addr size) >>= copy 8 dat) ≡ some filled
  end_copy h =
      let n = length dat in
      let hd = header (6 + n) cmd addr size in
      let at_end : put_end (fields (6 + n) cmd addr size)
          ≡ some (hd ++ (zeros n ++ (pkt_end ∷ zeros (246 - n)))) =
        ap put_end (spaced n h)
        ∙ subst
            (λ m.
              put_end (header (6 + m) cmd addr size ++ (zeros n ++ (0 ∷ zeros (246 - n))))
              ≡ some (header (6 + m) cmd addr size ++ (zeros n ++ (pkt_end ∷ zeros (246 - n)))))
            (length-zeros n)
            (put_end-header (zeros n) (zeros (246 - n)) (omega (arith, h, length-zeros n))) in
      rw at_end (copy-append dat hd (zeros n) (pkt_end ∷ zeros (246 - n)) 8 refl (length-zeros n))

  copy_end :
      length dat ≤ 245
      → (copy 8 dat (fields (6 + length dat) cmd addr size) >>= put_end) ≡ some filled
  copy_end h =
      let n = length dat in
      let hd = header (6 + n) cmd addr size in
      let copied : copy 8 dat (fields (6 + n) cmd addr size)
          ≡ some (hd ++ (dat ++ (0 ∷ zeros (246 - n)))) =
        ap (copy 8 dat) (spaced n (omega (arith, h)))
        ∙ copy-append dat hd (zeros n) (0 ∷ zeros (246 - n)) 8 refl (length-zeros n) in
      rw copied (put_end-header dat (zeros (246 - n)) (omega (arith, h)))

  sent :
      length dat ≤ 245
      → 255 < fuel
      → send_tx fuel filled ≡ some (isp_frame (body_of cmd addr size dat))
  sent h f =
      let n = length dat in
      let body = body_of cmd addr size dat in
      let len : (6 + n) % 256 ≡ length body = omega arith in
      let room : zeros (246 - n) ≡ 0 ∷ zeros (245 - n) =
        ap zeros {x = 246 - n} {y = suc (245 - n)} (omega arith) in
      rw len (rw room (send_tx-isp_frame fuel 0 body (zeros (245 - n)) (omega arith) f))

  -- A packet with at most 245 data bytes, its end byte put before or after its data, is sent as
  -- the frame of its body.
  pub end_first :
      length dat ≤ 245
      → 255 < fuel
      → (put_end (fields (6 + length dat) cmd addr size) >>= λ tx. copy 8 dat tx >>= send_tx fuel)
        ≡ some (isp_frame (body_of cmd addr size dat))
  end_first h f =
      sym (>>=_assoc (put_end (fields (6 + length dat) cmd addr size)) (copy 8 dat) (send_tx fuel))
      ∙ ap (◌>>= send_tx fuel) (end_copy (omega (arith, h)))
      ∙ sent h f

  pub end_last :
      length dat ≤ 245
      → 255 < fuel
      → (copy 8 dat (fields (6 + length dat) cmd addr size) >>= λ tx. put_end tx >>= send_tx fuel)
        ≡ some (isp_frame (body_of cmd addr size dat))
  end_last h f =
      sym (>>=_assoc (copy 8 dat (fields (6 + length dat) cmd addr size)) put_end (send_tx fuel))
      ∙ ap (◌>>= send_tx fuel) (copy_end h)
      ∙ sent h f
