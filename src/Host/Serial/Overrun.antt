-- ===== src/Host/Serial/Overrun.antt =====
-- Data that is too long for a packet of programmer/programmer/Serial.cpp.
use stc_isp_demo.Prelude.{
  copy, copy_past, zeros, length-zeros, ℕ, ◌+◌, ◌-◌, ◌%◌, ◌≤◌, ◌<◌, ◌≡◌, ◌∙◌, refl, sym, ap, arith,
  List, ◌∷◌, none, ◌>>=◌, >>=_assoc, length, length-append, write_past, length-write, Option-cases,
  Bool-cases, inl, inr, leb,
}
use stc_isp_demo.Protocol.{pkt_end, isp_len, isp_pkt_calc_sum}
use stc_isp_demo.Host.Packet.{fields, put_end, send_tx}
use stc_isp_demo.Host.Packet.Framed.{filled, end_copy}
use stc_isp_demo.Host.Serial.{calc_crc32}

send_tx_past : (fuel : ℕ) (tx : List ℕ) → length tx ≤ 3 + isp_len tx → send_tx fuel tx ≡ none
unfolding send_tx
send_tx_past fuel tx h = elim (Option-cases (isp_pkt_calc_sum fuel tx)) [
  | inl e ↦ rw e refl
  | inr (sum, e) ↦ rw (e, write_past tx (3 + isp_len tx) sum h) refl
]

module _ (fuel cmd addr size : ℕ) (dat : List ℕ) where
  length-filled : length dat ≡ 246 → length (filled fuel cmd addr size dat) ≡ 255
  length-filled h = omega (
    arith,
    h,
    length-append dat (pkt_end ∷ zeros (246 - length dat)),
    length-zeros (246 - length dat),
  )

  -- With 246 data bytes there is no room for the checksum, with some more none for the end byte,
  -- and from there on none for the data.
  too_long :
      245 < length dat
      → (put_end (fields (6 + length dat) cmd addr size) >>= λ tx. copy 8 dat tx >>= send_tx fuel)
        ≡ none
  too_long h = elim (Option-cases (put_end (fields (6 + length dat) cmd addr size))) [
    | inl e ↦ rw e refl
    | inr (tx, e) ↦
        let len =
          length-write (fields (6 + length dat) cmd addr size) (2 + (6 + length dat) % 256) pkt_end
            tx e in
        elim (Bool-cases (leb (length dat) 246)) [
          | inl l ↦
              let n : length dat ≡ 246 = ground arith in
              sym (
                >>=_assoc (put_end (fields (6 + length dat) cmd addr size)) (copy 8 dat)
                  (send_tx fuel))
              ∙ ap (◌>>= send_tx fuel) (end_copy fuel cmd addr size dat (omega (arith, n)))
              ∙ send_tx_past fuel (filled fuel cmd addr size dat)
                  (omega (arith, n, length-filled n))
          | inr l ↦ elim (Bool-cases (leb (length dat) 247)) [
            | inl k ↦
                let past : put_end (fields (6 + length dat) cmd addr size) ≡ none =
                  write_past (fields (6 + length dat) cmd addr size) (2 + (6 + length dat) % 256)
                    pkt_end (ground arith) in
                rw past refl
            | inr k ↦ rw (e, copy_past dat 8 tx (ground (arith, len)) (ground arith)) refl
          ]
        ]
  ]

-- `calc_crc32` with more than 245 bytes writes past the 255 bytes of its packet.
pub calc_crc32_overrun : (fuel : ℕ) (dat : List ℕ) → 245 < length dat → calc_crc32 fuel dat ≡ none
unfolding calc_crc32
calc_crc32_overrun fuel dat h = too_long fuel 0xB9 0 (length dat) dat h
