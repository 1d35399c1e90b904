-- ===== src/Host/Reply/RoundTrip.antt =====
-- What a device sends, the programmer receives.
use stc_isp_demo.Prelude.{
  ℕ, suc, ◌+◌, ◌%◌, ◌≤◌, ◌<◌, ◌≡◌, ◌≢◌, refl, ◌∙◌, true, false, List, [], ◌∷◌, ◌++◌, some, arith,
  ◌==◌, ==_ne, if◌then◌else◌, length, Option, none, take, take_of_eq, append_assoc, sym, ap,
  length-drop, two_of_length, length-append, drop, append_snoc, write-append,
}
use stc_isp_demo.Protocol.{ldr_pkt_head, pkt_end, negated}
use stc_isp_demo.Protocol.Checksum.{byte_sum, byte_sum-append}
use stc_isp_demo.Uart.{uart_send_tx}
use stc_isp_demo.Uart.Send.{ldr_prefix, ldr_sum, ldr_frame, uart_send_tx-ldr_frame}
use stc_isp_demo.Host.Reply.{
  ReplyState, idle, at_data, at_end, at_checksum, ReplyParser, ldr_parse, receive_reply,
}

-- The receiver behind the head, the status, the size `n` and the payload bytes `mid`.
abbrev in_data : ReplyState → ℕ → ℕ → List ℕ → List ℕ → ℕ → ReplyParser
in_data state status n mid suf s = record {
  state = state;
  len = 3 + length mid;
  sum = s;
  buf = ldr_pkt_head ∷ status ∷ n ∷ (mid ++ suf);
  ok = false;
}

parse_data_more :
    (status n : ℕ) (mid : List ℕ) (x b : ℕ) (suf : List ℕ) (s : ℕ)
    → suc (length mid) ≢ n
    → length mid < 252
    → ldr_parse (in_data at_data status n mid (x ∷ suf) s) b
      ≡ some (in_data at_data status n (mid ++ (b ∷ [])) suf ((s + b) % 256))
unfolding ldr_parse
parse_data_more status n mid x b suf s h k =
    ground (arith, write-append mid x suf b, append_snoc mid b suf, length-append mid (b ∷ []))

parse_data_last :
    (status n : ℕ) (mid : List ℕ) (x b : ℕ) (suf : List ℕ) (s : ℕ)
    → suc (length mid) ≡ n
    → length mid < 252
    → ldr_parse (in_data at_data status n mid (x ∷ suf) s) b
      ≡ some (in_data at_end status n (mid ++ (b ∷ [])) suf ((s + b) % 256))
unfolding ldr_parse
parse_data_last status n mid x b suf s h k =
    ground (arith, write-append mid x suf b, append_snoc mid b suf, length-append mid (b ∷ []))

receive_data :
    (bs : List ℕ) (status n : ℕ) (mid suf : List ℕ) (s : ℕ) (rest : List ℕ)
    → length mid + length bs ≡ n
    → 0 < length bs
    → length bs ≤ length suf
    → length mid + length suf ≡ 252
    → receive_reply (in_data at_data status n mid suf s) (bs ++ rest)
      ≡ receive_reply
          (in_data at_end status n (mid ++ bs) (drop (length bs) suf) (byte_sum s bs))
          rest
unfolding receive_reply
receive_data [] status n mid suf s rest e p h k = absurd (omega arith)
receive_data (b ∷ bs) status n mid [] s rest e p h k = absurd (omega arith)
receive_data (b ∷ []) status n mid (x ∷ suf) s rest e p h k =
    rw (parse_data_last status n mid x b suf s (omega arith) (omega arith))
receive_data (b ∷ c ∷ bs) status n mid (x ∷ suf) s rest e p h k =
    rw (parse_data_more status n mid x b suf s (omega arith) (omega arith)) (
      receive_data (c ∷ bs) status n (mid ++ (b ∷ [])) suf ((s + b) % 256) rest
        (omega (arith, length-append mid (b ∷ []))) (omega arith) (omega arith)
        (omega (arith, length-append mid (b ∷ [])))
      ∙ rw append_snoc)

receive_head :
    (p : ReplyParser) (x y z status n : ℕ) (spare rest : List ℕ)
    → p.state ≡ idle
    → p.buf ≡ x ∷ y ∷ z ∷ spare
    → receive_reply p (ldr_pkt_head ∷ status ∷ n ∷ rest)
      ≡ receive_reply
          (in_data
            (if n == 0 then at_end else at_data)
            status
            n
            []
            spare
            (((ldr_pkt_head + status) % 256 + n) % 256))
          rest
unfolding receive_reply ldr_parse
receive_head p x y z status n spare rest e f = ground arith

abbrev at_sum : ℕ → List ℕ → ℕ → List ℕ → ℕ → ReplyParser
at_sum status dat y suf s = record {
  state = at_checksum;
  len = 4 + length dat;
  sum = (s + pkt_end) % 256;
  buf = ldr_prefix status dat ++ (pkt_end ∷ y ∷ suf);
  ok = false;
}

parse_end :
    (status : ℕ) (dat : List ℕ) (x y : ℕ) (suf : List ℕ) (s : ℕ)
    → length dat ≤ 250
    → ldr_parse (in_data at_end status (length dat) dat (x ∷ y ∷ suf) s) pkt_end
      ≡ some (at_sum status dat y suf s)
unfolding ldr_parse
parse_end status dat x y suf s h = ground (arith, write-append dat x (y ∷ suf) pkt_end)

parse_sum :
    (status : ℕ) (dat : List ℕ) (y : ℕ) (suf : List ℕ) (s : ℕ)
    → length dat ≤ 250
    → ldr_parse (at_sum status dat y suf s) (negated ((s + pkt_end) % 256))
      ≡ some (record {
        state = idle;
        len = 5 + length dat;
        sum = (s + pkt_end) % 256;
        buf = ldr_prefix status dat ++ (pkt_end ∷ negated ((s + pkt_end) % 256) ∷ suf);
        ok = true;
      })
unfolding ldr_parse
parse_sum status dat y suf s h =
    let c = negated ((s + pkt_end) % 256) in
    ground (
      arith,
      write-append (dat ++ (pkt_end ∷ [])) y suf c,
      append_snoc dat pkt_end (y ∷ suf),
      append_snoc dat pkt_end (c ∷ suf),
      length-append dat (pkt_end ∷ []),
    )

receive_tail :
    (status : ℕ) (dat : List ℕ) (x y : ℕ) (suf : List ℕ) (s : ℕ)
    → length dat ≤ 250
    → receive_reply
        (in_data at_end status (length dat) dat (x ∷ y ∷ suf) s)
        (pkt_end ∷ negated ((s + pkt_end) % 256) ∷ [])
      ≡ some (record {
        state = idle;
        len = 5 + length dat;
        sum = (s + pkt_end) % 256;
        buf = ldr_prefix status dat ++ (pkt_end ∷ negated ((s + pkt_end) % 256) ∷ suf);
        ok = true;
      })
unfolding receive_reply
receive_tail status dat x y suf s h =
    rw (parse_end status dat x y suf s h) (rw (parse_sum status dat y suf s h))

-- The payload, which may be empty.
receive_payload :
    (status : ℕ) (dat spare : List ℕ) (s : ℕ) (rest : List ℕ)
    → length dat ≤ 250
    → length spare ≡ 252
    → receive_reply
        (in_data (if length dat == 0 then at_end else at_data) status (length dat) [] spare s)
        (dat ++ rest)
      ≡ receive_reply
          (in_data at_end status (length dat) dat (drop (length dat) spare) (byte_sum s dat))
          rest
receive_payload status [] spare s rest h n = refl
receive_payload status (d ∷ dat) spare s rest h n = rw (==_ne (suc (length dat)) 0 (omega arith)) (
    receive_data (d ∷ dat) status (suc (length dat)) [] spare s rest (omega arith) (omega arith)
      (omega arith) (omega arith))

abbrev end_and_sum : ℕ → List ℕ
end_and_sum s = pkt_end ∷ negated ((s + pkt_end) % 256) ∷ []

-- The receiver has reported a packet: it is at rest and holds `frame` at the front of its buffer.
abbrev pub Reported : List ℕ → Option ReplyParser → Type 0
Reported frame none = ⊥
Reported frame (some q) =
    (q.ok ≡ true) × (q.state ≡ idle) × (q.len ≡ length frame) × (take (length frame) q.buf ≡ frame)

-- What a receiver at rest makes of a reply frame.
pub receive_reply-ldr_frame :
    (p : ReplyParser) (x y z status : ℕ) (dat spare : List ℕ)
    → p.state ≡ idle
    → p.buf ≡ x ∷ y ∷ z ∷ spare
    → length spare ≡ 252
    → length dat ≤ 250
    → Reported (ldr_frame status dat) (receive_reply p (ldr_frame status dat))
receive_reply-ldr_frame p x y z status dat spare e f n h =
    let s = ((ldr_pkt_head + status) % 256 + length dat) % 256 in
    let tail = pkt_end ∷ negated (ldr_sum status dat) ∷ [] in
    let (u, v, suf, g) =
      two_of_length (drop (length dat) spare) (omega (arith, length-drop (length dat) spare)) in
    rw (receive_head p x y z status (length dat) spare (dat ++ tail) e f) (
      rw (receive_payload status dat spare s tail h n) (
        rw g (
          rw (byte_sum-append s dat (pkt_end ∷ [])) (
            rw (receive_tail status dat u v suf (byte_sum s dat) h) (
              (
                refl,
                refl,
                omega (
                  arith,
                  length-append dat (pkt_end ∷ negated ((byte_sum s dat + pkt_end) % 256) ∷ []),
                ),
                take_of_eq _ (ldr_prefix status dat ++ end_and_sum (byte_sum s dat)) suf _ refl (
                    ap (λ l. ldr_pkt_head ∷ status ∷ length dat ∷ l)
                      (sym (append_assoc dat (end_and_sum (byte_sum s dat)) suf))),
              ))))))

-- A reply with at most 250 payload bytes, in a 255-byte buffer, is sent as one frame, and a
-- programmer whose receiver is at rest takes that frame: it reports a packet, is at rest again,
-- and holds the frame, all of it, at the front of its buffer.
pub receive_reply-uart_send_tx :
    (fuel status : ℕ) (dat : List ℕ) (x y : ℕ) (room : List ℕ)
    → (p : ReplyParser) (a b c : ℕ) (spare : List ℕ) → length dat ≤ 250
    → 255 < fuel
    → p.state ≡ idle
    → p.buf ≡ a ∷ b ∷ c ∷ spare
    → length spare ≡ 252
    → (frame : List ℕ) × (uart_send_tx fuel (ldr_prefix status dat ++ (x ∷ y ∷ room)) ≡ some frame)
      × Reported frame (receive_reply p frame)
receive_reply-uart_send_tx fuel status dat x y room p a b c spare h g e f n = (
  ldr_frame status dat,
  uart_send_tx-ldr_frame fuel status dat x y room h g,
  receive_reply-ldr_frame p a b c status dat spare e f n h,
)
