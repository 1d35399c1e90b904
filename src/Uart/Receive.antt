-- ===== src/Uart/Receive.antt =====
-- What the receiver makes of a well-formed packet.
use stc_isp_demo.Prelude.{
  ℕ, suc, ◌+◌, ◌%◌, ◌≤◌, ◌<◌, ◌≡◌, ◌≢◌, ◌∙◌, Bool, true, List, [], ◌∷◌, ◌++◌, none, some, arith,
  length, write-append, write_past, append_snoc, append-nil, length-append, drop,
}
use stc_isp_demo.Protocol.{isp_pkt_head, pkt_end, negated}
use stc_isp_demo.Protocol.Checksum.{byte_sum, byte_sum-append}
use stc_isp_demo.Uart.{idle, at_body, at_end, Parser, uart_parse, receive}

-- The parser behind the two header bytes and the body bytes `mid`, in front of `suf`.
abbrev pub in_body : ℕ → List ℕ → List ℕ → ℕ → Bool → Parser
in_body l mid suf s ok = record {
  state = at_body;
  len = 2 + length mid;
  sum = s;
  buf = isp_pkt_head ∷ l ∷ (mid ++ suf);
  ok = ok;
}

abbrev pub behind_body : ℕ → List ℕ → List ℕ → ℕ → Bool → Parser
behind_body l mid suf s ok = record (in_body l mid suf s ok) { state = at_end }

pub parse_body_more :
    (l : ℕ) (mid : List ℕ) (x b : ℕ) (suf : List ℕ) (s : ℕ) (ok : Bool)
    → suc (length mid) ≢ l
    → length mid < 253
    → uart_parse (in_body l mid (x ∷ suf) s ok) b
      ≡ some (in_body l (mid ++ (b ∷ [])) suf ((s + b) % 256) ok)
unfolding uart_parse
parse_body_more l mid x b suf s ok h k =
    ground (arith, write-append mid x suf b, append_snoc mid b suf, length-append mid (b ∷ []))

pub parse_body_last :
    (l : ℕ) (mid : List ℕ) (x b : ℕ) (suf : List ℕ) (s : ℕ) (ok : Bool)
    → suc (length mid) ≡ l
    → length mid < 253
    → uart_parse (in_body l mid (x ∷ suf) s ok) b
      ≡ some (behind_body l (mid ++ (b ∷ [])) suf ((s + b) % 256) ok)
unfolding uart_parse
parse_body_last l mid x b suf s ok h k =
    ground (arith, write-append mid x suf b, append_snoc mid b suf, length-append mid (b ∷ []))

pub parse_body_full :
    (l : ℕ) (mid : List ℕ) (b s : ℕ) (ok : Bool)
    → length mid ≡ 253
    → uart_parse (in_body l mid [] s ok) b ≡ none
unfolding uart_parse
parse_body_full l mid b s ok h =
    ground (arith, append-nil mid, write_past mid (length mid) b (omega arith))

pub receive_body :
    (bs : List ℕ) (l : ℕ) (mid suf : List ℕ) (s : ℕ) (ok : Bool) (rest : List ℕ)
    → length mid + length bs ≡ l
    → 0 < length bs
    → length bs ≤ length suf
    → length mid + length suf ≡ 253
    → receive (in_body l mid suf s ok) (bs ++ rest)
      ≡ receive (behind_body l (mid ++ bs) (drop (length bs) suf) (byte_sum s bs) ok) rest
unfolding receive
receive_body [] l mid suf s ok rest e p h k = absurd (omega arith)
receive_body (b ∷ bs) l mid [] s ok rest e p h k = absurd (omega arith)
receive_body (b ∷ []) l mid (x ∷ suf) s ok rest e p h k =
    rw (parse_body_last l mid x b suf s ok (omega arith) (omega arith))
receive_body (b ∷ c ∷ bs) l mid (x ∷ suf) s ok rest e p h k =
    rw (parse_body_more l mid x b suf s ok (omega arith) (omega arith)) (
      receive_body (c ∷ bs) l (mid ++ (b ∷ [])) suf ((s + b) % 256) ok rest
        (omega (arith, length-append mid (b ∷ []))) (omega arith) (omega arith)
        (omega (arith, length-append mid (b ∷ [])))
      ∙ rw append_snoc)

-- A packet as it is sent: the two header bytes, the body, the end byte and the checksum.
abbrev pub isp_sum : List ℕ → ℕ
isp_sum bs = byte_sum isp_pkt_head (length bs ∷ (bs ++ (pkt_end ∷ [])))

abbrev pub isp_frame : List ℕ → List ℕ
isp_frame bs = isp_pkt_head ∷ length bs ∷ (bs ++ (pkt_end ∷ negated (isp_sum bs) ∷ []))

pub receive_head :
    (p : Parser) (x y l : ℕ) (spare rest : List ℕ)
    → p.state ≡ idle
    → p.buf ≡ x ∷ y ∷ spare
    → receive p (isp_pkt_head ∷ l ∷ rest)
      ≡ receive (in_body l [] spare ((isp_pkt_head + l) % 256) p.ok) rest
unfolding receive uart_parse
receive_head p x y l spare rest e f = ground arith

receive_tail :
    (l : ℕ) (bs suf : List ℕ) (s : ℕ) (ok : Bool)
    → receive (behind_body l bs suf s ok) (pkt_end ∷ negated ((s + pkt_end) % 256) ∷ [])
      ≡ some (record {
        state = idle;
        len = 2 + length bs;
        sum = (s + pkt_end) % 256;
        buf = isp_pkt_head ∷ l ∷ (bs ++ suf);
        ok = true;
      })
unfolding receive uart_parse
receive_tail l bs suf s ok = ground arith

-- A receiver at rest with its 255-byte buffer takes every packet whose body has 1 to 253 bytes:
-- it reports the packet, is at rest again, and holds the header and the body at the front of its
-- buffer, with what lay behind them unchanged.
pub receive-isp_frame :
    (p : Parser) (bs : List ℕ) (x y : ℕ) (spare : List ℕ)
    → p.state ≡ idle
    → p.buf ≡ x ∷ y ∷ spare
    → length spare ≡ 253
    → 0 < length bs
    → length bs ≤ 253
    → receive p (isp_frame bs)
      ≡ some (record {
        state = idle;
        len = 2 + length bs;
        sum = isp_sum bs;
        buf = isp_pkt_head ∷ length bs ∷ (bs ++ drop (length bs) spare);
        ok = true;
      })
receive-isp_frame p bs x y spare e f n h k =
    let l = length bs in
    let s = byte_sum ((isp_pkt_head + l) % 256) bs in
    let summed = byte_sum-append ((isp_pkt_head + l) % 256) bs (pkt_end ∷ []) in
    receive_head p x y l spare (bs ++ (pkt_end ∷ negated (isp_sum bs) ∷ [])) e f
    ∙ receive_body bs l [] spare ((isp_pkt_head + l) % 256) p.ok
        (pkt_end ∷ negated (isp_sum bs) ∷ []) (omega arith) h (omega arith) (omega arith)
    ∙ rw summed (receive_tail l bs (drop l spare) s p.ok)
