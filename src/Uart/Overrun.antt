-- ===== src/Uart/Overrun.antt =====
-- What a packet of a wrong length does to the receiver of bootloader/src/uart.c.
use stc_isp_demo.Prelude.{
  ℕ, ◌+◌, ◌%◌, ◌≤◌, ◌<◌, ◌≡◌, ◌⊎◌, Bool, List, [], ◌∷◌, ◌++◌, none, arith, length, length-append,
}
use stc_isp_demo.Protocol.{isp_pkt_head}
use stc_isp_demo.Uart.{Parser, idle, receive}
use stc_isp_demo.Uart.Receive.{in_body, parse_body_more, parse_body_full, receive_head}

receive_body_overrun :
    (bs : List ℕ) (l : ℕ) (mid suf : List ℕ) (s : ℕ) (ok : Bool)
    → (l ≡ 0) ⊎ (254 ≤ l)
    → length mid + length suf ≡ 253
    → length suf < length bs
    → receive (in_body l mid suf s ok) bs ≡ none
unfolding receive
receive_body_overrun [] l mid suf s ok w k h = absurd (omega arith)
receive_body_overrun (b ∷ bs) l mid [] s ok w k h = rw (parse_body_full l mid b s ok (omega arith))
receive_body_overrun (b ∷ bs) l mid (x ∷ suf) s ok w k h =
    rw (parse_body_more l mid x b suf s ok (omega arith) (omega arith)) (
      receive_body_overrun bs l (mid ++ (b ∷ [])) suf ((s + b) % 256) ok w
        (omega (arith, length-append mid (b ∷ []))) (omega arith))

-- A packet that states a body of 0, 254 or 255 bytes is never taken: if 254 body bytes follow
-- the header with no timeout between them, the receiver writes past its 255-byte buffer.
pub receive_overrun :
    (p : Parser) (l x y : ℕ) (spare bs : List ℕ)
    → p.state ≡ idle
    → p.buf ≡ x ∷ y ∷ spare
    → length spare ≡ 253
    → (l ≡ 0) ⊎ (254 ≤ l)
    → 253 < length bs
    → receive p (isp_pkt_head ∷ l ∷ bs) ≡ none
receive_overrun p l x y spare bs e f n w h = rw (receive_head p x y l spare bs e f) (
    receive_body_overrun bs l [] spare ((isp_pkt_head + l) % 256) p.ok w (omega arith)
      (omega arith))
