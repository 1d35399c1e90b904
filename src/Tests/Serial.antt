-- ===== src/Tests/Serial.antt =====
-- Packets and replies on concrete buffers.
use stc_isp_demo.Prelude.{
  zeros, ℕ, ◌≡◌, inl, refl, arith, true, false, List, [], ◌∷◌, ◌++◌, none, some,
}
use stc_isp_demo.Host.Reply
use stc_isp_demo.Host.Reply.{ReplyParser, receive_reply}
use stc_isp_demo.Host.Reply.RoundTrip.{Reported, receive_reply-uart_send_tx}
use stc_isp_demo.Protocol.{isp_pkt_head, pkt_end}
use stc_isp_demo.Uart.{
  Parser, idle, at_checksum, receive, uart_parse, parse_in, check_isp_pkt_head, uart_send_tx,
}
use stc_isp_demo.Uart.Overrun.{receive_overrun}
use stc_isp_demo.Uart.Send.{ldr_prefix}
use stc_isp_demo.Uart.Sound.{HoldsPacket, uart_parse_sound}

abbrev at_rest : Parser
at_rest = record { state = idle; len = 0; sum = 0; buf = zeros 255; ok = false }

abbrev reply_at_rest : ReplyParser
reply_at_rest = record { state = Reply.idle; len = 0; sum = 0; buf = zeros 255; ok = false }

abbrev body : List ℕ
body = 6 ∷ 1 ∷ 0 ∷ []

receive_overrun_example : receive at_rest (isp_pkt_head ∷ 0 ∷ zeros 254) ≡ none
receive_overrun_example =
    receive_overrun at_rest 0 0 0 (zeros 253) (zeros 254) refl refl refl (inl refl) (omega arith)

receive_reply-uart_send_tx_example :
    (frame : List ℕ) × (uart_send_tx 300 (ldr_prefix 0 body ++ (0 ∷ 0 ∷ zeros 247)) ≡ some frame)
    × Reported frame (receive_reply reply_at_rest frame)
receive_reply-uart_send_tx_example =
    receive_reply-uart_send_tx 300 0 body 0 0 (zeros 247) reply_at_rest 0 0 0 (zeros 252)
      (omega arith) (omega arith) refl refl refl

-- The receiver behind all bytes of the frame but the last.
abbrev waiting : Parser
waiting = record {
  state = at_checksum;
  len = 5;
  sum = 81;
  buf = isp_pkt_head ∷ 3 ∷ (body ++ zeros 250);
  ok = false;
}

receive-waiting : receive at_rest (isp_pkt_head ∷ 3 ∷ (body ++ (pkt_end ∷ []))) ≡ some waiting
unfolding receive uart_parse parse_in check_isp_pkt_head
receive-waiting = refl

reported : uart_parse waiting 175 ≡ some (record waiting { state = idle; ok = true })
unfolding uart_parse parse_in
reported = refl

uart_parse_sound_example : HoldsPacket (isp_pkt_head ∷ 3 ∷ (body ++ zeros 250)) 175
uart_parse_sound_example =
    uart_parse_sound at_rest (isp_pkt_head ∷ 3 ∷ (body ++ (pkt_end ∷ []))) waiting 175
      (record waiting { state = idle; ok = true }) refl refl receive-waiting refl reported refl
