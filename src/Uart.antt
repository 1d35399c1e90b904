-- ===== src/Uart.antt =====
-- The packet receiver and the reply sender of the boot loader (bootloader/src/uart.c). The app's
-- uart.c has the same text under names with `uart1`.
pub mod Receive
pub mod Overrun
pub mod Sound
pub mod Send
pub mod Queue
use stc_isp_demo.Prelude.{
  ℕ, zero, suc, ◌+◌, ◌%◌, Bool, true, false, List, [], ◌∷◌, Option, none, some, ◌>>=◌, ◌==◌,
  if◌then◌else◌, write, take,
}
use stc_isp_demo.Protocol.{
  isp_pkt_head, pkt_end, negated, isp_len, ldr_size, ldr_pkt_len, ldr_pkt_calc_sum,
}

-- `isp_pkt_parse_state_t`; `unknown` stands for every other value of the byte `ctx.state`.
pub data ParseState : Type 0 where
  idle at_length at_body at_end at_checksum unknown : ParseState

-- `ctx` (`isp_pkt_parse_context_t`), the bytes of `rx`, and the bit `isp_parse_ok`
pub record Parser : Type 0 where
  pub state : ParseState
  pub len : ℕ  -- uint8_t
  pub sum : ℕ  -- uint8_t
  pub buf : List ℕ
  pub ok : Bool

-- `rx.buf[ctx.len++] = b; ctx.sum += b;`; `none` is a write past the end of the buffer.
abbrev pub store : Parser → ℕ → Option Parser
store p b = do
  buf ← write p.buf p.len b
  some (record p { buf = buf; len = (p.len + 1) % 256; sum = (p.sum + b) % 256 })

-- the label `check_isp_pkt_head`
unfoldable pub check_isp_pkt_head : Parser → ℕ → Option Parser
check_isp_pkt_head p b =
    if b == isp_pkt_head
    then (do
      buf ← write p.buf 0 b
      some (record p { buf = buf; len = 1; sum = b; state = at_length }))
    else some p

-- `ctx.state = ISP_PARSE_STATE_IDLE; goto check_isp_pkt_head;`
abbrev pub restart : Parser → ℕ → Option Parser
restart p = check_isp_pkt_head (record p { state = idle })

abbrev pub after_body : Parser → Parser
after_body p = if isp_len p.buf + 2 == p.len then record p { state = at_end } else p

-- the `switch` of `uart_parse`, without the bytes that a debug build echoes
unfoldable pub parse_in : ParseState → Parser → ℕ → Option Parser
unfolding check_isp_pkt_head
parse_in idle p b = check_isp_pkt_head p b
parse_in at_length p b = do q ← store p b; some (record q { state = at_body })
parse_in at_body p b = do q ← store p b; some (after_body q)
parse_in at_end p b =
    if b == pkt_end
    then some (record p { sum = (p.sum + b) % 256; state = at_checksum })
    else restart p b
parse_in at_checksum p b =
    if b == negated p.sum then some (record p { state = idle; ok = true }) else restart p b
parse_in unknown p b = some (record p { state = idle })

unfoldable pub uart_parse : Parser → ℕ → Option Parser
unfolding parse_in
uart_parse p b = parse_in p.state p b

-- Bytes given one after the other, with no timeout between them.
unfoldable pub receive : Parser → List ℕ → Option Parser
unfolding uart_parse
receive p [] = some p
receive p (b ∷ bs) = do q ← uart_parse p b; receive q bs

-- `uart_send_tx`: the bytes that it hands to `uart_send_raw`, whose parameter `n` is a `uint8_t`.
unfoldable pub uart_send_tx : ℕ → List ℕ → Option (List ℕ)
unfolding ldr_pkt_calc_sum
uart_send_tx fuel tx = do
  ended ← write tx (3 + ldr_size tx) pkt_end
  sum ← ldr_pkt_calc_sum fuel ended
  summed ← write ended (4 + ldr_size ended) sum
  some (take (ldr_pkt_len summed % 256) summed)
