-- ===== src/Host/Parse.antt =====
-- The portable receiver of commands, isp_parse of common/protocol.c (the part under `_MSC_VER`), on the
-- types of the firmware's receiver.
pub mod Same
use stc_isp_demo.Prelude.{
  ℕ, ◌+◌, ◌%◌, Bool, true, false, List, [], ◌∷◌, Option, none, some, ◌>>=◌, ◌==◌, if◌then◌else◌,
  take, write,
}
use stc_isp_demo.Protocol.{pkt_end, negated, isp_len}
use stc_isp_demo.Uart.{
  ParseState, idle, at_length, at_body, at_end, at_checksum, unknown, Parser, store,
  check_isp_pkt_head, restart, after_body, uart_parse,
}

-- `rx->buf[ctx->len++] = b;`
abbrev pub store_byte : Parser → ℕ → Option Parser
store_byte p b = do
  buf ← write p.buf p.len b
  some (record p { buf = buf; len = (p.len + 1) % 256 })

-- the `switch` of `isp_parse`
unfoldable pub isp_parse_in : ParseState → Parser → ℕ → Option Parser
unfolding check_isp_pkt_head
isp_parse_in idle p b = check_isp_pkt_head p b
isp_parse_in at_length p b = do q ← store p b; some (record q { state = at_body })
isp_parse_in at_body p b = do q ← store p b; some (after_body q)
isp_parse_in at_end p b =
    if b == pkt_end
    then (do q ← store_byte p b; some (record q { sum = (p.sum + b) % 256; state = at_checksum }))
    else restart p b
isp_parse_in at_checksum p b =
    if b == negated p.sum
    then (do q ← store_byte p b; some (record q { state = idle; ok = true }))
    else restart p b
isp_parse_in unknown p b = restart p b

unfoldable pub isp_parse : Parser → ℕ → Option Parser
unfolding isp_parse_in
isp_parse p b = isp_parse_in p.state (record p { ok = false }) b

-- `uart_parse` in the main loop, which takes back a report before the next byte
abbrev pub uart_step : Parser → ℕ → Option Parser
uart_step p b = uart_parse (record p { ok = false }) b

-- The header and the body of the packet in a buffer
abbrev pub packet_in : List ℕ → List ℕ
packet_in buf = take (2 + isp_len buf) buf

abbrev pub reported : Parser → List (List ℕ) → List (List ℕ)
reported q rest = if q.ok then packet_in q.buf ∷ rest else rest

-- The packets that a receiver reports over some bytes; `none` is a write past its buffer.
unfoldable pub packets : (Parser → ℕ → Option Parser) → Parser → List ℕ → Option (List (List ℕ))
packets step p [] = some []
packets step p (b ∷ bs) = do q ← step p b; rest ← packets step q bs; some (reported q rest)
