-- ===== src/Host/Reply.antt =====
-- The programmer's receiver of replies, `ldr_parse` of common/protocol.c.
pub mod RoundTrip
use stc_isp_demo.Prelude.{
  ℕ, zero, suc, ◌+◌, ◌%◌, Bool, true, false, List, [], ◌∷◌, Option, none, some, ◌>>=◌, ◌==◌,
  if◌then◌else◌, write,
}
use stc_isp_demo.Protocol.{isp_pkt_head, ldr_pkt_head, pkt_end, negated, isp_len, ldr_size}

-- `ldr_parse_state_t`; `unknown` stands for every other value of the byte.
pub data ReplyState : Type 0 where
  idle at_status at_size at_data at_end at_checksum unknown : ReplyState

-- `ldr_pkt_parse_context_t`, the bytes of `ldr_packet_t` and the flag `ldr_parse_ok`
pub record ReplyParser : Type 0 where
  pub state : ReplyState
  pub len : ℕ  -- uint8_t
  pub sum : ℕ  -- uint8_t
  pub buf : List ℕ
  pub ok : Bool

-- `rx->buf[ctx->len++] = b; ctx->sum += b;`
abbrev pub store_reply : ReplyParser → ℕ → Option ReplyParser
store_reply p b = do
  buf ← write p.buf p.len b
  some (record p { buf = buf; len = (p.len + 1) % 256; sum = (p.sum + b) % 256 })

pub check_ldr_pkt_head : ReplyParser → ℕ → Option ReplyParser
check_ldr_pkt_head p b =
    if b == ldr_pkt_head
    then (do
      buf ← write p.buf 0 b
      some (record p { buf = buf; len = 1; sum = b; state = at_status }))
    else some p

abbrev restart : ReplyParser → ℕ → Option ReplyParser
restart p = check_ldr_pkt_head (record p { state = idle })

abbrev after_data : ReplyParser → ReplyParser
after_data p = if ldr_size p.buf + 3 == p.len then record p { state = at_end } else p

pub parse_reply_in : ReplyState → ReplyParser → ℕ → Option ReplyParser
unfolding check_ldr_pkt_head
parse_reply_in idle p b = check_ldr_pkt_head p b
parse_reply_in at_status p b = do q ← store_reply p b; some (record q { state = at_size })
parse_reply_in at_size p b = do
  q ← store_reply p b
  some (record q { state = if b == 0 then at_end else at_data })
parse_reply_in at_data p b = do q ← store_reply p b; some (after_data q)
parse_reply_in at_end p b =
    if b == pkt_end
    then (do q ← store_reply p b; some (record q { state = at_checksum }))
    else restart p b
parse_reply_in at_checksum p b =
    if b == negated p.sum
    then (do
      buf ← write p.buf p.len b
      some (record p { buf = buf; len = (p.len + 1) % 256; state = idle; ok = true }))
    else restart p b
parse_reply_in unknown p b = restart p b

-- `ldr_parse`
unfoldable pub ldr_parse : ReplyParser → ℕ → Option ReplyParser
unfolding parse_reply_in
ldr_parse p b = parse_reply_in p.state (record p { ok = false }) b

unfoldable pub receive_reply : ReplyParser → List ℕ → Option ReplyParser
unfolding ldr_parse
receive_reply p [] = some p
receive_reply p (b ∷ bs) = do q ← ldr_parse p b; receive_reply q bs
