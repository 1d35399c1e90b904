-- ===== src/Host/Packet.antt =====
-- How a packet of the programmer is built and sent: the text that the functions of
-- programmer/programmer/Serial.cpp share, and Serial::send_tx.
pub mod Framed
use stc_isp_demo.Prelude.{
  ℕ, ◌+◌, ◌/◌, ◌%◌, List, [], ◌∷◌, Option, none, some, ◌>>=◌, write, take, zeros,
}
use stc_isp_demo.Protocol.{isp_pkt_head, pkt_end, isp_len, isp_pkt_len, isp_pkt_calc_sum}

-- `isp_packet_t tx = {0};` with its head, `len`, `cmd`, `rev16(addr)` and `size`. A PC stores the
-- low byte first, so the swapped address has its high byte in front.
abbrev pub fields : ℕ → ℕ → ℕ → ℕ → List ℕ
fields len cmd addr size =
    isp_pkt_head ∷ len % 256 ∷ cmd ∷ 0 ∷ 0 ∷ addr / 256 % 256 ∷ addr % 256 ∷ size % 256 ∷ zeros 247

-- `isp_pkt_end(&tx) = ISP_PKT_END;`
abbrev pub put_end : List ℕ → Option (List ℕ)
put_end tx = write tx (2 + isp_len tx) pkt_end

-- `Serial::send_tx`: the bytes that are written to the port
unfoldable pub send_tx : ℕ → List ℕ → Option (List ℕ)
unfolding isp_pkt_calc_sum
send_tx fuel tx = do
  sum ← isp_pkt_calc_sum fuel tx
  summed ← write tx (3 + isp_len tx) sum
  some (take (isp_pkt_len summed) summed)
