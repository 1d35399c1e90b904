-- ===== src/Protocol.antt =====
-- The packets of common/protocol.h and their checksums (common/protocol.c). A packet is its
-- 255-byte buffer, as a list of byte values; `isp_packet_t` and `ldr_packet_t` are unions over it,
-- so a field is the byte at its offset.
pub mod Checksum
use stc_isp_demo.Prelude.{
  ℕ, zero, suc, ◌+◌, ◌-◌, ◌%◌, List, Option, none, some, get_or, ltb, if◌then◌else◌,
}

abbrev pub pkt_max_len : ℕ
pkt_max_len = 255

abbrev pub pkt_dat_max_len : ℕ
pkt_dat_max_len = 128

abbrev pub isp_pkt_head : ℕ
isp_pkt_head = b'#'

abbrev pub ldr_pkt_head : ℕ
ldr_pkt_head = b'@'

-- `ISP_PKT_END` and `LDR_PKT_END`
abbrev pub pkt_end : ℕ
pkt_end = b'$'

-- `(uint8_t)-sum`
abbrev pub negated : ℕ → ℕ
negated sum = (256 - sum) % 256

-- `rx.pkt.len`, the second byte
abbrev pub isp_len : List ℕ → ℕ
isp_len buf = get_or buf 1 0

-- `isp_pkt_len`: an `int`, not truncated
abbrev pub isp_pkt_len : List ℕ → ℕ
isp_pkt_len buf = 2 + isp_len buf + 2

-- `tx.pkt.size`, the third byte
abbrev pub ldr_size : List ℕ → ℕ
ldr_size buf = get_or buf 2 0

abbrev pub ldr_pkt_len : List ℕ → ℕ
ldr_pkt_len buf = 5 + ldr_size buf

-- `for (i = 0; i < n; i++) sum += pkt->buf[i];` with `i` and `sum` of type `uint8_t` and `n` an
-- `int`. `none` is a loop that has not ended after `fuel` tests.
pub sum_loop : ℕ → List ℕ → ℕ → ℕ → ℕ → Option ℕ
sum_loop zero buf n i sum = none
sum_loop (suc fuel) buf n i sum =
    let rest = sum_loop fuel buf n ((i + 1) % 256) ((sum + get_or buf i 0) % 256) in
    if ltb i n then rest else some (negated sum)

unfoldable pub isp_pkt_calc_sum : ℕ → List ℕ → Option ℕ
unfolding sum_loop
isp_pkt_calc_sum fuel buf = sum_loop fuel buf (isp_pkt_len buf - 1) 0 0

unfoldable pub ldr_pkt_calc_sum : ℕ → List ℕ → Option ℕ
unfolding sum_loop
ldr_pkt_calc_sum fuel buf = sum_loop fuel buf (ldr_pkt_len buf - 1) 0 0
