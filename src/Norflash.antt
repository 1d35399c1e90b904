-- ===== src/Norflash.antt =====
-- The driver of the external flash, common/bsp/norflash.c, over an SPI port. The variable
-- norflash_type is the argument `t` where it is only read.
pub mod Ready
pub mod Implements
pub mod Init
use stc_isp_demo.Prelude.{
  ℕ, zero, suc, ◌+◌, ◌*◌, ◌/◌, ◌%◌, Bool, true, false, ◌||◌, not, List, [], ◌∷◌, ◌++◌, Option, none,
  some, ◌>>=◌, ◌==◌, if◌then◌else◌,
}
use stc_isp_demo.Device.Spi.{SpiPort, send_all, recv_all}

-- `norflash_type_t`
abbrev pub nft_w25q80 : ℕ
nft_w25q80 = 0xEF13

abbrev pub nft_w25q128 : ℕ
nft_w25q128 = 0xEF17

abbrev pub nft_w25q256 : ℕ
nft_w25q256 = 0xEF18

abbrev pub is_known_norflash_type : ℕ → Bool
is_known_norflash_type t =
    t == nft_w25q80
    || t == 0xEF14
    || t == 0xEF15
    || t == 0xEF16
    || t == nft_w25q128
    || t == nft_w25q256

-- The command bytes of `norflash_read_sr` and `norflash_write_sr` by the number of the register.
abbrev pub read_sr_cmd : ℕ → ℕ
read_sr_cmd reg =
    if reg == 1 then 0x05 else if reg == 2 then 0x35 else if reg == 3 then 0x15 else 0x05

abbrev pub write_sr_cmd : ℕ → ℕ
write_sr_cmd reg =
    if reg == 1 then 0x01 else if reg == 2 then 0x31 else if reg == 3 then 0x11 else 0x01

-- `sr3 |= 1 << 1`
abbrev pub with_adp : ℕ → ℕ
with_adp sr3 = if sr3 / 2 % 2 == 1 then sr3 else sr3 + 2

module _ (port : SpiPort) where
  -- `spi_select(); spi_send(cmd); spi_unselect();`
  abbrev pub send_command : ℕ → port.State → port.State
  send_command cmd s = port.unselect (port.send cmd (port.select s))

  unfoldable pub norflash_enable_write : port.State → port.State
  norflash_enable_write s = send_command 0x06 s

  unfoldable pub norflash_powerup : port.State → port.State
  norflash_powerup s = port.delay_ms 20 (send_command 0xAB s)

  unfoldable pub norflash_powerdown : port.State → port.State
  norflash_powerdown s = send_command 0xB9 s

  unfoldable pub norflash_read_sr : ℕ → port.State → ℕ × port.State
  norflash_read_sr reg s =
      let (sr, s') = port.recv (port.send (read_sr_cmd reg) (port.select s)) in
      (sr, port.unselect s')

  unfoldable pub norflash_write_sr : ℕ → ℕ → port.State → port.State
  unfolding norflash_enable_write
  norflash_write_sr reg value s =
      let sent = port.send (write_sr_cmd reg) (port.select (norflash_enable_write s)) in
      port.unselect (port.send value sent)

  -- The loop of `norflash_wait_busy`; `none` is a chip that was still busy after `fuel` reads.
  unfoldable pub norflash_wait_busy : ℕ → port.State → Option port.State
  unfolding norflash_read_sr
  norflash_wait_busy zero s = none
  norflash_wait_busy (suc fuel) s =
      let (sr, s') = norflash_read_sr 1 s in
      let again = norflash_wait_busy fuel s' in if sr % 2 == 1 then again else some s'

  -- `norflash_send_addr`; the high byte is sent to a W25Q256 only.
  unfoldable pub norflash_send_addr : ℕ → ℕ → port.State → port.State
  norflash_send_addr t addr s =
      let high = if t == nft_w25q256 then port.send (addr / 16777216 % 256) s else s in
      port.send (addr % 256) (port.send (addr / 256 % 256) (port.send (addr / 65536 % 256) high))

  -- `norflash_read_id`: the result, `norflash_type` and the port
  unfoldable pub norflash_read_id : port.State → Bool × ℕ × port.State
  norflash_read_id s =
      let sent = send_all port (0x90 ∷ 0 ∷ 0 ∷ 0 ∷ []) (port.select s) in
      let (high, s1) = port.recv sent in
      let (low, s2) = port.recv s1 in
      let t = high * 256 + low in (not (t == 0), t, port.unselect s2)

  -- The part of `norflash_init` that enables 4-byte addresses.
  unfoldable pub enable_4byte_addr : port.State → port.State
  unfolding norflash_read_sr norflash_write_sr norflash_enable_write
  enable_4byte_addr s =
      let (sr3, s') = norflash_read_sr 3 s in
      let written = norflash_write_sr 3 (with_adp sr3) (norflash_enable_write s') in
      if sr3 % 2 == 0 then send_command 0xB7 (port.delay_ms 20 written) else s'

  unfoldable pub check_type : ℕ → port.State → Bool × port.State
  unfolding enable_4byte_addr
  check_type t s =
      let wide = enable_4byte_addr s in
      if not (is_known_norflash_type t)
      then (false, s)
      else if t == nft_w25q256
      then (true, wide)
      else (true, s)

  -- `norflash_init`: the result, `norflash_type` and the port
  unfoldable pub norflash_init : port.State → Bool × ℕ × port.State
  unfolding norflash_powerup norflash_read_id check_type
  norflash_init s =
      let (known, t, s') = norflash_read_id (norflash_powerup s) in
      let (ok, s'') = check_type t s' in (ok, t, s'')

  unfoldable pub norflash_read : ℕ → ℕ → ℕ → port.State → List ℕ × port.State
  unfolding norflash_send_addr
  norflash_read t addr len s =
      let asked = norflash_send_addr t addr (port.send 0x03 (port.select s)) in
      let (buf, s') = recv_all port len asked in (buf, port.unselect s')

  module _ (fuel t : ℕ) where
    unfoldable pub norflash_write_page : ℕ → List ℕ → port.State → Option port.State
    unfolding norflash_enable_write norflash_send_addr norflash_wait_busy
    norflash_write_page addr buf s =
        let asked = port.send 0x02 (port.select (norflash_enable_write s)) in
        let sent = send_all port buf (norflash_send_addr t addr asked) in
        norflash_wait_busy fuel (port.unselect sent)

    unfoldable pub norflash_erase_chip : port.State → Option port.State
    unfolding norflash_enable_write norflash_wait_busy
    norflash_erase_chip s = do
      ready ← norflash_wait_busy fuel (norflash_enable_write s)
      norflash_wait_busy fuel (send_command 0xC7 ready)

    unfoldable pub norflash_erase_sector : ℕ → port.State → Option port.State
    unfolding norflash_enable_write norflash_send_addr norflash_wait_busy
    norflash_erase_sector addr s = do
      ready ← norflash_wait_busy fuel (norflash_enable_write s)
      let sent = norflash_send_addr t addr (port.send 0x20 (port.select ready))
      norflash_wait_busy fuel (port.unselect sent)
