-- ===== src/Host/Serial/Sent.antt =====
-- What the boot loader or the application receives of the packets that
-- programmer/programmer/Serial.cpp sends.
use stc_isp_demo.Prelude.{
  copy, copy-two, ℕ, ◌+◌, ◌≤◌, ◌<◌, ◌≡◌, ◌∙◌, refl, sym, ap, arith, true, List, [], ◌∷◌, ◌++◌,
  Option, some, ◌>>=◌, >>=_assoc, >>=_ext, length, take, drop, length-take,
}
use stc_isp_demo.Protocol.{isp_pkt_head}
use stc_isp_demo.OtaClient.{LatestAppInfo, AppData}
use stc_isp_demo.Uart.{idle, Parser, receive}
use stc_isp_demo.Uart.Receive.{isp_sum, isp_frame, receive-isp_frame}
use stc_isp_demo.Host.Packet.{fields, put_end, send_tx}
use stc_isp_demo.Host.Packet.Framed.{body_of, end_first, end_last}
use stc_isp_demo.Host.Serial

-- A call of one of the functions, with its arguments.
pub data Call : Type 0 where
  send_reboot connect_ldr read_ldr_version read_app_version read_chip_info read_chip_version : Call
  erase_all read_flash_size erase_flash : Call
  read_rom : ℕ → ℕ → Call
  erase_page : ℕ → Call
  program_bin : ℕ → List ℕ → Call
  calc_crc32 : List ℕ → Call
  erase_flash_sector : ℕ → Call
  read_flash : ℕ → ℕ → Call
  program_flash : ℕ → List ℕ → Call
  latest_app_info : LatestAppInfo → Call
  app_data : AppData → Call

-- The bytes that the call writes to the port.
abbrev pub sent_by : ℕ → Call → Option (List ℕ)
sent_by fuel send_reboot = Serial.send_reboot fuel
sent_by fuel connect_ldr = Serial.connect_ldr fuel
sent_by fuel read_ldr_version = Serial.read_ldr_version fuel
sent_by fuel read_app_version = Serial.read_app_version fuel
sent_by fuel read_chip_info = Serial.read_chip_info fuel
sent_by fuel read_chip_version = Serial.read_chip_version fuel
sent_by fuel erase_all = Serial.erase_all fuel
sent_by fuel read_flash_size = Serial.read_flash_size fuel
sent_by fuel erase_flash = Serial.erase_flash fuel
sent_by fuel (read_rom a n) = Serial.read_rom fuel a n
sent_by fuel (erase_page a) = Serial.erase_page fuel a
sent_by fuel (program_bin a bin) = Serial.program_bin fuel a bin
sent_by fuel (calc_crc32 dat) = Serial.calc_crc32 fuel dat
sent_by fuel (erase_flash_sector a) = Serial.erase_flash_sector fuel a
sent_by fuel (read_flash a n) = Serial.read_flash fuel a n
sent_by fuel (program_flash a bin) = Serial.program_flash fuel a bin
sent_by fuel (latest_app_info m) = Serial.reply_latest_ota_app_info fuel m
sent_by fuel (app_data res) = Serial.reply_app_data fuel res

-- The data of the packet that the protocol asks for.
abbrev pub data_of : Call → List ℕ
data_of (program_bin a bin) = bin
data_of (calc_crc32 dat) = dat
data_of (erase_flash_sector a) = Serial.le32 a
data_of (read_flash a n) = Serial.le32 a
data_of (program_flash a bin) = Serial.le32 a ++ bin
data_of (latest_app_info m) = Serial.bytes_of_latest m
data_of (app_data res) = Serial.bytes_of_app_data res
data_of _ = []

-- The command of its packet, and the two numbers that the packet has with it.
abbrev pub code_of : Call → ℕ
code_of send_reboot = 0xA4
code_of connect_ldr = 0xA0
code_of read_ldr_version = 0xB7
code_of read_app_version = 0xB8
code_of read_chip_info = 0xB0
code_of read_chip_version = 0xB1
code_of erase_all = 0xA3
code_of read_flash_size = 0xB2
code_of erase_flash = 0xB3
code_of (read_rom a n) = 0xA1
code_of (erase_page a) = 0xA5
code_of (program_bin a bin) = 0xA2
code_of (calc_crc32 dat) = 0xB9
code_of (erase_flash_sector a) = 0xB4
code_of (read_flash a n) = 0xB5
code_of (program_flash a bin) = 0xB6
code_of (latest_app_info m) = 0xC0
code_of (app_data res) = 0xC1

abbrev pub rom_addr_of : Call → ℕ
rom_addr_of (read_rom a n) = a
rom_addr_of (erase_page a) = a
rom_addr_of (program_bin a bin) = a
rom_addr_of _ = 0

abbrev pub size_of : Call → ℕ
size_of (read_rom a n) = n
size_of (read_flash a n) = n
size_of (program_bin a bin) = length bin
size_of (calc_crc32 dat) = length dat
size_of (program_flash a bin) = length bin
size_of (latest_app_info m) = 17
size_of (app_data res) = 13 + res.size
size_of _ = 0

abbrev pub body : Call → List ℕ
body c = body_of (code_of c) (rom_addr_of c) (size_of c) (data_of c)

-- A block that is sent has as many bytes as it says.
abbrev pub Whole : Call → Type 0
Whole (app_data res) = res.size ≤ length res.dat
Whole _ = Unit

module _ (fuel : ℕ) where
  sent_fields :
      (cmd addr size : ℕ)
      → 255 < fuel
      → Serial.send_fields fuel cmd addr size ≡ some (isp_frame (body_of cmd addr size []))
  unfolding Serial.send_fields
  sent_fields cmd addr size f = end_first fuel cmd addr size [] (omega arith) f

  sent_by-isp_frame :
      (c : Call)
      → length (data_of c) ≤ 245
      → Whole c
      → 255 < fuel
      → sent_by fuel c ≡ some (isp_frame (body c))
  unfolding Serial.send_reboot Serial.connect_ldr Serial.read_ldr_version Serial.read_app_version
      Serial.read_chip_info Serial.read_chip_version Serial.erase_all Serial.read_flash_size
      Serial.erase_flash Serial.read_rom Serial.erase_page Serial.program_bin Serial.calc_crc32
      Serial.erase_flash_sector Serial.read_flash Serial.program_flash
      Serial.reply_latest_ota_app_info Serial.reply_app_data
  sent_by-isp_frame send_reboot h w f = sent_fields 0xA4 0 0 f
  sent_by-isp_frame connect_ldr h w f = sent_fields 0xA0 0 0 f
  sent_by-isp_frame read_ldr_version h w f = sent_fields 0xB7 0 0 f
  sent_by-isp_frame read_app_version h w f = sent_fields 0xB8 0 0 f
  sent_by-isp_frame read_chip_info h w f = sent_fields 0xB0 0 0 f
  sent_by-isp_frame read_chip_version h w f = sent_fields 0xB1 0 0 f
  sent_by-isp_frame erase_all h w f = sent_fields 0xA3 0 0 f
  sent_by-isp_frame read_flash_size h w f = sent_fields 0xB2 0 0 f
  sent_by-isp_frame erase_flash h w f = sent_fields 0xB3 0 0 f
  sent_by-isp_frame (read_rom a n) h w f = sent_fields 0xA1 a n f
  sent_by-isp_frame (erase_page a) h w f = sent_fields 0xA5 a 0 f
  sent_by-isp_frame (program_bin a bin) h w f = end_first fuel 0xA2 a (length bin) bin h f
  sent_by-isp_frame (calc_crc32 dat) h w f = end_first fuel 0xB9 0 (length dat) dat h f
  sent_by-isp_frame (erase_flash_sector a) h w f = end_last fuel 0xB4 0 0 (Serial.le32 a) h f
  sent_by-isp_frame (read_flash a n) h w f = end_last fuel 0xB5 0 n (Serial.le32 a) h f
  sent_by-isp_frame (program_flash a bin) h w f =
      let dat = Serial.le32 a ++ bin in
      let ended = put_end (fields (6 + 4 + length bin) 0xB6 0 (length bin)) in
      let len : 6 + 4 + length bin ≡ 6 + length dat = omega arith in
      >>=_ext ended (λ tx.
        sym (>>=_assoc (copy 8 (Serial.le32 a) tx) (copy 12 bin) (send_tx fuel))
        ∙ ap (◌>>= send_tx fuel) (copy-two (Serial.le32 a) bin 8 12 tx refl))
      ∙ rw len (end_first fuel 0xB6 0 (length bin) dat h f)
  sent_by-isp_frame (latest_app_info m) h w f =
      end_last fuel 0xC0 0 17 (Serial.bytes_of_latest m) h f
  sent_by-isp_frame (app_data res) h w f =
      let n : length (take res.size res.dat) ≡ res.size = length-take res.size res.dat w in
      let k : 6 + 13 + res.size ≡ 6 + length (Serial.bytes_of_app_data res) = omega (arith, n) in
      rw k (end_last fuel 0xC1 0 (13 + res.size) (Serial.bytes_of_app_data res) h f)

  -- Every call of the programmer with at most 245 bytes of data arrives (a block of an image with as many
  -- bytes as it announces): a receiver at rest with its 255-byte buffer takes the bytes that were sent,
  -- reports a packet, is at rest again, and holds the call's command, address, size and data behind
  -- the two header bytes.
  pub receive-sent_by :
      (c : Call) (p : Parser) (x y : ℕ) (spare : List ℕ)
      → length (data_of c) ≤ 245
      → Whole c
      → 255 < fuel
      → p.state ≡ idle
      → p.buf ≡ x ∷ y ∷ spare
      → length spare ≡ 253
      → (sent_by fuel c >>= receive p)
        ≡ some (record {
          state = idle;
          len = 2 + length (body c);
          sum = isp_sum (body c);
          buf = isp_pkt_head ∷ length (body c) ∷ (body c ++ drop (length (body c)) spare);
          ok = true;
        })
  receive-sent_by c p x y spare h w f e b n =
      rw (sent_by-isp_frame c h w f)
        (receive-isp_frame p (body c) x y spare e b n (omega arith) (omega (arith, h)))
