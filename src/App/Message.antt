-- ===== src/App/Message.antt =====
-- The messages of the update server, from the functions of programmer/programmer/Serial.cpp that
-- send them to the handlers of app/src/ota.c that isp_handle of app/src/main.c calls.
use stc_isp_demo.Prelude.{
  ℕ, ◌+◌, ◌*◌, ◌/◌, ◌%◌, ◌≤◌, ◌<◌, ◌≡◌, ◌∙◌, refl, sym, ap, arith, true, List, ◌∷◌, ◌++◌, Option,
  some, ◌>>=◌, length, take, drop, length-take, take_of_eq, leb,
}
use stc_isp_demo.Command.{cmd, ChipInfo}
use stc_isp_demo.Device.Crc.{Crc32}
use stc_isp_demo.Device.Nor.{Nor}
use stc_isp_demo.OtaInfo.Codec.{IsAppInfo}
use stc_isp_demo.OtaClient.{
  Client, LatestAppInfo, AppData, ota_on_latest_app_info, ota_on_app_data, store_block, write_block,
  advance,
}
use stc_isp_demo.App.{
  Outcome, quiet, isp_handle, handle_flash, on_latest, on_app_data, latest_of, app_data_of,
}
use stc_isp_demo.Uart.{idle, Parser, receive}
use stc_isp_demo.Protocol.{isp_pkt_head}
use stc_isp_demo.Host.Serial.{bytes_of_app_data, reply_latest_ota_app_info, reply_app_data}
use stc_isp_demo.Host.Serial.Sent.{latest_app_info, app_data, receive-sent_by, body}

-- The values of a `uint32_t`.
abbrev pub IsU32 : ℕ → Type 0
IsU32 x = x < 4294967296

-- Four bytes with the low one in front, put together.
pub from_le32 :
    (x : ℕ)
    → IsU32 x
    → x % 256 + x / 256 % 256 * 256 + x / 65536 % 256 * 65536 + x / 16777216 % 256 * 16777216 ≡ x
from_le32 x h = omega arith

-- The buffer behind a packet.
abbrev pub behind : List ℕ → List ℕ → List ℕ
behind bs rest = isp_pkt_head ∷ length bs ∷ (bs ++ rest)

latest_of-behind :
    (m : LatestAppInfo) (rest : List ℕ)
    → m.result < 256
    → IsAppInfo m.info
    → latest_of (behind (body (latest_app_info m)) rest) ≡ m
latest_of-behind m rest h v =
    let r : m.result % 256 ≡ m.result = omega arith in
    rw
      (
        from_le32 m.info.size v.size,
        from_le32 m.info.crc v.crc,
        from_le32 m.info.timestamp v.timestamp,
        from_le32 m.info.version v.version,
        r,
      )
      refl

-- The block is what the client takes of the message's data.
abbrev as_sent : AppData → List ℕ → AppData
as_sent res rest = record res { dat = take res.size res.dat ++ rest }

block-as_sent :
    (res : AppData) (rest : List ℕ)
    → res.size ≤ length res.dat
    → take res.size (take res.size res.dat ++ rest) ≡ take res.size res.dat
block-as_sent res rest h =
    take_of_eq res.size (take res.size res.dat) rest _ (sym (length-take res.size res.dat h)) refl

pub record IsAppData (res : AppData) : Type 0 where
  pub result : res.result < 256
  pub offset : IsU32 res.offset
  pub size : IsU32 res.size
  pub crc : IsU32 res.crc

app_data_of-behind :
    (res : AppData) (rest : List ℕ)
    → IsAppData res
    → app_data_of (behind (body (app_data res)) rest) ≡ as_sent res rest
app_data_of-behind res rest v =
    let r : res.result % 256 ≡ res.result = omega (arith, v.result) in
    rw (from_le32 res.offset v.offset, from_le32 res.size v.size, from_le32 res.crc v.crc, r) refl

module _ (crc : Crc32) (nor : Nor) (erase_chip : nor.State → nor.State) (info : ChipInfo) where
  latest_reached :
      (rx : List ℕ) (c : Client nor)
      → cmd rx ≡ 0xC0
      → isp_handle crc nor erase_chip info rx c ≡ quiet (on_latest crc nor erase_chip info rx c)
  unfolding isp_handle handle_flash
  latest_reached rx c h = rw h refl

  data_reached :
      (rx : List ℕ) (c : Client nor)
      → cmd rx ≡ 0xC1
      → isp_handle crc nor erase_chip info rx c ≡ quiet (on_app_data crc nor erase_chip info rx c)
  unfolding isp_handle handle_flash
  data_reached rx c h = rw h refl

  latest_taken :
      (m : LatestAppInfo) (rest : List ℕ) (c : Client nor)
      → m.result < 256
      → IsAppInfo m.info
      → on_latest crc nor erase_chip info (behind (body (latest_app_info m)) rest) c
        ≡ ota_on_latest_app_info m c
  unfolding on_latest
  latest_taken m rest c h v = ap (λ k. ota_on_latest_app_info k c) (latest_of-behind m rest h v)

  block_taken :
      (res : AppData) (rest : List ℕ) (c : Client nor)
      → res.size ≤ length res.dat
      → ota_on_app_data crc (as_sent res rest) c ≡ ota_on_app_data crc res c
  unfolding ota_on_app_data store_block write_block advance
  block_taken res rest c h = rw (block-as_sent res rest h) refl

  data_taken :
      (res : AppData) (rest : List ℕ) (c : Client nor)
      → IsAppData res
      → 0 < res.size
      → res.size ≤ 232
      → res.size ≤ length res.dat
      → on_app_data crc nor erase_chip info (behind (body (app_data res)) rest) c
        ≡ ota_on_app_data crc res c
  unfolding on_app_data
  data_taken res rest c v p q h =
      let enough : leb 14 ((13 + res.size) % 256) ≡ true = ground arith in
      rw enough (
        ap (λ k. ota_on_app_data crc k c) (app_data_of-behind res rest v)
        ∙ block_taken res rest c h)

  -- What a receiver has reported, as `isp_handle` takes it.
  abbrev pub handled : Client nor → Option Parser → Option (Outcome crc nor erase_chip info)
  handled c p = p >>= λ q. some (isp_handle crc nor erase_chip info q.buf c)

  -- The server's message about the latest application arrives: the bytes that the programmer
  -- writes to the port are received and handled as one call of `ota_on_latest_app_info` with the
  -- same result and the same record, and without a reply. The receiver is at rest with its
  -- 255-byte buffer, and every field has a value of its type.
  pub isp_handle-latest :
      (fuel : ℕ) (m : LatestAppInfo) (c : Client nor) (p : Parser) (x y : ℕ) (spare : List ℕ)
      → m.result < 256
      → IsAppInfo m.info
      → 255 < fuel
      → p.state ≡ idle
      → p.buf ≡ x ∷ y ∷ spare
      → length spare ≡ 253
      → handled c (reply_latest_ota_app_info fuel m >>= receive p)
        ≡ some (quiet (ota_on_latest_app_info m c))
  isp_handle-latest fuel m c p x y spare h v f e b n =
      let rest = drop (length (body (latest_app_info m))) spare in
      ap (handled c) (receive-sent_by fuel (latest_app_info m) p x y spare (omega arith) tt f e b n)
      ∙ ap {A = Outcome crc nor erase_chip info} some (
          latest_reached (behind (body (latest_app_info m)) rest) c refl
          ∙ ap {A = Client nor} quiet (latest_taken m rest c h v))

  -- A block of the server arrives: the bytes that the programmer writes to the port are received
  -- and handled as one call of `ota_on_app_data` with the same block, and without a reply. The
  -- block has 1 to 232 bytes, every field has a value of its type, and the receiver is at rest
  -- with its 255-byte buffer.
  pub isp_handle-app_data :
      (fuel : ℕ) (res : AppData) (c : Client nor) (p : Parser) (x y : ℕ) (spare : List ℕ)
      → IsAppData res
      → 0 < res.size
      → res.size ≤ 232
      → res.size ≤ length res.dat
      → 255 < fuel
      → p.state ≡ idle
      → p.buf ≡ x ∷ y ∷ spare
      → length spare ≡ 253
      → handled c (reply_app_data fuel res >>= receive p) ≡ some (quiet (ota_on_app_data crc res c))
  isp_handle-app_data fuel res c p x y spare v q r h f e b n =
      let rest = drop (length (body (app_data res))) spare in
      let k : length (bytes_of_app_data res) ≤ 245 =
        omega (arith, length-take res.size res.dat h) in
      ap (handled c) (receive-sent_by fuel (app_data res) p x y spare k h f e b n)
      ∙ ap {A = Outcome crc nor erase_chip info} some (
          data_reached (behind (body (app_data res)) rest) c refl
          ∙ ap {A = Client nor} quiet (data_taken res rest c v q r h))

  -- A block without bytes, which is how the server reports an error, is dropped: the client does
  -- not learn of it.
  pub isp_handle-no_data :
      (fuel : ℕ) (res : AppData) (c : Client nor) (p : Parser) (x y : ℕ) (spare : List ℕ)
      → res.size ≡ 0
      → 255 < fuel
      → p.state ≡ idle
      → p.buf ≡ x ∷ y ∷ spare
      → length spare ≡ 253
      → handled c (reply_app_data fuel res >>= receive p) ≡ some (quiet c)
  unfolding on_app_data
  isp_handle-no_data fuel res c p x y spare z f e b n =
      let rest = drop (length (body (app_data res))) spare in
      let k : length (bytes_of_app_data res) ≤ 245 =
        omega (arith, length-take res.size res.dat (omega (arith, z))) in
      ap (handled c) (receive-sent_by fuel (app_data res) p x y spare k (omega (arith, z)) f e b n)
      ∙ ap {A = Outcome crc nor erase_chip info} some (
          data_reached (behind (body (app_data res)) rest) c refl
          ∙ ap {A = Client nor} quiet (rw z refl))
