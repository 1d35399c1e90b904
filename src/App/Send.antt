-- ===== src/App/Send.antt =====
-- What the application sends to the update server: uart1_send_check_ota, uart1_send_get_app_data
-- and uart1_send_sysctx of app/src/uart.c.
use stc_isp_demo.Prelude.{
  ℕ, ◌≤◌, ◌<◌, ◌≡◌, ◌∙◌, refl, sym, ap, arith, List, [], ◌∷◌, ◌++◌, Option, some, ◌>>=◌, length,
  length-drop, take-append-drop, take, drop, length-take, write, copy, copy-append, two_of_length,
}
use stc_isp_demo.Protocol.{ldr_pkt_head}
use stc_isp_demo.OtaInfo.{AppInfo}
use stc_isp_demo.OtaClient.{Request, check_ota, get_app_data}
use stc_isp_demo.Uart.{uart_send_tx}
use stc_isp_demo.Uart.Send.{ldr_prefix, ldr_frame, uart_send_tx-ldr_frame}
use stc_isp_demo.Host.Serial.{le32}

-- `app_info_to_little_endian`: the four fields with the low byte in front
abbrev pub le_app : AppInfo → List ℕ
le_app a = le32 a.size ++ le32 a.crc ++ le32 a.timestamp ++ le32 a.version

-- `tx` with a status, a size and data; `none` is a write past its end.
unfoldable pub fill : ℕ → List ℕ → List ℕ → Option (List ℕ)
fill status dat tx = do a ← write tx 1 status; b ← write a 2 (length dat); copy 3 dat b

module _ (fuel : ℕ) (tx : List ℕ) where
  unfoldable pub uart1_send_check_ota : AppInfo → Option (List ℕ)
  unfolding fill
  uart1_send_check_ota current = do filled ← fill 0xC0 (le_app current) tx; uart_send_tx fuel filled

  unfoldable pub uart1_send_get_app_data : ℕ → ℕ → ℕ → Option (List ℕ)
  unfolding fill
  uart1_send_get_app_data version offset size = do
    filled ← fill 0xC1 (le32 version ++ le32 offset ++ le32 size) tx
    uart_send_tx fuel filled

  -- `sysctx.b` is one byte.
  unfoldable pub uart1_send_sysctx : ℕ → Option (List ℕ)
  unfolding fill
  uart1_send_sysctx b = do filled ← fill 0x8C (b ∷ []) tx; uart_send_tx fuel filled

  -- the call behind each entry of the client's list of requests
  abbrev pub send_request : Request → Option (List ℕ)
  send_request (check_ota a) = uart1_send_check_ota a
  send_request (get_app_data v o n) = uart1_send_get_app_data v o n

-- The data of a request.
abbrev pub request_bytes : Request → List ℕ
request_bytes (check_ota a) = le_app a
request_bytes (get_app_data v o n) = le32 v ++ le32 o ++ le32 n

abbrev pub request_status : Request → ℕ
request_status (check_ota a) = 0xC0
request_status (get_app_data v o n) = 0xC1

fill_prefix :
    (status : ℕ) (dat : List ℕ) (x y : ℕ) (room : List ℕ)
    → length dat ≤ 250
    → length room ≡ 252
    → (u : ℕ) × (v : ℕ) × (spare : List ℕ) × (fill status dat (ldr_pkt_head ∷ x ∷ y ∷ room)
        ≡ some (ldr_prefix status dat ++ (u ∷ v ∷ spare)))
unfolding fill
fill_prefix status dat x y room h n =
    let (u, v, spare, e) =
      two_of_length (drop (length dat) room) (omega (arith, length-drop (length dat) room)) in
    (
      u,
      v,
      spare,
      ap (λ l. copy 3 dat (ldr_pkt_head ∷ status ∷ length dat ∷ l))
            (sym (take-append-drop (length dat) room))
          ∙ copy-append dat (ldr_pkt_head ∷ status ∷ length dat ∷ []) (take (length dat) room)
              (drop (length dat) room) 3 refl (length-take (length dat) room (omega (arith, n)))
          ∙ ap (λ l. some (ldr_prefix status dat ++ l)) e,
    )

-- Each request of the client is sent as one frame with its numbers, the low bytes in front. The
-- reply buffer has its head and 254 bytes behind it.
pub send_request-ldr_frame :
    (fuel x y : ℕ) (room : List ℕ) (r : Request)
    → 255 < fuel
    → length room ≡ 252
    → send_request fuel (ldr_pkt_head ∷ x ∷ y ∷ room) r
      ≡ some (ldr_frame (request_status r) (request_bytes r))
unfolding uart1_send_check_ota uart1_send_get_app_data
send_request-ldr_frame fuel x y room (check_ota a) f n =
    let (u, v, spare, e) = fill_prefix 0xC0 (le_app a) x y room (omega arith) n in
    rw e (uart_send_tx-ldr_frame fuel 0xC0 (le_app a) u v spare (omega arith) f)
send_request-ldr_frame fuel x y room (get_app_data w o k) f n =
    let dat = le32 w ++ le32 o ++ le32 k in
    let (u, v, spare, e) = fill_prefix 0xC1 dat x y room (omega arith) n in
    rw e (uart_send_tx-ldr_frame fuel 0xC1 dat u v spare (omega arith) f)
