-- ===== src/Host/Server/Request.antt =====
-- From a request of app/src/uart.c to the server of programmer/programmer/programmer.cpp.
use stc_isp_demo.Prelude.{
  ℕ, ◌≤◌, ◌<◌, ◌≡◌, ◌∙◌, sym, ap, arith, List, [], ◌∷◌, ◌++◌, Option, none, some, ◌>>=◌, length,
  length-append, take, drop, take-append-drop,
}
use stc_isp_demo.Device.Crc.{Crc32}
use stc_isp_demo.OtaClient.{Request, check_ota, get_app_data}
use stc_isp_demo.App.Message.{IsU32, from_le32}
use stc_isp_demo.App.Send.{send_request, send_request-ldr_frame, request_status, request_bytes}
use stc_isp_demo.Protocol.{ldr_pkt_head, ldr_pkt_len, pkt_end, negated}
use stc_isp_demo.Uart.Send.{ldr_frame, ldr_sum}
use stc_isp_demo.Host.Reply.{ReplyParser, idle, receive_reply}
use stc_isp_demo.Host.Reply.RoundTrip.{Reported, receive_reply-ldr_frame}
use stc_isp_demo.Host.Serial.{reply_latest_ota_app_info, reply_app_data}
use stc_isp_demo.Host.Server.{Server, serve, answer_latest, answer_data}

module _ (crc : Crc32) (fuel : ℕ) (srv : Server) where
  -- What the server answers to a request.
  abbrev pub answer : Request → Option (List ℕ)
  answer (check_ota a) = reply_latest_ota_app_info fuel (answer_latest srv a.version)
  answer (get_app_data v o n) = answer_data crc srv v o n >>= reply_app_data fuel

  -- The numbers of a request are `uint32_t`.
  abbrev pub IsRequest : Request → Type 0
  IsRequest (check_ota a) = IsU32 a.version
  IsRequest (get_app_data v o n) = IsU32 v × IsU32 o × IsU32 n

  serve-ldr_frame :
      (r : Request)
      → IsRequest r
      → serve crc fuel srv (ldr_frame (request_status r) (request_bytes r)) ≡ answer r
  unfolding serve
  serve-ldr_frame (check_ota a) h =
      ap (λ v. reply_latest_ota_app_info fuel (answer_latest srv v)) (from_le32 a.version h)
  serve-ldr_frame (get_app_data v o n) (p, q, r) =
      ap (λ (k : ℕ × ℕ × ℕ). answer_data crc srv k.0 k.1 k.2 >>= reply_app_data fuel)
        (λ i. (from_le32 v p i, from_le32 o q i, from_le32 n r i))

  -- A packet that was reported is handed over: `ldr_pkt_len(&rx)` bytes of the buffer.
  abbrev pub served : ReplyParser → Option (List ℕ)
  served q = serve crc fuel srv (take (ldr_pkt_len q.buf) q.buf)

  served-Reported :
      (status : ℕ) (dat : List ℕ) (o : Option ReplyParser)
      → Reported (ldr_frame status dat) o
      → (o >>= served) ≡ serve crc fuel srv (ldr_frame status dat)
  served-Reported status dat none h = absurd h
  served-Reported status dat (some q) (o, s, l, e) =
      let frame = ldr_frame status dat in
      let front : q.buf ≡ frame ++ drop (length frame) q.buf =
        sym (take-append-drop (length frame) q.buf) ∙ ap (◌++ drop (length frame) q.buf) e in
      let len : ldr_pkt_len q.buf ≡ length frame =
        ap ldr_pkt_len front
        ∙ omega (arith, length-append dat (pkt_end ∷ negated (ldr_sum status dat) ∷ [])) in
      ap (serve crc fuel srv) (ap (λ n. take n q.buf) len ∙ e)

  -- A request of the client reaches the server: what the application sends is received by the
  -- programmer, whose server answers to the same numbers. The receiver of the programmer is at
  -- rest, and each buffer has 255 bytes.
  pub served-send_request :
      (r : Request) (x y : ℕ) (room : List ℕ) (p : ReplyParser) (a b c : ℕ) (spare : List ℕ)
      → IsRequest r
      → 255 < fuel
      → length room ≡ 252
      → p.state ≡ idle
      → p.buf ≡ a ∷ b ∷ c ∷ spare
      → length spare ≡ 252
      → (send_request fuel (ldr_pkt_head ∷ x ∷ y ∷ room) r >>= receive_reply p >>= served)
        ≡ answer r
  served-send_request r x y room p a b c spare v f n e g k =
      rw (send_request-ldr_frame fuel x y room r f n) (
        served-Reported (request_status r) (request_bytes r)
          (receive_reply p (ldr_frame (request_status r) (request_bytes r)))
          (receive_reply-ldr_frame p a b c (request_status r) (request_bytes r) spare e g k
            (short r))
        ∙ serve-ldr_frame r v)
    where
      short : (r : Request) → length (request_bytes r) ≤ 250
      short (check_ota a) = omega arith
      short (get_app_data v o n) = omega arith
