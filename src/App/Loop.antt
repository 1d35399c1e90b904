-- ===== src/App/Loop.antt =====
-- The main loop of the application, main of app/src/main.c, with the interrupt routine of the timer,
-- app/src/timer.c: the queue of received bytes, the commands, the timeout of a packet, and the update
-- client with its seconds. What goes out leaves through uart1_send_raw of app/src/uart.c.
pub mod Timer
pub mod Events
use stc_isp_demo.Prelude.{
  get_or, leb, ◌&&◌, ℕ, zero, suc, ◌+◌, ◌%◌, Bool, true, false, List, [], ◌∷◌, ◌++◌, Option, none,
  some, length, take, drop, ◌==◌, if◌then◌else◌,
}
use stc_isp_demo.App
use stc_isp_demo.App.Send.{send_request, uart1_send_sysctx}
use stc_isp_demo.Command.{cmd, size, ChipInfo}
use stc_isp_demo.Device.Crc.{Crc32}
use stc_isp_demo.Device.Nor.{Nor}
use stc_isp_demo.MainLoop.{limit_size}
use stc_isp_demo.OtaClient.{Client, Request, ota_1s_event, ota_run}
use stc_isp_demo.OtaInfo.{OtaId, master, backup}
use stc_isp_demo.Uart.{idle, Parser, uart_send_tx}
use stc_isp_demo.Uart.Queue.{Ring, Line, Irq, isrs, uart_run, uart_send_raw}
use stc_isp_demo.Uart.Send.{ldr_prefix}

-- `counter_1ms` and `flag_1s`
pub record Clock : Type 0 where
  pub counter_1ms : ℕ  -- uint16_t
  pub flag_1s : Bool

unfoldable pub t0_isr : Clock → Clock
t0_isr t =
    let n = (t.counter_1ms + 1) % 65536 in
    if n == 1000 then record { counter_1ms = 0; flag_1s = true } else record t { counter_1ms = n }

unfoldable pub t0_isrs : ℕ → Clock → Clock
unfolding t0_isr
t0_isrs zero t = t
t0_isrs (suc n) t = t0_isrs n (t0_isr t)

-- `sysctx.b`, of which the client changes the bit `otaid`
abbrev pub sysctx_byte : ℕ → OtaId → ℕ
sysctx_byte others master = others
sysctx_byte others backup = others + 64

-- `rev32` of the four bytes at `o`, in place
abbrev pub rev32_at : ℕ → List ℕ → List ℕ
rev32_at o rx =
    take o rx
    ++ (get_or rx (o + 3) 0
        ∷ get_or rx (o + 2) 0
        ∷ get_or rx (o + 1) 0
        ∷ get_or rx o 0
        ∷ drop (o + 4) rx)

-- The packet behind `isp_handle`, which turns the numbers of a message of the server round where they
-- stand
abbrev pub handled : List ℕ → List ℕ
handled rx =
    if (cmd rx == 0xC0) && (size rx == 17)
    then rev32_at 21 (rev32_at 17 (rev32_at 13 (rev32_at 9 rx)))
    else if (cmd rx == 0xC1) && leb 14 (size rx)
    then rev32_at 17 (rev32_at 13 (rev32_at 9 rx))
    else limit_size rx

-- `tx.pkt.status = LDR_STATUS_OK; tx.pkt.size = 0;`
abbrev pub cleared : List ℕ → List ℕ
cleared tx = take 1 tx ++ (0 ∷ 0 ∷ drop 3 tx)

module _ (crc : Crc32) (nor : Nor) (erase_chip : nor.State → nor.State) (info : ChipInfo)
    (ring : Ring) where
  -- The receiver with its buffer, the queues, the packet that is sent, the client with the flash, the
  -- timer, the other bits of `sysctx`, and the counters of main
  pub record Loop : Type 0 where
    pub parser : Parser
    pub line : Line ring
    pub tx : List ℕ
    pub client : Client nor
    pub timer : Clock
    pub sysctx : ℕ
    pub cycles : ℕ  -- uint16_t
    pub rx_time : ℕ  -- uint16_t
    pub rx_timeout : ℕ  -- uint16_t

  -- What comes from outside during one turn: the interrupts of the port and how many of the timer in
  -- front of it, those while each message waits for room, and whether the boot key is pressed.
  pub record Turn : Type 0 where
    pub irqs : List (Irq ring)
    pub ticks : ℕ
    pub wait_irqs : ℕ → ℕ → List (Irq ring)
    pub key_boot : Bool

  -- `fails` is an access past a buffer, or a checksum loop without end.
  pub data Step : Type 0 where
    running : Loop → Step
    resets fails : Step

  abbrev pub then_do : Step → (Loop → Step) → Step
  then_do (running l) f = f l
  then_do resets f = resets
  then_do fails f = fails

  -- The bytes of a message are put into the queue.
  abbrev pub send_bytes : (ℕ → List (Irq ring)) → Option (List ℕ) → Loop → Step
  send_bytes irqs none l = fails
  send_bytes irqs (some bytes) l = running (record l {
    tx = bytes ++ drop (length bytes) l.tx;
    line = uart_send_raw ring bytes irqs l.line;
  })

  unfoldable pub send_requests : ℕ → (ℕ → ℕ → List (Irq ring)) → List Request → Loop → Step
  send_requests k irqs [] l = running l
  send_requests k irqs (r ∷ rs) l =
      then_do (send_bytes (irqs k) (send_request 256 l.tx r) l) (send_requests (suc k) irqs rs)

  -- A function of the client, and the requests that it sends; the client keeps them in `sent`.
  unfoldable pub client_does :
      ℕ → (ℕ → ℕ → List (Irq ring)) → (Client nor → Client nor) → Loop → Step
  unfolding send_requests
  client_does k irqs f l =
      let c = f l.client in
      send_requests k irqs (drop (length l.client.sent) c.sent) (record l { client = c })

  abbrev pub answer : (ℕ → ℕ → List (Irq ring)) → App.Outcome crc nor erase_chip info → Loop → Step
  answer irqs (App.reply status dat c) l =
      send_bytes (irqs 0) (uart_send_tx 256 (ldr_prefix status dat ++ drop (3 + length dat) l.tx))
        (record l { client = c })
  answer irqs (App.quiet c) l =
      send_requests 0 irqs (drop (length l.client.sent) c.sent)
        (record l { client = c; tx = cleared l.tx })
  answer irqs App.reset l = resets
  answer irqs App.fault l = fails

  -- `if (isp_parse_ok) { … }`
  unfoldable pub take_packet : (ℕ → ℕ → List (Irq ring)) → Loop → Step
  unfolding send_requests
  take_packet irqs l =
      let taken = record l {
        parser = record l.parser { ok = false; buf = handled (l.parser).buf };
        rx_time = l.cycles;
        rx_timeout = l.cycles;
      } in
      if (l.parser).ok
      then answer irqs (App.isp_handle crc nor erase_chip info (l.parser).buf l.client) taken
      else running l

  -- `if (++rx_timeout == rx_time) { isp_parse_init(ctx); }`
  unfoldable pub count_timeout : Loop → Loop
  count_timeout l =
      let t = (l.rx_timeout + 1) % 65536 in
      let p = if t == l.rx_time then record l.parser { state = idle } else l.parser in
      record l { parser = p; rx_timeout = t }

  -- `if (flag_1s) { … }`
  unfoldable pub on_second : (ℕ → ℕ → List (Irq ring)) → Loop → Step
  unfolding client_does
  on_second irqs l =
      let quiet = record l { timer = record l.timer { flag_1s = false } } in
      if (l.timer).flag_1s
      then then_do (client_does 1 irqs ota_1s_event quiet) (λ m.
        send_bytes (irqs 2) (uart1_send_sysctx 256 m.tx (sysctx_byte m.sysctx (m.client).otaid)) m)
      else running l

  -- One turn of the loop from `uart1_run` on
  abbrev pub after_run : Turn → Loop → Option (Parser × ring.State) → Step
  after_run t l none = fails
  after_run t l (some (p, s)) =
      then_do (take_packet t.wait_irqs (record l { parser = p; line = record l.line { rxrb = s } }))
        (λ m.
          if t.key_boot
          then resets
          else then_do (on_second t.wait_irqs (count_timeout m))
              (client_does 3 t.wait_irqs (ota_run crc)))

  unfoldable pub turn : Turn → Loop → Step
  turn t l =
      let m = record l {
        line = isrs ring t.irqs l.line;
        timer = t0_isrs t.ticks l.timer;
        cycles = (l.cycles + 1) % 65536;
      } in
      after_run t m (uart_run ring m.parser m.line.rxrb)
