-- ===== src/MainLoop.antt =====
-- The main loop of the boot loader, main of bootloader/src/main.c: the queue of received bytes, the
-- commands, the reply, and the timeout of a packet.
pub mod Timeout
use stc_isp_demo.Prelude.{
  ℕ, ◌+◌, ◌%◌, Bool, true, false, ◌||◌, List, ◌∷◌, ◌++◌, Option, none, some, length, take, drop,
  ◌==◌, if◌then◌else◌,
}
use stc_isp_demo.Command
use stc_isp_demo.Command.{ChipInfo, reply, reset, fault, cmd, size, limited}
use stc_isp_demo.Device.Crc.{Crc32}
use stc_isp_demo.Device.Nor.{Nor}
use stc_isp_demo.Device.Rom.{Rom}
use stc_isp_demo.Protocol.{ldr_pkt_head}
use stc_isp_demo.Uart.{idle, Parser, uart_send_tx}
use stc_isp_demo.Uart.Queue.{Ring, Line, Irq, isrs, uart_run, uart_send_raw}
use stc_isp_demo.Uart.Send.{ldr_prefix}

-- `rx.pkt.size` behind the command, which READ_W25Q and PROGRAM_W25Q limit in the packet itself
abbrev pub limit_size : List ℕ → List ℕ
limit_size rx =
    if (cmd rx == 0xB5) || (cmd rx == 0xB6)
    then take 7 rx ++ (limited (size rx) ∷ drop 8 rx)
    else rx

module _ (crc : Crc32) (nor : Nor) (rom : Rom) (erase_chip : nor.State → nor.State)
    (info : ChipInfo) (ring : Ring) where
  -- The receiver with its buffer, the queues, the reply packet, the flashes, and the counters `cycles`,
  -- `rx_time` and `rx_timeout`
  pub record Loop : Type 0 where
    pub parser : Parser
    pub line : Line ring
    pub tx : List ℕ
    pub flash : nor.State
    pub chip : rom.State
    pub cycles : ℕ  -- uint16_t
    pub rx_time : ℕ  -- uint16_t
    pub rx_timeout : ℕ  -- uint16_t

  -- What comes from outside during one turn: the interrupts in front of it, those while a reply waits
  -- for room, and whether the key for a reboot is pressed.
  pub record Turn : Type 0 where
    pub irqs : List (Irq ring)
    pub wait_irqs : ℕ → List (Irq ring)
    pub key_reboot : Bool

  -- `fails` is an access past a buffer, or a checksum loop without end.
  pub data Step : Type 0 where
    running : Loop → Step
    resets fails : Step

  -- The reply that `isp_handle` has put together is sent.
  abbrev pub send_reply : (ℕ → List (Irq ring)) → List ℕ → Loop → Step
  send_reply irqs tx l = elim (uart_send_tx 256 tx) [
    | none ↦ fails
    | some bytes ↦ running (record l {
      tx = bytes ++ drop (length bytes) tx;
      line = uart_send_raw ring bytes irqs l.line;
    })
  ]

  abbrev pub answer :
      (ℕ → List (Irq ring)) → Command.Outcome crc nor rom erase_chip info → Loop → Step
  answer irqs (Command.reply status dat s r) l =
      send_reply irqs (ldr_prefix status dat ++ drop (3 + length dat) l.tx)
        (record l { flash = s; chip = r })
  answer irqs Command.reset l = resets
  answer irqs Command.fault l = fails

  -- `if (isp_parse_ok) { … }`
  unfoldable pub take_packet : (ℕ → List (Irq ring)) → Loop → Step
  take_packet irqs l =
      let taken = record l {
        parser = record l.parser { ok = false; buf = limit_size (l.parser).buf };
        rx_time = l.cycles;
        rx_timeout = l.cycles;
      } in
      if (l.parser).ok
      then answer irqs
          (Command.isp_handle crc nor rom erase_chip info (l.parser).buf l.flash l.chip) taken
      else running l

  -- The counters at the end of a turn, with `isp_parse_init`
  unfoldable pub tick : Loop → Loop
  tick l =
      let t = (l.rx_timeout + 1) % 65536 in
      let p = if t == l.rx_time then record l.parser { state = idle } else l.parser in
      record l { parser = p; rx_timeout = t; cycles = (l.cycles + 1) % 65536 }

  abbrev pub end_turn : Bool → Step → Step
  end_turn key (running l) = if key then resets else running (tick l)
  end_turn key q = q

  -- The rest of a turn, behind `uart_run`
  abbrev pub after_run : Turn → Line ring → Loop → Option (Parser × ring.State) → Step
  after_run t line l none = fails
  after_run t line l (some (p, s)) =
      end_turn t.key_reboot
        (take_packet t.wait_irqs (record l { parser = p; line = record line { rxrb = s } }))

  -- One turn of the loop
  unfoldable pub turn : Turn → Loop → Step
  turn t l =
      let line = isrs ring t.irqs l.line in after_run t line l (uart_run ring l.parser line.rxrb)
