-- ===== src/MainLoop/Timeout.antt =====
-- How the main loop of bootloader/src/main.c gives up a packet that does not come to an end.
use stc_isp_demo.Prelude.{
  ℕ, suc, ◌+◌, ◌%◌, ◌<◌, ◌≡◌, ◌≢◌, List, ◌∙◌, refl, sym, ap, arith, false, some, inl, inr,
  Bool-cases, ==_refl, if◌then◌else◌,
}
use stc_isp_demo.Command.{ChipInfo}
use stc_isp_demo.Device.Crc.{Crc32}
use stc_isp_demo.Device.Nor.{Nor}
use stc_isp_demo.Device.Rom.{Rom}
use stc_isp_demo.Uart.{idle, Parser}
use stc_isp_demo.Uart.Queue.{Ring, Irq, isrs, uart_run}
use stc_isp_demo.MainLoop.{
  Loop, Turn, Step, running, resets, take_packet, tick, turn, end_turn, after_run,
}

module _ (crc : Crc32) (nor : Nor) (rom : Rom) (erase_chip : nor.State → nor.State)
    (info : ChipInfo) (ring : Ring) where
  abbrev pub State : Type 0
  State = Loop crc nor rom erase_chip info ring

  abbrev pub Input : Type 0
  Input = Turn crc nor rom erase_chip info ring

  -- The turn takes what bytes there are, and they do not end a packet.
  pub record NoPacket (t : Input) (l : State) : Type 0 where
    pub parser : Parser
    pub left : ring.State
    pub parsed : uart_run ring l.parser (isrs ring t.irqs l.line).rxrb ≡ some (parser, left)
    pub quiet : parser.ok ≡ false

  -- `n` turns of the loop in a row without a packet, with any interrupts
  pub data Quiet : ℕ → State → State → Type 0 where
    here : {l : State} → Quiet 0 l l
    later :
        {n : ℕ} {l m k : State}
        → Quiet n l m
        → (t : Input) → NoPacket t m
        → turn crc nor rom erase_chip info ring t m ≡ running k
        → Quiet (suc n) l k

  abbrev LoopOf : Step crc nor rom erase_chip info ring → State → State
  LoopOf (running k) d = k
  LoopOf _ d = d

  -- The loop in front of the end of the turn.
  abbrev pub received : (t : Input) (l : State) → NoPacket t l → State
  received t l q = record l {
    parser = q.parser;
    line = record (isrs ring t.irqs l.line) { rxrb = q.left };
  }

  take_nothing :
      (irqs : ℕ → List (Irq ring)) (l : State)
      → (l.parser).ok ≡ false
      → take_packet crc nor rom erase_chip info ring irqs l ≡ running l
  unfolding take_packet
  take_nothing irqs l h = rw h refl

  resets_not_running :
      (k : State) → ◌≢◌ {A = Step crc nor rom erase_chip info ring} resets (running k)
  resets_not_running k h = cc

  pub turn_quiet :
      (t : Input) (l : State) (q : NoPacket t l)
      → turn crc nor rom erase_chip info ring t l ≡ (
          if t.key_reboot
          then resets
          else running (tick crc nor rom erase_chip info ring (received t l q)))
  unfolding turn
  turn_quiet t l q =
      ap (after_run crc nor rom erase_chip info ring t (isrs ring t.irqs l.line) l) q.parsed
      ∙ ap (end_turn crc nor rom erase_chip info ring t.key_reboot)
          (take_nothing t.wait_irqs (received t l q) q.quiet)

  turn_ticks :
      (t : Input) (l k : State) (q : NoPacket t l)
      → turn crc nor rom erase_chip info ring t l ≡ running k
      → k ≡ tick crc nor rom erase_chip info ring (received t l q)
  turn_ticks t l k q e = elim (Bool-cases t.key_reboot) [
    | inl h ↦
        let f : turn crc nor rom erase_chip info ring t l ≡ resets = turn_quiet t l q ∙ rw h refl in
        absurd (resets_not_running k (sym f ∙ e))
    | inr h ↦
        let f : turn crc nor rom erase_chip info ring t l
            ≡ running (tick crc nor rom erase_chip info ring (received t l q)) =
          turn_quiet t l q ∙ rw h refl in
        ap (λ x. LoopOf x l) (sym e ∙ f)
  ]

  -- The counters go on with each turn.
  counters :
      (n : ℕ) (l k : State)
      → Quiet n l k
      → l.rx_timeout < 65536
      → (k.rx_time ≡ l.rx_time) × (k.rx_timeout ≡ (l.rx_timeout + n) % 65536)
  unfolding tick
  counters n l k here h = (refl, omega (arith, h))
  counters n l k (later {n = i} {m = m} q t p e) h =
      let (a, b) = counters i l m q h in
      let c = turn_ticks t m k p e in
      (ap (λ x. x.rx_time) c ∙ a, ap (λ x. x.rx_timeout) c ∙ omega (arith, b))

  -- A packet that does not come to an end is given up: the receiver rests behind every row of turns
  -- without a packet that takes rx_timeout round to rx_time, whichever interrupts come in these
  -- turns, those for bytes of the packet among them. The counters are then equal again.
  pub turns_rest :
      (n : ℕ) (l k : State)
      → Quiet (suc n) l k
      → l.rx_timeout < 65536
      → (l.rx_timeout + suc n) % 65536 ≡ l.rx_time
      → ((k.parser).state ≡ idle) × (k.rx_timeout ≡ k.rx_time)
  unfolding tick
  turns_rest n l k (later {n = i} {m = m} q t p e) h g =
      let (a, b) = counters n l m q h in
      let c = turn_ticks t m k p e in
      let last : (m.rx_timeout + 1) % 65536 ≡ m.rx_time = omega (arith, a, b, g) in
      (
        ap (λ x. (x.parser).state) c ∙ rw (last, ==_refl m.rx_time) refl,
        ap (λ x. x.rx_timeout) c ∙ last ∙ sym (ap (λ x. x.rx_time) c),
      )
