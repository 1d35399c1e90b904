-- ===== src/Uart/Queue.antt =====
-- The queues between the interrupt routine and the main loop: uart1_isr, uart_send_raw and uart_run of
-- bootloader/src/uart.c (app/src/uart.c has the same text under names with `uart1`). The ring
-- buffers are those of libhb/libemb/ringbuf.h, another project's code.
pub mod Fifo
pub mod Taken
use stc_isp_demo.Prelude.{
  ℕ, zero, suc, ◌+◌, ◌-◌, ◌≤◌, ◌<◌, ◌≡◌, Bool, true, false, ◌||◌, not, List, [], ◌∷◌, ◌++◌, Option,
  none, some, ◌>>=◌, length, ltb, ◌==◌, if◌then◌else◌,
}
use stc_isp_demo.Uart.{Parser, uart_parse}

-- A ring of `RB_SIZE` bytes, of which all but one can be used. The interrupt routine spells out what
-- `ringbuf_read` does.
pub record Ring : Type 1 where
  pub State : Type 0
  pub contents : State → List ℕ
  pub writable : State → ℕ
  pub readable : State → ℕ
  pub write : ℕ → State → State
  pub skip : State → State
  pub read : State → ℕ × State
  pub write_n : List ℕ → State → State
  pub writable_lem : (s : State) → writable s + length (contents s) ≡ 255
  pub readable_lem : (s : State) → readable s ≡ length (contents s)
  pub write_lem :
      (b : ℕ) (s : State) → 0 < writable s → contents (write b s) ≡ contents s ++ (b ∷ [])
  pub skip_lem : (s : State) (x : ℕ) (xs : List ℕ) → contents s ≡ x ∷ xs → contents (skip s) ≡ xs
  pub read_value : (s : State) (x : ℕ) (xs : List ℕ) → contents s ≡ x ∷ xs → (read s).0 ≡ x
  pub read_rest : (s : State) (x : ℕ) (xs : List ℕ) → contents s ≡ x ∷ xs → contents (read s).1 ≡ xs
  pub write_n_lem :
      (bs : List ℕ) (s : State)
      → length bs ≤ writable s
      → contents (write_n bs s) ≡ contents s ++ bs

-- `UART_WAIT_TIME`
abbrev pub uart_wait_time : ℕ
uart_wait_time = 0x7FFF

module _ (ring : Ring) where
  -- `rxrb`, `txrb`, `tx_busy`, and the bytes that were put into SBUF, the first one first
  pub record Line : Type 0 where
    pub rxrb : ring.State
    pub txrb : ring.State
    pub tx_busy : Bool
    pub sbuf : List ℕ

  -- The branch for RI, with the byte that has arrived.
  unfoldable pub on_ri : ℕ → Line → Line
  on_ri c l =
      let s = if ring.writable l.rxrb == 0 then ring.skip l.rxrb else l.rxrb in
      record l { rxrb = ring.write c s }

  -- The branch for TI.
  unfoldable pub on_ti : Line → Line
  on_ti l =
      if ring.readable l.txrb == 0
      then record l { tx_busy = false }
      else (let (c, s) = ring.read l.txrb in record l { txrb = s; sbuf = l.sbuf ++ (c ∷ []) })

  -- What the routine finds: a received byte, and whether a byte was sent.
  pub record Irq : Type 0 where
    pub ri : Option ℕ
    pub ti : Bool

  unfoldable pub uart1_isr : Irq → Line → Line
  unfolding on_ri on_ti
  uart1_isr q l =
      let l' : Line = elim q.ri [ none ↦ l | some c ↦ on_ri c l ] in if q.ti then on_ti l' else l'

  unfoldable pub isrs : List Irq → Line → Line
  unfolding uart1_isr
  isrs [] l = l
  isrs (q ∷ qs) l = isrs qs (uart1_isr q l)

  -- The loop that waits for room, with the interrupts during each round.
  unfoldable pub wait_room : ℕ → ℕ → (ℕ → List Irq) → Line → Line
  unfolding isrs
  wait_room zero n irqs l = l
  wait_room (suc i) n irqs l =
      let rest = wait_room i n irqs (isrs (irqs i) l) in
      if ltb (ring.writable l.txrb) n then rest else l

  -- The part of `uart_send_raw` with the interrupt disabled, for a buffer of one byte or more
  unfoldable pub queue_bytes : List ℕ → Line → Line
  queue_bytes [] l = l
  queue_bytes (c ∷ bs) l =
      if l.tx_busy || not (ring.readable l.txrb == 0)
      then record l { txrb = ring.write_n (c ∷ bs) l.txrb }
      else record l { txrb = ring.write_n bs l.txrb; tx_busy = true; sbuf = l.sbuf ++ (c ∷ []) }

  -- The part of `uart_send_raw` behind the loop
  unfoldable pub enqueue : List ℕ → Line → Line
  unfolding queue_bytes
  enqueue bs l = if ltb (ring.writable l.txrb) (length bs) then l else queue_bytes bs l

  -- `uart_send_raw`, on a list of at most 255 bytes
  unfoldable pub uart_send_raw : List ℕ → (ℕ → List Irq) → Line → Line
  uart_send_raw bs irqs l = enqueue bs (wait_room uart_wait_time (length bs) irqs l)

  -- The loop of `uart_run`, `i` rounds; `none` is a write past the receive buffer.
  unfoldable pub run_bytes : ℕ → Parser → ring.State → Option (Parser × ring.State)
  run_bytes zero p s = some (p, s)
  run_bytes (suc i) p s =
      let (c, s') = ring.read s in
      let rest = uart_parse p c >>= λ q. if q.ok then some (q, s') else run_bytes i q s' in
      if ring.readable s == 0 then some (p, s) else rest

  unfoldable pub uart_run : Parser → ring.State → Option (Parser × ring.State)
  unfolding run_bytes
  uart_run p s = run_bytes 4 p s
