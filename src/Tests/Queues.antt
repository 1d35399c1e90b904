-- ===== src/Tests/Queues.antt =====
-- A queue of at most 255 bytes, and what the serial port of the boot loader does with it.
use stc_isp_demo.Prelude.{
  ℕ, zero, suc, ◌-◌, ◌≤◌, ◌≡◌, ◌∙◌, refl, ap, arith, Bool, true, false, List, [], ◌∷◌, ◌++◌, some,
  length, length-append, length-take_le, take, drop, zeros,
}
use stc_isp_demo.Protocol.{isp_pkt_head}
use stc_isp_demo.Uart.{idle, Parser}
use stc_isp_demo.Uart.Queue.{Ring, Line, isrs}
use stc_isp_demo.Uart.Queue.Fifo.{
  Event, interrupts, sends, run, kept, DroppedWhenFull, sent_irqs, sbuf-run,
}
use stc_isp_demo.Uart.Queue.Taken.{uart_runs, uart_runs-isp_frame}
use stc_isp_demo.Uart.Receive.{isp_frame, isp_sum}

take_short : (n : ℕ) (xs : List ℕ) → length xs ≤ n → take n xs ≡ xs
take_short zero [] h = refl
take_short zero (x ∷ xs) h = absurd (omega arith)
take_short (suc n) [] h = refl
take_short (suc n) (x ∷ xs) h = ap (◌∷◌ x) (take_short n xs (omega arith))

abbrev pub first : List ℕ → ℕ
first [] = 0
first (x ∷ xs) = x

abbrev pub contents : List ℕ → List ℕ
contents s = take 255 s

abbrev pub after_first : List ℕ → List ℕ
after_first s = drop 1 (contents s)

pub contents-append :
    (bs s : List ℕ)
    → length bs ≤ 255 - length (contents s)
    → contents (contents s ++ bs) ≡ contents s ++ bs
contents-append bs s h =
    take_short 255 (contents s ++ bs)
      (omega (arith, length-append (contents s) bs, length-take_le 255 s))

pub contents-after_first :
    (s : List ℕ) (x : ℕ) (xs : List ℕ) → contents s ≡ x ∷ xs → contents (after_first s) ≡ xs
contents-after_first s x xs e =
    ap (λ t. take 255 (drop 1 t)) e
    ∙ take_short 255 xs (omega (arith, ap length e, length-take_le 255 s))

abbrev pub ring : Ring
ring = record {
  State = List ℕ;
  contents = contents;
  writable = λ s. 255 - length (contents s);
  readable = λ s. length (contents s);
  write = λ b s. contents s ++ (b ∷ []);
  skip = after_first;
  read = λ s. (first (contents s), after_first s);
  write_n = λ bs s. contents s ++ bs;
  writable_lem = λ s. omega (arith, length-take_le 255 s);
  readable_lem = λ s. refl;
  write_lem = λ b s h. contents-append (b ∷ []) s h;
  skip_lem = contents-after_first;
  read_value = λ s x xs e. ap first e;
  read_rest = contents-after_first;
  write_n_lem = contents-append;
}

-- Two packets, of which the second waits for the first, and an interrupt between them
abbrev events : List (Event ring)
events =
    sends (1 ∷ 2 ∷ []) (λ i. [])
    ∷ interrupts (record { ri = some 7; ti = true } ∷ [])
    ∷ sends (3 ∷ []) (λ i. [])
    ∷ []

abbrev line : Line ring
line = record { rxrb = []; txrb = []; tx_busy = false; sbuf = [] }

sbuf-run_example :
    (ks : List Bool) × ((isrs ring
        (sent_irqs ring (length (contents (run ring events line).txrb)))
        (run ring events line)).sbuf
      ≡ kept ring ks events)
    × DroppedWhenFull ring ks events line
sbuf-run_example = sbuf-run ring events line

abbrev at_rest : Parser
at_rest = record { state = idle; len = 0; sum = 0; buf = zeros 255; ok = false }

abbrev body : List ℕ
body = 6 ∷ 1 ∷ 0 ∷ []

uart_runs-isp_frame_example :
    (s : List ℕ) × (uart_runs ring 2 at_rest (isp_frame body ++ (8 ∷ []))
      ≡ some (
        record {
          state = idle;
          len = 5;
          sum = isp_sum body;
          buf = isp_pkt_head ∷ 3 ∷ (body ++ zeros 250);
          ok = true;
        },
        s,
      ))
    × (contents s ≡ 8 ∷ [])
uart_runs-isp_frame_example =
    uart_runs-isp_frame ring at_rest body 0 0 (zeros 253) (isp_frame body ++ (8 ∷ [])) (8 ∷ []) refl
      refl refl refl (omega arith) (omega arith) refl
