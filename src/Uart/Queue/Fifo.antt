-- ===== src/Uart/Queue/Fifo.antt =====
-- What is sent through the queue of bootloader/src/uart.c leaves it in order.
use stc_isp_demo.Prelude.{
  ℕ, zero, suc, ◌+◌, ◌≤◌, ◌<◌, ◌≡◌, ◌⊎◌, ◌∙◌, refl, sym, ap, subst, arith, Bool, true, false, ◌||◌,
  not, List, [], ◌∷◌, ◌++◌, append_assoc, append-nil, append_snoc, none, length, ltb, ltb→lt,
  ltb→le, ◌==◌, Bool-cases, Option-cases, inl, inr, if◌then◌else◌,
}
use stc_isp_demo.Uart.Queue.{
  Ring, Line, on_ri, on_ti, Irq, uart1_isr, isrs, wait_room, queue_bytes, enqueue, uart_wait_time,
  uart_send_raw,
}

module _ (ring : Ring) where
  -- The bytes that were accepted for sending: those that are sent, and those that wait.
  abbrev pub out : Line ring → List ℕ
  out l = l.sbuf ++ ring.contents l.txrb

  first_of :
      (s : ring.State)
      → (ring.readable s == 0) ≡ false
      → (x : ℕ) × (xs : List ℕ) × (ring.contents s ≡ x ∷ xs)
  first_of s h = split (ring.contents s) (subst (λ k. (k == 0) ≡ false) (ring.readable_lem s) h)
    where
      split : (xs : List ℕ) → (length xs == 0) ≡ false → (y : ℕ) × (ys : List ℕ) × (xs ≡ y ∷ ys)
      split [] e = cc
      split (y ∷ ys) e = (y, ys, refl)

  empty_of : (s : ring.State) → (ring.readable s == 0) ≡ true → ring.contents s ≡ []
  empty_of s h = split (ring.contents s) (subst (λ k. (k == 0) ≡ true) (ring.readable_lem s) h)
    where
      split : (xs : List ℕ) → (length xs == 0) ≡ true → xs ≡ []
      split [] e = refl
      split (y ∷ ys) e = absurd (ground arith)

  -- The byte at the front goes out.
  on_ti_next :
      (l : Line ring) (x : ℕ) (xs : List ℕ)
      → ring.contents l.txrb ≡ x ∷ xs
      → (ring.contents (on_ti ring l).txrb ≡ xs) × ((on_ti ring l).sbuf ≡ l.sbuf ++ (x ∷ []))
  unfolding on_ti
  on_ti_next l x xs e =
      let some_left : (ring.readable l.txrb == 0) ≡ false =
        ground (arith, ring.readable_lem l.txrb, ap length e) in
      rw some_left
        (ring.read_rest l.txrb x xs e, ap (λ y. l.sbuf ++ (y ∷ [])) (ring.read_value l.txrb x xs e))

  out-on_ti : (l : Line ring) → out (on_ti ring l) ≡ out l
  unfolding on_ti
  out-on_ti l = elim (Bool-cases (ring.readable l.txrb == 0)) [
    | inl t ↦ rw t refl
    | inr t ↦
        let (x, xs, e) = first_of l.txrb t in
        rw t (
          ap (λ y. (l.sbuf ++ (y ∷ [])) ++ ring.contents (ring.read l.txrb).1)
            (ring.read_value l.txrb x xs e)
          ∙ ap (λ ys. (l.sbuf ++ (x ∷ [])) ++ ys) (ring.read_rest l.txrb x xs e)
          ∙ append_snoc l.sbuf x xs
          ∙ ap (◌++◌ l.sbuf) (sym e))
  ]

  out-uart1_isr : (q : Irq ring) (l : Line ring) → out (uart1_isr ring q l) ≡ out l
  unfolding uart1_isr on_ri
  out-uart1_isr q l = elim (Bool-cases q.ti) [
    | inl t ↦ elim (Option-cases q.ri) [
      | inl r ↦ rw (t, r) (out-on_ti l)
      | inr (c, r) ↦ rw (t, r) (out-on_ti (on_ri ring c l))
    ]
    | inr t ↦ elim (Option-cases q.ri) [ inl r ↦ rw (t, r) refl | inr (c, r) ↦ rw (t, r) refl ]
  ]

  out-isrs : (qs : List (Irq ring)) (l : Line ring) → out (isrs ring qs l) ≡ out l
  unfolding isrs
  out-isrs [] l = refl
  out-isrs (q ∷ qs) l = out-isrs qs (uart1_isr ring q l) ∙ out-uart1_isr q l

  out-wait_room :
      (i n : ℕ) (irqs : ℕ → List (Irq ring)) (l : Line ring)
      → out (wait_room ring i n irqs l) ≡ out l
  unfolding wait_room
  out-wait_room zero n irqs l = refl
  out-wait_room (suc i) n irqs l = elim (Bool-cases (ltb (ring.writable l.txrb) n)) [
    | inl t ↦ rw t (out-wait_room i n irqs (isrs ring (irqs i) l) ∙ out-isrs (irqs i) l)
    | inr t ↦ rw t refl
  ]

  -- Bytes for which there is room are accepted behind all others.
  out-queue_bytes :
      (bs : List ℕ) (l : Line ring)
      → length bs ≤ ring.writable l.txrb
      → out (queue_bytes ring bs l) ≡ out l ++ bs
  unfolding queue_bytes
  out-queue_bytes [] l h = sym (append-nil (out l))
  out-queue_bytes (c ∷ bs) l h = elim (Bool-cases (l.tx_busy || not (ring.readable l.txrb == 0))) [
    | inl t ↦ rw t (
        ap (◌++◌ l.sbuf) (ring.write_n_lem (c ∷ bs) l.txrb h)
        ∙ sym (append_assoc l.sbuf (ring.contents l.txrb) (c ∷ bs)))
    | inr t ↦
        let none_left : (ring.readable l.txrb == 0) ≡ true = ground (arith, t) in
        let e = empty_of l.txrb none_left in
        rw t (
          ap (λ ys. (l.sbuf ++ (c ∷ [])) ++ ys)
            (ring.write_n_lem bs l.txrb (omega (arith, h)) ∙ ap (λ ys. ys ++ bs) e)
          ∙ append_snoc l.sbuf c bs
          ∙ ap (λ ys. ys ++ (c ∷ bs)) (sym (append-nil l.sbuf) ∙ ap (◌++◌ l.sbuf) (sym e)))
  ]

  -- A packet is accepted whole, or the ring had no room for it.
  abbrev Accepted : List ℕ → Line ring → Line ring → Bool → Type 0
  Accepted bs l l' keep =
      (out l' ≡ out l ++ (if keep then bs else []))
      × ((keep ≡ true) ⊎ (255 < length (ring.contents l'.txrb) + length bs))

  enqueue_lem :
      (bs : List ℕ) (l w : Line ring)
      → out w ≡ out l
      → (keep : Bool) × Accepted bs l (enqueue ring bs w) keep
  unfolding enqueue
  enqueue_lem bs l w waited = elim (Bool-cases (ltb (ring.writable w.txrb) (length bs))) [
    | inl t ↦
        let full : 255 < length (ring.contents w.txrb) + length bs =
          omega (arith, ltb→lt _ _ t, ring.writable_lem w.txrb) in
        (false, rw t (waited ∙ sym (append-nil (out l)), inr full))
    | inr t ↦
        (true, rw t (out-queue_bytes bs w (ltb→le _ _ t) ∙ ap (λ ys. ys ++ bs) waited, inl refl))
  ]

  uart_send_raw_lem :
      (bs : List ℕ) (irqs : ℕ → List (Irq ring)) (l : Line ring)
      → (keep : Bool) × Accepted bs l (uart_send_raw ring bs irqs l) keep
  unfolding uart_send_raw
  uart_send_raw_lem bs irqs l =
      enqueue_lem bs l (wait_room ring uart_wait_time (length bs) irqs l)
        (out-wait_room uart_wait_time (length bs) irqs l)

  -- What happens to the port: interrupts, and packets to send with the interrupts that come while
  -- the sender waits.
  pub data Event : Type 0 where
    interrupts : List (Irq ring) → Event
    sends : List ℕ → (ℕ → List (Irq ring)) → Event

  unfoldable pub run : List Event → Line ring → Line ring
  run [] l = l
  run (interrupts qs ∷ es) l = run es (isrs ring qs l)
  run (sends bs irqs ∷ es) l = run es (uart_send_raw ring bs irqs l)

  -- The packets, less those that are not kept.
  abbrev pub kept : List Bool → List Event → List ℕ
  kept ks [] = []
  kept ks (interrupts qs ∷ es) = kept ks es
  kept [] (sends bs irqs ∷ es) = []
  kept (k ∷ ks) (sends bs irqs ∷ es) = (if k then bs else []) ++ kept ks es

  -- A packet that is not kept found the ring too full for it, to the end of its wait.
  abbrev pub DroppedWhenFull : List Bool → List Event → Line ring → Type 0
  DroppedWhenFull ks [] l = Unit
  DroppedWhenFull ks (interrupts qs ∷ es) l = DroppedWhenFull ks es (isrs ring qs l)
  DroppedWhenFull [] (sends bs irqs ∷ es) l = ⊥
  DroppedWhenFull (k ∷ ks) (sends bs irqs ∷ es) l =
      let l' = uart_send_raw ring bs irqs l in
      ((k ≡ true) ⊎ (255 < length (ring.contents l'.txrb) + length bs)) × DroppedWhenFull ks es l'

  out-run :
      (es : List Event) (l : Line ring)
      → (ks : List Bool) × (out (run es l) ≡ out l ++ kept ks es) × DroppedWhenFull ks es l
  unfolding run
  out-run [] l = ([], sym (append-nil (out l)), tt)
  out-run (interrupts qs ∷ es) l =
      let (ks, e, d) = out-run es (isrs ring qs l) in
      (ks, e ∙ ap (λ ys. ys ++ kept ks es) (out-isrs qs l), d)
  out-run (sends bs irqs ∷ es) l =
      let (k, (f, full)) = uart_send_raw_lem bs irqs l in
      let (ks, e, d) = out-run es (uart_send_raw ring bs irqs l) in
      (
        k ∷ ks,
        e
            ∙ ap (λ ys. ys ++ kept ks es) f
            ∙ append_assoc (out l) (if k then bs else []) (kept ks es),
        (full, d),
      )

  -- `n` interrupts that say that a byte was sent
  abbrev pub sent_irqs : ℕ → List (Irq ring)
  sent_irqs zero = []
  sent_irqs (suc n) = record { ri = none; ti = true } ∷ sent_irqs n

  drained :
      (xs : List ℕ) (l : Line ring)
      → ring.contents l.txrb ≡ xs
      → (isrs ring (sent_irqs (length xs)) l).sbuf ≡ l.sbuf ++ xs
  unfolding isrs uart1_isr
  drained [] l e = sym (append-nil l.sbuf)
  drained (x ∷ xs) l e =
      let (f, g) = on_ti_next l x xs e in
      drained xs (on_ti ring l) f ∙ ap (λ ys. ys ++ xs) g ∙ append_snoc l.sbuf x xs

  -- Whatever interrupts and packets come, in any order, and whichever interrupts come while a packet
  -- waits for room: as many interrupts as bytes are left over put the bytes on the wire that were
  -- accepted before, and then the packets in the order in which they were sent, each of them whole
  -- or not at all; a packet is left out only if the ring has no room for it at the end of its wait.
  pub sbuf-run :
      (es : List Event) (l : Line ring)
      → let m = run es l in
        (ks : List Bool) × ((isrs ring (sent_irqs (length (ring.contents m.txrb))) m).sbuf
          ≡ out l ++ kept ks es)
        × DroppedWhenFull ks es l
  sbuf-run es l =
      let m = run es l in
      let (ks, e, d) = out-run es l in (ks, drained (ring.contents m.txrb) m refl ∙ e, d)
