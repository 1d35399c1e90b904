-- ===== src/Uart/Queue/Taken.antt =====
-- What uart_run of bootloader/src/uart.c takes out of the queue.
use stc_isp_demo.Prelude.{
  ℕ, zero, suc, ◌+◌, ◌-◌, ◌*◌, ◌/◌, ◌%◌, ◌≤◌, ◌<◌, ◌≡◌, ◌⊎◌, ◌∙◌, refl, sym, ap, subst, arith, true,
  false, List, [], ◌∷◌, ◌++◌, append_snoc, Option, none, some, some-injective, ◌>>=◌, >>=-eq-some,
  length, length-append, drop, write, ◌==◌, ==_refl, Bool-cases, inl, inr, if◌then◌else◌,
}
use stc_isp_demo.Protocol.{isp_pkt_head, pkt_end, negated, isp_len}
use stc_isp_demo.Protocol.Checksum.{byte_sum, byte_sum-append}
use stc_isp_demo.Uart.{
  idle, at_length, at_body, at_end, at_checksum, unknown, Parser, after_body, uart_parse, receive,
  parse_in, check_isp_pkt_head, ParseState,
}
use stc_isp_demo.Uart.Receive.{isp_sum, isp_frame, receive_head, receive_body}
use stc_isp_demo.Uart.Queue.{Ring, run_bytes, uart_run}

-- The receiver goes from `p` to `q` over the bytes, and reports a packet at the last one only.
abbrev pub Reports : Parser → List ℕ → Parser → Type 0
Reports p [] q = ⊥
Reports p (b ∷ []) q = (uart_parse p b ≡ some q) × (q.ok ≡ true)
Reports p (b ∷ c ∷ bs) q =
    (m : Parser) × (uart_parse p b ≡ some m) × (m.ok ≡ false) × Reports m (c ∷ bs) q

-- The receiver itself never takes a report back.
abbrev StaysOk : Option Parser → Type 0
StaysOk none = Unit
StaysOk (some q) = q.ok ≡ true

written_ok :
    (o : Option (List ℕ)) (f : List ℕ → Parser)
    → ((buf : List ℕ) → (f buf).ok ≡ true)
    → StaysOk (o >>= λ buf. some (f buf))
written_ok none f h = tt
written_ok (some buf) f h = h buf

head_ok : (p : Parser) (b : ℕ) → p.ok ≡ true → StaysOk (check_isp_pkt_head p b)
unfolding check_isp_pkt_head
head_ok p b o = elim (Bool-cases (b == isp_pkt_head)) [
  | inl t ↦ rw t (written_ok (write p.buf 0 b) _ (λ buf. o))
  | inr t ↦ rw t o
]

after_ok :
    (o : Option (List ℕ)) (f : List ℕ → Parser) (g : Parser → Parser)
    → ((buf : List ℕ) → (g (f buf)).ok ≡ true)
    → StaysOk ((o >>= λ buf. some (f buf)) >>= λ q. some (g q))
after_ok none f g h = tt
after_ok (some buf) f g h = h buf

after_body_ok : (q : Parser) → q.ok ≡ true → (after_body q).ok ≡ true
after_body_ok q o = elim (Bool-cases (isp_len q.buf + 2 == q.len)) [
  | inl t ↦ rw t o
  | inr t ↦ rw t o
]

parse_in_ok : (st : ParseState) (p : Parser) (b : ℕ) → p.ok ≡ true → StaysOk (parse_in st p b)
unfolding parse_in
parse_in_ok idle p b o = head_ok p b o
parse_in_ok at_length p b o = after_ok (write p.buf p.len b) _ _ (λ buf. o)
parse_in_ok at_body p b o =
    let stored : List ℕ → Parser =
      λ buf. record p { buf = buf; len = (p.len + 1) % 256; sum = (p.sum + b) % 256 } in
    after_ok (write p.buf p.len b) stored after_body (λ buf. after_body_ok (stored buf) o)
parse_in_ok at_end p b o = elim (Bool-cases (b == pkt_end)) [
  | inl t ↦ rw t o
  | inr t ↦ rw t (head_ok (record p { state = idle }) b o)
]
parse_in_ok at_checksum p b o = elim (Bool-cases (b == negated p.sum)) [
  | inl t ↦ rw t refl
  | inr t ↦ rw t (head_ok (record p { state = idle }) b o)
]
parse_in_ok unknown p b o = o

receive_ok : (bs : List ℕ) (p q : Parser) → receive p bs ≡ some q → p.ok ≡ true → q.ok ≡ true
unfolding receive uart_parse
receive_ok [] p q e o = ap (λ (x : Parser). x.ok) (sym (some-injective _ _ e)) ∙ o
receive_ok (b ∷ bs) p q e o =
    let (m, f, g) = >>=-eq-some (uart_parse p b) (λ m. receive m bs) e in
    receive_ok bs m q g (subst StaysOk f (parse_in_ok p.state p b o))

-- A receiver that has not reported yet has not reported on the way.
reported_at_end :
    (pre : List ℕ) (p m q : Parser) (b : ℕ)
    → receive p pre ≡ some m
    → m.ok ≡ false
    → uart_parse m b ≡ some q
    → q.ok ≡ true
    → Reports p (pre ++ (b ∷ [])) q
unfolding receive
reported_at_end [] p m q b e n f o = (ap (λ x. uart_parse x b) (some-injective _ _ e) ∙ f, o)
reported_at_end (c ∷ pre) p m q b e n f o =
    let (k, g, h) = >>=-eq-some (uart_parse p c) (λ x. receive x pre) e in
    let quiet : k.ok ≡ false = elim (Bool-cases k.ok) [
      | inl t ↦ cc (receive_ok pre k m h t)
      | inr t ↦ t
    ] in
    longer pre k g quiet (reported_at_end pre k m q b h n f o)
  where
    longer :
        (pre : List ℕ) (k : Parser)
        → uart_parse p c ≡ some k
        → k.ok ≡ false
        → Reports k (pre ++ (b ∷ [])) q
        → Reports p (c ∷ (pre ++ (b ∷ []))) q
    longer [] k g quiet r = (k, g, quiet, r)
    longer (d ∷ pre) k g quiet r = (k, g, quiet, r)

-- A packet as it is sent is reported at its last byte.
pub isp_frame-Reports :
    (p : Parser) (bs : List ℕ) (x y : ℕ) (spare : List ℕ)
    → p.state ≡ idle
    → p.ok ≡ false
    → p.buf ≡ x ∷ y ∷ spare
    → length spare ≡ 253
    → 0 < length bs
    → length bs ≤ 253
    → Reports p (isp_frame bs) (record {
      state = idle;
      len = 2 + length bs;
      sum = isp_sum bs;
      buf = isp_pkt_head ∷ length bs ∷ (bs ++ drop (length bs) spare);
      ok = true;
    })
unfolding receive uart_parse
isp_frame-Reports p bs x y spare e o f n h k =
    let l = length bs in
    let s = byte_sum ((isp_pkt_head + l) % 256) bs in
    let sum = (s + pkt_end) % 256 in
    let summed = byte_sum-append ((isp_pkt_head + l) % 256) bs (pkt_end ∷ []) in
    let m : Parser = record {
      state = at_checksum;
      len = 2 + l;
      sum = sum;
      buf = isp_pkt_head ∷ l ∷ (bs ++ drop l spare);
      ok = p.ok;
    } in
    let front : receive p (isp_pkt_head ∷ l ∷ (bs ++ (pkt_end ∷ []))) ≡ some m =
      receive_head p x y l spare (bs ++ (pkt_end ∷ [])) e f
      ∙ receive_body bs l [] spare ((isp_pkt_head + l) % 256) p.ok (pkt_end ∷ []) (omega arith) h
          (omega arith) (omega arith) in
    let q : Parser = record m { state = idle; ok = true } in
    let last : uart_parse m (negated sum) ≡ some q = rw (==_refl (negated sum)) refl in
    rw summed (
      subst (λ bytes. Reports p (isp_pkt_head ∷ l ∷ bytes) q)
        (append_snoc bs pkt_end (negated sum ∷ []))
        (reported_at_end (isp_pkt_head ∷ l ∷ (bs ++ (pkt_end ∷ []))) p m q (negated sum) front o
          last refl))

module _ (ring : Ring) where
  -- Calls of `uart_run`, one for each turn of the main loop, until one reports a packet
  unfoldable pub uart_runs : ℕ → Parser → ring.State → Option (Parser × ring.State)
  uart_runs zero p s = some (p, s)
  uart_runs (suc n) p s =
      uart_run ring p s >>= λ r. if (r.0).ok then some r else uart_runs n r.0 r.1

  -- The packet is reported, with what lies behind it left in the ring.
  abbrev Done : Parser → List ℕ → Option (Parser × ring.State) → Type 0
  Done q rest r = (s : ring.State) × (r ≡ some (q, s)) × (ring.contents s ≡ rest)

  -- A part of the packet is taken.
  abbrev Part : Parser → List ℕ → ℕ → Option (Parser × ring.State) → Type 0
  Part q rest n r =
      (m : Parser) × (s : ring.State) × (ys : List ℕ) × (r ≡ some (m, s))
      × (m.ok ≡ false)
      × Reports m ys q
      × (ring.contents s ≡ ys ++ rest)
      × (length ys ≡ n)

  nonempty_ring :
      (s : ring.State) (b : ℕ) (bs : List ℕ)
      → ring.contents s ≡ b ∷ bs
      → (ring.readable s == 0) ≡ false
  nonempty_ring s b bs e = ground (arith, ring.readable_lem s, ap length e)

  -- One round of the loop.
  round_of :
      (i : ℕ) (p q : Parser) (s : ring.State) (b : ℕ) (bs : List ℕ)
      → ring.contents s ≡ b ∷ bs
      → uart_parse p b ≡ some q
      → run_bytes ring (suc i) p s
        ≡ (if q.ok then some (q, (ring.read s).1) else run_bytes ring i q (ring.read s).1)
  unfolding run_bytes
  round_of i p q s b bs e f =
      let value : uart_parse p (ring.read s).0 ≡ some q =
        ap (uart_parse p) (ring.read_value s b bs e) ∙ f in
      rw (nonempty_ring s b bs e) (rw value refl)

  run_bytes_lem :
      (i : ℕ) (p q : Parser) (s : ring.State) (xs rest : List ℕ)
      → p.ok ≡ false
      → Reports p xs q
      → ring.contents s ≡ xs ++ rest
      → Done q rest (run_bytes ring i p s) ⊎ Part q rest (length xs - i) (run_bytes ring i p s)
  unfolding run_bytes
  run_bytes_lem zero p q s xs rest o r e = inr (p, s, xs, refl, o, r, e, omega arith)
  run_bytes_lem (suc i) p q s [] rest o r e = absurd r
  run_bytes_lem (suc i) p q s (b ∷ []) rest o r e =
      let s' = (ring.read s).1 in
      inl (s', round_of i p q s b rest e r.0 ∙ rw r.1 refl, ring.read_rest s b rest e)
  run_bytes_lem (suc i) p q s (b ∷ c ∷ bs) rest o (m, f, n, r) e =
      let s' = (ring.read s).1 in
      let left = ring.read_rest s b ((c ∷ bs) ++ rest) e in
      let go : run_bytes ring (suc i) p s ≡ run_bytes ring i m s' =
        round_of i p m s b ((c ∷ bs) ++ rest) e f ∙ rw n refl in
      let less : length (c ∷ bs) - i ≡ length (b ∷ c ∷ bs) - suc i = omega arith in
      subst
        (λ k. Done q rest (run_bytes ring (suc i) p s) ⊎ Part q rest k (run_bytes ring (suc i) p s))
        less
        (subst (λ t. Done q rest t ⊎ Part q rest (length (c ∷ bs) - i) t) (sym go)
          (run_bytes_lem i m q s' (c ∷ bs) rest n r left))

  last_reported : (p q : Parser) (xs : List ℕ) → Reports p xs q → q.ok ≡ true
  last_reported p q [] r = absurd r
  last_reported p q (b ∷ []) r = r.1
  last_reported p q (b ∷ c ∷ bs) (m, f, n, r) = last_reported m q (c ∷ bs) r

  uart_runs_lem :
      (n : ℕ) (p q : Parser) (s : ring.State) (xs rest : List ℕ)
      → p.ok ≡ false
      → Reports p xs q
      → ring.contents s ≡ xs ++ rest
      → length xs ≤ 4 * n
      → Done q rest (uart_runs n p s)
  unfolding uart_runs uart_run
  uart_runs_lem zero p q s [] rest o r e h = absurd r
  uart_runs_lem zero p q s (b ∷ bs) rest o r e h = absurd (omega arith)
  uart_runs_lem (suc n) p q s xs rest o r e h =
      let next : Parser × ring.State → Option (Parser × ring.State) =
        λ t. if (t.0).ok then some t else uart_runs n t.0 t.1 in
      elim (run_bytes_lem 4 p q s xs rest o r e) [
        | inl (s', f, g) ↦
            let stop =
              ap (λ t. if t then some (q, s') else uart_runs n q s') (last_reported p q xs r) in
            (s', ap (λ t. t >>= next) f ∙ stop, g)
        | inr (m, s', ys, f, k, t, g, l) ↦
            let (s'', u, v) = uart_runs_lem n m q s' ys rest k t g (omega arith) in
            let step = ap (λ t. if t then some (m, s') else uart_runs n m s') k in
            (s'', ap (λ t. t >>= next) f ∙ step ∙ u, v)
      ]

  -- A packet as it is sent lies in the ring, and the receiver is at rest with its 255-byte buffer
  -- and has nothing to report. Then as many calls of uart_run as the packet has groups of four
  -- bytes report it, its header and body at the front of the buffer, and leave in the ring what
  -- came behind it. The body has 1 to 253 bytes.
  pub uart_runs-isp_frame :
      (p : Parser) (bs : List ℕ) (x y : ℕ) (spare : List ℕ) (s : ring.State) (rest : List ℕ)
      → p.state ≡ idle
      → p.ok ≡ false
      → p.buf ≡ x ∷ y ∷ spare
      → length spare ≡ 253
      → 0 < length bs
      → length bs ≤ 253
      → ring.contents s ≡ isp_frame bs ++ rest
      → (s' : ring.State) × (uart_runs ((length bs + 7) / 4) p s
          ≡ some (
            record {
              state = idle;
              len = 2 + length bs;
              sum = isp_sum bs;
              buf = isp_pkt_head ∷ length bs ∷ (bs ++ drop (length bs) spare);
              ok = true;
            },
            s',
          ))
        × (ring.contents s' ≡ rest)
  uart_runs-isp_frame p bs x y spare s rest e o f n h k c =
      let size = length-append bs (pkt_end ∷ negated (isp_sum bs) ∷ []) in
      uart_runs_lem ((length bs + 7) / 4) p _ s (isp_frame bs) rest o
        (isp_frame-Reports p bs x y spare e o f n h k) c (omega (arith, size))
