-- ===== src/Uart/Sound.antt =====
-- What the receiver of bootloader/src/uart.c reports is a well-formed packet.
use stc_isp_demo.Prelude.{
  ℕ, suc, ◌+◌, ◌%◌, ◌<◌, ◌≡◌, ◌⊎◌, inl, inr, refl, sym, ◌∙◌, ap, Bool, true, false, List, [], ◌∷◌,
  ◌++◌, Option, none, some, arith, length, length-append, Bool-cases, ◌==◌, ==_iff, write,
  Option-cases, subst, >>=-eq-some,
}
use stc_isp_demo.Protocol.{isp_pkt_head, pkt_end, negated}
use stc_isp_demo.Protocol.Checksum.{byte_sum, byte_sum-append, byte_sum-lt}
use stc_isp_demo.Uart.{
  idle, at_length, at_checksum, unknown, Parser, uart_parse, receive, check_isp_pkt_head, restart,
  parse_in,
}
use stc_isp_demo.Uart.Receive.{
  in_body, behind_body, parse_body_more, parse_body_last, parse_body_full,
}

-- The parser behind the head byte.
abbrev in_head : List ℕ → Bool → Parser
in_head xs ok = record {
  state = at_length;
  len = 1;
  sum = isp_pkt_head;
  buf = isp_pkt_head ∷ xs;
  ok = ok;
}

abbrev behind_end : ℕ → List ℕ → List ℕ → ℕ → Bool → Parser
behind_end l mid suf s ok = record (behind_body l mid suf s ok) { state = at_checksum }

-- The sum of the head, the length byte and the body bytes.
abbrev sum_to : ℕ → List ℕ → ℕ
sum_to l mid = byte_sum isp_pkt_head (l ∷ mid)

-- What holds of the receiver between two bytes.
pub data Inv : Parser → Type 0 where
  resting : {p : Parser} → (p.state ≡ idle) ⊎ (p.state ≡ unknown) → length p.buf ≡ 255 → Inv p
  head : (xs : List ℕ) (ok : Bool) → length xs ≡ 254 → Inv (in_head xs ok)
  body :
      (l : ℕ) (mid suf : List ℕ) (ok : Bool)
      → length mid + length suf ≡ 253
      → Inv (in_body l mid suf (sum_to l mid) ok)
  tail :
      (l : ℕ) (mid suf : List ℕ) (ok : Bool)
      → length mid + length suf ≡ 253
      → length mid ≡ l
      → 0 < l
      → Inv (behind_body l mid suf (sum_to l mid) ok)
  summed :
      (l : ℕ) (mid suf : List ℕ) (ok : Bool)
      → length mid + length suf ≡ 253
      → length mid ≡ l
      → 0 < l
      → Inv (behind_end l mid suf (sum_to l (mid ++ (pkt_end ∷ []))) ok)

abbrev InvOf : Option Parser → Type 0
InvOf none = Unit
InvOf (some q) = Inv q

check_head-Inv :
    (buf : List ℕ) (p : Parser) (b : ℕ)
    → p.buf ≡ buf
    → p.state ≡ idle
    → length buf ≡ 255
    → InvOf (check_isp_pkt_head p b)
unfolding check_isp_pkt_head
check_head-Inv [] p b f e n = absurd (omega arith)
check_head-Inv (x ∷ xs) p b f e n = elim (Bool-cases (b == isp_pkt_head)) [
  | inl t ↦ rw t (rw f (rw ((==_iff b isp_pkt_head).0 t) (head xs p.ok (omega arith))))
  | inr t ↦ rw t (resting (inl e) (ap length f ∙ n))
]

restart-Inv :
    (l : ℕ) (mid suf : List ℕ) (p : Parser) (b : ℕ)
    → p.buf ≡ isp_pkt_head ∷ l ∷ (mid ++ suf)
    → length mid + length suf ≡ 253
    → InvOf (restart p b)
restart-Inv l mid suf p b f n =
    check_head-Inv (isp_pkt_head ∷ l ∷ (mid ++ suf)) _ b f refl
      (omega (arith, length-append mid suf))

body-InvOf :
    (l : ℕ) (mid : List ℕ) (x b : ℕ) (suf : List ℕ) (ok : Bool)
    → length mid + length (x ∷ suf) ≡ 253
    → InvOf (uart_parse (in_body l mid (x ∷ suf) (sum_to l mid) ok) b)
body-InvOf l mid x b suf ok n =
    let longer = length-append mid (b ∷ []) in
    let summed_up = byte_sum-append ((isp_pkt_head + l) % 256) mid (b ∷ []) in
    elim (Bool-cases (suc (length mid) == l)) [
      | inl t ↦ rw (parse_body_last l mid x b suf (sum_to l mid) ok (ground arith) (omega arith)) (
          rw (← summed_up)
            (tail l (mid ++ (b ∷ [])) suf ok (omega arith) (ground arith) (ground arith)))
      | inr t ↦
          rw (parse_body_more l mid x b suf (sum_to l mid) ok (ground arith) (omega arith))
            (rw (← summed_up) (body l (mid ++ (b ∷ [])) suf ok (omega arith)))
    ]

parse-Inv : {p : Parser} (b : ℕ) → Inv p → InvOf (uart_parse p b)
unfolding uart_parse
parse-Inv {p} b (resting (inl e) n) =
    subst (λ s. InvOf (parse_in s p b)) (sym e) (check_head-Inv p.buf p b refl e n)
parse-Inv {p} b (resting (inr e) n) =
    subst (λ s. InvOf (parse_in s p b)) (sym e) (resting (inl refl) n)
parse-Inv b (head [] ok n) = absurd (omega arith)
parse-Inv b (head (y ∷ ys) ok n) = body b [] ys ok (omega arith)
parse-Inv b (body l mid [] ok n) = rw (parse_body_full l mid b (sum_to l mid) ok (omega arith)) tt
parse-Inv b (body l mid (x ∷ suf) ok n) = body-InvOf l mid x b suf ok n
parse-Inv b (tail l mid suf ok n e h) = elim (Bool-cases (b == pkt_end)) [
  | inl t ↦ rw t (
      rw ((==_iff b pkt_end).0 t) (
        rw (← byte_sum-append ((isp_pkt_head + l) % 256) mid (pkt_end ∷ []))
          (summed l mid suf ok n e h)))
  | inr t ↦ rw t (restart-Inv l mid suf (behind_body l mid suf (sum_to l mid) ok) b refl n)
]
parse-Inv b (summed l mid suf ok n e h) =
    elim (Bool-cases (b == negated (sum_to l (mid ++ (pkt_end ∷ []))))) [
      | inl t ↦ rw t (resting (inl refl) (omega (arith, length-append mid suf)))
      | inr t ↦ rw t (
          restart-Inv l mid suf (behind_end l mid suf (sum_to l (mid ++ (pkt_end ∷ []))) ok) b refl
            n)
    ]

-- Every state that the receiver reaches keeps the invariant.
pub receive-Inv : (xs : List ℕ) {p q : Parser} → Inv p → receive p xs ≡ some q → Inv q
unfolding receive
receive-Inv [] h e = subst Inv (cc) h
receive-Inv (x ∷ xs) {p} h e =
    let (m, s, later) = >>=-eq-some (uart_parse p x) (λ m. receive m xs) e in
    receive-Inv xs (subst InvOf s (parse-Inv x h)) later

-- The buffer holds a packet that `b` completes: its bytes from the head on, the end byte and `b`
-- add up to 0.
abbrev pub HoldsPacket : List ℕ → ℕ → Type 0
HoldsPacket buf b =
    (bs : List ℕ) × (spare : List ℕ) × (buf ≡ isp_pkt_head ∷ length bs ∷ (bs ++ spare))
    × (0 < length bs)
    × (byte_sum 0 (isp_pkt_head ∷ length bs ∷ (bs ++ (pkt_end ∷ b ∷ []))) ≡ 0)

abbrev Reports : ℕ → Option Parser → Type 0
Reports b none = Unit
Reports b (some q) = q.ok ≡ true → HoldsPacket q.buf b

check_head-ok : (p q : Parser) (b : ℕ) → check_isp_pkt_head p b ≡ some q → q.ok ≡ p.ok
unfolding check_isp_pkt_head
check_head-ok p q b e = elim (Option-cases (write p.buf 0 b)) [
  | inl w ↦ ground arith
  | inr (ys, w) ↦ ground arith
]

Reports-of : (b : ℕ) (m : Option Parser) → ((q : Parser) → m ≡ some q → q.ok ≡ false) → Reports b m
Reports-of b none h = tt
Reports-of b (some q) h = λ t. cc (h q refl)

restart-Reports : (p : Parser) (b : ℕ) → p.ok ≡ false → Reports b (check_isp_pkt_head p b)
restart-Reports p b k = Reports-of b _ (λ q e. check_head-ok p q b e ∙ k)

-- The end byte and the checksum bring the sum to 0.
sum_closes :
    (mid : List ℕ) (b : ℕ)
    → b ≡ negated (sum_to (length mid) (mid ++ (pkt_end ∷ [])))
    → byte_sum 0 (isp_pkt_head ∷ length mid ∷ (mid ++ (pkt_end ∷ b ∷ []))) ≡ 0
sum_closes mid b e =
    let s = (isp_pkt_head + length mid) % 256 in
    omega (
      arith,
      byte_sum-append s mid (pkt_end ∷ b ∷ []),
      byte_sum-append s mid (pkt_end ∷ []),
      byte_sum-lt s mid (omega arith),
    )

parse-Reports : {p : Parser} (b : ℕ) → Inv p → p.ok ≡ false → Reports b (uart_parse p b)
unfolding uart_parse
parse-Reports {p} b (resting (inl e) n) k =
    subst (λ s. Reports b (parse_in s p b)) (sym e) (restart-Reports p b k)
parse-Reports {p} b (resting (inr e) n) k =
    subst (λ s. Reports b (parse_in s p b)) (sym e) (λ t. cc)
parse-Reports b (head [] ok n) k = absurd (omega arith)
parse-Reports b (head (y ∷ ys) ok n) k = λ t. cc
parse-Reports b (body l mid [] ok n) k =
    rw (parse_body_full l mid b (sum_to l mid) ok (omega arith)) tt
parse-Reports b (body l mid (x ∷ suf) ok n) k = elim (Bool-cases (suc (length mid) == l)) [
  | inl t ↦
      rw (parse_body_last l mid x b suf (sum_to l mid) ok (ground arith) (omega arith)) (λ r. cc)
  | inr t ↦
      rw (parse_body_more l mid x b suf (sum_to l mid) ok (ground arith) (omega arith)) (λ r. cc)
]
parse-Reports b (tail l mid suf ok n e h) k = elim (Bool-cases (b == pkt_end)) [
  | inl t ↦ rw t (λ r. cc)
  | inr t ↦
      rw t (restart-Reports (record (behind_body l mid suf (sum_to l mid) ok) { state = idle }) b k)
]
parse-Reports b (summed l mid suf ok n e h) k =
    let s = sum_to l (mid ++ (pkt_end ∷ [])) in
    elim (Bool-cases (b == negated s)) [
      | inl t ↦
          rw t (λ r. (mid, suf, rw e, rw e h, sum_closes mid b (rw e ((==_iff b (negated s)).0 t))))
      | inr t ↦ rw t (restart-Reports (record (behind_end l mid suf s ok) { state = idle }) b k)
    ]

-- A receiver with its 255-byte buffer starts at rest with no packet reported, and takes any
-- bytes. If the next byte `b` makes it report a packet, then the front of its buffer is the head,
-- the length of the body, which is not 0, and the body, and all bytes of the packet from the head
-- to `b`, the end byte included, add up to 0.
pub uart_parse_sound :
    (p : Parser) (xs : List ℕ) (m : Parser) (b : ℕ) (q : Parser)
    → p.state ≡ idle
    → length p.buf ≡ 255
    → receive p xs ≡ some m
    → m.ok ≡ false
    → uart_parse m b ≡ some q
    → q.ok ≡ true
    → HoldsPacket q.buf b
uart_parse_sound p xs m b q i n r k e t =
    subst (Reports b) e (parse-Reports b (receive-Inv xs (resting (inl i) n) r) k) t
