-- ===== src/Host/Parse/Same.antt =====
-- The receiver isp_parse of common/protocol.c and the one of bootloader/src/uart.c report the same
-- packets.
use stc_isp_demo.Prelude.{
  ℕ, zero, suc, ◌+◌, ◌%◌, ◌≤◌, ◌<◌, ◌≡◌, ◌∙◌, refl, sym, ap, subst, arith, true, false, List, [],
  ◌∷◌, ◌++◌, Option, none, some, some-injective, ◌>>=◌, >>=-eq-some, length, length-append,
  length-take, length-drop, take, drop, get_or, write, write_past, dec_lt, ◌==◌, Bool-cases, inl,
  inr,
}
use stc_isp_demo.Protocol.{isp_pkt_head, pkt_end, negated, isp_len}
use stc_isp_demo.Uart.{
  ParseState, idle, at_length, at_body, at_end, at_checksum, unknown, Parser, store,
  check_isp_pkt_head, uart_parse, parse_in,
}
use stc_isp_demo.Host.Parse.{
  isp_parse_in, isp_parse, store_byte, uart_step, packet_in, reported, packets,
}

-- The buffers have the same `k` bytes in front.
abbrev pub AgreeTo : ℕ → List ℕ → List ℕ → Type 0
AgreeTo k xs ys = take k xs ≡ take k ys

-- Where two receivers stand that have taken the same bytes
abbrev pub InStep : ParseState → Parser → Parser → Type 0
InStep idle p q = Unit
InStep at_length p q = (p.len ≡ 1) × (q.len ≡ 1) × AgreeTo 1 p.buf q.buf
InStep at_body p q = (2 ≤ p.len) × (q.len ≡ p.len) × AgreeTo p.len p.buf q.buf
InStep at_end p q =
    (2 ≤ p.len) × (q.len ≡ p.len) × AgreeTo p.len p.buf q.buf × (p.len ≡ 2 + isp_len p.buf)
InStep at_checksum p q =
    (2 ≤ p.len) × (q.len ≡ p.len + 1) × AgreeTo p.len p.buf q.buf × (p.len ≡ 2 + isp_len p.buf)
InStep unknown p q = ⊥

pub record Agree (p q : Parser) : Type 0 where
  pub states : q.state ≡ p.state
  pub sums : q.sum ≡ p.sum
  pub room : length p.buf ≡ 255
  pub room_too : length q.buf ≡ 255
  pub in_step : InStep p.state p q

-- What both have done with a byte, unless the portable one has left its buffer.
abbrev Both : Option Parser → Option Parser → Type 0
Both o none = Unit
Both none (some q) = ⊥
Both (some p) (some q) =
    Agree p q × (q.ok ≡ p.ok) × (p.ok ≡ true → packet_in p.buf ≡ packet_in q.buf)

write_split :
    (xs : List ℕ) (i v : ℕ)
    → i < length xs
    → write xs i v ≡ some (take i xs ++ (v ∷ drop (suc i) xs))
write_split [] i v h = absurd (omega arith)
write_split (x ∷ xs) zero v h = refl
write_split (x ∷ xs) (suc i) v h = rw (write_split xs i v (omega arith), write) refl

-- The buffer behind the write of `v` at `i`
abbrev with_byte : ℕ → ℕ → List ℕ → List ℕ
with_byte i v xs = take i xs ++ (v ∷ drop (suc i) xs)

length-with_byte : (i v : ℕ) (xs : List ℕ) → i < length xs → length (with_byte i v xs) ≡ length xs
length-with_byte i v xs h = omega (
  arith,
  h,
  length-append (take i xs) (v ∷ drop (suc i) xs),
  length-take i xs (omega (arith, h)),
  length-drop (suc i) xs,
)

take-with_byte :
    (k i v : ℕ) (ys : List ℕ) → k ≤ i → i < length ys → take k (with_byte i v ys) ≡ take k ys
take-with_byte zero i v ys h l = refl
take-with_byte (suc k) zero v ys h l = absurd (omega arith)
take-with_byte (suc k) (suc i) v [] h l = absurd (omega arith)
take-with_byte (suc k) (suc i) v (y ∷ ys) h l =
    ap (◌∷◌ y) (take-with_byte k i v ys (omega arith) (omega arith))

take_suc-with_byte :
    (i v : ℕ) (ys : List ℕ)
    → i < length ys
    → take (suc i) (with_byte i v ys) ≡ take i ys ++ (v ∷ [])
take_suc-with_byte i v [] h = absurd (omega arith)
take_suc-with_byte zero v (y ∷ ys) h = refl
take_suc-with_byte (suc i) v (y ∷ ys) h = ap (◌∷◌ y) (take_suc-with_byte i v ys (omega arith))

-- A write behind the common part keeps it,
AgreeTo-with_byte :
    (k i v : ℕ) (xs ys : List ℕ)
    → k ≤ i
    → i < length ys
    → AgreeTo k xs ys
    → AgreeTo k xs (with_byte i v ys)
AgreeTo-with_byte k i v xs ys h l e = e ∙ sym (take-with_byte k i v ys h l)

-- and the same write in both makes it longer.
AgreeTo-suc :
    (i j v : ℕ) (xs ys : List ℕ)
    → j ≡ i
    → i < length xs
    → i < length ys
    → AgreeTo i xs ys
    → AgreeTo (i + 1) (with_byte i v xs) (with_byte j v ys)
AgreeTo-suc i j v xs ys d h l e =
    subst (λ k. AgreeTo (i + 1) (with_byte i v xs) (with_byte k v ys)) (sym d)
      (subst (λ k. AgreeTo k (with_byte i v xs) (with_byte i v ys)) {x = suc i} (omega arith)
        (take_suc-with_byte i v xs h
          ∙ ap (λ t. t ++ (v ∷ [])) e
          ∙ sym (take_suc-with_byte i v ys l)))

get_or-take : (k i : ℕ) (xs : List ℕ) → i < k → get_or (take k xs) i 0 ≡ get_or xs i 0
get_or-take zero i xs h = absurd (omega arith)
get_or-take (suc k) i [] h = refl
get_or-take (suc k) zero (x ∷ xs) h = refl
get_or-take (suc k) (suc i) (x ∷ xs) h = get_or-take k i xs (omega arith)

isp_len-AgreeTo : (k : ℕ) (xs ys : List ℕ) → 2 ≤ k → AgreeTo k xs ys → isp_len ys ≡ isp_len xs
isp_len-AgreeTo k xs ys h e =
    sym (get_or-take k 1 ys (omega arith))
    ∙ sym (ap (λ l. get_or l 1 0) e)
    ∙ get_or-take k 1 xs (omega arith)

-- The byte is a head, or both rest.
head-Both :
    (p q : Parser) (b : ℕ)
    → length p.buf ≡ 255
    → length q.buf ≡ 255
    → q.sum ≡ p.sum
    → p.ok ≡ false
    → q.ok ≡ false
    → p.state ≡ idle
    → q.state ≡ idle
    → Both (check_isp_pkt_head p b) (check_isp_pkt_head q b)
unfolding check_isp_pkt_head
head-Both p q b r s e o f u v = elim (Bool-cases (b == isp_pkt_head)) [
  | inl t ↦
      rw (t, write_split p.buf 0 b (omega (arith, r)), write_split q.buf 0 b (omega (arith, s)))
        (
          record {
            states = refl;
            sums = refl;
            room = length-with_byte 0 b p.buf (omega (arith, r)) ∙ r;
            room_too = length-with_byte 0 b q.buf (omega (arith, s)) ∙ s;
            in_step = (refl, refl, refl);
          },
          f ∙ sym o,
          λ h. absurd (cc),
        )
  | inr t ↦ rw t (
    record {
      states = v ∙ sym u;
      sums = e;
      room = r;
      room_too = s;
      in_step = subst (λ st. InStep st p q) (sym u) tt;
    },
    f ∙ sym o,
    λ h. absurd (cc),
  )
]

-- The receiver with `b` in its buffer
abbrev put_byte : Parser → ℕ → Parser
put_byte p b = record p { buf = with_byte p.len b p.buf; len = p.len + 1 }

store_byte_lem :
    (p : Parser) (b : ℕ) → p.len < 255 → length p.buf ≡ 255 → store_byte p b ≡ some (put_byte p b)
store_byte_lem p b h r =
    let n : (p.len + 1) % 256 ≡ p.len + 1 = omega arith in
    rw (write_split p.buf p.len b (omega (arith, r)), n) refl

store_byte_past : (p : Parser) (b : ℕ) → 255 ≤ p.len → length p.buf ≡ 255 → store_byte p b ≡ none
store_byte_past p b h r = rw (write_past p.buf p.len b (omega (arith, r))) refl

abbrev summed : Parser → ℕ → Parser
summed p b = record (put_byte p b) { sum = (p.sum + b) % 256 }

store_lem : (p : Parser) (b : ℕ) → p.len < 255 → length p.buf ≡ 255 → store p b ≡ some (summed p b)
store_lem p b h r =
    let n : (p.len + 1) % 256 ≡ p.len + 1 = omega arith in
    rw (write_split p.buf p.len b (omega (arith, r)), n) refl

store_past : (p : Parser) (b : ℕ) → 255 ≤ p.len → length p.buf ≡ 255 → store p b ≡ none
store_past p b h r = rw (write_past p.buf p.len b (omega (arith, r))) refl

module _ (p q : Parser) (b : ℕ) (r : length p.buf ≡ 255) (s : length q.buf ≡ 255)
    (e : q.sum ≡ p.sum) (o : p.ok ≡ false) (f : q.ok ≡ false) where
  quiet : (q.ok ≡ p.ok) × ((xs ys : List ℕ) → p.ok ≡ true → xs ≡ ys)
  quiet = (f ∙ sym o, λ xs ys h. absurd (cc))

  length-Both : InStep at_length p q → Both (parse_in at_length p b) (isp_parse_in at_length q b)
  unfolding parse_in isp_parse_in
  length-Both (i, j, a) =
      let h : p.len < 255 = omega (arith, i) in
      let l : q.len < 255 = omega (arith, j) in
      rw (store_lem p b h r, store_lem q b l s)
        (
          record {
            states = refl;
            sums = ap (λ x. (x + b) % 256) e;
            room = length-with_byte p.len b p.buf (omega (arith, r, h)) ∙ r;
            room_too = length-with_byte q.len b q.buf (omega (arith, s, l)) ∙ s;
            in_step = (
              omega (arith, i),
              omega (arith, i, j),
              AgreeTo-suc p.len q.len b p.buf q.buf (j ∙ sym i) (omega (arith, r, h))
                  (omega (arith, s, h)) (subst (λ k. AgreeTo k p.buf q.buf) (sym i) a),
            );
          },
          quiet.0,
          quiet.1 _ _,
        )

  body-Both :
      p.state ≡ at_body
      → q.state ≡ at_body
      → InStep at_body p q
      → Both (parse_in at_body p b) (isp_parse_in at_body q b)
  unfolding parse_in isp_parse_in
  body-Both u v (i, j, a) = elim (dec_lt p.len 255) [
    | no h ↦ rw (store_past p b (omega (arith, h)) r, store_past q b (omega (arith, h, j)) s) tt
    | yes h ↦
        let p' = summed p b in
        let q' = summed q b in
        let agree : AgreeTo p'.len p'.buf q'.buf =
          AgreeTo-suc p.len q.len b p.buf q.buf j (omega (arith, r, h)) (omega (arith, s, h)) a in
        let two : 2 ≤ p'.len = omega (arith, i) in
        let room = length-with_byte p.len b p.buf (omega (arith, r, h)) ∙ r in
        let room_too = length-with_byte q.len b q.buf (omega (arith, s, h, j)) ∙ s in
        let sums = ap (λ x. (x + b) % 256) e in
        let len : q'.len ≡ p'.len = omega (arith, j) in
        let last = isp_len p'.buf + 2 == p'.len in
        let same : (isp_len q'.buf + 2 == q'.len) ≡ last =
          λ k. isp_len-AgreeTo p'.len p'.buf q'.buf two agree k + 2 == len k in
        rw (store_lem p b h r, store_lem q b (omega (arith, j, h)) s)
          (elim (Bool-cases last) [
            | inl t ↦
                rw (t, same ∙ t)
                  (
                    record {
                      states = refl;
                      sums = sums;
                      room = room;
                      room_too = room_too;
                      in_step = (two, len, agree, ground (arith, t));
                    },
                    quiet.0,
                    quiet.1 _ _,
                  )
            | inr t ↦
                rw (t, same ∙ t)
                  (
                    record {
                      states = v ∙ sym u;
                      sums = sums;
                      room = room;
                      room_too = room_too;
                      in_step = subst (λ st. InStep st p' q') (sym u) (two, len, agree);
                    },
                    quiet.0,
                    quiet.1 _ _,
                  )
          ])
  ]

  end-Both : InStep at_end p q → Both (parse_in at_end p b) (isp_parse_in at_end q b)
  unfolding parse_in isp_parse_in
  end-Both (i, j, a, n) = elim (Bool-cases (b == pkt_end)) [
    | inr t ↦
        rw t
          (head-Both (record p { state = idle }) (record q { state = idle }) b r s e o f refl refl)
    | inl t ↦ elim (dec_lt q.len 255) [
      | no h ↦ rw (t, store_byte_past q b (omega (arith, h)) s) tt
      | yes h ↦
          rw (t, store_byte_lem q b h s)
            (
              record {
                states = refl;
                sums = ap (λ x. (x + b) % 256) e;
                room = r;
                room_too = length-with_byte q.len b q.buf (omega (arith, s, h)) ∙ s;
                in_step = (
                  i,
                  omega (arith, j),
                  AgreeTo-with_byte p.len q.len b p.buf q.buf (omega (arith, j))
                      (omega (arith, s, h)) a,
                  n,
                );
              },
              quiet.0,
              quiet.1 _ _,
            )
    ]
  ]

  checksum-Both :
      InStep at_checksum p q → Both (parse_in at_checksum p b) (isp_parse_in at_checksum q b)
  unfolding parse_in isp_parse_in
  checksum-Both (i, j, a, n) =
      let same : (b == negated q.sum) ≡ (b == negated p.sum) = ap (λ x. b == negated x) e in
      elim (Bool-cases (b == negated p.sum)) [
        | inr t ↦
            rw (t, same ∙ t)
              (head-Both (record p { state = idle }) (record q { state = idle }) b r s e o f refl
                refl)
        | inl t ↦ elim (dec_lt q.len 255) [
          | no h ↦ rw (t, same ∙ t, store_byte_past q b (omega (arith, h)) s) tt
          | yes h ↦
              let agree : AgreeTo p.len p.buf (with_byte q.len b q.buf) =
                AgreeTo-with_byte p.len q.len b p.buf q.buf (omega (arith, j)) (omega (arith, s, h))
                  a in
              let lens = isp_len-AgreeTo p.len p.buf (with_byte q.len b q.buf) i agree in
              rw (t, same ∙ t, store_byte_lem q b h s)
                (
                  record {
                    states = refl;
                    sums = e;
                    room = r;
                    room_too = length-with_byte q.len b q.buf (omega (arith, s, h)) ∙ s;
                    in_step = tt;
                  },
                  refl,
                  λ k.
                      subst (λ m. take m p.buf ≡ take m (with_byte q.len b q.buf)) n agree
                      ∙ ap (λ m. take (2 + m) (with_byte q.len b q.buf)) (sym lens),
                )
        ]
      ]

  parse_in-Both :
      (st : ParseState)
      → p.state ≡ st
      → q.state ≡ st
      → InStep st p q
      → Both (parse_in st p b) (isp_parse_in st q b)
  unfolding parse_in isp_parse_in
  parse_in-Both idle u v h = head-Both p q b r s e o f u v
  parse_in-Both at_length u v h = length-Both h
  parse_in-Both at_body u v h = body-Both u v h
  parse_in-Both at_end u v h = end-Both h
  parse_in-Both at_checksum u v h = checksum-Both h
  parse_in-Both unknown u v h = absurd h

still-InStep :
    (p q : Parser) (st : ParseState)
    → InStep st p q
    → InStep st (record p { ok = false }) (record q { ok = false })
still-InStep p q idle h = h
still-InStep p q at_length h = h
still-InStep p q at_body h = h
still-InStep p q at_end h = h
still-InStep p q at_checksum h = h
still-InStep p q unknown h = h

step-Both : (p q : Parser) (b : ℕ) → Agree p q → Both (uart_step p b) (isp_parse q b)
unfolding uart_parse isp_parse
step-Both p q b a =
    subst (λ st. Both (uart_step p b) (isp_parse_in st (record q { ok = false }) b)) (sym a.states)
      (parse_in-Both (record p { ok = false }) (record q { ok = false }) b a.room a.room_too a.sums
        refl refl p.state refl a.states (still-InStep p q p.state a.in_step))

reported_same :
    (p q : Parser) (ps : List (List ℕ))
    → q.ok ≡ p.ok
    → (p.ok ≡ true → packet_in p.buf ≡ packet_in q.buf)
    → reported p ps ≡ reported q ps
reported_same p q ps e h = elim (Bool-cases p.ok) [
  | inl t ↦ rw (t, e ∙ t) (ap (λ x. x ∷ ps) (h t))
  | inr t ↦ rw (t, e ∙ t) refl
]

-- From two receivers at rest, or anywhere in the same packet, over the same bytes: the packets that
-- isp_parse reports, without leaving its buffer, are those that the main loop takes from uart_parse.
pub packets-isp_parse :
    (bs : List ℕ) (p q : Parser) (ps : List (List ℕ))
    → Agree p q
    → packets isp_parse q bs ≡ some ps
    → packets uart_step p bs ≡ some ps
unfolding packets
packets-isp_parse [] p q ps a e = e
packets-isp_parse (b ∷ bs) p q ps a e =
    let (q', f, g) = >>=-eq-some (isp_parse q b) _ e in
    let (rest, h, k) = >>=-eq-some (packets isp_parse q' bs) _ g in
    let both : Both (uart_step p b) (some q') =
      subst (Both (uart_step p b)) f (step-Both p q b a) in
    taken (uart_step p b) q' rest both (λ p' a'. packets-isp_parse bs p' q' rest a' h)
      (some-injective _ _ k)
  where
    taken :
        (o : Option Parser) (q' : Parser) (rest : List (List ℕ))
        → Both o (some q')
        → ((p' : Parser) → Agree p' q' → packets uart_step p' bs ≡ some rest)
        → reported q' rest ≡ ps
        → (o >>= λ p'. packets uart_step p' bs >>= λ rest. some (reported p' rest)) ≡ some ps
    taken none q' rest both h k = absurd both
    taken (some p') q' rest (a', ok, same) h k =
        ap (λ t. t >>= λ rest. some (reported p' rest)) (h p' a')
        ∙ ap (λ x. some x) (reported_same p' q' rest ok same ∙ k)
