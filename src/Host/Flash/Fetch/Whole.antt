-- ===== src/Host/Flash/Fetch/Whole.antt =====
-- A range that the window of programmer/programmer/flash.cpp reads is that of the external flash of a
-- board with the boot loader of bootloader/src/main.c.
use stc_isp_demo.Prelude.{
  ℕ, zero, suc, ◌+◌, ◌-◌, ◌/◌, ◌%◌, ◌≤◌, ◌<◌, ◌≡◌, inl, inr, ◌∙◌, refl, sym, ap, arith, Bool, true,
  false, List, [], ◌∷◌, ◌++◌, append_assoc, Option, none, some, length, length-append, length-drop,
  take, drop, take-all, take-append, take-append-drop, ltb→lt, drop-add, length-take, ltb,
  Bool-cases, ◌==◌, if◌then◌else◌,
}
use stc_isp_demo.Command
use stc_isp_demo.Command.{ChipInfo, reply}
use stc_isp_demo.Device.Crc.{Crc32}
use stc_isp_demo.Device.Memory.{window, window-add, length-window}
use stc_isp_demo.Device.Nor.{Nor, nor_size}
use stc_isp_demo.Device.Rom.{Rom}
use stc_isp_demo.App.Message.{from_le32, behind}
use stc_isp_demo.OtaClient.{u32}
use stc_isp_demo.Uart.Send.{ldr_prefix}
use stc_isp_demo.Host.Serial.{le32}
use stc_isp_demo.Host.Serial.Sent.{body, read_flash}
use stc_isp_demo.Host.Flash.{size_t_max, chunk_size}
use stc_isp_demo.Host.Flash.Span.{chunks_more}
use stc_isp_demo.Host.Flash.Fetch.{
  Reader, ReadCall, After, more, ended, slot_read, read_next_chunk, put_at, report, on_data,
}

pub take_front : (n : ℕ) (xs ys : List ℕ) → n ≡ length xs → take n (xs ++ ys) ≡ xs
take_front n xs ys e = rw e (take-append xs ys)

pub drop_front : (n : ℕ) (xs ys : List ℕ) → drop (length xs + n) (xs ++ ys) ≡ drop n ys
drop_front n [] ys = ap (λ k. drop k ys) {x = 0 + n} (omega arith)
drop_front n (x ∷ xs) ys =
    ap (λ k. drop k (x ∷ (xs ++ ys))) {x = suc (length xs) + n} {y = suc (length xs + n)}
      (omega arith)
    ∙ drop_front n xs ys

-- The bytes `ys` take the place of as many behind `xs`.
put_behind :
    (a : ℕ) (xs ys zs : List ℕ)
    → a ≡ length xs
    → put_at a ys (xs ++ zs) ≡ xs ++ (ys ++ drop (length ys) zs)
put_behind a xs ys zs e =
    ap (λ k. put_at k ys (xs ++ zs)) e
    ∙ ap (λ l. l ++ (ys ++ drop (length xs + length ys) (xs ++ zs))) (take-append xs zs)
    ∙ ap (λ l. xs ++ (ys ++ l)) (drop_front (length ys) xs zs)

module _ (crc : Crc32) (nor : Nor) (rom : Rom) (erase_chip : nor.State → nor.State)
    (info : ChipInfo) (rest : List ℕ) (s : nor.State) (r : rom.State) where
  -- The packet of a call, as the boot loader has received it.
  abbrev pub packet : ReadCall → List ℕ
  packet c = behind (body (read_flash c.addr c.size)) rest

  -- The boot loader answers with the address and the bytes of the external flash.
  read_answer :
      (a n : ℕ)
      → n ≤ 128
      → a + n ≤ nor_size
      → Command.isp_handle crc nor rom erase_chip info (behind (body (read_flash a n)) rest) s r
        ≡ reply 0x87 (le32 a ++ window (nor.byte_at s) a n) s r
  unfolding Command.isp_handle Command.handle_w25q
  read_answer a n k room =
      let here = from_le32 a (omega (arith, room)) in
      let m : (if ltb 128 (n % 256) then 128 else n % 256) ≡ n = ground arith in
      rw (here, m, nor.read_lem a n s room) refl

  -- What is going on: the window, and what followed on the last answer that it took.
  pub record Session : Type 0 where
    pub reader : Reader
    pub after : Option After

  abbrev arrived : Reader × After → Session
  arrived q = record { reader = q.0; after = some q.1 }

  abbrev answered : Reader → Command.Outcome crc nor rom erase_chip info → Session
  answered rd (Command.reply status dat s' r') =
      if status == 0x87
      then arrived (on_data crc rd (ldr_prefix status dat))
      else record { reader = rd; after = none }
  answered rd _ = record { reader = rd; after = none }

  -- The board handles the pending call, and the window takes the answer.
  abbrev taken : Option After → Reader → Session
  taken (some (more c)) rd =
      answered rd (Command.isp_handle crc nor rom erase_chip info (packet c) s r)
  taken q rd = record { reader = rd; after = q }

  unfoldable pub rounds : ℕ → Session → Session
  rounds zero x = x
  rounds (suc n) x = rounds n (taken x.after x.reader)

  -- What follows on a chunk that was put into the bytes.
  abbrev onwards : Reader → Reader × After
  onwards rd =
      (rd, if ltb rd.e2recvd rd.e2recv then more (read_next_chunk rd) else ended (report crc rd))

  if_pair :
      (t : Bool) (rd : Reader) (b c : After)
      → ◌≡◌ {A = Reader × After} (if t then (rd, b) else (rd, c)) (rd, if t then b else c)
  if_pair true rd b c = refl
  if_pair false rd b c = refl

  on_data_lem :
      (rd : Reader) (a n : ℕ) (bs e : List ℕ)
      → length bs ≡ n
      → n ≤ 128
      → a + n ≤ length rd.e2
      → a + n ≤ nor_size
      → rd.e2recvd + n ≤ nor_size
      → put_at a bs rd.e2 ≡ e
      → on_data crc rd (ldr_prefix 0x87 (le32 a ++ bs))
        ≡ onwards (record rd { e2 = e; e2recvd = rd.e2recvd + n })
  unfolding on_data
  on_data_lem rd a n bs e l k fits low sum p =
      let here = from_le32 a (omega (arith, low)) in
      let size : (256 + length (le32 a ++ bs) - 4) % 256 ≡ n = omega (arith, l, k) in
      let total : (rd.e2recvd + n) % (size_t_max + 1) ≡ rd.e2recvd + n = omega (arith, sum) in
      let cut : take n bs ≡ bs = ap (λ m. take m bs) (sym l) ∙ take-all bs in
      let room : ltb (length rd.e2) (a + n) ≡ false = ground (arith, fits) in
      rw (here, size) (rw (total, cut, room, p) (if_pair (ltb (rd.e2recvd + n) rd.e2recv) _ _ _))

  module _ (e2 : List ℕ) where
    -- The first `k` bytes of the range are those of the chip, and the rest is as it was.
    abbrev pub fetched : Reader → ℕ → List ℕ
    fetched rd k =
        take rd.offset e2 ++ (window (nor.byte_at s) rd.offset k ++ drop (rd.offset + k) e2)

    -- A chunk is pending, and the window has those in front of it.
    pub record Fetches (rd : Reader) : Type 0 where
      pub room : rd.offset + rd.e2recv ≤ length e2
      pub flash_room : rd.offset + rd.e2recv ≤ nor_size
      pub more : rd.e2recvd < rd.e2recv
      pub so_far : rd.e2 ≡ fetched rd rd.e2recvd

    abbrev span : Reader → ℕ
    span rd = chunk_size (rd.e2recv - rd.e2recvd)

    span_lem :
        (rd : Reader)
        → rd.e2recvd < rd.e2recv
        → (0 < span rd) × (span rd ≤ 128) × (rd.e2recvd + span rd ≤ rd.e2recv)
    span_lem rd h = ground arith

    pub length-fetched :
        (rd : Reader) (k : ℕ) → rd.offset + k ≤ length e2 → length (fetched rd k) ≡ length e2
    length-fetched rd k h =
        let m = window (nor.byte_at s) rd.offset k in
        omega (
          arith,
          h,
          length-append (take rd.offset e2) (m ++ drop (rd.offset + k) e2),
          length-append m (drop (rd.offset + k) e2),
          length-window (nor.byte_at s) rd.offset k,
          length-drop (rd.offset + k) e2,
          length-take rd.offset e2 (omega (arith, h)),
        )

    put-fetched :
        (rd : Reader) (k n : ℕ)
        → rd.offset + k + n ≤ length e2
        → put_at (rd.offset + k) (window (nor.byte_at s) (rd.offset + k) n) (fetched rd k)
          ≡ fetched rd (k + n)
    put-fetched rd k n h =
        let m = nor.byte_at s in
        let o = rd.offset in
        let bs = window m (o + k) n in
        let front = take o e2 ++ window m o k in
        let len : o + k ≡ length front = omega (
          arith,
          length-append (take o e2) (window m o k),
          length-window m o k,
          length-take o e2 (omega (arith, h)),
        ) in
        let tail : drop (length bs) (drop (o + k) e2) ≡ drop (o + (k + n)) e2 =
          ap (λ j. drop j (drop (o + k) e2)) (length-window m (o + k) n)
          ∙ sym (drop-add (o + k) n e2)
          ∙ ap (λ j. drop j e2) {x = o + k + n} {y = o + (k + n)} (omega arith) in
        ap (put_at (o + k) bs) (sym (append_assoc (take o e2) (window m o k) (drop (o + k) e2)))
        ∙ put_behind (o + k) front bs (drop (o + k) e2) len
        ∙ append_assoc (take o e2) (window m o k) (bs ++ drop (length bs) (drop (o + k) e2))
        ∙ ap (λ l. take o e2 ++ l)
            (sym (append_assoc (window m o k) bs (drop (length bs) (drop (o + k) e2)))
              ∙ ap (λ l. l ++ drop (length bs) (drop (o + k) e2)) (window-add m o k n)
              ∙ ap (λ l. window m o (k + n) ++ l) tail)

    -- The window behind the chunk.
    abbrev moved : Reader → Reader
    moved rd = record rd { e2 = fetched rd (rd.e2recvd + span rd); e2recvd = rd.e2recvd + span rd }

    next_call :
        (rd : Reader)
        → Fetches rd
        → read_next_chunk rd ≡ record { addr = rd.offset + rd.e2recvd; size = span rd }
    unfolding read_next_chunk
    next_call rd h =
        let a : u32 (rd.offset + rd.e2recvd) ≡ rd.offset + rd.e2recvd =
          omega (arith, h.flash_room, h.more) in
        let n : u32 (size_t_max + 1 + rd.e2recv - rd.e2recvd) ≡ rd.e2recv - rd.e2recvd =
          omega (arith, h.flash_room, h.more) in
        rw (a, n) refl

    taken_lem :
        (rd : Reader)
        → Fetches rd
        → taken (some (more (read_next_chunk rd))) rd ≡ arrived (onwards (moved rd))
    taken_lem rd h =
        let m = nor.byte_at s in
        let a = rd.offset + rd.e2recvd in
        let n = span rd in
        let (_, few, l) = span_lem rd h.more in
        let len : length rd.e2 ≡ length e2 =
          ap length h.so_far ∙ length-fetched rd rd.e2recvd (omega (arith, h.room, h.more)) in
        ap (λ c. taken (some (more c)) rd) (next_call rd h)
        ∙ ap (answered rd) (read_answer a n few (omega (arith, l, h.flash_room)))
        ∙ ap arrived (
            on_data_lem rd a n (window m a n) (fetched rd (rd.e2recvd + n)) (length-window m a n)
              few (omega (arith, len, l, h.room)) (omega (arith, l, h.flash_room))
              (omega (arith, l, h.flash_room))
              (ap (put_at a (window m a n)) h.so_far
                ∙ put-fetched rd rd.e2recvd n (omega (arith, l, h.room))))

    -- All of the range was read.
    abbrev pub done : Reader → Reader
    done rd = record rd { e2 = fetched rd rd.e2recv; e2recvd = rd.e2recv }

    abbrev pub finished : Reader → Session
    finished rd = record { reader = done rd; after = some (ended (report crc (done rd))) }

    rounds-finished : (j : ℕ) (rd : Reader) → rounds j (finished rd) ≡ finished rd
    unfolding rounds
    rounds-finished zero rd = refl
    rounds-finished (suc j) rd = rounds-finished j rd

    moved_last : (rd : Reader) → rd.e2recvd + span rd ≡ rd.e2recv → moved rd ≡ done rd
    moved_last rd h = ap (λ k. record rd { e2 = fetched rd k; e2recvd = k }) h

    all_rounds :
        (j : ℕ) (rd : Reader)
        → Fetches rd
        → (rd.e2recv - rd.e2recvd + 127) / 128 ≡ j
        → rounds j (record { reader = rd; after = some (more (read_next_chunk rd)) }) ≡ finished rd
    unfolding rounds
    all_rounds zero rd h e = absurd (omega (arith, e, h.more))
    all_rounds (suc j) rd h e =
        let n = span rd in
        let (_, _, l) = span_lem rd h.more in
        let last : After = ended (report crc (moved rd)) in
        let next : After = more (read_next_chunk (moved rd)) in
        let step = ap (rounds j) (taken_lem rd h) in
        elim (Bool-cases (ltb (rd.e2recvd + n) rd.e2recv)) [
          | inl t ↦
              let left : rd.e2recvd + n < rd.e2recv = ltb→lt _ _ t in
              step
              ∙ ap (λ b. rounds j (arrived (moved rd, if b then next else last))) t
              ∙ all_rounds j (moved rd)
                  (record { room = h.room; flash_room = h.flash_room; more = left; so_far = refl })
                  (chunks_more rd.e2recv rd.e2recvd j e left)
          | inr t ↦
              let all : rd.e2recvd + n ≡ rd.e2recv = ground (arith, t, l) in
              step
              ∙ ap (λ b. rounds j (arrived (moved rd, if b then next else last))) t
              ∙ ap (λ q. rounds j (record { reader = q; after = some (ended (report crc q)) }))
                  (moved_last rd all)
              ∙ rounds-finished j rd
        ]

  -- A range of the external flash is read whole, and the report is about what was read: as many
  -- rounds of a call and its answer as the range has chunks of at most 128 bytes leave the window with
  -- the bytes of the chip in the range, all other bytes as they were, and the report for them. The
  -- range is not empty and lies in the data and in the flash.
  pub slot_read-finished :
      (rd : Reader)
      → 0 < rd.range
      → rd.offset + rd.range ≤ length rd.e2
      → rd.offset + rd.range ≤ nor_size
      → let (start, call) = slot_read rd in
        rounds ((rd.range + 127) / 128) (record { reader = start; after = some (more call) })
        ≡ finished rd.e2 start
  unfolding slot_read read_next_chunk
  slot_read-finished rd p d f =
      let start : Reader = record rd { e2recv = rd.range; e2recvd = 0 } in
      let first : read_next_chunk start ≡ record { addr = rd.offset; size = chunk_size rd.range } =
        next_call rd.e2 start (starts rd p d f)
        ∙ ap (λ (k : ℕ × ℕ). record { addr = k.0; size = chunk_size k.1 })
            {x = (rd.offset + 0, rd.range - 0)} {y = (rd.offset, rd.range)}
            (λ i. (zero_off i, zero_len i)) in
      ap (λ c. rounds ((rd.range + 127) / 128) (record { reader = start; after = some (more c) }))
        (sym first)
      ∙ all_rounds rd.e2 ((rd.range + 127) / 128) start (starts rd p d f) (omega arith)
    where
      zero_off : rd.offset + 0 ≡ rd.offset
      zero_off = omega arith

      zero_len : rd.range - 0 ≡ rd.range
      zero_len = omega arith

      starts :
          (rd : Reader)
          → 0 < rd.range
          → rd.offset + rd.range ≤ length rd.e2
          → rd.offset + rd.range ≤ nor_size
          → Fetches rd.e2 (record rd { e2recv = rd.range; e2recvd = 0 })
      starts rd p d f = record {
        room = d;
        flash_room = f;
        more = p;
        so_far =
            sym (take-append-drop rd.offset rd.e2)
            ∙ ap (λ k. take rd.offset rd.e2 ++ drop k rd.e2) {x = rd.offset} {y = rd.offset + 0}
                (omega arith);
      }
