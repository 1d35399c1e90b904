-- ===== src/Host/Rom/Read.antt =====
-- Reading the on-chip flash through the boot loader, block by block, as the main window of
-- programmer/programmer/programmer.cpp does it.
use stc_isp_demo.Prelude.{
  ℕ, zero, suc, ◌+◌, ◌-◌, ◌*◌, ◌/◌, ◌%◌, ◌≤◌, ◌<◌, ◌≡◌, ◌∙◌, refl, sym, ap, subst, arith, true,
  List, ◌++◌, Option, none, some, length, length-append, take, drop, zeros, length-take, take_of_eq,
  take-append_le, ltb, ◌==◌, Bool-cases, inl, inr, if◌then◌else◌,
}
use stc_isp_demo.Command
use stc_isp_demo.Command.{ChipInfo, reply, addr, size}
use stc_isp_demo.Device.Crc.{Crc32}
use stc_isp_demo.Device.Memory.{window, window-add, length-window}
use stc_isp_demo.Device.Nor.{Nor}
use stc_isp_demo.Device.Rom.{Rom, rom_size}
use stc_isp_demo.App.Message.{behind}
use stc_isp_demo.Host.Serial.Sent
use stc_isp_demo.Host.Flash.{chunk_size}
use stc_isp_demo.Host.Flash.Span.{chunks_more, chunks_last}
use stc_isp_demo.Host.Rom.{
  Window, RomRequest, read_rom, read_next, slot_read_rom, put_block, on_rom,
}

abbrev pair : Window → Option RomRequest → Window × Option RomRequest
pair w p = (w, p)

module _ (crc : Crc32) (nor : Nor) (rom : Rom) (erase_chip : nor.State → nor.State)
    (info : ChipInfo) (rest : List ℕ) (s : nor.State) (r : rom.State) where
  -- The boot loader answers READ with the bytes of the on-chip flash.
  read_answer :
      (a n : ℕ)
      → a < 65536
      → n ≤ 128
      → a + n ≤ rom_size
      → Command.isp_handle crc nor rom erase_chip info
          (behind (Sent.body (Sent.read_rom a n)) rest)
          s
          r
        ≡ reply 0x83 (window (rom.byte_at r) a n) s r
  unfolding Command.isp_handle
  read_answer a n h k room =
      let e : a / 256 % 256 * 256 + a % 256 ≡ a = omega arith in
      let m : n % 256 ≡ n = omega arith in rw (e, m, rom.read_lem a n r room) refl

  -- What the window does with the outcome of a command.
  abbrev taken : Command.Outcome crc nor rom erase_chip info → Window → Window × Option RomRequest
  taken (Command.reply status dat s' r') w = if status == 0x83 then on_rom dat w else (w, none)
  taken _ w = (w, none)

  -- The boot loader answers the pending request, and the window takes the answer.
  abbrev step : Option RomRequest → Window → Window × Option RomRequest
  step (some (read_rom a n)) w =
      taken
        (Command.isp_handle crc nor rom erase_chip info
          (behind (Sent.body (Sent.read_rom a n)) rest) s r)
        w
  step _ w = (w, none)

  unfoldable pub rounds : ℕ → Window × Option RomRequest → Window × Option RomRequest
  rounds zero x = x
  rounds (suc n) x = rounds n (step x.1 x.0)

  step_lem :
      (w : Window) (a n : ℕ)
      → read_next w ≡ read_rom a n
      → a < 65536
      → n ≤ 128
      → a + n ≤ rom_size
      → step (some (read_next w)) w ≡ on_rom (window (rom.byte_at r) a n) w
  step_lem w a n e h k room =
      ap (λ q. step (some q) w) e ∙ ap (λ o. taken o w) (read_answer a n h k room)

  -- A read that does not begin at 0, with a request pending: what was received lies inside the
  -- range as it is counted from the offset.
  record Inside (x : Window × Option RomRequest) : Type 0 where
    offset : 0 < (x.0).read_offset
    inside : (x.0).read_offset + (x.0).e2recv ≤ (x.0).read_len
    short : (x.0).read_len < 65536
    pending : x.1 ≡ some (read_next x.0)

  on_rom-Inside :
      (w : Window) (p : Option RomRequest) (bs : List ℕ)
      → Inside (w, p)
      → w.read_offset + w.e2recv + length bs ≤ w.read_len
      → Inside (on_rom bs w)
  unfolding on_rom
  on_rom-Inside w p bs h k =
      let more : ltb (w.e2recv + length bs) w.read_len ≡ true = ground (arith, k, h.offset) in
      record {
        offset = h.offset;
        inside = omega (arith, k);
        short = h.short;
        pending = rw more refl;
      }

  -- What the next request asks for, and how much that is.
  next_size : Window → ℕ
  next_size w = chunk_size (w.read_len - (w.read_offset + w.e2recv))

  next_Inside :
      (w : Window) (p : Option RomRequest)
      → Inside (w, p)
      → read_next w ≡ read_rom (w.read_offset + w.e2recv) (next_size w)
  unfolding read_next next_size
  next_Inside w p h =
      let a = w.read_offset + w.e2recv in
      let n = chunk_size (w.read_len - a) in
      let few : n ≤ 128 = ground arith in
      let here : a % 65536 ≡ a = omega (arith, h.inside, h.short) in
      let left : (18446744073709551616 + w.read_len - a) % 18446744073709551616 ≡ w.read_len - a =
        omega (arith, h.inside, h.short) in
      let small : n % 256 ≡ n = omega (arith, few) in rw (here, left) (rw small refl)

  step-next :
      (w : Window) (p : Option RomRequest)
      → Inside (w, p)
      → step p w ≡ on_rom (window (rom.byte_at r) (w.read_offset + w.e2recv) (next_size w)) w
  unfolding next_size
  step-next w p h =
      let a = w.read_offset + w.e2recv in
      let few : next_size w ≤ 128 = ground arith in
      let fits : a + next_size w ≤ w.read_len = ground (arith, h.inside) in
      ap (λ q. step q w) h.pending
      ∙ step_lem w a (next_size w) (next_Inside w p h) (omega (arith, h.inside, h.short)) few
          (omega (arith, fits, h.short))

  -- A round takes what is left of the range, but no more than a block.
  step-Inside :
      (w : Window) (p : Option RomRequest)
      → Inside (w, p)
      → let x = step p w in
        Inside x
        × ((x.0).e2recv ≡ w.e2recv + next_size w)
        × ((x.0).read_offset ≡ w.read_offset)
        × ((x.0).read_len ≡ w.read_len)
  unfolding next_size on_rom
  step-Inside w p h =
      let a = w.read_offset + w.e2recv in
      let n = next_size w in
      let bs = window (rom.byte_at r) a n in
      let len = length-window (rom.byte_at r) a n in
      let fits : a + n ≤ w.read_len = ground (arith, h.inside) in
      subst
        (λ (x : Window × Option RomRequest).
          Inside x
          × ((x.0).e2recv ≡ w.e2recv + n)
          × ((x.0).read_offset ≡ w.read_offset)
          × ((x.0).read_len ≡ w.read_len))
        (sym (step-next w p h))
        (on_rom-Inside w p bs h (omega (arith, fits, len)), ap (λ k. w.e2recv + k) len, refl, refl)

  -- The number of blocks of the range that were not received.
  abbrev missing : Window → ℕ
  missing w = (w.read_len - (w.read_offset + w.e2recv) + 127) / 128

  fewer_missing :
      (m left : ℕ) → (left + 127) / 128 ≤ suc m → (left - chunk_size left + 127) / 128 ≤ m
  fewer_missing m left h = elim (Bool-cases (ltb 128 left)) [
    | inl e ↦
        let more : 128 < left = ground (arith, e) in
        let block : chunk_size left ≡ 128 = rw e refl in omega (arith, h, more, block)
    | inr e ↦ let all : chunk_size left ≡ left = rw e refl in omega (arith, h, all)
  ]

  empty_pending :
      (w : Window) (p : Option RomRequest)
      → Inside (w, p)
      → missing w ≤ 0
      → p ≡ some (read_rom w.read_len 0)
  unfolding next_size
  empty_pending w p h e =
      let end : w.read_offset + w.e2recv ≡ w.read_len = omega (arith, e, h.inside) in
      let none_left : w.read_len - (w.read_offset + w.e2recv) ≡ 0 = omega (arith, e) in
      h.pending
      ∙ ap some (
          next_Inside w p h
          ∙ ap (λ (k : ℕ × ℕ). read_rom k.0 (chunk_size k.1)) (λ i. (end i, none_left i)))

  rounds-empty :
      (m : ℕ) (w : Window) (p : Option RomRequest)
      → Inside (w, p)
      → missing w ≤ m
      → (rounds m (w, p)).1 ≡ some (read_rom w.read_len 0)
  unfolding rounds next_size
  rounds-empty zero w p h e = empty_pending w p h e
  rounds-empty (suc m) w p h e =
      let (k, got, same, len) = step-Inside w p h in
      let less = fewer_missing m (w.read_len - (w.read_offset + w.e2recv)) e in
      rounds-empty m (step p w).0 (step p w).1 k (omega (arith, less, got, same, len))
      ∙ ap (λ n. some (read_rom n 0)) len

  -- A read of the on-chip flash that begins behind 0, and not behind the length of the range, never ends:
  -- from the round on in which all blocks of the range have arrived, of which there is one for each 128
  -- bytes, the pending request is one for 0 bytes. The length is below 65536.
  pub read_endless :
      (n : ℕ) (w : Window)
      → 0 < w.read_offset
      → w.read_offset ≤ w.read_len
      → w.read_len < 65536
      → (rounds
          ((w.read_len - w.read_offset + 127) / 128 + n)
          ((slot_read_rom w).0, some (slot_read_rom w).1)).1
        ≡ some (read_rom w.read_len 0)
  unfolding slot_read_rom
  read_endless n w p e l =
      let start : Window = record w { e2recv = 0 } in
      rounds-empty ((w.read_len - w.read_offset + 127) / 128 + n) start (some (read_next start))
        (record { offset = p; inside = omega (arith, e); short = l; pending = refl }) (omega arith)

  -- A range from 0 on: the first `e2recv` bytes are those of the chip.
  pub record Reads (w : Window) (p : Option RomRequest) : Type 0 where
    pub from_zero : w.read_offset ≡ 0
    pub more : w.e2recv < w.read_len
    pub fits : w.read_len ≤ rom_size
    pub room : w.e2recv ≤ length w.e2
    pub so_far : take w.e2recv w.e2 ≡ window (rom.byte_at r) 0 w.e2recv
    pub pending : p ≡ some (read_next w)

  abbrev block : Window → ℕ
  block w = chunk_size (w.read_len - w.e2recv)

  block_lem :
      (w : Window)
      → w.e2recv < w.read_len
      → (0 < block w) × (block w ≤ 128) × (w.e2recv + block w ≤ w.read_len)
  block_lem w h = ground arith

  step-Reads :
      (w : Window) (p : Option RomRequest)
      → Reads w p
      → step p w ≡ on_rom (window (rom.byte_at r) w.e2recv (block w)) w
  unfolding read_next
  step-Reads w p h =
      let (_, few, l) = block_lem w h.more in
      let here : (w.read_offset + w.e2recv) % 65536 ≡ w.e2recv =
        omega (arith, h.from_zero, h.more, h.fits) in
      let left : (18446744073709551616 + w.read_len - (w.read_offset + w.e2recv))
            % 18446744073709551616
          ≡ w.read_len - w.e2recv =
        omega (arith, h.from_zero, h.more, h.fits) in
      let n : block w % 256 ≡ block w = omega (arith, few) in
      let e : read_next w ≡ read_rom w.e2recv (block w) = rw (here, left) (rw n refl) in
      ap (λ q. step q w) h.pending
      ∙ step_lem w w.e2recv (block w) e (omega (arith, h.more, h.fits)) few
          (omega (arith, l, h.fits))

  take-put_block :
      (e2 bs : List ℕ) (o : ℕ)
      → o ≤ length e2
      → take (o + length bs) (put_block o bs e2) ≡ take o e2 ++ bs
  take-put_block e2 bs o h =
      let grown = e2 ++ zeros (o + length bs - length e2) in
      let front : take o grown ≡ take o e2 = take-append_le o e2 _ h in
      take_of_eq (o + length bs) (take o e2 ++ bs) (drop (o + length bs) grown) _
        (omega (arith, length-append (take o e2) bs, length-take o e2 h))
        (ap (λ l. l ++ bs ++ drop (o + length bs) grown) front)

  length-put_block :
      (e2 bs : List ℕ) (o : ℕ) → o ≤ length e2 → o + length bs ≤ length (put_block o bs e2)
  length-put_block e2 bs o h =
      let grown = e2 ++ zeros (o + length bs - length e2) in
      let front : length (take o grown) ≡ o =
        length-take o grown (omega (arith, length-append e2 (zeros (o + length bs - length e2)))) in
      omega (
        arith,
        front,
        length-append (take o grown) bs,
        length-append (take o grown ++ bs) (drop (o + length bs) grown),
      )

  -- The window behind a block.
  abbrev read_more : Window → Window
  read_more w =
      let bs = window (rom.byte_at r) w.e2recv (block w) in
      record w { e2 = put_block w.e2recv bs w.e2; e2recv = w.e2recv + block w }

  step_read :
      (w : Window) (p : Option RomRequest)
      → Reads w p
      → step p w ≡ (
        read_more w,
        if ltb (w.e2recv + block w) w.read_len then some (read_next (read_more w)) else none,
      )
  unfolding on_rom
  step_read w p h =
      step-Reads w p h
      ∙ ap
          (λ (k : ℕ).
            let w' : Window = record w {
              e2 = put_block w.e2recv (window (rom.byte_at r) w.e2recv (block w)) w.e2;
              e2recv = w.e2recv + k;
            } in
            pair w' (if ltb w'.e2recv w'.read_len then some (read_next w') else none))
          (length-window (rom.byte_at r) w.e2recv (block w))

  read_so_far :
      (w : Window) (p : Option RomRequest)
      → Reads w p
      → (take (w.e2recv + block w) (read_more w).e2 ≡ window (rom.byte_at r) 0 (w.e2recv + block w))
        × (w.e2recv + block w ≤ length (read_more w).e2)
  read_so_far w p h =
      let n = block w in
      let m = rom.byte_at r in
      let bs = window m w.e2recv n in
      let len = length-window m w.e2recv n in
      (
        ap (λ k. take (w.e2recv + k) (put_block w.e2recv bs w.e2)) (sym len)
            ∙ take-put_block w.e2 bs w.e2recv h.room
            ∙ ap (◌++ bs) h.so_far
            ∙ ap (λ (k : ℕ). window m 0 w.e2recv ++ window m k n) {y = 0 + w.e2recv} (omega arith)
            ∙ window-add m 0 w.e2recv n,
        omega (arith, len, length-put_block w.e2 bs w.e2recv h.room),
      )

  -- The number of blocks that are left.
  abbrev blocks_left : Window → ℕ
  blocks_left w = (w.read_len - w.e2recv + 127) / 128

  -- The whole range was read.
  abbrev Complete : ℕ → Window × Option RomRequest → Type 0
  Complete len x = (x.1 ≡ none) × (take len (x.0).e2 ≡ window (rom.byte_at r) 0 len)

  rounds-Complete :
      (j : ℕ) (w : Window) (p : Option RomRequest)
      → Reads w p
      → blocks_left w ≡ j
      → Complete w.read_len (rounds j (w, p))
  unfolding rounds
  rounds-Complete zero w p h e = absurd (omega (arith, e, h.more))
  rounds-Complete (suc j) w p h e =
      let n = block w in
      let (q, _, l) = block_lem w h.more in
      let (so_far, room) = read_so_far w p h in
      elim (Bool-cases (ltb (w.e2recv + n) w.read_len)) [
        | inl t ↦
            let next = some (read_next (read_more w)) in
            let go : step p w ≡ (read_more w, next) = step_read w p h ∙ rw t refl in
            let more : w.e2recv + n < w.read_len = ground (arith, t) in
            subst (λ x. Complete w.read_len (rounds j x)) (sym go)
              (rounds-Complete j (read_more w) next
                (record {
                  from_zero = h.from_zero;
                  more = more;
                  fits = h.fits;
                  room = room;
                  so_far = so_far;
                  pending = refl;
                })
                (chunks_more w.read_len w.e2recv j e more))
        | inr t ↦
            let go : step p w ≡ (read_more w, none) = step_read w p h ∙ rw t refl in
            let all : w.e2recv + n ≡ w.read_len = ground (arith, t, l) in
            subst (λ k. Complete w.read_len (rounds k (step p w)))
              (sym (chunks_last w.read_len w.e2recv j e all))
              (subst (Complete w.read_len) (sym go) (
                refl,
                subst (λ k. take k (read_more w).e2 ≡ window (rom.byte_at r) 0 k) all so_far,
              ))
      ]

  -- A range of the on-chip flash from 0 on is read whole: as many rounds of a request and its
  -- answer as the range has blocks of at most 128 bytes leave nothing pending, and the bytes of
  -- the window are those of the chip. The range is not empty and lies in the flash.
  pub slot_read_rom_reads :
      (w : Window)
      → w.read_offset ≡ 0
      → 0 < w.read_len
      → w.read_len ≤ rom_size
      → let x = rounds ((w.read_len + 127) / 128) ((slot_read_rom w).0, some (slot_read_rom w).1) in
        (x.1 ≡ none) × (take w.read_len (x.0).e2 ≡ window (rom.byte_at r) 0 w.read_len)
  unfolding slot_read_rom
  slot_read_rom_reads w z p h =
      let start : Window = record w { e2recv = 0 } in
      rounds-Complete ((w.read_len + 127) / 128) start (some (read_next start))
        (record {
          from_zero = z;
          more = p;
          fits = h;
          room = omega arith;
          so_far = refl;
          pending = refl;
        })
        (omega arith)
