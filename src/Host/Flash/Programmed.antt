-- ===== src/Host/Flash/Programmed.antt =====
-- A range that the window of programmer/programmer/flash.cpp programs is in the external flash of a
-- board with the boot loader of bootloader/src/main.c, chunk by chunk.
use stc_isp_demo.Prelude.{
  ℕ, zero, suc, ◌+◌, ◌-◌, ◌/◌, ◌%◌, ◌≤◌, ◌<◌, ◌≡◌, ◌⊎◌, inl, inr, ◌∙◌, refl, sym, ap, subst, arith,
  true, List, ◌++◌, Option, none, some, length, length-append, take, drop, take-append, take-add,
  drop-add, leb, ltb, Bool-cases, if◌then◌else◌,
}
use stc_isp_demo.Command
use stc_isp_demo.Command.{ChipInfo, reply, bytes_at, limited, size, dat_addr, echo}
use stc_isp_demo.Command.Program.{isp_handle_program_w25q}
use stc_isp_demo.Device.Crc.{Crc32}
use stc_isp_demo.Device.Memory.{window, window-add, window_ext, AllBytes}
use stc_isp_demo.Device.Nor.{Nor, nor_size}
use stc_isp_demo.Device.Rom.{Rom}
use stc_isp_demo.Device.WriteThrough.{norflash_write_no_check, norflash_write_no_check_lem}
use stc_isp_demo.App.Message.{from_le32, behind}
use stc_isp_demo.Uart.Send.{ldr_prefix}
use stc_isp_demo.Host.Serial.{le32}
use stc_isp_demo.Host.Serial.Sent.{body, program_flash}
use stc_isp_demo.Host.Flash.{Editor, Chunk, mid, slot_program, program_next_chunk, on_program_res}
use stc_isp_demo.Host.Flash.Span.{
  InRange, chunks_more, chunks_last, span, span_lem, next_chunk, length-mid, moved,
  on_program_res_lem, chunk-AllBytes, started, slot_program_lem,
}

module _ (crc : Crc32) (nor : Nor) (rom : Rom) (erase_chip : nor.State → nor.State)
    (info : ChipInfo) (rest : List ℕ) where
  -- The packet of a chunk, as the boot loader has received it.
  abbrev pub packet : Chunk → List ℕ
  packet k = behind (body (program_flash k.addr k.bin)) rest

  chunk_bytes :
      (k : Chunk)
      → length k.bin ≤ 128
      → bytes_at 12 (limited (size (packet k))) (packet k) ≡ some k.bin
  chunk_bytes k h =
      let n : limited (length k.bin % 256) ≡ length k.bin = ground arith in
      let fits : leb (12 + length k.bin) (length (packet k)) ≡ true =
        ground (arith, length-append k.bin rest) in
      rw (n, fits) (ap {A = List ℕ} some (take-append k.bin rest))

  -- The boot loader stores a chunk at blank addresses, and answers with its address and bytes.
  stored_chunk :
      (k : Chunk) (s : nor.State) (r : rom.State)
      → length k.bin ≤ 128
      → AllBytes k.bin
      → k.addr + length k.bin ≤ nor_size
      → ((i : ℕ) → k.addr ≤ i → i < k.addr + length k.bin → nor.byte_at s i ≡ 255)
      → Command.isp_handle crc nor rom erase_chip info (packet k) s r
        ≡ reply 0x88 (le32 k.addr ++ k.bin) (norflash_write_no_check nor k.addr k.bin s) r
  stored_chunk k s r h v room blank =
      let a : dat_addr (packet k) ≡ k.addr = from_le32 k.addr (omega arith) in
      (isp_handle_program_w25q crc nor rom erase_chip info (packet k) k.bin s r refl
        (chunk_bytes k h) v (subst (λ x. x + length k.bin ≤ nor_size) (sym a) room)
        (subst (λ x. (i : ℕ) → x ≤ i → i < x + length k.bin → nor.byte_at s i ≡ 255) (sym a)
          blank)).0
      ∙ ap {B = Command.Outcome crc nor rom erase_chip info}
          (λ x. reply 0x88 (le32 k.addr ++ k.bin) (norflash_write_no_check nor x k.bin s) r) a

  -- What is going on: the editor, the chunk that was sent last, and the two flashes.
  pub record Session : Type 0 where
    pub editor : Editor
    pub pending : Option Chunk
    pub flash : nor.State
    pub chip : rom.State

  abbrev answered : Editor → Command.Outcome crc nor rom erase_chip info → Session → Session
  answered ed (Command.reply status dat s' r') x =
      let (ed', next) = on_program_res ed (ldr_prefix status dat) in
      record { editor = ed'; pending = next; flash = s'; chip = r' }
  answered ed _ x = record x { pending = none }

  -- The board handles the pending chunk, and the editor takes the answer.
  abbrev taken : Option Chunk → Session → Session
  taken none x = x
  taken (some k) x =
      answered x.editor (Command.isp_handle crc nor rom erase_chip info (packet k) x.flash x.chip) x

  unfoldable pub round : Session → Session
  round x = taken x.pending x

  unfoldable pub rounds : ℕ → Session → Session
  unfolding round
  rounds zero x = x
  rounds (suc n) x = rounds n (round x)

  -- `e2sent` bytes of the range are in the flash, the rest is blank there, and the next chunk is
  -- pending.
  pub record Programs (x : Session) : Type 0 where
    pub range : InRange x.editor
    pub more : x.editor.e2sent < x.editor.e2send
    pub so_far :
        window (nor.byte_at x.flash) x.editor.offset x.editor.e2sent
        ≡ mid x.editor.e2 x.editor.offset x.editor.e2sent
    pub blank :
        (i : ℕ)
        → x.editor.offset + x.editor.e2sent ≤ i
        → i < x.editor.offset + x.editor.e2send
        → nor.byte_at x.flash i ≡ 255
    pub next : x.pending ≡ some (program_next_chunk x.editor)

  -- The flash behind the chunk.
  abbrev behind_chunk : Session → nor.State
  behind_chunk x =
      let a = x.editor.offset + x.editor.e2sent in
      norflash_write_no_check nor a (mid x.editor.e2 a (span x.editor)) x.flash

  abbrev behind_round : Session → Session
  behind_round x = record {
    editor = moved x.editor;
    pending =
        if ltb (x.editor.e2sent + span x.editor) x.editor.e2send
        then some (program_next_chunk (moved x.editor))
        else none;
    flash = behind_chunk x;
    chip = x.chip;
  }

  round_lem : (x : Session) → Programs x → round x ≡ behind_round x
  unfolding round
  round_lem x p =
      let ed = x.editor in
      let k : Chunk = record {
        addr = ed.offset + ed.e2sent;
        bin = mid ed.e2 (ed.offset + ed.e2sent) (span ed);
      } in
      let (_, few, l) = span_lem ed p.more in
      let len = length-mid ed p.range p.more in
      let handled =
        stored_chunk k x.flash x.chip (omega (arith, len, few)) (chunk-AllBytes ed p.range)
          (omega (arith, len, l, p.range.flash_room))
          (λ i h j. p.blank i h (omega (arith, len, l, j))) in
      ap (λ o. taken o x) (p.next ∙ ap {A = Chunk} some (next_chunk ed p.range p.more))
      ∙ ap (λ o. answered ed o x) handled
      ∙ ap
          (λ (q : Editor × Option Chunk). record {
            editor = q.0;
            pending = q.1;
            flash = behind_chunk x;
            chip = x.chip;
          })
          (on_program_res_lem ed k.bin p.range p.more refl)

  -- The chunk is stored, and the rest of the flash stays.
  chunk_stored :
      (x : Session)
      → Programs x
      → let a = x.editor.offset + x.editor.e2sent in
        (window (nor.byte_at (behind_chunk x)) a (span x.editor)
          ≡ mid x.editor.e2 a (span x.editor))
        × ((i : ℕ)
            → (i < a) ⊎ (a + span x.editor ≤ i)
            → nor.byte_at (behind_chunk x) i ≡ nor.byte_at x.flash i)
  chunk_stored x p =
      let ed = x.editor in
      let a = ed.offset + ed.e2sent in
      let bin = mid ed.e2 a (span ed) in
      let (_, _, l) = span_lem ed p.more in
      let len = length-mid ed p.range p.more in
      let (i, o) =
        norflash_write_no_check_lem nor a bin x.flash (omega (arith, len, l, p.range.flash_room))
          (chunk-AllBytes ed p.range) (λ j h k. p.blank j h (omega (arith, len, l, k))) in
      (
        subst (λ m. window (nor.byte_at (behind_chunk x)) a m ≡ bin) len i,
        subst
            (λ m.
              (j : ℕ)
              → (j < a) ⊎ (a + m ≤ j)
              → nor.byte_at (behind_chunk x) j ≡ nor.byte_at x.flash j)
            len o,
      )

  -- The range of the flash that was programmed so far is longer by the chunk.
  stored_more :
      (x : Session)
      → Programs x
      → window (nor.byte_at (behind_chunk x)) x.editor.offset (x.editor.e2sent + span x.editor)
        ≡ mid x.editor.e2 x.editor.offset (x.editor.e2sent + span x.editor)
  stored_more x p =
      let ed = x.editor in
      let n = span ed in
      let m = nor.byte_at (behind_chunk x) in
      let (i, o) = chunk_stored x p in
      let before : window m ed.offset ed.e2sent ≡ mid ed.e2 ed.offset ed.e2sent =
        window_ext _ _ ed.offset ed.e2sent (λ j h k. o j (inl k)) ∙ p.so_far in
      sym (window-add m ed.offset ed.e2sent n)
      ∙ ap (◌++ window m (ed.offset + ed.e2sent) n) before
      ∙ ap (mid ed.e2 ed.offset ed.e2sent ++◌)
          (i ∙ ap (take n) (drop-add ed.offset ed.e2sent ed.e2))
      ∙ take-add ed.e2sent n (drop ed.offset ed.e2)

  still_blank :
      (x : Session)
      → Programs x
      → (i : ℕ) → x.editor.offset + (x.editor.e2sent + span x.editor) ≤ i
      → i < x.editor.offset + x.editor.e2send
      → nor.byte_at (behind_chunk x) i ≡ 255
  still_blank x p i h j =
      (chunk_stored x p).1 i (inr (omega (arith, h))) ∙ p.blank i (omega (arith, h)) j

  -- All of the range is in the flash, and nothing is pending.
  pub record Programmed (ed : Editor) (y : Session) : Type 0 where
    pub sent_all : y.editor.e2sent ≡ ed.e2send
    pub quiet : y.pending ≡ none
    pub stored : window (nor.byte_at y.flash) ed.offset ed.e2send ≡ mid ed.e2 ed.offset ed.e2send

  abbrev chunks_left : Session → ℕ
  chunks_left x = (x.editor.e2send - x.editor.e2sent + 127) / 128

  rounds-Programmed :
      (j : ℕ) (x : Session) → Programs x → chunks_left x ≡ j → Programmed x.editor (rounds j x)
  unfolding rounds
  rounds-Programmed zero x p e = absurd (omega (arith, e, p.more))
  rounds-Programmed (suc j) x p e =
      let ed = x.editor in
      let n = span ed in
      let (q, _, l) = span_lem ed p.more in
      elim (Bool-cases (ltb (ed.e2sent + n) ed.e2send)) [
        | inl t ↦
            let y : Session = record {
              editor = moved ed;
              pending = some (program_next_chunk (moved ed));
              flash = behind_chunk x;
              chip = x.chip;
            } in
            let step : round x ≡ y = round_lem x p ∙ rw t refl in
            let more : ed.e2sent + n < ed.e2send = ground (arith, t) in
            subst (λ z. Programmed ed (rounds j z)) (sym step)
              (same_range (rounds j y) ed (
                rounds-Programmed j y
                  (record {
                    range = record {
                      data_room = p.range.data_room;
                      flash_room = p.range.flash_room;
                      bytes = p.range.bytes;
                    };
                    more = more;
                    so_far = stored_more x p;
                    blank = still_blank x p;
                    next = refl;
                  })
                  (chunks_more ed.e2send ed.e2sent j e more)))
        | inr t ↦
            let y : Session = record {
              editor = moved ed;
              pending = none;
              flash = behind_chunk x;
              chip = x.chip;
            } in
            let step : round x ≡ y = round_lem x p ∙ rw t refl in
            let all : ed.e2sent + n ≡ ed.e2send = ground (arith, t, l) in
            let z : j ≡ 0 = chunks_last ed.e2send ed.e2sent j e all in
            subst (λ k. Programmed ed (rounds k (round x))) (sym z)
              (subst (Programmed ed) (sym step) (record {
                sent_all = all;
                quiet = refl;
                stored =
                    subst
                      (λ k.
                        window (nor.byte_at (behind_chunk x)) ed.offset k ≡ mid ed.e2 ed.offset k)
                      all (stored_more x p);
              }))
      ]
    where
      same_range : (y : Session) (ed : Editor) → Programmed (moved ed) y → Programmed ed y
      same_range y ed d = record { sent_all = d.sent_all; quiet = d.quiet; stored = d.stored }

  -- A range of the data that lies in a blank part of the external flash is programmed whole: as
  -- many chunks of at most 128 bytes as the range has, each received and handled by the boot
  -- loader and each answer taken by the window, leave every byte of the range in the flash, and
  -- nothing pending. The range is not empty, and the bytes behind a packet in the receive buffer
  -- do not matter.
  pub slot_program-Programmed :
      (ed : Editor) (s : nor.State) (r : rom.State)
      → 0 < ed.range
      → ed.offset + ed.range ≤ length ed.e2
      → ed.offset + ed.range ≤ nor_size
      → AllBytes ed.e2
      → ((i : ℕ) → ed.offset ≤ i → i < ed.offset + ed.range → nor.byte_at s i ≡ 255)
      → let start = slot_program ed in
        Programmed start.0 (
          rounds
            ((ed.range + 127) / 128)
            (record { editor = start.0; pending = start.1; flash = s; chip = r }))
  slot_program-Programmed ed s r p d f v b =
      let g : InRange (started ed) = record { data_room = d; flash_room = f; bytes = v } in
      let x : Session = record {
        editor = started ed;
        pending = some (program_next_chunk (started ed));
        flash = s;
        chip = r;
      } in
      subst
        (λ (q : Editor × Option Chunk). Programmed q.0 (
          rounds ((ed.range + 127) / 128)
            (record { editor = q.0; pending = q.1; flash = s; chip = r })))
        (sym (slot_program_lem ed p g))
        (rounds-Programmed ((ed.range + 127) / 128) x
          (record {
            range = g;
            more = p;
            so_far = refl;
            blank = λ i h k. b i (omega (arith, h)) k;
            next = refl;
          })
          (omega arith))
