-- ===== src/Host/Rom/Program.antt =====
-- Programming the on-chip flash through the boot loader, block by block, as the main window of
-- programmer/programmer/programmer.cpp does it.
use stc_isp_demo.Prelude.{
  ℕ, zero, suc, ◌+◌, ◌-◌, ◌/◌, ◌%◌, ◌≤◌, ◌<◌, ◌≡◌, ◌⊎◌, ◌∙◌, refl, sym, ap, subst, arith, Bool,
  true, false, not, ◌&&◌, List, [], ◌∷◌, ◌++◌, Option, none, some, length, length-append,
  length-drop, take, take-all, take-append, take-add, drop, ltb, ltb→lt, ltb→le, leb, ◌==◌,
  Bool-cases, inl, inr, if◌then◌else◌,
}
use stc_isp_demo.Protocol.{pkt_dat_max_len}
use stc_isp_demo.Layout.{iap_addr_app_start, app_max_size}
use stc_isp_demo.Command
use stc_isp_demo.Command.{ChipInfo, reply, cmd, addr, size, bytes_at, checked}
use stc_isp_demo.Device.Crc.{Crc32}
use stc_isp_demo.Device.Memory.{window, window-add, window_ext}
use stc_isp_demo.Device.Nor.{Nor}
use stc_isp_demo.Device.Rom.{Rom, rom_size}
use stc_isp_demo.App.Message.{behind}
use stc_isp_demo.Host.Serial.Sent
use stc_isp_demo.Host.Flash.{chunk_size}
use stc_isp_demo.Host.Flash.Span.{chunks_more}
use stc_isp_demo.Host.Rom.{Window, RomRequest, program_bin, read_rom, slot_program, on_ok}

-- The next block of the data from `a` on.
abbrev pub chunk : List ℕ → ℕ → List ℕ
chunk e2 a = take pkt_dat_max_len (drop a e2)

length-take_min :
    (n : ℕ) (xs : List ℕ) → length (take n xs) ≡ (if ltb n (length xs) then n else length xs)
length-take_min zero [] = refl
length-take_min zero (x ∷ xs) = ground arith
length-take_min (suc n) [] = ground arith
length-take_min (suc n) (x ∷ xs) = ground (arith, length-take_min n xs)

take-length-take : (n : ℕ) (xs : List ℕ) → take (length (take n xs)) xs ≡ take n xs
take-length-take zero xs = refl
take-length-take (suc n) [] = refl
take-length-take (suc n) (x ∷ xs) = ap (◌∷◌ x) (take-length-take n xs)

pub length-chunk : (e2 : List ℕ) (a : ℕ) → length (chunk e2 a) ≡ chunk_size (length e2 - a)
length-chunk e2 a = length-take_min 128 (drop a e2) ∙ ap chunk_size (length-drop a e2)

chunk_size_lem :
    (m a : ℕ)
    → a < m
    → (0 < chunk_size (m - a)) × (chunk_size (m - a) ≤ 128) × (a + chunk_size (m - a) ≤ m)
chunk_size_lem m a h = ground arith

pub chunk_lem :
    (e2 : List ℕ) (a : ℕ)
    → a < length e2
    → (0 < length (chunk e2 a))
      × (length (chunk e2 a) ≤ 128)
      × (a + length (chunk e2 a) ≤ length e2)
chunk_lem e2 a h =
    subst (λ k. (0 < k) × (k ≤ 128) × (a + k ≤ length e2)) (sym (length-chunk e2 a))
      (chunk_size_lem (length e2) a h)

-- The window goes on, or has sent everything.
on_ok_more :
    (w : Window)
    → 0 < w.e2sent
    → w.e2sent < length w.e2
    → on_ok w ≡ (
      record w { e2sent = w.e2sent + length (chunk w.e2 w.e2sent) },
      some (program_bin (w.e2sent % 65536) (chunk w.e2 w.e2sent)),
    )
unfolding on_ok
on_ok_more w p h =
    let t : (not (w.e2sent == 0) && ltb w.e2sent (length w.e2)) ≡ true = ground (arith, p, h) in
    rw t refl

on_ok_last : (w : Window) → length w.e2 ≤ w.e2sent → on_ok w ≡ (w, none)
unfolding on_ok
on_ok_last w h =
    let t : (not (w.e2sent == 0) && ltb w.e2sent (length w.e2)) ≡ false = ground (arith, h) in
    rw t refl

module _ (crc : Crc32) (nor : Nor) (rom : Rom) (erase_chip : nor.State → nor.State)
    (info : ChipInfo) (rest : List ℕ) (s : nor.State) where
  -- The packet of a block, as the boot loader has received it.
  abbrev pub packet : ℕ → List ℕ → List ℕ
  packet a bs = behind (Sent.body (Sent.program_bin a bs)) rest

  program_reached :
      (rx : List ℕ) (r : rom.State)
      → cmd rx ≡ 0xA2
      → Command.isp_handle crc nor rom erase_chip info rx s r
        ≡ Command.program crc nor rom erase_chip info rx s r
  unfolding Command.isp_handle
  program_reached rx r h = rw h refl

  written :
      (rx bs : List ℕ) (r : rom.State) (a : ℕ)
      → bytes_at 8 (size rx) rx ≡ some bs
      → (iap_addr_app_start + addr rx) % 65536 ≡ a
      → Command.program crc nor rom erase_chip info rx s r
        ≡ checked crc nor rom erase_chip info 3 s (rom.write_bytes_check a bs r)
  written rx bs r a e f = rw (e, Command.program) (rw f refl)

  -- The boot loader writes the block behind the application's start, and says whether it could.
  program_answer :
      (a : ℕ) (bs : List ℕ) (r : rom.State)
      → iap_addr_app_start + a < 65536
      → length bs ≤ 128
      → Command.isp_handle crc nor rom erase_chip info (packet a bs) s r
        ≡ checked crc nor rom erase_chip info 3 s
            (rom.write_bytes_check (iap_addr_app_start + a) bs r)
  program_answer a bs r h k =
      let n : length bs % 256 ≡ length bs = omega arith in
      let fits : leb (8 + length bs) (length (packet a bs)) ≡ true =
        ground (arith, length-append bs rest) in
      program_reached (packet a bs) r refl
      ∙ written (packet a bs) bs r (iap_addr_app_start + a)
          (rw (n, fits) (ap {A = List ℕ} some (take-append bs rest))) (omega arith)

  -- What is going on: the window, its pending request, the on-chip flash, and the status of the last
  -- answer.
  pub record Session : Type 0 where
    pub window_of : Window
    pub pending : Option RomRequest
    pub chip : rom.State
    pub status : ℕ

  abbrev answered : Command.Outcome crc nor rom erase_chip info → Session → Session
  answered (Command.reply status dat s' r') x =
      if status == 0
      then (let (w, next) = on_ok x.window_of in
          record { window_of = w; pending = next; chip = r'; status = status })
      else record x { pending = none; chip = r'; status = status }
  answered _ x = record x { pending = none }

  -- The board handles the pending block, and the window takes the answer.
  abbrev taken : Option RomRequest → Session → Session
  taken (some (program_bin a bs)) x =
      answered (Command.isp_handle crc nor rom erase_chip info (packet a bs) s x.chip) x
  taken (some (read_rom a n)) x = record x { pending = none }
  taken none x = x

  unfoldable pub rounds : ℕ → Session → Session
  rounds zero x = x
  rounds (suc n) x = rounds n (taken x.pending x)

  rounds_quiet : (n : ℕ) (x : Session) → x.pending ≡ none → rounds n x ≡ x
  unfolding rounds
  rounds_quiet zero x h = refl
  rounds_quiet (suc n) x h = ap (λ q. rounds n (taken q x)) h ∙ rounds_quiet n x h

  -- The block from `a` on is pending, the bytes in front of it are in the flash, and the window has
  -- counted it.
  pub record Programs (e2 : List ℕ) (a : ℕ) (x : Session) : Type 0 where
    pub data_of : (x.window_of).e2 ≡ e2
    pub counted : (x.window_of).e2sent ≡ a + length (chunk e2 a)
    pub more : a < length e2
    pub fits : length e2 ≤ app_max_size
    pub so_far : window (rom.byte_at x.chip) iap_addr_app_start a ≡ take a e2
    pub next : x.pending ≡ some (program_bin a (chunk e2 a))

  -- Nothing is pending any more: all of the data is in the flash, or a write has failed.
  abbrev pub Ended : List ℕ → Session → Type 0
  Ended e2 y =
      (y.pending ≡ none)
      × (((y.status ≡ 0) × (window (rom.byte_at y.chip) iap_addr_app_start (length e2) ≡ e2))
          ⊎ (y.status ≡ 3))

  module _ (e2 : List ℕ) (a : ℕ) (x : Session) (p : Programs e2 a x) where
    abbrev done : Bool × rom.State
    done = rom.write_bytes_check (iap_addr_app_start + a) (chunk e2 a) x.chip

    handled : taken x.pending x ≡ answered (checked crc nor rom erase_chip info 3 s done) x
    handled =
        let (_, few, l) = chunk_lem e2 a p.more in
        ap (λ q. taken q x) p.next
        ∙ ap (λ o. answered o x)
            (program_answer a (chunk e2 a) x.chip (omega (arith, p.more, p.fits)) few)

    refused_ends : done.0 ≡ false → Ended e2 (taken x.pending x)
    refused_ends f = subst (Ended e2) (sym handled) (rw f (refl, inr refl))

    -- A block that was written makes the part that is in the flash longer.
    written_more :
        done.0 ≡ true
        → window (rom.byte_at done.1) iap_addr_app_start (a + length (chunk e2 a))
          ≡ take (a + length (chunk e2 a)) e2
    written_more t =
        let bs = chunk e2 a in
        let n = length bs in
        let at = iap_addr_app_start in
        let (_, few, l) = chunk_lem e2 a p.more in
        let room : at + a + n ≤ rom_size = omega (arith, l, p.fits) in
        let before : window (rom.byte_at done.1) at a ≡ take a e2 =
          window_ext _ _ at a (λ i h k. rom.write_outside (at + a) bs x.chip i room (inl k))
          ∙ p.so_far in
        sym (window-add (rom.byte_at done.1) at a n)
        ∙ ap (◌++ window (rom.byte_at done.1) (at + a) n) before
        ∙ ap (take a e2 ++◌) (
            rom.write_inside (at + a) bs x.chip room t
            ∙ sym (take-length-take pkt_dat_max_len (drop a e2)))
        ∙ take-add a n e2

    -- The window behind the block that was written.
    goes_on :
        done.0 ≡ true
        → taken x.pending x ≡ record x {
          window_of = (on_ok x.window_of).0;
          pending = (on_ok x.window_of).1;
          chip = done.1;
          status = 0;
        }
    goes_on t = handled ∙ rw t refl

    next_block : Session
    next_block =
        let w = x.window_of in
        record {
          window_of = record w { e2sent = w.e2sent + length (chunk w.e2 w.e2sent) };
          pending = some (program_bin (w.e2sent % 65536) (chunk w.e2 w.e2sent));
          chip = done.1;
          status = 0;
        }

    next_block-Programs :
        done.0 ≡ true
        → a + length (chunk e2 a) < length e2
        → Programs e2 (a + length (chunk e2 a)) next_block
    unfolding next_block
    next_block-Programs t h =
        let w = x.window_of in
        let b = a + length (chunk e2 a) in
        let same : ◌≡◌ {A = List ℕ × ℕ} (w.e2, w.e2sent) (e2, b) =
          λ i. (p.data_of i, p.counted i) in
        let wrap : b % 65536 ≡ b = omega (arith, h, p.fits) in
        record {
          data_of = p.data_of;
          counted = ap (λ (q : List ℕ × ℕ). q.1 + length (chunk q.0 q.1)) same;
          more = h;
          fits = p.fits;
          so_far = written_more t;
          next =
              ap (λ (q : List ℕ × ℕ). some (program_bin (q.1 % 65536) (chunk q.0 q.1))) same
              ∙ ap (λ k. some (program_bin k (chunk e2 b))) wrap;
        }

    goes_to_next :
        done.0 ≡ true → a + length (chunk e2 a) < length e2 → taken x.pending x ≡ next_block
    unfolding next_block
    goes_to_next t h =
        let w = x.window_of in
        goes_on t
        ∙ ap
            (λ (q : Window × Option RomRequest).
              let y : Session = record {
                window_of = q.0;
                pending = q.1;
                chip = done.1;
                status = 0;
              } in
              y)
            (on_ok_more w (omega (arith, p.counted, (chunk_lem e2 a p.more).0))
              (omega (arith, p.counted, h, ap length p.data_of)))

    last_ends : done.0 ≡ true → length e2 ≤ a + length (chunk e2 a) → Ended e2 (taken x.pending x)
    last_ends t h =
        let w = x.window_of in
        let (_, _, l) = chunk_lem e2 a p.more in
        let all : a + length (chunk e2 a) ≡ length e2 = omega (arith, h, l) in
        let e = on_ok_last w (omega (arith, p.counted, h, ap length p.data_of)) in
        subst (Ended e2) (sym (goes_on t)) (
          ap (λ (q : Window × Option RomRequest). q.1) e,
          inl (
            refl,
            subst (λ k. window (rom.byte_at done.1) iap_addr_app_start k ≡ take k e2) all
                  (written_more t)
                ∙ take-all e2,
          ),
        )

  quiet_rounds : (n : ℕ) (e2 : List ℕ) (y : Session) → Ended e2 y → Ended e2 (rounds n y)
  quiet_rounds n e2 y d = subst (Ended e2) (sym (rounds_quiet n y d.0)) d

  rounds-Ended :
      (j : ℕ) (e2 : List ℕ) (a : ℕ) (x : Session)
      → Programs e2 a x
      → (length e2 - a + 127) / 128 ≡ j
      → Ended e2 (rounds j x)
  unfolding rounds
  rounds-Ended zero e2 a x p e = absurd (omega (arith, e, p.more))
  rounds-Ended (suc j) e2 a x p e =
      let size = length-chunk e2 a in
      elim (Bool-cases (done e2 a x p).0) [
        | inr f ↦ quiet_rounds j e2 (taken x.pending x) (refused_ends e2 a x p f)
        | inl t ↦ elim (Bool-cases (ltb (a + length (chunk e2 a)) (length e2))) [
          | inl l ↦
              let h : a + length (chunk e2 a) < length e2 = ltb→lt _ _ l in
              let left : (length e2 - (a + length (chunk e2 a)) + 127) / 128 ≡ j =
                ap (λ k. (length e2 - (a + k) + 127) / 128) size
                ∙ chunks_more (length e2) a j e (subst (λ k. a + k < length e2) size h) in
              subst (λ y. Ended e2 (rounds j y)) (sym (goes_to_next e2 a x p t h))
                (rounds-Ended j e2 (a + length (chunk e2 a)) (next_block e2 a x p)
                  (next_block-Programs e2 a x p t h) left)
          | inr l ↦ quiet_rounds j e2 (taken x.pending x) (last_ends e2 a x p t (ltb→le _ _ l))
        ]
      ]

  -- The data of the window, at least one byte and at most the size of the application area, is
  -- programmed block by block: after one round of a request and its answer for each block of at most
  -- 128 bytes nothing is pending, and either the application area holds the data byte by byte, or
  -- the boot loader has answered the last request with LDR_STATUS_PROGRAM_FAILED.
  pub slot_program-Ended :
      (w : Window) (r : rom.State)
      → 0 < length w.e2
      → length w.e2 ≤ app_max_size
      → let start = slot_program w in
        Ended w.e2 (
          rounds
            ((length w.e2 + 127) / 128)
            (record { window_of = start.0; pending = some start.1; chip = r; status = 0 }))
  unfolding slot_program
  slot_program-Ended w r h f =
      rounds-Ended ((length w.e2 + 127) / 128) w.e2 0 _
        (record { data_of = refl; counted = refl; more = h; fits = f; so_far = refl; next = refl })
        (omega arith)
