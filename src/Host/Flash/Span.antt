-- ===== src/Host/Flash/Span.antt =====
-- The chunks of programmer/programmer/flash.cpp: where each one lies, and how the answer to it moves
-- the window on.
use stc_isp_demo.Prelude.{
  ℕ, suc, ◌+◌, ◌-◌, ◌/◌, ◌%◌, ◌≤◌, ◌<◌, ◌≡◌, ◌∙◌, refl, sym, ap, arith, Bool, true, false, List,
  ◌++◌, Option, none, some, length, take, drop, length-take, length-drop, take-all, ==_refl, ltb,
  same_bytes_refl, if◌then◌else◌,
}
use stc_isp_demo.Device.Memory.{AllBytes}
use stc_isp_demo.Device.Nor.{nor_size}
use stc_isp_demo.Device.WriteThrough.{take-AllBytes, drop-AllBytes}
use stc_isp_demo.App.Message.{from_le32}
use stc_isp_demo.OtaClient.{u32}
use stc_isp_demo.Uart.Send.{ldr_prefix}
use stc_isp_demo.Host.Serial.{le32}
use stc_isp_demo.Host.Flash.{
  Editor, Chunk, size_t_max, chunk_size, mid, slot_program, program_next_chunk, on_program_res,
}

pub chunks_more :
    (send at j : ℕ)
    → (send - at + 127) / 128 ≡ suc j
    → at + chunk_size (send - at) < send
    → (send - (at + chunk_size (send - at)) + 127) / 128 ≡ j
chunks_more send at j e h = ground arith

pub chunks_last :
    (send at j : ℕ) → (send - at + 127) / 128 ≡ suc j → at + chunk_size (send - at) ≡ send → j ≡ 0
chunks_last send at j e h = ground arith

if_pair {ℓ κ} :
    {A : Type ℓ} {B : Type κ} (t : Bool) (a : A) (b c : B)
    → ◌≡◌ {A = A × B} (if t then (a, b) else (a, c)) (a, if t then b else c)
if_pair true a b c = refl
if_pair false a b c = refl

-- The range lies in the data and in the flash.
pub record InRange (ed : Editor) : Type 0 where
  pub data_room : ed.offset + ed.e2send ≤ length ed.e2
  pub flash_room : ed.offset + ed.e2send ≤ nor_size
  pub bytes : AllBytes ed.e2

-- The chunk that is next, without wrap-around.
abbrev pub span : Editor → ℕ
span ed = chunk_size (ed.e2send - ed.e2sent)

pub span_lem :
    (ed : Editor)
    → ed.e2sent < ed.e2send
    → (0 < span ed) × (span ed ≤ 128) × (ed.e2sent + span ed ≤ ed.e2send)
span_lem ed h = ground arith

pub next_chunk :
    (ed : Editor)
    → InRange ed
    → ed.e2sent < ed.e2send
    → program_next_chunk ed
      ≡ record { addr = ed.offset + ed.e2sent; bin = mid ed.e2 (ed.offset + ed.e2sent) (span ed) }
unfolding program_next_chunk
next_chunk ed g h =
    let a : u32 (ed.offset + ed.e2sent) ≡ ed.offset + ed.e2sent = omega (arith, g.flash_room) in
    let n : u32 (size_t_max + 1 + ed.e2send - ed.e2sent) ≡ ed.e2send - ed.e2sent =
      omega (arith, g.flash_room) in
    rw (a, n) refl

pub length-mid :
    (ed : Editor)
    → InRange ed
    → ed.e2sent < ed.e2send
    → length (mid ed.e2 (ed.offset + ed.e2sent) (span ed)) ≡ span ed
length-mid ed g h =
    length-take (span ed) (drop (ed.offset + ed.e2sent) ed.e2)
      (omega (arith, length-drop (ed.offset + ed.e2sent) ed.e2, g.data_room, (span_lem ed h).2))

-- The answer to that chunk moves the editor on.
abbrev pub moved : Editor → Editor
moved ed = record ed { e2sent = ed.e2sent + span ed }

pub on_program_res_lem :
    (ed : Editor) (dat : List ℕ)
    → InRange ed
    → ed.e2sent < ed.e2send
    → dat ≡ mid ed.e2 (ed.offset + ed.e2sent) (span ed)
    → on_program_res ed (ldr_prefix 0x88 (le32 (ed.offset + ed.e2sent) ++ dat)) ≡ (
      moved ed,
      if ltb (ed.e2sent + span ed) ed.e2send then some (program_next_chunk (moved ed)) else none,
    )
unfolding on_program_res
on_program_res_lem ed dat g h e =
    let a = ed.offset + ed.e2sent in
    let n = span ed in
    let (_, few, l) = span_lem ed h in
    let len : length dat ≡ n = ap length e ∙ length-mid ed g h in
    let here = from_le32 a (omega (arith, g.flash_room)) in
    let sz : (256 + length (le32 a ++ dat) - 4) % 256 ≡ n = omega (arith, len, few) in
    let sum : (ed.e2sent + n) % (size_t_max + 1) ≡ ed.e2sent + n = omega (arith, g.flash_room, l) in
    let cut : take n dat ≡ mid ed.e2 a n = ap (λ m. take m dat) (sym len) ∙ take-all dat ∙ e in
    rw (here, ==_refl a)
      (rw (sz, sum)
        (rw (cut, same_bytes_refl (mid ed.e2 a n)) (if_pair (ltb (ed.e2sent + n) ed.e2send) _ _ _)))

pub chunk-AllBytes :
    (ed : Editor) → InRange ed → AllBytes (mid ed.e2 (ed.offset + ed.e2sent) (span ed))
chunk-AllBytes ed g =
    take-AllBytes (span ed) _ (drop-AllBytes (ed.offset + ed.e2sent) ed.e2 g.bytes)

abbrev pub started : Editor → Editor
started ed = record ed { e2send = ed.range; e2sent = 0 }

pub slot_program_lem :
    (ed : Editor)
    → 0 < ed.range
    → InRange (started ed)
    → slot_program ed ≡ (started ed, some (program_next_chunk (started ed)))
unfolding slot_program
slot_program_lem ed p g =
    let fits : ltb (length ed.e2) (ed.offset + ed.range) ≡ false = ground (arith, g.data_room) in
    let here : ed.offset ≡ ed.offset + 0 = omega arith in
    let whole : ed.range ≡ ed.range - 0 = omega arith in
    let chunk : Chunk → Editor × Option Chunk = λ k. (started ed, some k) in
    rw fits (
      ap (λ (k : ℕ × ℕ). chunk (record { addr = k.0; bin = mid ed.e2 k.0 (chunk_size k.1) }))
        (λ i. (here i, whole i))
      ∙ ap chunk (sym (next_chunk (started ed) g p)))
