-- ===== src/Host/Flash/Fetch/Shown.antt =====
-- What the window of programmer/programmer/flash.cpp shows of an update record and of an application
-- that it has read from a board.
use stc_isp_demo.Prelude.{
  ℕ, zero, suc, ◌+◌, ◌/◌, ◌≤◌, ◌<◌, ◌≡◌, ◌≢◌, ◌⊎◌, inl, inr, ◌∙◌, refl, sym, ap, subst, arith, Bool,
  true, ◌||◌, List, [], ◌∷◌, ◌++◌, none, some, length, take, drop, take-append_le, take-append-drop,
  length-take, leb, ◌==◌, ==_ne, if◌then◌else◌,
}
use stc_isp_demo.Command.{ChipInfo}
use stc_isp_demo.Device.Crc.{Crc32, crc_of}
use stc_isp_demo.Device.Memory.{window, length-window}
use stc_isp_demo.Device.Nor.{Nor, nor_size}
use stc_isp_demo.Device.Rom.{Rom}
use stc_isp_demo.Layout.{norflash_factory_app_addr, norflash_app1_addr, norflash_app2_addr}
use stc_isp_demo.OtaInfo.{
  OtaInfo, OtaId, master, backup, addr_of, ota_info_size, info_of_bytes, read_info, write_info,
}
use stc_isp_demo.OtaInfo.Codec.{IsOtaInfo, addr_of_low, read_info-write_info}
use stc_isp_demo.Host.Flash.{mid}
use stc_isp_demo.Host.Flash.Fetch.{
  Reader, ReadCall, shown, crc_check, more, ended, slot_read, report, info_in, shown_info, app_for,
  reading, checked_app, slot_read_ota_info, slot_read_app,
}
use stc_isp_demo.Host.Flash.Fetch.Whole.{
  take_front, drop_front, Session, rounds, fetched, length-fetched, done, slot_read-finished,
}

-- The addresses of the three applications.
abbrev pub IsAppAddr : ℕ → Type 0
IsAppAddr a =
    (a ≡ norflash_factory_app_addr) ⊎ ((a ≡ norflash_app1_addr) ⊎ (a ≡ norflash_app2_addr))

is_app :
    (a : ℕ)
    → IsAppAddr a
    → (a == norflash_factory_app_addr) || ((a == norflash_app1_addr) || (a == norflash_app2_addr))
      ≡ true
is_app a (inl e) = rw e refl
is_app a (inr (inl e)) = rw e refl
is_app a (inr (inr e)) = rw e refl

take-drop : (a n : ℕ) (xs : List ℕ) → take n (drop a xs) ≡ drop a (take (a + n) xs)
take-drop zero n xs = ap (λ k. take k xs) {x = n} {y = 0 + n} (omega arith)
take-drop (suc a) n [] =
    none_left n ∙ ap (λ k. drop (suc a) (take k [])) {x = suc (a + n)} {y = suc a + n} (omega arith)
  where
    none_left : (n : ℕ) → take {A = ℕ} n [] ≡ []
    none_left zero = refl
    none_left (suc n) = refl
take-drop (suc a) n (x ∷ xs) =
    take-drop a n xs
    ∙ ap (λ k. drop (suc a) (take k (x ∷ xs))) {x = suc (a + n)} {y = suc a + n} (omega arith)

-- Bytes in front of `o` do not depend on what lies behind.
mid_front :
    (a n o : ℕ) (xs ys : List ℕ)
    → a + n ≤ o
    → o ≤ length xs
    → mid (take o xs ++ ys) a n ≡ mid xs a n
mid_front a n o xs ys h k =
    let len = length-take o xs k in
    take-drop a n (take o xs ++ ys)
    ∙ ap (drop a) (
        take-append_le (a + n) (take o xs) ys (omega (arith, len, h))
        ∙ sym (take-append_le (a + n) (take o xs) (drop o xs) (omega (arith, len, h)))
        ∙ ap (take (a + n)) (take-append-drop o xs))
    ∙ sym (take-drop a n xs)

-- The bytes right behind.
mid_between :
    (a n : ℕ) (xs ys zs : List ℕ) → a ≡ length xs → n ≡ length ys → mid (xs ++ (ys ++ zs)) a n ≡ ys
mid_between a n xs ys zs e f =
    ap (λ k. take n (drop k (xs ++ (ys ++ zs)))) {y = length xs + 0} (omega (arith, e))
    ∙ ap (take n) (drop_front 0 xs (ys ++ zs))
    ∙ take_front n ys zs f

-- The update records lie in front of the applications.
records_in_front : (id : OtaId) (a : ℕ) → IsAppAddr a → addr_of id + ota_info_size ≤ a
records_in_front master a (inl e) = omega (arith, e)
records_in_front master a (inr (inl e)) = omega (arith, e)
records_in_front master a (inr (inr e)) = omega (arith, e)
records_in_front backup a (inl e) = omega (arith, e)
records_in_front backup a (inr (inl e)) = omega (arith, e)
records_in_front backup a (inr (inr e)) = omega (arith, e)

info_in_same :
    (xs ys : List ℕ) (a : ℕ)
    → length xs ≡ length ys
    → mid xs a ota_info_size ≡ mid ys a ota_info_size
    → info_in xs a ≡ info_in ys a
info_in_same xs ys a e f =
    λ k. if leb (a + ota_info_size) (e k) then some (info_of_bytes (f k)) else none

module _ (crc : Crc32) (nor : Nor) (rom : Rom) (erase_chip : nor.State → nor.State)
    (info : ChipInfo) (rest : List ℕ) (s : nor.State) (r : rom.State) where
  -- The bytes of the range are those of the chip.
  range_read :
      (rd : Reader) (k : ℕ)
      → rd.offset + k ≤ length rd.e2
      → mid (fetched crc nor rom erase_chip info rest s r rd.e2 rd k) rd.offset k
        ≡ window (nor.byte_at s) rd.offset k
  range_read rd k h =
      mid_between rd.offset k (take rd.offset rd.e2) (window (nor.byte_at s) rd.offset k)
        (drop (rd.offset + k) rd.e2) (sym (length-take rd.offset rd.e2 (omega (arith, h))))
        (sym (length-window (nor.byte_at s) rd.offset k))

  info_in_lem :
      (e2 : List ℕ) (a : ℕ) (bs : List ℕ)
      → a + ota_info_size ≤ length e2
      → mid e2 a ota_info_size ≡ bs
      → info_in e2 a ≡ some (info_of_bytes bs)
  info_in_lem e2 a bs h e =
      let room : leb (a + ota_info_size) (length e2) ≡ true = ground (arith, h) in
      rw room (ap (λ x. some (info_of_bytes x)) e)

  info_read :
      (rd : Reader) (id : OtaId)
      → rd.offset ≡ addr_of id
      → addr_of id + ota_info_size ≤ length rd.e2
      → info_in (fetched crc nor rom erase_chip info rest s r rd.e2 rd ota_info_size) (addr_of id)
        ≡ some (read_info nor id s)
  unfolding read_info
  info_read rd id e h =
      let m = nor.byte_at s in
      let all = fetched crc nor rom erase_chip info rest s r rd.e2 rd ota_info_size in
      let fits : rd.offset + ota_info_size ≤ length rd.e2 = omega (arith, e, h) in
      let len = length-fetched crc nor rom erase_chip info rest s r rd.e2 rd ota_info_size fits in
      info_in_lem all (addr_of id) (nor.read (addr_of id) ota_info_size s) (omega (arith, len, h)) (
        subst (λ a. mid all a ota_info_size ≡ window m a ota_info_size) e
          (range_read rd ota_info_size fits)
        ∙ sym (nor.read_lem (addr_of id) ota_info_size s (addr_of_low id 68 (omega arith))))

  report-info :
      (rd : Reader) (id : OtaId) (i : OtaInfo)
      → rd.range ≡ ota_info_size
      → rd.offset ≡ addr_of id
      → info_in rd.e2 (addr_of id) ≡ some i
      → report crc rd ≡ shown id i
  unfolding report
  report-info rd master i e f h = rw (e, f) (ap (shown_info master) h)
  report-info rd backup i e f h = rw (e, f) (ap (shown_info backup) h)

  report-app :
      (rd : Reader) (i : OtaInfo)
      → rd.range ≢ ota_info_size
      → IsAppAddr rd.offset
      → info_in rd.e2 (addr_of (reading rd.reading_master)) ≡ some i
      → rd.offset + (app_for rd.offset i).size ≤ length rd.e2
      → report crc rd
        ≡ crc_check (
            crc_of crc (mid rd.e2 rd.offset (app_for rd.offset i).size)
            == (app_for rd.offset i).crc)
  unfolding report
  report-app rd i e f h k =
      let room : leb (rd.offset + (app_for rd.offset i).size) (length rd.e2) ≡ true =
        ground (arith, k) in
      rw (==_ne rd.range ota_info_size e, is_app rd.offset f)
        (ap (checked_app crc rd) h ∙ rw room refl)

  abbrev session : Reader × ReadCall → Session crc nor rom erase_chip info rest s r
  session q = record { reader = q.0; after = some (more q.1) }

  record_read :
      (rd : Reader) (id : OtaId)
      → addr_of id + ota_info_size ≤ length rd.e2
      → (rounds crc nor rom erase_chip info rest s r 1 (session (slot_read_ota_info id rd))).after
        ≡ some (ended (shown id (read_info nor id s)))
  unfolding slot_read_ota_info slot_read
  record_read rd id h =
      let asked : Reader = record rd { offset = addr_of id; range = ota_info_size } in
      let start : Reader = record asked { e2recv = ota_info_size; e2recvd = 0 } in
      let all =
        slot_read-finished crc nor rom erase_chip info rest s r asked (omega arith) h
          (addr_of_low id 68 (omega arith)) in
      let end = done crc nor rom erase_chip info rest s r rd.e2 start in
      ap (λ x. x.after) all
      ∙ ap (λ x. some (ended x))
          (report-info end id (read_info nor id s) refl refl (info_read start id refl h))

  -- An application whose record lies in the bytes of the window is read and checked: the button's
  -- call, and a round for each chunk of its size, end with the report whether the check sum of the
  -- chip's bytes is that of the record. The application is not empty, has not the size of an update
  -- record, and lies in the data and in the flash.
  pub slot_read_app-checked :
      (rd : Reader) (by_master : Bool) (a : ℕ) (i : OtaInfo)
      → info_in rd.e2 (addr_of (reading by_master)) ≡ some i
      → IsAppAddr a
      → 0 < (app_for a i).size
      → (app_for a i).size ≢ ota_info_size
      → a + (app_for a i).size ≤ length rd.e2
      → a + (app_for a i).size ≤ nor_size
      → (start : Reader × ReadCall) × (slot_read_app by_master a rd ≡ some start)
        × ((rounds crc nor rom erase_chip info rest s r
              (((app_for a i).size + 127) / 128)
              (record { reader = start.0; after = some (more start.1) })).after
            ≡ some (
                ended (
                  crc_check (
                    crc_of crc (window (nor.byte_at s) a (app_for a i).size)
                    == (app_for a i).crc))))
  unfolding slot_read_app slot_read
  slot_read_app-checked rd by_master a i e is p ne h f =
      let n = (app_for a i).size in
      let asked : Reader = record rd { offset = a; range = n; reading_master = by_master } in
      let start : Reader = record asked { e2recv = n; e2recvd = 0 } in
      let call = (slot_read asked).1 in
      let all = slot_read-finished crc nor rom erase_chip info rest s r asked p h f in
      let end = done crc nor rom erase_chip info rest s r rd.e2 start in
      let len = length-fetched crc nor rom erase_chip info rest s r rd.e2 start n h in
      let id = reading by_master in
      let kept : info_in end.e2 (addr_of id) ≡ info_in rd.e2 (addr_of id) =
        info_in_same end.e2 rd.e2 (addr_of id) len (
          mid_front (addr_of id) ota_info_size a rd.e2 _ (records_in_front id a is)
            (omega (arith, h))) in
      (
        (start, call),
        rw e refl,
        ap (λ x. x.after) all
            ∙ ap (λ x. some (ended x))
                (report-app end i ne is (kept ∙ e) (omega (arith, len, h))
                  ∙ ap (λ bs. crc_check (crc_of crc bs == (app_for a i).crc))
                      (range_read start n h)),
      )

module _ (crc : Crc32) (nor : Nor) (rom : Rom) (erase_chip : nor.State → nor.State)
    (info : ChipInfo) (rest : List ℕ) (r : rom.State) where
  -- An update record that was written to the flash is shown as it is: the button's call and one
  -- answer of the boot loader end with the report of that record and no other. The bytes of the window
  -- reach behind the record.
  pub slot_read_ota_info-write_info :
      (rd : Reader) (id : OtaId) (i : OtaInfo) (s : nor.State)
      → IsOtaInfo i
      → addr_of id + ota_info_size ≤ length rd.e2
      → let (start, call) = slot_read_ota_info id rd in
        (rounds crc nor rom erase_chip info rest
          (write_info nor id i s)
          r
          1
          (record { reader = start; after = some (more call) })).after
        ≡ some (ended (shown id i))
  slot_read_ota_info-write_info rd id i s v h =
      record_read crc nor rom erase_chip info rest (write_info nor id i s) r rd id h
      ∙ ap (λ x. some (ended (shown id x))) (read_info-write_info nor id i s v)
