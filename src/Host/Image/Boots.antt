-- ===== src/Host/Image/Boots.antt =====
-- A merged image on the chip: the boot loader of bootloader/src/main.c takes its metadata.
use stc_isp_demo.Prelude.{
  ℕ, ◌+◌, ◌-◌, ◌%◌, ◌≤◌, ◌<◌, ◌≡◌, ◌∙◌, refl, sym, ap, subst, arith, Bool, true, false, not, ◌||◌,
  List, [], ◌∷◌, ◌++◌, Option, some, >>=-eq-some, length, length-append, length-drop, length-take,
  take, take-all, take-append-drop, drop, drop-add, Option-cases, inl, inr, copy, ◌==◌, ltb,
  if◌then◌else◌,
}
use stc_isp_demo.Device.Crc.{Crc32, crc_of}
use stc_isp_demo.Device.Memory.{window}
use stc_isp_demo.Device.Nor.{Nor}
use stc_isp_demo.Device.Rom.{Rom}
use stc_isp_demo.Layout.{app_max_size, iap_addr_app_start, iap_addr_factory_meta, factory_meta_size}
use stc_isp_demo.OtaInfo.{AppInfo, app_at}
use stc_isp_demo.Boot.Factory.{sum_chip, read_meta, check_onchip_factory_metadata}
use stc_isp_demo.Boot.Factory.Copied.{sum_chip_lem}
use stc_isp_demo.Host.Image.{
  Snippet, Opened, e2_max_size, filled, image_size, place, refused, ldr_meta, no_ldr, no_app_code,
  moved_up, put_meta, slot_merge,
}
use stc_isp_demo.Host.Image.Place.{
  AllBelow, AllBelow-append, image_size_lem, length-place, length-filled, length-copy, copy_parts,
  window-append,
}

-- A test that did not refuse.
passed :
    (t : Bool) (e2 : List ℕ) (x : Option Opened) {o : Opened}
    → (if t then refused e2 else x) ≡ some o
    → o.done ≡ true
    → (t ≡ false) × (x ≡ some o)
passed true e2 x h d = cc
passed false e2 x h d = (refl, h)

-- The application's code begins with three bytes at the start of the application area.
code_size :
    (by n : ℕ) (user : List Snippet)
    → no_app_code by user ≡ false
    → AllBelow n (moved_up by user)
    → by + 3 ≤ n
code_size by n [] h k = cc
code_size by n (s ∷ []) h k = cc
code_size by n (s ∷ t ∷ ss) h k = ground (arith, k.0)

module _ (crc : Crc32) where
  -- What an image has been checked for when the metadata is put into it.
  pub record Checked (ldr_size by : ℕ) (mdat image : List ℕ) (o : Opened) : Type 0 where
    pub size : (app_at mdat 0).size ≡ (length image - by) % 65536
    pub sum : (app_at mdat 0).crc ≡ crc_of crc (take ((length image - by) % 65536) (drop by image))
    pub copied : copy ldr_size mdat image ≡ some o.e2

  put_meta_lem :
      (ldr_size by : ℕ) (mdat image : List ℕ) (o : Opened)
      → put_meta crc ldr_size by mdat image ≡ some o
      → o.done ≡ true
      → Checked ldr_size by mdat image o
  unfolding put_meta
  put_meta_lem ldr_size by mdat image o h d =
      let n = (length image - by) % 65536 in
      let p = passed (not ((app_at mdat 0).size == n)) image _ h d in
      let q =
        passed (not ((app_at mdat 0).crc == crc_of crc (take n (drop by image)))) image _ p.1 d in
      let (e2, c, e) =
        >>=-eq-some (copy ldr_size mdat image) (λ x. some (record { e2 = x; done = true })) q.1 in
      record { size = ground (arith, p.0); sum = ground (arith, q.0); copied = cc }

  pub record Merged (ldr_size meta_size : ℕ) (mdat : List ℕ) (o : Opened) (image : List ℕ)
      : Type 0 where
    pub long : ldr_meta ldr_size meta_size + 3 ≤ length image
    pub short : length image ≤ e2_max_size
    pub record_size : length mdat ≡ 16
    pub checked : Checked ldr_size (ldr_meta ldr_size meta_size) mdat image o

  pub slot_merge_lem :
      (disasm : ℕ → List ℕ → Bool) (filler ldr_size meta_size : ℕ) (ldr : List Snippet)
      (mdat : List ℕ) (user : List Snippet) (e2 : List ℕ) (o : Opened)
      → slot_merge crc disasm filler ldr_size meta_size ldr mdat user e2 ≡ some o
      → o.done ≡ true
      → (image : List ℕ) × Merged ldr_size meta_size mdat o image
  unfolding slot_merge
  slot_merge_lem disasm filler ldr_size meta_size ldr mdat user e2 o h d =
      let by = ldr_meta ldr_size meta_size in
      let all = ldr ++ moved_up by user in
      let p = passed (no_ldr by ldr) e2 _ h d in
      let q = passed (not (length mdat == 16) || ltb meta_size (length mdat)) e2 _ p.1 d in
      let r = passed (no_app_code by user) e2 _ q.1 d in
      elim (Option-cases (image_size disasm 0 all)) [
        | inl e ↦ cc (rw e at r.1)
        | inr (size, e) ↦
            let t = passed (ltb e2_max_size size) e2 _ (rw e at r.1) d in
            let (image, f, g) =
              >>=-eq-some (place all (filled size filler)) (put_meta crc ldr_size by mdat) t.1 in
            let n : length image ≡ size = length-place all _ image f ∙ length-filled size filler in
            let below =
              AllBelow-append size ldr (moved_up by user) (image_size_lem disasm 0 all size e).1 in
            (
              image,
              record {
                long = omega (arith, n, code_size by size user r.0 below.1);
                short = ground (arith, n, t.0);
                record_size = ground (arith, q.0);
                checked = put_meta_lem ldr_size by mdat image o g d;
              },
            )
      ]

-- A flash that holds an image from 0 on, into which `bs` was copied at `o`, holds `bs` at `o` and
-- the bytes of the image behind it.
pub copied_parts :
    (m : ℕ → ℕ) (o k : ℕ) (bs image e2 : List ℕ)
    → copy o bs image ≡ some e2
    → o + length bs ≤ k
    → k ≤ length image
    → window m 0 (length e2) ≡ e2
    → (window m o (length bs) ≡ bs) × (window m k (length image - k) ≡ drop k image)
copied_parts m o k bs image e2 c l h w =
    let rest = drop (o + length bs) image in
    let j = k - (o + length bs) in
    let e = copy_parts bs image e2 o c (omega arith) in
    let front : length (take o image) ≡ o = length-take o image (omega arith) in
    let long : length rest ≡ length image - (o + length bs) = length-drop (o + length bs) image in
    let skipped : length (take j rest) ≡ j = length-take j rest (omega (arith, long)) in
    let tail : drop k image ≡ drop j rest =
      let f : k ≡ o + length bs + j = omega arith in
      ap (λ i. drop i image) f ∙ drop-add (o + length bs) j image in
    let q =
      window-append m 0 (length e2) (take o image) (bs ++ rest)
        (ap length e ∙ length-append (take o image) (bs ++ rest)) (w ∙ e) in
    let p =
      window-append m (0 + length (take o image)) (length (bs ++ rest)) bs rest
        (length-append bs rest) q.1 in
    let t =
      window-append m (0 + length (take o image) + length bs) (length rest) (take j rest)
        (drop j rest)
        (ap length (sym (take-append-drop j rest)) ∙ length-append (take j rest) (drop j rest))
        (p.1 ∙ sym (take-append-drop j rest)) in
    let at_o : 0 + length (take o image) ≡ o = omega (arith, front) in
    let at_k : 0 + length (take o image) + length bs + length (take j rest) ≡ k =
      omega (arith, front, skipped) in
    let n : length (drop j rest) ≡ length image - k = omega (arith, length-drop j rest, long) in
    (
      subst (λ i. window m i (length bs) ≡ bs) at_o p.0,
      ap (λ i. window m i (length image - k)) (sym at_k)
          ∙ ap (window m (0 + length (take o image) + length bs + length (take j rest))) (sym n)
          ∙ t.1
          ∙ sym tail,
    )

module _ (crc : Crc32) (nor : Nor) (rom : Rom) where
  -- The metadata is valid when its size is in range and its sum is that of the application area.
  pub check_passes :
      (r : rom.State) (n : ℕ)
      → (read_meta crc nor rom r).size ≡ n
      → 0 < n
      → n ≤ app_max_size
      → crc_of crc (window (rom.byte_at r) iap_addr_app_start n) ≡ (read_meta crc nor rom r).crc
      → check_onchip_factory_metadata crc nor rom r ≡ true
  unfolding check_onchip_factory_metadata
  check_passes r n e p q s =
      let meta = read_meta crc nor rom r in
      let sum : crc.finalize (sum_chip crc nor rom meta.size iap_addr_app_start crc.init r)
          ≡ meta.crc =
        ap crc.finalize (
          sum_chip_lem crc nor rom meta.size iap_addr_app_start crc.init r (omega (arith, e))
          ∙ ap (λ k. crc.update crc.init (window (rom.byte_at r) iap_addr_app_start k)) e)
        ∙ s in
      ground (arith, sum, e, p, q)

  -- An image that `slotMerge` has merged, for a boot loader of the size that the firmware has, is in
  -- the on-chip flash from address 0 on. Then the boot loader reads the record of the metadata
  -- file, whose size is that of the image behind the application's start, and takes it for valid.
  pub slot_merge_boots :
      (disasm : ℕ → List ℕ → Bool) (filler : ℕ) (ldr : List Snippet) (mdat : List ℕ)
      (user : List Snippet) (e2 : List ℕ) (o : Opened) (r : rom.State)
      → slot_merge crc disasm filler iap_addr_factory_meta factory_meta_size ldr mdat user e2
        ≡ some o
      → o.done ≡ true
      → window (rom.byte_at r) 0 (length o.e2) ≡ o.e2
      → (read_meta crc nor rom r ≡ app_at mdat 0)
        × ((app_at mdat 0).size ≡ length o.e2 - iap_addr_app_start)
        × (check_onchip_factory_metadata crc nor rom r ≡ true)
  slot_merge_boots disasm filler ldr mdat user e2 o r h d w =
      let (image, g) =
        slot_merge_lem crc disasm filler iap_addr_factory_meta factory_meta_size ldr mdat user e2 o
          h d in
      let by = iap_addr_app_start in
      let n = length image - by in
      let same : length o.e2 ≡ length image =
        length-copy mdat image o.e2 iap_addr_factory_meta g.checked.copied in
      let parts =
        copied_parts (rom.byte_at r) iap_addr_factory_meta by mdat image o.e2 g.checked.copied
          (omega (arith, g.record_size)) (omega (arith, g.long)) w in
      let meta : read_meta crc nor rom r ≡ app_at mdat 0 =
        ap (λ bs. app_at bs 0)
          (rom.read_lem iap_addr_factory_meta 16 r (omega arith)
            ∙ subst (λ k. window (rom.byte_at r) iap_addr_factory_meta k ≡ mdat) g.record_size
                parts.0) in
      let whole : n % 65536 ≡ n = omega (arith, g.short) in
      let all : take n (drop by image) ≡ drop by image =
        ap (λ k. take k (drop by image)) (sym (length-drop by image)) ∙ take-all (drop by image) in
      let size : (app_at mdat 0).size ≡ n = g.checked.size ∙ whole in
      (
        meta,
        size ∙ ap (λ k. k - by) (sym same),
        check_passes r n (ap (λ (a : AppInfo). a.size) meta ∙ size) (omega (arith, g.long))
            (omega (arith, g.short))
            (ap (crc_of crc) (parts.1 ∙ sym all)
              ∙ ap (λ k. crc_of crc (take k (drop by image))) (sym whole)
              ∙ sym g.checked.sum
              ∙ ap (λ (a : AppInfo). a.crc) (sym meta)),
      )
