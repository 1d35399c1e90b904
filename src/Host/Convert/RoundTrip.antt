-- ===== src/Host/Convert/RoundTrip.antt =====
-- An application through programmer/hex2metabin/main.cpp and slotMerge of
-- programmer/programmer/programmer.cpp.
use stc_isp_demo.Prelude.{
  ℕ, ◌+◌, ◌-◌, ◌%◌, ◌≤◌, ◌<◌, ◌≡◌, ◌≢◌, ◌∙◌, refl, sym, ap, subst, arith, Bool, true, false, not,
  ◌||◌, List, [], ◌∷◌, ◌++◌, Option, none, some, some-injective, length, length-append, take,
  take-all, drop, ◌==◌, ==_refl, ltb, if◌then◌else◌,
}
use stc_isp_demo.Device.Crc.{Crc32, crc_of}
use stc_isp_demo.OtaInfo.{AppInfo, bytes_of_app, app_at}
use stc_isp_demo.OtaInfo.Codec.{word, u32_bound}
use stc_isp_demo.OtaClient.{u32}
use stc_isp_demo.Host.Image.{
  Snippet, e2_max_size, filled, image_size, place, ldr_meta, last_end, no_ldr, no_app_code,
  moved_up, put_meta, slot_merge,
}
use stc_isp_demo.Host.Image.Place.{AllBelow, copy-inside}
use stc_isp_demo.Host.Convert.{
  Options, Files, valid_snippets, append_snippets, merge_snippets, meta_of, hex2metabin,
}
use stc_isp_demo.Host.Convert.Merged.{length-append_snippets}
use stc_isp_demo.Host.Convert.Accepted.{Mergeable, image_size_found, placed}

-- A test that did not end the program.
passed :
    (t : Bool) (x : Option Files) {f : Files}
    → (if t then none else x) ≡ some f
    → (t ≡ false) × (x ≡ some f)
passed true x h = cc
passed false x h = (refl, h)

pub drop-append : (pre suf : List ℕ) → drop (length pre) (pre ++ suf) ≡ suf
drop-append [] suf = refl
drop-append (x ∷ pre) suf = drop-append pre suf

-- The first snippet is an instruction at 0.
pub first_snippet :
    (a : ℕ) (s : Snippet) (ts : List Snippet)
    → valid_snippets a (s ∷ ts) ≡ true
    → (s.addr ≡ 0) × (length s.dat ≡ 3)
first_snippet a s ts h = ground arith

last_below : (n : ℕ) (s : Snippet) (ss : List Snippet) → AllBelow n (s ∷ ss) → last_end (s ∷ ss) ≤ n
last_below n s [] h = h.0
last_below n s (t ∷ ss) h = last_below n t ss h.1

ldr_fits : (n : ℕ) (ss : List Snippet) → ss ≢ [] → AllBelow n ss → no_ldr n ss ≡ false
ldr_fits n [] h b = absurd (h refl)
ldr_fits n (s ∷ ss) h b = ground (arith, last_below n s ss b)

module _ (crc : Crc32) where
  pub hex2metabin_lem :
      (o : Options) (ss : List Snippet) (f : Files)
      → hex2metabin crc o ss ≡ some f
      → let a = u32 (o.ldr_size + o.meta_size) in
        let bin = merge_snippets a o.fill_value ss in
        (valid_snippets a ss ≡ true) × (f.bin ≡ bin) × (f.meta ≡ bytes_of_app (meta_of crc o bin))
  unfolding hex2metabin
  hex2metabin_lem o ss f h =
      let a = u32 (o.ldr_size + o.meta_size) in
      let p = passed (o.ldr_size == 0 || o.meta_size == 0 || ltb 255 o.fill_value) _ h in
      let q = passed (o.app_build_timestamp == 0 || o.app_version == 0) _ p.1 in
      let r = passed (not (valid_snippets a ss)) _ q.1 in
      let e = some-injective _ _ r.1 in
      (ground (arith, r.0), ap (λ (x : Files). x.bin) (sym e), ap (λ (x : Files). x.meta) (sym e))

  -- A record of the right size and sum is copied in front of the application.
  put_meta-right :
      (ldr_size : ℕ) (pre bin mdat : List ℕ)
      → length mdat ≡ 16
      → ldr_size + 16 ≤ length pre
      → length bin < 65536
      → (app_at mdat 0).size ≡ length bin
      → (app_at mdat 0).crc ≡ crc_of crc bin
      → (image : List ℕ) × (put_meta crc ldr_size (length pre) mdat (pre ++ bin)
          ≡ some (record { e2 = image; done = true }))
        × (drop (length pre) image ≡ bin)
  unfolding put_meta
  put_meta-right ldr_size pre bin mdat l r b s c =
      let (ys, e, n) = copy-inside mdat pre bin ldr_size (omega (arith, l, r)) in
      let size : (length (pre ++ bin) - length pre) % 65536 ≡ length bin =
        omega (arith, length-append pre bin, b) in
      let app : take (length bin) (drop (length pre) (pre ++ bin)) ≡ bin =
        ap (take (length bin)) (drop-append pre bin) ∙ take-all bin in
      let size_right : ((app_at mdat 0).size == length bin) ≡ true = rw s (==_refl (length bin)) in
      let sum_right : ((app_at mdat 0).crc == crc_of crc bin) ≡ true =
        rw c (==_refl (crc_of crc bin)) in
      (
        ys ++ bin,
        rw (size, size_right) (rw (app, sum_right) (rw e refl)),
        ap (λ k. drop k (ys ++ bin)) (sym n) ∙ drop-append ys bin,
      )

  -- A merge whose tests all pass goes on to the metadata.
  module _ (disasm : ℕ → List ℕ → Bool) (filler ldr_size meta_size size : ℕ) (ldr : List Snippet)
      (mdat : List ℕ) (user : List Snippet) (e2 image : List ℕ) where
    abbrev Passes : ℕ → Type 0
    Passes a =
        no_ldr a ldr ≡ false
        → length mdat ≡ 16
        → 16 ≤ meta_size
        → no_app_code a user ≡ false
        → image_size disasm 0 (ldr ++ moved_up a user) ≡ some size
        → size ≤ e2_max_size
        → place (ldr ++ moved_up a user) (filled size filler) ≡ some image
        → slot_merge crc disasm filler ldr_size meta_size ldr mdat user e2
          ≡ put_meta crc ldr_size a mdat image

    goes_on : Passes (ldr_meta ldr_size meta_size)
    unfolding slot_merge
    goes_on l n r u z k p =
        let fits : (not (length mdat == 16) || ltb meta_size (length mdat)) ≡ false =
          ground (arith, n, r) in
        let short : ltb e2_max_size size ≡ false = ground (arith, k) in
        rw l (rw (fits, u) (rw z (rw short (rw p refl))))

    slot_merge-put_meta : (a : ℕ) → ldr_meta ldr_size meta_size ≡ a → Passes a
    slot_merge-put_meta a by = subst Passes by goes_on

  slot_merge-hex2metabin_at :
      (disasm : ℕ → List ℕ → Bool) (o : Options) (ldr : List Snippet) (s : Snippet)
      (ts : List Snippet) (e2 : List ℕ) (f : Files)
      → hex2metabin crc o (s ∷ ts) ≡ some f
      → Mergeable disasm (o.ldr_size + o.meta_size) ldr (s ∷ ts) f.bin
      → 16 ≤ o.meta_size
      → crc_of crc f.bin < u32_bound
      → (image : List ℕ) × (slot_merge crc disasm o.fill_value o.ldr_size o.meta_size ldr f.meta
            (s ∷ ts)
            e2
          ≡ some (record { e2 = image; done = true }))
        × (drop (o.ldr_size + o.meta_size) image ≡ f.bin)
  unfolding merge_snippets
  slot_merge-hex2metabin_at disasm o ldr s ts e2 f h m r c =
      let a = o.ldr_size + o.meta_size in
      let fill = o.fill_value in
      let n = length f.bin in
      let k = hex2metabin_lem o (s ∷ ts) f h in
      let first = first_snippet (u32 a) s ts k.0 in
      let far : a < 65536 =
        omega
          (arith, ap length k.1, length-append_snippets (u32 a) fill s.dat ts, first.1, m.short) in
      let wide : u32 a ≡ a = omega (arith, far) in
      let by : ldr_meta o.ldr_size o.meta_size ≡ a = omega (arith, far) in
      let bin : f.bin ≡ append_snippets a fill s.dat ts =
        k.1 ∙ ap (λ i. append_snippets i fill s.dat ts) wide in
      let size = image_size_found disasm a fill ldr s ts first.0 first.1 f.bin bin m in
      let (pre, p, l) = placed disasm a fill ldr s ts first.0 first.1 f.bin bin m in
      let meta : f.meta ≡ bytes_of_app (meta_of crc o f.bin) =
        k.2 ∙ ap (λ b. bytes_of_app (meta_of crc o b)) (sym k.1) in
      let small : u32 n ≡ n = omega (arith, m.short) in
      let (image, q, d) =
        put_meta-right o.ldr_size pre f.bin f.meta (ap length meta) (omega (arith, l, r))
          (omega (arith, m.short, r))
          (ap (λ bs. AppInfo.size (app_at bs 0)) meta ∙ word (u32 n) (omega arith) ∙ small)
          (ap (λ bs. AppInfo.crc (app_at bs 0)) meta ∙ word (crc_of crc f.bin) c) in
      (
        image,
        slot_merge-put_meta disasm fill o.ldr_size o.meta_size (n + a) ldr f.meta (s ∷ ts) e2
              (pre ++ f.bin) a by (ldr_fits a ldr m.some_ldr m.ldr_below) (ap length meta) r
              m.has_code size (omega (arith, m.short)) p
            ∙ ap (λ i. put_meta crc o.ldr_size i f.meta (pre ++ f.bin)) (sym l)
            ∙ q,
        ap (λ i. drop i image) (sym l) ∙ d,
      )

  -- An application that the converter takes, with its snippets in order and of a size that fits the
  -- chip, and a boot loader in front of it, with the same sizes and the same byte for the gaps;
  -- the check sum of the binary is a 32-bit number. Then slotMerge takes the metadata file that
  -- the converter wrote, and the image holds the converter's binary from the application's start on.
  pub slot_merge-hex2metabin :
      (disasm : ℕ → List ℕ → Bool) (o : Options) (ldr user : List Snippet) (e2 : List ℕ) (f : Files)
      → hex2metabin crc o user ≡ some f
      → Mergeable disasm (o.ldr_size + o.meta_size) ldr user f.bin
      → 16 ≤ o.meta_size
      → crc_of crc f.bin < u32_bound
      → (image : List ℕ) × (slot_merge crc disasm o.fill_value o.ldr_size o.meta_size ldr f.meta
            user e2
          ≡ some (record { e2 = image; done = true }))
        × (drop (o.ldr_size + o.meta_size) image ≡ f.bin)
  slot_merge-hex2metabin disasm o ldr [] e2 f h m r c = cc (m.has_code)
  slot_merge-hex2metabin disasm o ldr (s ∷ ts) e2 f h m r c =
      slot_merge-hex2metabin_at disasm o ldr s ts e2 f h m r c
