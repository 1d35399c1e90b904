-- ===== src/Update/Completes.antt =====
-- A download of app/src/ota.c from the server of programmer/programmer/programmer.cpp comes to its
-- end.
use stc_isp_demo.Prelude.{
  ℕ, zero, suc, ◌+◌, ◌/◌, ◌<◌, ◌≡◌, ◌⊎◌, inl, inr, ◌∙◌, refl, sym, ap, subst, arith, true, false,
  length, take, take-all, lt→ltb, Bool-cases, ◌==◌, ==_refl, ltb,
}
use stc_isp_demo.Device.Crc.{Crc32}
use stc_isp_demo.Device.Memory.{window, window_ext}
use stc_isp_demo.Device.Nor.{Nor}
use stc_isp_demo.OtaInfo.{AppInfo}
use stc_isp_demo.OtaClient.{
  Client, AppData, target, store_block, applying, request_next_block, finish_download,
}
use stc_isp_demo.OtaClient.Download.{behind, finish_download-Applied}
use stc_isp_demo.Host.Server.{Server, OtaApp}
use stc_isp_demo.OtaInfo.Codec.{write_info_outside}
use stc_isp_demo.OtaClient.Apply.{slot_apart}
use stc_isp_demo.Update.{Serves, Online, exchange, exchanges}
use stc_isp_demo.Update.Stored.{left, Arrived, read_back_same, stored-behind}
use stc_isp_demo.Update.Next.{
  unfinished, Arrived-IsPiece, exchange-store_block, stored_block, stored_block-Advanced,
  Online-next,
}

module _ {nor : Nor} (crc : Crc32) (srv : Server) (app : OtaApp) where
  -- The last block ends the download: its sum is right.
  finished :
      (c : Client nor) (res : AppData)
      → Online crc app c
      → Serves crc srv app
      → Arrived crc app c res
      → c.ota_info.dlctx.received + res.size ≡ app.info.size
      → (finish_download crc (behind crc res c)).ota_state ≡ applying
  unfolding finish_download
  finished c res o s h l =
      let n = behind crc res c in
      let a = stored_block-Advanced crc srv app c res o s h in
      let whole : take (c.ota_info.dlctx.received + res.size) app.bin ≡ app.bin =
        ap (λ k. take k app.bin) (l ∙ s.size) ∙ take-all app.bin in
      let right : crc.finalize n.ota_info.dlctx.crc ≡ (target n).crc =
        ap crc.finalize
          (a.sum ∙ ap (crc.update crc.init) (stored-behind crc app c res o s.bytes h ∙ whole))
        ∙ sym s.sum
        ∙ ap {A = AppInfo} (λ k. k.crc) (sym (a.image ∙ o.image)) in
      let e : (crc.finalize n.ota_info.dlctx.crc == (target n).crc) ≡ true = rw right (==_refl _) in
      rw e refl

  -- The slot of a client holds the image.
  abbrev pub Holds : ℕ → Client nor → Type 0
  Holds a m = window (nor.byte_at m.flash) a (length app.bin) ≡ app.bin

  finished-Holds :
      (c : Client nor) (res : AppData)
      → Online crc app c
      → Serves crc srv app
      → Arrived crc app c res
      → c.ota_info.dlctx.received + res.size ≡ app.info.size
      → Holds c.flash_addr (finish_download crc (behind crc res c))
  finished-Holds c res o s h l =
      let n = behind crc res c in
      let m = finish_download crc n in
      let a = stored_block-Advanced crc srv app c res o s h in
      let p = finish_download-Applied crc n (finished c res o s h l) in
      let k = length app.bin in
      let count : n.ota_info.dlctx.received ≡ k = a.count ∙ l ∙ s.size in
      let kept : window (nor.byte_at m.flash) c.flash_addr k
          ≡ window (nor.byte_at n.flash) c.flash_addr k =
        rw p.written (
          window_ext _ _ c.flash_addr k (λ i u j.
            write_info_outside nor n.otaid m.ota_info n.flash i
              (slot_apart n.otaid c.flash_addr i o.downloads.in_slot u))) in
      kept
      ∙ ap (λ (x : ℕ × ℕ). window (nor.byte_at n.flash) x.0 x.1)
          (λ i. (sym a.position i, sym count i))
      ∙ stored-behind crc app c res o s.bytes h
      ∙ ap (λ j. take j app.bin) (l ∙ s.size)
      ∙ take-all app.bin

  -- The number of blocks that are left.
  abbrev pub blocks_left : Client nor → ℕ
  blocks_left c = (left crc app c + 127) / 128

  -- The update is applied, and the slot holds the image.
  abbrev pub Done : ℕ → Client nor → Type 0
  Done a m = (m.ota_state ≡ applying) × Holds a m

  exchange-more :
      (c : Client nor) (res : AppData)
      → Online crc app c
      → Serves crc srv app
      → Arrived crc app c res
      → exchange crc srv c ≡ store_block crc res c
      → c.ota_info.dlctx.received + res.size < app.info.size
      → exchange crc srv c ≡ request_next_block (behind crc res c)
  exchange-more c res o s h e l =
      let n = behind crc res c in
      let a = stored_block-Advanced crc srv app c res o s h in
      let more : ltb n.ota_info.dlctx.received (target n).size ≡ true =
        rw (a.count, a.image ∙ o.image) (lt→ltb _ _ l) in
      e ∙ stored_block crc srv app c res (read_back_same crc app c res o s.bytes h) ∙ rw more refl

  exchange-last :
      (c : Client nor) (res : AppData)
      → Online crc app c
      → Serves crc srv app
      → Arrived crc app c res
      → exchange crc srv c ≡ store_block crc res c
      → c.ota_info.dlctx.received + res.size ≡ app.info.size
      → exchange crc srv c ≡ finish_download crc (behind crc res c)
  exchange-last c res o s h e l =
      let n = behind crc res c in
      let a = stored_block-Advanced crc srv app c res o s h in
      let last : ltb n.ota_info.dlctx.received (target n).size ≡ false =
        rw (a.count ∙ l, a.image ∙ o.image) (ground arith) in
      e ∙ stored_block crc srv app c res (read_back_same crc app c res o s.bytes h) ∙ rw last refl

  same_place :
      (n : Client nor)
      → ((request_next_block n).flash_addr ≡ n.flash_addr)
        × ((request_next_block n).ota_info.dlctx.received ≡ n.ota_info.dlctx.received)
  unfolding request_next_block
  same_place n = (refl, refl)

  -- What an exchange leaves: a download with one block less in front of it, or the end.
  abbrev pub Exchanged : Client nor → Client nor → Type 0
  Exchanged c m =
      (Online crc app m × (m.flash_addr ≡ c.flash_addr) × (suc (blocks_left m) ≡ blocks_left c))
      ⊎ ((blocks_left c ≡ 1) × Done c.flash_addr m)

  pub exchange-Exchanged :
      (c : Client nor) → Online crc app c → Serves crc srv app → Exchanged c (exchange crc srv c)
  exchange-Exchanged c o s =
      let (res, x, i) = exchange-store_block crc srv app c o s in
      let h = Arrived-IsPiece crc srv app c res o s i in
      let n = behind crc res c in
      elim (Bool-cases (ltb 128 (left crc app c))) [
        | inl b ↦
            let whole : res.size ≡ 128 = i.size ∙ rw b refl in
            let l : c.ota_info.dlctx.received + res.size < app.info.size =
              ground (arith, whole, b) in
            let a = stored_block-Advanced crc srv app c res o s h in
            let next = request_next_block n in
            let fewer : suc (blocks_left next) ≡ blocks_left c =
              omega (arith, (same_place n).1, a.count, whole, l) in
            subst (Exchanged c) (sym (exchange-more c res o s h x l)) (
              inl
                (Online-next crc srv app c res o s h l whole, (same_place n).0 ∙ a.position, fewer))
        | inr b ↦
            let rest : res.size ≡ left crc app c = i.size ∙ rw b refl in
            let l : c.ota_info.dlctx.received + res.size ≡ app.info.size =
              omega (arith, rest, unfinished crc srv app c o) in
            let last : blocks_left c ≡ 1 = ground (arith, b, unfinished crc srv app c o) in
            subst (Exchanged c) (sym (exchange-last c res o s h x l))
              (inr (last, (finished c res o s h l, finished-Holds c res o s h l)))
      ]

  downloads_all :
      (j : ℕ) (c : Client nor)
      → Online crc app c
      → Serves crc srv app
      → blocks_left c ≡ j
      → Done c.flash_addr (exchanges crc srv j c)
  unfolding exchanges
  downloads_all zero c o s e = absurd (omega (arith, e, unfinished crc srv app c o))
  downloads_all (suc j) c o s e =
      let m = exchange crc srv c in
      elim (exchange-Exchanged c o s) [
        | inl (p, a, f) ↦
            subst (λ k. Done k (exchanges crc srv j m)) a
              (downloads_all j m p s (omega (arith, e, f)))
        | inr (f, d) ↦
            subst (λ k. Done c.flash_addr (exchanges crc srv k m)) {x = 0} {y = j}
              (omega (arith, e, f)) d
      ]

  -- A download that has stored whole blocks of the image that the server has, and asks for the
  -- next one, needs one exchange of a request and its answer for each block that is left: then
  -- the update is applied, and the slot holds the image of the server byte by byte.
  pub download_completes :
      (c : Client nor)
      → Online crc app c
      → Serves crc srv app
      → ((exchanges crc srv (blocks_left c) c).ota_state ≡ applying)
        × (window
              (nor.byte_at (exchanges crc srv (blocks_left c) c).flash)
              c.flash_addr
              (length app.bin)
            ≡ app.bin)
  download_completes c o s = downloads_all (blocks_left c) c o s refl
