-- ===== src/Update/Next.antt =====
-- One block of a download of app/src/ota.c from the server of programmer/programmer/programmer.cpp:
-- the client stores it and asks for the next one.
use stc_isp_demo.Prelude.{
  ℕ, ◌+◌, ◌-◌, ◌%◌, ◌≤◌, ◌<◌, ◌≡◌, inr, ◌∙◌, refl, sym, ap, subst, arith, true, List, [], ◌∷◌, ◌++◌,
  some, length, take, ltb, same_bytes, if◌then◌else◌,
}
use stc_isp_demo.Device.Crc.{Crc32}
use stc_isp_demo.Device.Nor.{Nor}
use stc_isp_demo.Layout.{app_max_size}
use stc_isp_demo.OtaInfo.{AppInfo}
use stc_isp_demo.OtaClient.{
  Client, AppData, Request, get_app_data, block, block_size, target, store_block, write_block,
  advance, read_back, request_next_block, finish_download,
}
use stc_isp_demo.OtaClient.Download.{
  slot_room, behind, behind-Advanced, Advanced, Advanced-Downloads, request_next_block-Downloads,
}
use stc_isp_demo.Host.Server.{Server, OtaApp}
use stc_isp_demo.Update.{Serves, Online, answered, exchange, last_of}
use stc_isp_demo.Update.Block.{IsPiece, answer_data-IsPiece, length-piece}
use stc_isp_demo.Update.Stored.{
  left, Arrived, accepted, read_back_same, stored-behind, no_wrap_at, block_size_lem, in_page_lem,
}

pub last_of-snoc : (rs : List Request) (r : Request) → last_of (rs ++ (r ∷ [])) ≡ some r
last_of-snoc [] r = refl
last_of-snoc (s ∷ []) r = refl
last_of-snoc (s ∷ t ∷ rs) r = last_of-snoc (t ∷ rs) r

module _ {nor : Nor} where
  pub asks_next :
      (n : Client nor)
      → n.ota_info.dlctx.received < (target n).size
      → (target n).size ≤ app_max_size
      → last_of (request_next_block n).sent
        ≡ some (
            get_app_data
              (target n).version
              n.ota_info.dlctx.received
              (block_size ((target n).size - n.ota_info.dlctx.received)))
  unfolding request_next_block
  asks_next n h k =
      let e : (4294967296 + (target n).size - n.ota_info.dlctx.received) % 4294967296
          ≡ (target n).size - n.ota_info.dlctx.received =
        omega arith in
      last_of-snoc n.sent _ ∙ rw e refl

module _ {nor : Nor} (crc : Crc32) (srv : Server) (app : OtaApp) where
  pub unfinished : (c : Client nor) → Online crc app c → c.ota_info.dlctx.received < app.info.size
  unfinished c o =
      subst (λ a. c.ota_info.dlctx.received < AppInfo.size a) o.image o.downloads.unfinished

  pub bounded : (c : Client nor) → Online crc app c → app.info.size ≤ app_max_size
  bounded c o = subst (λ a. AppInfo.size a ≤ app_max_size) o.image o.downloads.bounded

  pub Arrived-IsPiece :
      (c : Client nor) (res : AppData)
      → Online crc app c
      → Serves crc srv app
      → IsPiece crc app.bin c.ota_info.dlctx.received (block_size (left crc app c)) res
      → Arrived crc app c res
  Arrived-IsPiece c res o s i =
      let r = c.ota_info.dlctx.received in
      let (p, q, l, _) = block_size_lem (left crc app c) (omega (arith, unfinished c o)) in
      let inside : r + res.size ≤ app.info.size = omega (arith, i.size, l, unfinished c o) in
      let len : length (block res) ≡ res.size =
        ap length i.bytes
        ∙ length-piece app.bin r (block_size (left crc app c))
            (omega (arith, inside, i.size, s.size))
        ∙ sym i.size in
      record {
        piece = subst (λ k. IsPiece crc app.bin r k res) (sym i.size) i;
        more = omega (arith, i.size, p);
        few = omega (arith, i.size, q);
        inside = inside;
        len = len;
        stays = omega (
          arith,
          len,
          in_page_lem c.flash_addr r res.size o.downloads.in_slot o.whole_blocks
              (omega (arith, i.size, q)),
        );
        room =
            slot_room c.flash_addr r res.size o.downloads.in_slot
              (omega (arith, o.downloads.unfinished, o.downloads.bounded))
              (omega (arith, i.size, q));
      }

  -- One exchange of a request and its answer stores the next block.
  pub exchange-store_block :
      (c : Client nor)
      → Online crc app c
      → Serves crc srv app
      → (res : AppData) × (exchange crc srv c ≡ store_block crc res c)
        × IsPiece crc app.bin c.ota_info.dlctx.received (block_size (left crc app c)) res
  unfolding exchange
  exchange-store_block c o s =
      let r = c.ota_info.dlctx.received in
      let n = block_size (left crc app c) in
      let (p, q, l, _) = block_size_lem (left crc app c) (omega (arith, unfinished c o)) in
      let (res, e, i) =
        answer_data-IsPiece crc srv app r n s (omega (arith, l, unfinished c o, s.size)) q
          (omega (arith, bounded c o, s.size)) in
      (
        res,
        ap (λ m. answered crc srv m c) o.asks
            ∙ rw (answered, e) (accepted crc app c res o (Arrived-IsPiece c res o s i)),
        i,
      )

  pub stored_block :
      (c : Client nor) (res : AppData)
      → same_bytes (read_back crc res (write_block crc res c)) (block res) ≡ true
      → store_block crc res c ≡ (
          if ltb (behind crc res c).ota_info.dlctx.received (target (behind crc res c)).size
          then request_next_block (behind crc res c)
          else finish_download crc (behind crc res c))
  unfolding store_block
  stored_block c res e = rw e refl

  -- The client behind the block.
  pub stored_block-Advanced :
      (c : Client nor) (res : AppData)
      → Online crc app c
      → Serves crc srv app
      → Arrived crc app c res
      → Advanced crc res c (behind crc res c)
  stored_block-Advanced c res o s h =
      behind-Advanced crc res c o.downloads
        (record { some_bytes = h.more; few_bytes = h.few; in_page = h.stays })
        (read_back_same crc app c res o s.bytes h)

  blank_behind :
      (c : Client nor) (res : AppData)
      → Online crc app c
      → Arrived crc app c res
      → (i : ℕ) → c.flash_addr + (c.ota_info.dlctx.received + res.size) ≤ i
      → i < c.flash_addr + app.info.size
      → nor.byte_at (behind crc res c).flash i ≡ 255
  unfolding write_block advance
  blank_behind c res o h i k l =
      let r = c.ota_info.dlctx.received in
      subst (λ (a : ℕ). nor.byte_at (nor.write_page a (block res) c.flash) i ≡ 255)
        (sym (no_wrap_at crc app c res o h.few).0)
        (nor.write_page_outside (c.flash_addr + r) (block res) c.flash i h.stays
            (omega (arith, h.len, h.room)) (inr (omega (arith, h.len, k)))
          ∙ o.blank i (omega (arith, k)) l)

  pub Online-next :
      (c : Client nor) (res : AppData)
      → Online crc app c
      → Serves crc srv app
      → Arrived crc app c res
      → c.ota_info.dlctx.received + res.size < app.info.size
      → res.size ≡ 128
      → Online crc app (request_next_block (behind crc res c))
  unfolding request_next_block
  Online-next c res o s h l e =
      let n = behind crc res c in
      let a = stored_block-Advanced c res o s h in
      let image : target n ≡ app.info = a.image ∙ o.image in
      let more : n.ota_info.dlctx.received < (target n).size = rw (image, a.count) l in
      record {
        state = a.same_state ∙ o.state;
        downloads =
            request_next_block-Downloads crc n (Advanced-Downloads crc res c n o.downloads a more);
        image = image;
        so_far = stored-behind crc app c res o s.bytes h ∙ ap (λ k. take k app.bin) (sym a.count);
        blank = λ i k m.
            blank_behind c res o h i (omega (arith, k, a.count, a.position))
              (omega (arith, m, a.position));
        whole_blocks = omega (arith, a.count, e, o.whole_blocks);
        asks =
            asks_next n more (rw image (bounded c o))
            ∙ ap
                (λ (k : AppInfo). some (
                  get_app_data k.version n.ota_info.dlctx.received
                    (block_size (k.size - n.ota_info.dlctx.received))))
                image;
      }
