-- ===== src/OtaClient/Download.antt =====
-- What a download of app/src/ota.c has stored when it makes the new application current.
use stc_isp_demo.Prelude.{
  ℕ, ◌+◌, ◌≤◌, ◌<◌, ◌≡◌, ◌⊎◌, inl, inr, refl, sym, ◌∙◌, ap, subst, true, List, ◌++◌, arith, ltb,
  leb, ◌&&◌, ◌==◌, ==_iff, Bool-cases, same_bytes, same_bytes→eq, length, length-take_le,
}
use stc_isp_demo.Layout.{app_max_size, norflash_app1_addr, norflash_app2_addr}
use stc_isp_demo.Device.Memory.{window, window-add, window_ext}
use stc_isp_demo.Device.Crc.{Crc32, update-append}
use stc_isp_demo.Device.Nor.{Nor, nor_size, FitsPage}
use stc_isp_demo.Protocol.{pkt_dat_max_len}
use stc_isp_demo.OtaInfo.{DownloadCtx, OtaInfo, flip, dl_idle, write_info}
use stc_isp_demo.OtaClient.{
  Slot, factory, app1, app2, slot_info, downloading, applying, error, Client, AppData, u32, block,
  target, advance, write_block, read_back, request_next_block, store_block, verify_app_data_res,
  ota_ok, finish_download, ota_on_app_data,
}

-- Neither the position nor the count of a download wraps.
pub no_wrap :
    (a r n : ℕ)
    → (a ≡ norflash_app1_addr) ⊎ (a ≡ norflash_app2_addr)
    → r < app_max_size
    → n ≤ 128
    → (u32 (a + r) ≡ a + r) × (u32 (r + n) ≡ r + n)
no_wrap a r n e h k = ground arith

pub slot_room :
    (a r n : ℕ)
    → (a ≡ norflash_app1_addr) ⊎ (a ≡ norflash_app2_addr)
    → r < app_max_size
    → n ≤ 128
    → a + r + n ≤ nor_size
slot_room a r n (inl e) h k = omega arith
slot_room a r n (inr e) h k = omega arith

-- The image records do not change with the download context.
target_ctx :
    (p : Slot) (i : OtaInfo) (d : DownloadCtx)
    → slot_info p (record i { dlctx = d }) ≡ slot_info p i
target_ctx factory i d = refl
target_ctx app1 i d = refl
target_ctx app2 i d = refl

-- The record that makes the downloaded application current.
abbrev pub applied_info : ℕ → OtaInfo → OtaInfo
applied_info appid i = record i {
  seq = u32 (i.seq + 1);
  current_app = appid;
  dlctx = record i.dlctx { state = dl_idle; received = 0; crc = 0 };
}

module _ {nor : Nor} (crc : Crc32) where
  -- The bytes stored of the download so far.
  abbrev pub stored : Client nor → List ℕ
  stored c = window (nor.byte_at c.flash) c.flash_addr c.ota_info.dlctx.received

  -- During a download the running sum is that of the bytes in the flash.
  pub record Downloads (c : Client nor) : Type 0 where
    pub in_slot : (c.flash_addr ≡ norflash_app1_addr) ⊎ (c.flash_addr ≡ norflash_app2_addr)
    pub unfinished : c.ota_info.dlctx.received < (target c).size
    pub bounded : (target c).size ≤ app_max_size
    pub summed : c.ota_info.dlctx.crc ≡ crc.update crc.init (stored c)

  -- A block that is written and read back equal extends the stored bytes by that block.
  pub stored-write :
      (c : Client nor) (res : AppData)
      → let a = c.flash_addr + c.ota_info.dlctx.received in
        let s' = nor.write_page a (block res) c.flash in
        FitsPage a (block res)
        → a + res.size ≤ nor_size
        → length (block res) ≤ res.size
        → same_bytes (nor.read a res.size s') (block res) ≡ true
        → window (nor.byte_at s') c.flash_addr (c.ota_info.dlctx.received + res.size)
          ≡ window (nor.byte_at c.flash) c.flash_addr c.ota_info.dlctx.received ++ block res
  stored-write c res f room few e =
      let r = c.ota_info.dlctx.received in
      let a = c.flash_addr + r in
      let s' = nor.write_page a (block res) c.flash in
      let before : window (nor.byte_at s') c.flash_addr r
          ≡ window (nor.byte_at c.flash) c.flash_addr r =
        window_ext _ _ c.flash_addr r
          (λ i h k. nor.write_page_outside a (block res) c.flash i f (omega arith) (inl k)) in
      let behind : window (nor.byte_at s') a res.size ≡ block res =
        sym (nor.read_lem a res.size s' room) ∙ same_bytes→eq _ _ e in
      sym (window-add (nor.byte_at s') c.flash_addr r res.size) ∙ rw (before, behind)

  -- The tests on a block that `ota_on_app_data` makes before it stores it, but for the result.
  pub record IsBlock (res : AppData) (c : Client nor) : Type 0 where
    pub some_bytes : 0 < res.size
    pub few_bytes : res.size ≤ 128
    pub in_page : FitsPage (c.flash_addr + c.ota_info.dlctx.received) (block res)

  -- The client behind a block that was stored and read back equal.
  abbrev pub behind : AppData → Client nor → Client nor
  behind res c = advance crc res (write_block crc res c)

  pub record Advanced (res : AppData) (c n : Client nor) : Type 0 where
    pub position : n.flash_addr ≡ c.flash_addr
    pub image : target n ≡ target c
    pub count : n.ota_info.dlctx.received ≡ c.ota_info.dlctx.received + res.size
    pub sum : n.ota_info.dlctx.crc ≡ crc.update crc.init (stored n)
    pub same_state : n.ota_state ≡ c.ota_state
    pub same_plan : (n.appid_to_upgrade ≡ c.appid_to_upgrade) × (n.otaid ≡ c.otaid)

  pub behind-Advanced :
      (res : AppData) (c : Client nor)
      → Downloads c
      → IsBlock res c
      → same_bytes (read_back crc res (write_block crc res c)) (block res) ≡ true
      → Advanced res c (behind res c)
  unfolding write_block advance
  behind-Advanced res c d b e =
      let r = c.ota_info.dlctx.received in
      let (ea, er) = no_wrap c.flash_addr r res.size d.in_slot (omega arith) b.few_bytes in
      rw (ea, er)
        (record {
          position = refl;
          image = target_ctx c.pappu c.ota_info _;
          count = refl;
          sum =
              ap (λ k. crc.update k (block res)) d.summed
              ∙ sym (update-append crc crc.init (stored c) (block res))
              ∙ ap (crc.update crc.init) (
                  sym (
                    stored-write c res b.in_page
                      (slot_room c.flash_addr r res.size d.in_slot (omega arith) b.few_bytes)
                      (length-take_le res.size res.dat)
                      (subst
                        (λ (k : ℕ).
                          same_bytes (nor.read k res.size (nor.write_page k (block res) c.flash))
                            (block res)
                          ≡ true)
                        ea e)));
          same_state = refl;
          same_plan = (refl, refl);
        })

  -- What `finish_download` has done when the sum was right.
  pub record Applied (n m : Client nor) : Type 0 where
    pub right_sum : crc.finalize n.ota_info.dlctx.crc ≡ (target n).crc
    pub info : m.ota_info ≡ applied_info n.appid_to_upgrade n.ota_info
    pub turned : m.otaid ≡ flip n.otaid
    pub written : m.flash ≡ write_info nor n.otaid m.ota_info n.flash

  pub finish_download-Applied :
      (n : Client nor)
      → (finish_download crc n).ota_state ≡ applying
      → Applied n (finish_download crc n)
  unfolding finish_download
  finish_download-Applied n =
      elim (Bool-cases (crc.finalize n.ota_info.dlctx.crc == (target n).crc)) [
        | inl e ↦ rw e (λ h. record {
          right_sum = (==_iff _ _).0 e;
          info = refl;
          turned = refl;
          written = refl;
        })
        | inr e ↦ rw e (λ h. cc)
      ]

  finish_download_not_downloading :
      (n : Client nor) → (finish_download crc n).ota_state ≡ downloading → ⊥
  unfolding finish_download
  finish_download_not_downloading n h = ground arith

  pub request_next_block-Downloads :
      (n : Client nor) → Downloads n → Downloads (request_next_block n)
  unfolding request_next_block
  request_next_block-Downloads n d = record {
    in_slot = d.in_slot;
    unfinished = d.unfinished;
    bounded = d.bounded;
    summed = d.summed;
  }

  pub state-request_next_block : (n : Client nor) → (request_next_block n).ota_state ≡ n.ota_state
  unfolding request_next_block
  state-request_next_block n = refl

  -- The three ends of `store_block`.
  pub data Ends (res : AppData) (c m : Client nor) : Type 0 where
    goes_on :
        Advanced res c (behind res c)
        → (behind res c).ota_info.dlctx.received < (target (behind res c)).size
        → m ≡ request_next_block (behind res c)
        → Ends res c m
    ends :
        Advanced res c (behind res c)
        → (target (behind res c)).size ≤ (behind res c).ota_info.dlctx.received
        → m ≡ finish_download crc (behind res c)
        → Ends res c m
    fails : m.ota_state ≡ error → Ends res c m

  pub store_block-Ends :
      (res : AppData) (c : Client nor)
      → Downloads c
      → IsBlock res c
      → Ends res c (store_block crc res c)
  unfolding store_block
  store_block-Ends res c d b =
      let w = write_block crc res c in
      let n = behind res c in
      elim (Bool-cases (same_bytes (read_back crc res w) (block res))) [
        | inl e ↦ rw e (elim (Bool-cases (ltb n.ota_info.dlctx.received (target n).size)) [
          | inl l ↦ rw l (goes_on (behind-Advanced res c d b e) (ground arith) refl)
          | inr l ↦ rw l (ends (behind-Advanced res c d b e) (ground arith) refl)
        ])
        | inr e ↦ rw e (fails refl)
      ]

  -- The premises of a block that arrives: a download is running, and the block would stay in
  -- its page.
  pub record Arrives (res : AppData) (c : Client nor) : Type 0 where
    pub running : c.ota_state ≡ downloading
    pub download : Downloads c
    pub in_page : FitsPage (c.flash_addr + c.ota_info.dlctx.received) (block res)

  pub ota_on_app_data_cases :
      (res : AppData) (c : Client nor)
      → Arrives res c
      → ((0 < res.size) × (res.size ≤ 128) × (ota_on_app_data crc res c ≡ store_block crc res c))
        ⊎ ((ota_on_app_data crc res c).ota_state ≡ error)
  unfolding ota_on_app_data
  ota_on_app_data_cases res c a =
      rw a.running
        (elim (Bool-cases (
          res.result == ota_ok
          && verify_app_data_res crc res
          && res.offset == c.ota_info.dlctx.received
          && ltb 0 res.size
          && leb res.size pkt_dat_max_len)) [
            | inl e ↦ rw e (inl (ground arith, ground arith, refl))
            | inr e ↦ rw e (inr refl)
          ])

  pub IsBlock-of :
      {res : AppData} {c : Client nor}
      → Arrives res c
      → 0 < res.size
      → res.size ≤ 128
      → IsBlock res c
  IsBlock-of a p q = record { some_bytes = p; few_bytes = q; in_page = a.in_page }

  pub Advanced-Downloads :
      (res : AppData) (c n : Client nor)
      → Downloads c
      → Advanced res c n
      → n.ota_info.dlctx.received < (target n).size
      → Downloads n
  Advanced-Downloads res c n d a h = record {
    in_slot = rw a.position d.in_slot;
    unfinished = h;
    bounded = rw a.image d.bounded;
    summed = a.sum;
  }

  -- While a download goes on, the running sum stays that of the bytes in the slot and the count
  -- stays below the size of the image.
  pub ota_on_app_data-Downloads :
      (res : AppData) (c : Client nor)
      → Arrives res c
      → (ota_on_app_data crc res c).ota_state ≡ downloading
      → Downloads (ota_on_app_data crc res c)
  ota_on_app_data-Downloads res c a h = elim (ota_on_app_data_cases res c a) [
    | inl (p, q, e) ↦ rw e (go (store_block-Ends res c a.download (IsBlock-of a p q)) (rw e at h))
    | inr e ↦ cc
  ]
    where
      go :
          Ends res c (store_block crc res c)
          → (store_block crc res c).ota_state ≡ downloading
          → Downloads (store_block crc res c)
      go (goes_on v l e) s =
          rw e (request_next_block-Downloads _ (Advanced-Downloads res c _ a.download v l))
      go (ends v l e) s = absurd (finish_download_not_downloading (behind res c) (rw e at s))
      go (fails e) s = cc
