-- ===== src/OtaClient/Apply.antt =====
-- A download of app/src/ota.c ends with the new application current only if the whole image is in
-- the flash and has the announced check sum.
use stc_isp_demo.Prelude.{ℕ, ◌+◌, ◌/◌, ◌≤◌, ◌<◌, ◌≡◌, ◌≢◌, ◌⊎◌, inl, inr, refl, sym, ◌∙◌, ap, arith}
use stc_isp_demo.Layout.{norflash_app1_addr, norflash_app2_addr}
use stc_isp_demo.Device.Memory.{window, window_ext}
use stc_isp_demo.Device.Crc.{Crc32, crc_of}
use stc_isp_demo.Device.Nor.{Nor}
use stc_isp_demo.OtaInfo.{
  AppInfo, OtaInfo, OtaId, master, backup, flip, addr_of, read_info, write_info,
}
use stc_isp_demo.OtaInfo.Codec.{IsOtaInfo, read_info-write_info, write_info_outside}
use stc_isp_demo.OtaClient.{
  applying, Client, AppData, target, advance, write_block, store_block, finish_download,
  ota_on_app_data,
}
use stc_isp_demo.OtaClient.Download.{
  Downloads, Arrives, Advanced, Applied, Ends, goes_on, ends, fails, behind, applied_info, stored,
  store_block-Ends, finish_download-Applied, ota_on_app_data_cases, IsBlock-of,
  state-request_next_block,
}

-- The record of an update has valid fields again.
applied_info-IsOtaInfo :
    (appid : ℕ) (i : OtaInfo) → IsOtaInfo i → appid < 256 → IsOtaInfo (applied_info appid i)
applied_info-IsOtaInfo appid i v h = record {
  seq = omega arith;
  current_app = h;
  resv0 = v.resv0;
  resv1 = v.resv1;
  resv2 = v.resv2;
  state = omega arith;
  appid = v.appid;
  ctx_resv0 = v.ctx_resv0;
  ctx_resv1 = v.ctx_resv1;
  received = omega arith;
  crc = omega arith;
  factory = v.factory;
  app1 = v.app1;
  app2 = v.app2;
}

-- The slots lie outside the sectors of the update record.
pub slot_apart :
    (id : OtaId) (a i : ℕ)
    → (a ≡ norflash_app1_addr) ⊎ (a ≡ norflash_app2_addr)
    → a ≤ i
    → i / 4096 ≢ addr_of id / 4096
slot_apart master a i (inl e) h = omega arith
slot_apart master a i (inr e) h = omega arith
slot_apart backup a i (inl e) h = omega arith
slot_apart backup a i (inr e) h = omega arith

module _ {nor : Nor} (crc : Crc32) where
  -- What is left behind when the new application is made current by the block `res`.
  pub record Replaced (res : AppData) (c m : Client nor) : Type 0 where
    pub whole : (target c).size ≤ c.ota_info.dlctx.received + res.size
    pub image :
        crc_of crc
          (window (nor.byte_at m.flash) c.flash_addr (c.ota_info.dlctx.received + res.size))
        ≡ (target c).crc
    pub current : m.ota_info.current_app ≡ c.appid_to_upgrade
    pub persisted : read_info nor c.otaid m.flash ≡ m.ota_info
    pub turned : m.otaid ≡ flip c.otaid

  applied_behind :
      (res : AppData) (c : Client nor)
      → applied_info c.appid_to_upgrade (behind crc res c).ota_info
        ≡ applied_info c.appid_to_upgrade c.ota_info
  unfolding advance write_block
  applied_behind res c = refl

  finished-Replaced :
      (res : AppData) (c n m : Client nor)
      → Downloads crc c
      → IsOtaInfo m.ota_info
      → Advanced crc res c n
      → (target n).size ≤ n.ota_info.dlctx.received
      → Applied crc n m
      → Replaced res c m
  finished-Replaced res c n m d v a l p =
      let k = c.ota_info.dlctx.received + res.size in
      let kept : window (nor.byte_at m.flash) c.flash_addr k
          ≡ window (nor.byte_at n.flash) c.flash_addr k =
        rw p.written (
          window_ext _ _ c.flash_addr k (λ i h j.
            write_info_outside nor n.otaid m.ota_info n.flash i
              (slot_apart n.otaid c.flash_addr i d.in_slot h))) in
      let all : window (nor.byte_at n.flash) c.flash_addr k ≡ stored crc n =
        rw (a.position, a.count) in
      record {
        whole = rw (a.image, a.count) at l;
        image =
            ap (crc_of crc) (kept ∙ all)
            ∙ ap crc.finalize (sym a.sum)
            ∙ p.right_sum
            ∙ ap {A = AppInfo} (λ x. x.crc) a.image;
        current = ap {A = OtaInfo} (λ x. x.current_app) p.info ∙ a.same_plan.0;
        persisted =
            ap (read_info nor c.otaid) p.written
            ∙ ap (λ x. read_info nor x (write_info nor n.otaid m.ota_info n.flash))
                (sym a.same_plan.1)
            ∙ read_info-write_info nor n.otaid m.ota_info n.flash v;
        turned = p.turned ∙ ap flip a.same_plan.1;
      }

  Ends-Replaced :
      (res : AppData) (c : Client nor)
      → Arrives crc res c
      → IsOtaInfo c.ota_info
      → c.appid_to_upgrade < 256
      → Ends crc res c (store_block crc res c)
      → (store_block crc res c).ota_state ≡ applying
      → Replaced res c (store_block crc res c)
  Ends-Replaced res c r v h (goes_on a l e) s =
      cc (rw e at s, state-request_next_block crc (behind crc res c), a.same_state, r.running)
  Ends-Replaced res c r v h (ends a l e) s =
      let n = behind crc res c in
      let p = finish_download-Applied crc n (rw e at s) in
      let same : (finish_download crc n).ota_info ≡ applied_info c.appid_to_upgrade c.ota_info =
        p.info ∙ ap (λ x. applied_info x n.ota_info) a.same_plan.0 ∙ applied_behind res c in
      rw e (
        finished-Replaced res c n (finish_download crc n) r.download
          (rw same (applied_info-IsOtaInfo c.appid_to_upgrade c.ota_info v h)) a l p)
  Ends-Replaced res c r v h (fails e) s = cc

  -- A block arrives during a download, stays in its page, and moves the client to the state
  -- applying. Then the bytes in the slot, as many as were received, are at least as many as the
  -- announced size and have the announced check sum, the record names the downloaded application
  -- as current, reading the copy that was the older one gives that record, and the other copy is
  -- the next to be overwritten.
  pub ota_on_app_data-Replaced :
      (res : AppData) (c : Client nor)
      → Arrives crc res c
      → IsOtaInfo c.ota_info
      → c.appid_to_upgrade < 256
      → (ota_on_app_data crc res c).ota_state ≡ applying
      → Replaced res c (ota_on_app_data crc res c)
  ota_on_app_data-Replaced res c a v h s = elim (ota_on_app_data_cases crc res c a) [
    | inl (p, q, e) ↦ rw e (
        Ends-Replaced res c a v h (store_block-Ends crc res c a.download (IsBlock-of crc a p q))
          (rw e at s))
    | inr e ↦ cc
  ]
