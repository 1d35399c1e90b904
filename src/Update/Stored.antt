-- ===== src/Update/Stored.antt =====
-- What a client of app/src/ota.c does with the next block of an image: it accepts it, stores it and
-- reads it back.
use stc_isp_demo.Prelude.{
  ℕ, ◌+◌, ◌-◌, ◌%◌, ◌≤◌, ◌<◌, ◌≡◌, ◌⊎◌, inl, inr, ◌∙◌, refl, sym, ap, subst, arith, true, ◌++◌,
  length, take, drop, take-add, ◌==◌, ==_refl, leb, ltb, same_bytes_refl, same_bytes,
}
use stc_isp_demo.Device.Crc.{Crc32}
use stc_isp_demo.Device.Memory.{window, AllBytes}
use stc_isp_demo.Device.Nor.{Nor, FitsPage, nor_size}
use stc_isp_demo.Device.WriteThrough.{take-AllBytes, drop-AllBytes}
use stc_isp_demo.Layout.{norflash_app1_addr, norflash_app2_addr}
use stc_isp_demo.OtaClient.{
  Client, AppData, block, block_size, u32, ota_ok, ota_on_app_data, store_block,
  verify_app_data_res, write_block, advance, read_back,
}
use stc_isp_demo.OtaClient.Download.{stored, no_wrap, behind, stored-write}
use stc_isp_demo.Host.Server.{OtaApp}
use stc_isp_demo.Update.{Online}
use stc_isp_demo.Update.Block.{IsPiece}

-- A block has a byte or more, at most 128, and stays inside its page.
pub block_size_lem :
    (left : ℕ)
    → 0 < left
    → (0 < block_size left)
      × (block_size left ≤ 128)
      × (block_size left ≤ left)
      × ((block_size left ≡ 128) ⊎ (block_size left ≡ left))
block_size_lem left h = ground arith

pub in_page_lem :
    (a r n : ℕ)
    → (a ≡ norflash_app1_addr) ⊎ (a ≡ norflash_app2_addr)
    → r % 128 ≡ 0
    → n ≤ 128
    → (a + r) % 256 + n ≤ 256
in_page_lem a r n (inl e) h k = rw e (omega arith)
in_page_lem a r n (inr e) h k = rw e (omega arith)

module _ {nor : Nor} (crc : Crc32) (app : OtaApp) where
  abbrev pub left : Client nor → ℕ
  left c = app.info.size - c.ota_info.dlctx.received

  -- The next block of the image.
  pub record Arrived (c : Client nor) (res : AppData) : Type 0 where
    pub piece : IsPiece crc app.bin c.ota_info.dlctx.received res.size res
    pub more : 0 < res.size
    pub few : res.size ≤ 128
    pub inside : c.ota_info.dlctx.received + res.size ≤ app.info.size
    pub len : length (block res) ≡ res.size
    pub stays : FitsPage (c.flash_addr + c.ota_info.dlctx.received) (block res)
    pub room : c.flash_addr + c.ota_info.dlctx.received + res.size ≤ nor_size

  pub no_wrap_at :
      (c : Client nor) (res : AppData)
      → Online crc app c
      → res.size ≤ 128
      → let r = c.ota_info.dlctx.received in
        (u32 (c.flash_addr + r) ≡ c.flash_addr + r) × (u32 (r + res.size) ≡ r + res.size)
  no_wrap_at c res o q =
      no_wrap c.flash_addr c.ota_info.dlctx.received res.size o.downloads.in_slot
        (omega (arith, o.downloads.unfinished, o.downloads.bounded)) q

  -- The next block is accepted,
  pub accepted :
      (c : Client nor) (res : AppData)
      → Online crc app c
      → Arrived c res
      → ota_on_app_data crc res c ≡ store_block crc res c
  unfolding ota_on_app_data
  accepted c res o h =
      let ok : (res.result == ota_ok) ≡ true = rw h.piece.result refl in
      let summed : verify_app_data_res crc res ≡ true =
        rw (h.piece.bytes, h.piece.sum) (==_refl _) in
      let here : (res.offset == c.ota_info.dlctx.received) ≡ true = rw h.piece.offset (==_refl _) in
      let some_bytes : ltb 0 res.size ≡ true = ground (arith, h.more) in
      let few : leb res.size 128 ≡ true = ground (arith, h.few) in
      rw (o.state, ok, summed, here, some_bytes, few) refl

  -- and is read back as it was written.
  written_same :
      (c : Client nor) (res : AppData)
      → Online crc app c
      → AllBytes app.bin
      → Arrived c res
      → let a = c.flash_addr + c.ota_info.dlctx.received in
        same_bytes (nor.read a res.size (nor.write_page a (block res) c.flash)) (block res) ≡ true
  written_same c res o v h =
      let r = c.ota_info.dlctx.received in
      let a = c.flash_addr + r in
      let s = nor.write_page a (block res) c.flash in
      let bytes : AllBytes (block res) =
        subst AllBytes (sym h.piece.bytes)
          (take-AllBytes res.size (drop r app.bin) (drop-AllBytes r app.bin v)) in
      let stored_now : window (nor.byte_at s) a res.size ≡ block res =
        subst (λ n. window (nor.byte_at s) a n ≡ block res) h.len
          (nor.write_page_inside a (block res) c.flash h.stays (omega (arith, h.len, h.room)) bytes
            (λ j k l. o.blank j k (omega (arith, h.len, h.inside)))) in
      rw (nor.read_lem a res.size s h.room, stored_now) (same_bytes_refl (block res))

  pub read_back_same :
      (c : Client nor) (res : AppData)
      → Online crc app c
      → AllBytes app.bin
      → Arrived c res
      → same_bytes (read_back crc res (write_block crc res c)) (block res) ≡ true
  unfolding write_block
  read_back_same c res o v h =
      subst
        (λ (k : ℕ).
          same_bytes (nor.read k res.size (nor.write_page k (block res) c.flash)) (block res)
          ≡ true)
        (sym (no_wrap_at c res o h.few).0) (written_same c res o v h)

  -- The stored bytes are then a longer part of the image.
  pub stored-behind :
      (c : Client nor) (res : AppData)
      → Online crc app c
      → AllBytes app.bin
      → Arrived c res
      → stored crc (behind crc res c) ≡ take (c.ota_info.dlctx.received + res.size) app.bin
  unfolding write_block advance
  stored-behind c res o v h =
      let r = c.ota_info.dlctx.received in
      let (ea, er) = no_wrap_at c res o h.few in
      ap
        (λ (k : ℕ × ℕ).
          window (nor.byte_at (nor.write_page k.0 (block res) c.flash)) c.flash_addr k.1)
        (λ i. (ea i, er i))
      ∙ stored-write crc c res h.stays h.room (omega (arith, h.len)) (written_same c res o v h)
      ∙ ap (◌++ block res) o.so_far
      ∙ ap (take r app.bin ++◌) h.piece.bytes
      ∙ take-add r res.size app.bin
