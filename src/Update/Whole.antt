-- ===== src/Update/Whole.antt =====
-- An update of app/src/ota.c from the announcement of a new application to its end, with the server
-- of programmer/programmer/programmer.cpp.
use stc_isp_demo.Prelude.{
  ℕ, zero, suc, ◌+◌, ◌-◌, ◌/◌, ◌%◌, ◌≤◌, ◌<◌, ◌≡◌, ◌∙◌, refl, sym, ap, subst, arith, some, length,
  take, lt→ltb,
}
use stc_isp_demo.Device.Crc.{Crc32}
use stc_isp_demo.Device.Memory.{window}
use stc_isp_demo.Device.Nor.{Nor}
use stc_isp_demo.Layout.{app_max_size}
use stc_isp_demo.OtaInfo.{AppInfo, dl_downloading, dl_erasing}
use stc_isp_demo.OtaClient.{
  Client, get_app_data, preparing, applying, u32, target, block_size, prepare, erase,
  begin_download, request_next_block,
}
use stc_isp_demo.OtaClient.Erase.{
  FitsSlot, Erases, Begun, sectors, runs, target_seq, prepare-Erases, erase-Erases, erase_last,
  ota_run-preparing, ota_run-erasing, erase_completes,
}
use stc_isp_demo.Host.Server.{Server, OtaApp}
use stc_isp_demo.Update.{Serves, Online, exchanges, last_of}
use stc_isp_demo.Update.Next.{last_of-snoc}
use stc_isp_demo.Update.Completes.{Done, blocks_left, download_completes}

module _ {nor : Nor} (crc : Crc32) (a : AppInfo) (p : ℕ) where
  -- The client updates to the application `a`, in the slot at `p`.
  abbrev Updates : Client nor → Type 0
  Updates c = (target c ≡ a) × (c.flash_addr ≡ p)

  -- It has asked for the first block.
  abbrev Asks : Client nor → Type 0
  Asks c = last_of c.sent ≡ some (get_app_data a.version 0 (block_size (a.size - 0)))

  prepare-Updates : (c : Client nor) → Updates c → Updates (prepare c)
  unfolding prepare
  prepare-Updates c u =
      let i = c.ota_info in
      let d = record i.dlctx { state = dl_erasing; received = 0; crc = 0 } in
      (target_seq c.pappu i (u32 (i.seq + 1)) d ∙ u.0, u.1)

  erase-Updates :
      (j : ℕ) (c : Client nor) → Erases crc (suc j) c → Updates c → Updates (erase crc c)
  unfolding erase
  erase-Updates j c e u = rw (lt→ltb c.addr c.erase_size (omega (arith, e.left))) u

  begin_download-Asks :
      (c : Client nor)
      → Erases crc 0 c
      → Updates c
      → Updates (begin_download crc c) × Asks (begin_download crc c)
  unfolding begin_download request_next_block
  begin_download-Asks c e u =
      let i = c.ota_info in
      let d = record i.dlctx { state = dl_downloading; received = 0; crc = crc.init } in
      let same = target_seq c.pappu i (u32 (i.seq + 1)) d ∙ u.0 in
      let size : (4294967296 + a.size - 0) % 4294967296 ≡ a.size - 0 =
        omega (arith, subst (λ k. AppInfo.size k ≤ app_max_size) u.0 e.fits.bounded) in
      (
        (same, u.1),
        last_of-snoc c.sent _
            ∙ ap
                (λ (k : AppInfo).
                  some (
                    get_app_data k.version 0 (block_size ((4294967296 + k.size - 0) % 4294967296))))
                same
            ∙ ap (λ k. some (get_app_data a.version 0 (block_size k))) size,
      )

  runs-Asks :
      (j : ℕ) (c : Client nor)
      → Erases crc j c
      → Updates c
      → Updates (runs crc (suc j) c) × Asks (runs crc (suc j) c)
  unfolding runs
  runs-Asks zero c e u =
      subst (λ m. Updates m × Asks m) (sym (ota_run-erasing crc c e.state ∙ erase_last crc c e))
        (begin_download-Asks c e u)
  runs-Asks (suc j) c e u =
      subst (λ m. Updates (runs crc (suc j) m) × Asks (runs crc (suc j) m))
        (sym (ota_run-erasing crc c e.state))
        (runs-Asks j (erase crc c) (erase-Erases crc j c e) (erase-Updates j c e u))

  update-Asks :
      (c : Client nor)
      → c.ota_state ≡ preparing
      → FitsSlot crc c
      → Updates c
      → let m = runs crc (sectors crc c + 2) c in Updates m × Asks m
  unfolding runs
  update-Asks c e f u =
      let two : sectors crc c + 2 ≡ suc (suc (sectors crc c)) = omega arith in
      rw two (
        subst
          (λ m.
            Updates (runs crc (suc (sectors crc c)) m) × Asks (runs crc (suc (sectors crc c)) m))
          (sym (ota_run-preparing crc c e))
          (runs-Asks (sectors crc c) (prepare c) (prepare-Erases crc c f) (prepare-Updates c u)))

module _ {nor : Nor} (crc : Crc32) (srv : Server) (app : OtaApp) where
  Begun-Online :
      (p : ℕ) (m : Client nor)
      → Begun crc m
      → Updates crc app.info p m
      → Asks crc app.info p m
      → Online crc app m
  Begun-Online p m b u q = record {
    state = b.state;
    downloads = b.downloads;
    image = u.0;
    so_far =
        subst (λ r. window (nor.byte_at m.flash) m.flash_addr r ≡ take r app.bin)
          (sym b.nothing_yet) refl;
    blank = λ i h k.
        b.blank i (omega (arith, h)) (subst (λ z. i < m.flash_addr + AppInfo.size z) (sym u.0) k);
    whole_blocks = subst (λ r. r % 128 ≡ 0) (sym b.nothing_yet) refl;
    asks =
        subst
          (λ r.
            last_of m.sent
            ≡ some (get_app_data app.info.version r (block_size (app.info.size - r))))
          (sym b.nothing_yet) q;
  }

  -- A client that prepares an update to an application that fits the slot and that the server has
  -- needs one call of `ota_run` for each sector of the image, and two more, and then one exchange
  -- of a request and its answer for each block of the image: then the update is applied, and the
  -- slot holds the image of the server byte by byte.
  pub update_completes :
      (c : Client nor)
      → c.ota_state ≡ preparing
      → FitsSlot crc c
      → target c ≡ app.info
      → Serves crc srv app
      → let m = exchanges crc srv ((app.info.size + 127) / 128) (runs crc (sectors crc c + 2) c) in
        (m.ota_state ≡ applying)
        × (window (nor.byte_at m.flash) c.flash_addr (length app.bin) ≡ app.bin)
  update_completes c e f t s =
      let m = runs crc (sectors crc c + 2) c in
      let b = erase_completes crc c e f in
      let (u, q) = update-Asks crc app.info c.flash_addr c e f (t, refl) in
      let o = Begun-Online c.flash_addr m b u q in
      let blocks : blocks_left crc srv app m ≡ (app.info.size + 127) / 128 =
        omega (arith, b.nothing_yet) in
      subst (λ k. Done crc srv app c.flash_addr (exchanges crc srv k m)) blocks
        (subst (λ k. Done crc srv app k (exchanges crc srv (blocks_left crc srv app m) m)) u.1
          (download_completes crc srv app m o s))
