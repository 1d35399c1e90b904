-- ===== src/Boot/Start.antt =====
-- What check_ota and main of bootloader/src/main.c guarantee of the application that is started.
use stc_isp_demo.Prelude.{
  ℕ, ◌+◌, ◌/◌, ◌%◌, ◌≤◌, ◌<◌, ◌≡◌, ◌≢◌, ◌⊎◌, ◌∙◌, inl, inr, refl, sym, subst, ap, arith, Bool, true,
  false, List, [], ◌∷◌, ◌==◌, ==_iff, leb, Bool-cases, if◌then◌else◌,
}
use stc_isp_demo.Boot.{Board, app_of, try_load_flash_app}
use stc_isp_demo.Boot.Load.{
  Complete, Programmed, try_load-SameFlash, try_load_flash_app_lem,
  try_load_flash_app_blank_reports,
}
use stc_isp_demo.Boot.Select.{boot_order, load_newer, loaded, boot_in, check_ota, start}
use stc_isp_demo.Device.Crc.{Crc32, crc_of}
use stc_isp_demo.Device.Memory.{window, window_ext}
use stc_isp_demo.Device.Nor.{Nor}
use stc_isp_demo.Device.Rom.{Rom}
use stc_isp_demo.Layout.{get_norflash_app_addr, flash_app_id_max}
use stc_isp_demo.OtaInfo.{
  OtaInfo, OtaId, master, backup, addr_of, flip, findout_which_ota_info_is_older, write_info,
}
use stc_isp_demo.OtaInfo.Codec.{write_info_outside}

addr_of_sector : (id : OtaId) → addr_of id / 4096 < 2
addr_of_sector master = omega arith
addr_of_sector backup = omega arith

app_addr_after : (appid : ℕ) → 8192 ≤ get_norflash_app_addr appid
app_addr_after appid = ground arith

boot_order_first : (current : ℕ) → (rest : List ℕ) × (boot_order current ≡ current ∷ rest)
boot_order_first current = elim (Bool-cases (current == 0)) [
  | inl e ↦ ([], rw (e, (==_iff current 0).0 e) refl)
  | inr e ↦ ((if current == 1 then 2 else 1) ∷ 0 ∷ [], rw e refl)
]

jump :
    {A : Type 0} (x y z : A) (dfu valid : Bool)
    → dfu ≡ false
    → valid ≡ true
    → (if dfu then x else if valid then y else z) ≡ y
jump x y z dfu valid p q = rw (p, q) refl

module _ (crc : Crc32) (nor : Nor) (rom : Rom) where
  -- The application that `current_app` names is whole in the external flash, and the on-chip flash
  -- holds it.
  abbrev pub Ready : Board nor rom → Type 0
  Ready b =
      (b.onchip_app_valid ≡ true)
      × (b.ota_info.current_app ≡ b.appid)
      × Complete crc nor rom b.appid b
      × Programmed crc nor rom b.appid b

  -- Every image of the list fails to load, one after the other.
  abbrev pub Refused : List ℕ → Board nor rom → Type 0
  Refused [] b = Unit
  Refused (appid ∷ rest) b =
      ((try_load_flash_app crc nor rom appid b).0 ≡ false)
      × Refused rest (try_load_flash_app crc nor rom appid b).1

  -- Writing an update record leaves the images.
  pub image_kept :
      (id : OtaId) (i : OtaInfo) (s : nor.State) (appid n : ℕ)
      → window (nor.byte_at (write_info nor id i s)) (get_norflash_app_addr appid) n
        ≡ window (nor.byte_at s) (get_norflash_app_addr appid) n
  image_kept id i s appid n =
      window_ext (nor.byte_at (write_info nor id i s)) (nor.byte_at s) (get_norflash_app_addr appid)
        n (λ a p q. write_info_outside nor id i s a (other_sector id a appid p))
    where
      other_sector :
          (id : OtaId) (a appid : ℕ)
          → get_norflash_app_addr appid ≤ a
          → a / 4096 ≢ addr_of id / 4096
      other_sector id a appid p = omega (arith, addr_of_sector id, app_addr_after appid)

  loaded-Ready :
      (appid : ℕ) (b : Board nor rom)
      → Complete crc nor rom appid b
      → Programmed crc nor rom appid b
      → Ready (loaded crc nor rom appid b)
  unfolding loaded
  loaded-Ready appid b c p =
      let n = (app_of appid b.ota_info).size in
      let info = record b.ota_info {
        seq = (b.ota_info.seq + 1) % 4294967296;
        current_app = appid;
      } in
      let k = image_kept b.otaid info b.flash appid n in
      elim (Bool-cases (b.ota_info.current_app == appid)) [
        | inl e ↦ rw e (refl, (==_iff b.ota_info.current_app appid).0 e, c, p)
        | inr e ↦ rw e (refl, refl, (c.0, c.1, ap (crc_of crc) k ∙ c.2), p ∙ sym k)
      ]

  -- A complete image stays complete while it is copied.
  Complete-kept :
      (appid : ℕ) (b : Board nor rom)
      → Complete crc nor rom appid b
      → Complete crc nor rom appid (try_load_flash_app crc nor rom appid b).1
  Complete-kept appid b c = let f = try_load-SameFlash crc nor rom appid b in rw (f.0, f.1) c

  boot_in_lem :
      (ids : List ℕ) (b : Board nor rom)
      → b.onchip_app_valid ≡ true
      → Ready (boot_in crc nor rom ids b) ⊎ Refused ids b
  unfolding boot_in
  boot_in_lem [] b v = inr tt
  boot_in_lem (appid ∷ rest) b v =
      let t = try_load_flash_app crc nor rom appid b in
      elim (Bool-cases t.0) [
        | inl e ↦
            let l = try_load_flash_app_lem crc nor rom appid b v e in
            rw e (inl (loaded-Ready appid t.1 (Complete-kept appid b l.0) l.1))
        | inr e ↦
            let v' = (try_load-SameFlash crc nor rom appid b).2 ∙ v in
            elim (boot_in_lem rest t.1 v') [ inl r ↦ rw e (inl r) | inr r ↦ rw e (inr (refl, r)) ]
      ]

  -- The boot record of a board: what `retry:` reads last.
  abbrev pub newer : Board nor rom → Board nor rom
  newer b = load_newer crc nor rom (findout_which_ota_info_is_older nor b.flash) b

  check_ota_first :
      (b : Board nor rom)
      → (newer b).ota_info.current_app ≤ flash_app_id_max
      → check_ota crc nor rom b
        ≡ boot_in crc nor rom (boot_order (newer b).ota_info.current_app) (newer b)
  unfolding check_ota
  check_ota_first b h =
      let le : leb (newer b).ota_info.current_app flash_app_id_max ≡ true = ground arith in
      rw le refl

  -- `check_ota` on a board whose on-chip application starts like a valid one, with a newer update
  -- record that names an application: afterwards the record in memory names the application that
  -- is in the on-chip flash, and this one is the complete image of the external flash, byte by
  -- byte; or else every image of the boot order was refused.
  pub check_ota-Ready :
      (b : Board nor rom)
      → b.onchip_app_valid ≡ true
      → (newer b).ota_info.current_app ≤ flash_app_id_max
      → Ready (check_ota crc nor rom b)
        ⊎ Refused (boot_order (newer b).ota_info.current_app) (newer b)
  unfolding load_newer
  check_ota-Ready b v h =
      subst (λ c. Ready c ⊎ Refused (boot_order (newer b).ota_info.current_app) (newer b))
        (sym (check_ota_first b h))
        (boot_in_lem (boot_order (newer b).ota_info.current_app) (newer b) v)

  boot_in_valid :
      (ids : List ℕ) (b : Board nor rom)
      → b.onchip_app_valid ≡ true
      → (boot_in crc nor rom ids b).onchip_app_valid ≡ true
  unfolding boot_in loaded
  boot_in_valid [] b v = v
  boot_in_valid (appid ∷ rest) b v =
      let t = try_load_flash_app crc nor rom appid b in
      elim (Bool-cases t.0) [
        | inl e ↦ elim (Bool-cases (t.1.ota_info.current_app == appid)) [
          | inl q ↦ rw (e, q) refl
          | inr q ↦ rw (e, q) refl
        ]
        | inr e ↦ rw e (boot_in_valid rest t.1 ((try_load-SameFlash crc nor rom appid b).2 ∙ v))
      ]

  check_ota_valid :
      (b : Board nor rom)
      → b.onchip_app_valid ≡ true
      → (check_ota crc nor rom b).onchip_app_valid ≡ true
  unfolding check_ota load_newer
  check_ota_valid b v =
      let second = load_newer crc nor rom (flip (newer b).otaid) (newer b) in
      elim (Bool-cases (leb (newer b).ota_info.current_app flash_app_id_max)) [
        | inl e ↦ rw e (boot_in_valid (boot_order (newer b).ota_info.current_app) (newer b) v)
        | inr e ↦ elim (Bool-cases (leb second.ota_info.current_app flash_app_id_max)) [
          | inl q ↦ rw (e, q) (boot_in_valid (boot_order second.ota_info.current_app) second v)
          | inr q ↦ rw (e, q) v
        ]
      ]

  start_taken :
      (b : Board nor rom)
      → b.dfu ≡ false
      → (check_ota crc nor rom b).onchip_app_valid ≡ true
      → start crc nor rom b ≡ (true, record (check_ota crc nor rom b) { dfu = false; ldr = false })
  unfolding start
  start_taken b d v = jump _ _ _ b.dfu (check_ota crc nor rom b).onchip_app_valid d v

  -- `main` without the force DFU flag, on a board whose on-chip application starts like a valid
  -- one, always jumps to the on-chip application: also when check_ota found no update record or
  -- failed to load or to program every image.
  pub start_jumps :
      (b : Board nor rom)
      → b.dfu ≡ false
      → b.onchip_app_valid ≡ true
      → (start crc nor rom b).0 ≡ true
  start_jumps b d v = ap (λ r. r.0) (start_taken b d (check_ota_valid b v))

  first_of :
      (current : ℕ) (rest : List ℕ) (b : Board nor rom)
      → b.onchip_app_valid ≡ false
      → Complete crc nor rom current b
      → ((boot_in crc nor rom (current ∷ rest) b).onchip_app_valid ≡ true)
        × ((boot_in crc nor rom (current ∷ rest) b).chip ≡ b.chip)
  unfolding boot_in loaded
  first_of current rest b v c =
      let t = try_load_flash_app_blank_reports crc nor rom current b v c in
      elim (Bool-cases (b.ota_info.current_app == current)) [
        | inl q ↦ rw (t, q) (refl, refl)
        | inr q ↦ rw (t, q) (refl, refl)
      ]

  first_image :
      (current : ℕ) (b : Board nor rom)
      → b.onchip_app_valid ≡ false
      → Complete crc nor rom current b
      → ((boot_in crc nor rom (boot_order current) b).onchip_app_valid ≡ true)
        × ((boot_in crc nor rom (boot_order current) b).chip ≡ b.chip)
  first_image current b v c =
      let o = boot_order_first current in
      subst
        (λ ids.
          ((boot_in crc nor rom ids b).onchip_app_valid ≡ true)
          × ((boot_in crc nor rom ids b).chip ≡ b.chip))
        (sym o.1) (first_of current o.0 b v c)

  -- `main` without the force DFU flag, on a board without a valid on-chip application, with a newer
  -- update record whose current application is complete in the external flash, jumps to the
  -- on-chip application although it has not programmed a byte of the on-chip flash.
  pub start_unprogrammed :
      (b : Board nor rom)
      → b.dfu ≡ false
      → b.onchip_app_valid ≡ false
      → (newer b).ota_info.current_app ≤ flash_app_id_max
      → Complete crc nor rom (newer b).ota_info.current_app (newer b)
      → ((start crc nor rom b).0 ≡ true) × ((start crc nor rom b).1.chip ≡ b.chip)
  unfolding load_newer
  start_unprogrammed b d v h c =
      let f = first_image (newer b).ota_info.current_app (newer b) v c in
      let e = check_ota_first b h in
      let st = start_taken b d (ap (λ c. c.onchip_app_valid) e ∙ f.0) in
      (ap (λ r. r.0) st, ap (λ r. r.1.chip) st ∙ ap (λ c. c.chip) e ∙ f.1)
