-- ===== src/Host/Catalog/Kept.antt =====
-- What holds of the applications of the update server after each operation.
use stc_isp_demo.Prelude.{
  ℕ, zero, suc, ◌+◌, Option, ◌≤◌, ◌<◌, ◌≡◌, ◌⊎◌, ◌∙◌, refl, sym, ap, subst, arith, Bool, true,
  false, not, ◌&&◌, List, [], ◌∷◌, none, some, length, Bool-cases, Option-cases, inl, inr, ◌==◌,
  ltb,
}
use stc_isp_demo.Device.Crc.{Crc32, crc_of}
use stc_isp_demo.Device.Memory.{AllBytes}
use stc_isp_demo.Host.Server.{OtaApp, find}
use stc_isp_demo.Host.Catalog.{
  Catalog, put, erase, has_key, Entry, create_ota_app_by_meta_and_bin, add, slot_add_ota_app,
  slot_remove_ota_app, read_entry, load_entry, load_apps, load_ota_config,
}
use stc_isp_demo.Host.Settings.{Settings}
use stc_isp_demo.Update.{Serves}

-- The versions rise, and the first one is above `v`.
abbrev pub Rising : ℕ → List OtaApp → Type 0
Rising v [] = Unit
Rising v (a ∷ apps) = (v < a.info.version) × Rising a.info.version apps

-- As `Rising`, with no bound on the first one.
abbrev pub InVersionOrder : List OtaApp → Type 0
InVersionOrder [] = Unit
InVersionOrder (a ∷ apps) = Rising a.info.version apps

put-Rising :
    (v : ℕ) (a : OtaApp) (apps : List OtaApp)
    → v < a.info.version
    → Rising v apps
    → Rising v (put a apps)
unfolding put
put-Rising v a [] h r = (h, tt)
put-Rising v a (b ∷ bs) h r = elim (Bool-cases (a.info.version == b.info.version)) [
  | inl e ↦
      let same : b.info.version ≡ a.info.version = ground (arith, e) in
      rw e (h, subst (λ k. Rising k bs) same r.1)
  | inr n ↦ elim (Bool-cases (ltb a.info.version b.info.version)) [
    | inl l ↦ rw (n, l) (h, (ground (arith, l), r.1))
    | inr l ↦ rw (n, l) (r.0, put-Rising b.info.version a bs (ground (arith, l, n)) r.1)
  ]
]

put-InVersionOrder :
    (a : OtaApp) (apps : List OtaApp) → InVersionOrder apps → InVersionOrder (put a apps)
unfolding put
put-InVersionOrder a [] r = tt
put-InVersionOrder a (b ∷ bs) r = elim (Bool-cases (a.info.version == b.info.version)) [
  | inl e ↦
      let same : b.info.version ≡ a.info.version = ground (arith, e) in
      rw e (subst (λ k. Rising k bs) same r)
  | inr n ↦ elim (Bool-cases (ltb a.info.version b.info.version)) [
    | inl l ↦ rw (n, l) (ground (arith, l), r)
    | inr l ↦ rw (n, l) (put-Rising b.info.version a bs (ground (arith, l, n)) r)
  ]
]

Rising-le : (v w : ℕ) (apps : List OtaApp) → v ≤ w → Rising w apps → Rising v apps
Rising-le v w [] h r = tt
Rising-le v w (a ∷ apps) h r = (omega (arith, r.0), r.1)

erase-Rising : (v w : ℕ) (apps : List OtaApp) → Rising v apps → Rising v (erase w apps)
unfolding erase
erase-Rising v w [] r = tt
erase-Rising v w (b ∷ bs) r = elim (Bool-cases (b.info.version == w)) [
  | inl e ↦ rw e (
      Rising-le v b.info.version (erase w bs) (omega (arith, r.0))
        (erase-Rising b.info.version w bs r.1))
  | inr n ↦ rw n (r.0, erase-Rising b.info.version w bs r.1)
]

erase-InVersionOrder :
    (w : ℕ) (apps : List OtaApp) → InVersionOrder apps → InVersionOrder (erase w apps)
unfolding erase
erase-InVersionOrder w [] r = tt
erase-InVersionOrder w (b ∷ bs) r = elim (Bool-cases (b.info.version == w)) [
  | inl e ↦ rw e (from_Rising b.info.version (erase w bs) (erase-Rising b.info.version w bs r))
  | inr n ↦ rw n (erase-Rising b.info.version w bs r)
]
  where
    from_Rising : (v : ℕ) (apps : List OtaApp) → Rising v apps → InVersionOrder apps
    from_Rising v [] r = tt
    from_Rising v (a ∷ apps) r = r.1

-- An application is found under its version as soon as it is stored.
pub find-put : (a : OtaApp) (apps : List OtaApp) → find a.info.version (put a apps) ≡ some a
unfolding put
find-put a [] = ground arith
find-put a (b ∷ bs) = ground (arith, find-put a bs)

pub find-erase : (v : ℕ) (apps : List OtaApp) → find v (erase v apps) ≡ none
unfolding erase
find-erase v [] = refl
find-erase v (b ∷ bs) = ground (arith, find-erase v bs)

module _ (crc : Crc32) where
  -- The binary has the size and the check sum of the record.
  abbrev pub Whole : OtaApp → Type 0
  Whole a = (a.info.size ≡ length a.bin) × (a.info.crc ≡ crc_of crc a.bin)

  abbrev pub AllWhole : List OtaApp → Type 0
  AllWhole [] = Unit
  AllWhole (a ∷ apps) = Whole a × AllWhole apps

  pub record IsCatalog (c : Catalog) : Type 0 where
    pub ordered : InVersionOrder c.ota_apps
    pub whole : AllWhole c.ota_apps

  put-AllWhole : (a : OtaApp) (apps : List OtaApp) → Whole a → AllWhole apps → AllWhole (put a apps)
  unfolding put
  put-AllWhole a [] w h = (w, tt)
  put-AllWhole a (b ∷ bs) w h = elim (Bool-cases (a.info.version == b.info.version)) [
    | inl e ↦ rw e (w, h.1)
    | inr n ↦ elim (Bool-cases (ltb a.info.version b.info.version)) [
      | inl l ↦ rw (n, l) (w, h)
      | inr l ↦ rw (n, l) (h.0, put-AllWhole a bs w h.1)
    ]
  ]

  erase-AllWhole : (v : ℕ) (apps : List OtaApp) → AllWhole apps → AllWhole (erase v apps)
  unfolding erase
  erase-AllWhole v [] h = tt
  erase-AllWhole v (b ∷ bs) h = elim (Bool-cases (b.info.version == v)) [
    | inl e ↦ rw e (erase-AllWhole v bs h.1)
    | inr n ↦ rw n (h.0, erase-AllWhole v bs h.1)
  ]

  pub create-Whole :
      (mdat bin_path bdat : List ℕ) (a : OtaApp)
      → create_ota_app_by_meta_and_bin crc mdat bin_path bdat ≡ some a
      → Whole a
  unfolding create_ota_app_by_meta_and_bin
  create-Whole mdat bin_path bdat a h = ground arith

  create_bin :
      (mdat bin_path bdat : List ℕ) (a : OtaApp)
      → create_ota_app_by_meta_and_bin crc mdat bin_path bdat ≡ some a
      → a.bin ≡ bdat
  unfolding create_ota_app_by_meta_and_bin
  create_bin mdat bin_path bdat a h = ground arith

  add-IsCatalog : (a : OtaApp) (c : Catalog) → Whole a → IsCatalog c → IsCatalog (add crc a c)
  unfolding add
  add-IsCatalog a c w h = record {
    ordered = put-InVersionOrder a c.ota_apps h.ordered;
    whole = put-AllWhole a c.ota_apps w h.whole;
  }

  module _ (newpath : ℕ → List ℕ) where
    -- The application as it is stored, with the path of the copy of its binary.
    abbrev pub copy_of : OtaApp → OtaApp
    copy_of a = record a { path = newpath a.info.version }

    slot_add-add :
        (replace copied : Bool) (mdat userapp bdat : List ℕ) (c : Catalog) (a : OtaApp)
        → create_ota_app_by_meta_and_bin crc mdat userapp bdat ≡ some a
        → (has_key a.info.version c.ota_apps && not replace) ≡ false
        → copied ≡ true
        → slot_add_ota_app crc newpath replace copied mdat userapp bdat c ≡ add crc (copy_of a) c
    unfolding slot_add_ota_app
    slot_add-add replace copied mdat userapp bdat c a e n k =
        rw (e, slot_add_ota_app) (rw (n, k) refl)

    -- The catalog stays as it is, or an accepted application is added.
    slot_add_cases :
        (replace copied : Bool) (mdat userapp bdat : List ℕ) (c : Catalog)
        → (slot_add_ota_app crc newpath replace copied mdat userapp bdat c ≡ c)
          ⊎ ((a : OtaApp) × (create_ota_app_by_meta_and_bin crc mdat userapp bdat ≡ some a)
              × (slot_add_ota_app crc newpath replace copied mdat userapp bdat c
                  ≡ add crc (copy_of a) c))
    unfolding slot_add_ota_app
    slot_add_cases replace copied mdat userapp bdat c =
        elim (Option-cases (create_ota_app_by_meta_and_bin crc mdat userapp bdat)) [
          | inl e ↦ inl (rw (e, slot_add_ota_app) refl)
          | inr (a, e) ↦ elim (Bool-cases (has_key a.info.version c.ota_apps && not replace)) [
            | inl t ↦ inl (rw (e, slot_add_ota_app) (rw t refl))
            | inr t ↦ elim (Bool-cases copied) [
              | inl k ↦ inr (a, e, slot_add-add replace copied mdat userapp bdat c a e t k)
              | inr k ↦ inl (rw (e, slot_add_ota_app) (rw (t, k) refl))
            ]
          ]
        ]

    slot_add-IsCatalog :
        (replace copied : Bool) (mdat userapp bdat : List ℕ) (c : Catalog)
        → IsCatalog c
        → IsCatalog (slot_add_ota_app crc newpath replace copied mdat userapp bdat c)
    slot_add-IsCatalog replace copied mdat userapp bdat c h =
        elim (slot_add_cases replace copied mdat userapp bdat c) [
          | inl e ↦ subst IsCatalog (sym e) h
          | inr (a, e, f) ↦
              subst IsCatalog (sym f)
                (add-IsCatalog (copy_of a) c (create-Whole mdat userapp bdat a e) h)
        ]

module _ (crc : Crc32) (qt : Settings) (files : List ℕ → Option (List ℕ)) where
  -- Entries leave what is loaded so far in order and whole.
  load_entry_lem :
      (e : Entry) (apps : List OtaApp)
      → InVersionOrder apps × AllWhole crc apps
      → InVersionOrder (load_entry crc qt files e apps)
        × AllWhole crc (load_entry crc qt files e apps)
  unfolding load_entry
  load_entry_lem e apps h = elim (Option-cases (files e.path)) [
    | inl f ↦ rw (f, load_entry) h
    | inr (bdat, f) ↦ elim (Bool-cases (not (length bdat == e.info.size))) [
      | inl t ↦ rw (f, load_entry) (rw t h)
      | inr t ↦ elim (Bool-cases (not (crc_of crc bdat == e.info.crc))) [
        | inl u ↦ rw (f, load_entry) (rw (t, u) h)
        | inr u ↦
            let a : OtaApp = record { info = e.info; path = e.path; bin = bdat } in
            let w : Whole crc a = (ground (arith, t), ground (arith, u)) in
            rw (f, load_entry)
              (rw (t, u) (put-InVersionOrder a apps h.0, put-AllWhole crc a apps w h.1))
      ]
    ]
  ]

  load_apps_lem :
      (n i : ℕ) (f : qt.File) (apps : List OtaApp)
      → InVersionOrder apps × AllWhole crc apps
      → InVersionOrder (load_apps crc qt files n i f apps)
        × AllWhole crc (load_apps crc qt files n i f apps)
  unfolding load_apps
  load_apps_lem zero i f apps h = h
  load_apps_lem (suc n) i f apps h =
      let e = read_entry crc qt files i f in
      load_apps_lem n (i + 1) f (load_entry crc qt files e apps) (load_entry_lem e apps h)

module _ (crc : Crc32) (qt : Settings) (newpath : ℕ → List ℕ) where
  -- What the user does with the applications; a file of settings is loaded with the files that can be
  -- opened then.
  pub data Act : Type 0 where
    adds : Bool → Bool → List ℕ → List ℕ → List ℕ → Act
    removes : ℕ → Act
    loads : (List ℕ → Option (List ℕ)) → qt.File → Act

  unfoldable pub act : Act → Catalog → Catalog
  unfolding slot_add_ota_app slot_remove_ota_app load_ota_config
  act (adds replace copied mdat userapp bdat) c =
      slot_add_ota_app crc newpath replace copied mdat userapp bdat c
  act (removes v) c = slot_remove_ota_app crc v c
  act (loads files f) c = load_ota_config crc qt files f

  unfoldable pub acts : List Act → Catalog → Catalog
  unfolding act
  acts [] c = c
  acts (a ∷ as') c = acts as' (act a c)

  act-IsCatalog : (a : Act) (c : Catalog) → IsCatalog crc c → IsCatalog crc (act a c)
  unfolding act slot_remove_ota_app load_ota_config
  act-IsCatalog (adds replace copied mdat userapp bdat) c h =
      slot_add-IsCatalog crc newpath replace copied mdat userapp bdat c h
  act-IsCatalog (removes v) c h = record {
    ordered = erase-InVersionOrder v c.ota_apps h.ordered;
    whole = erase-AllWhole crc v c.ota_apps h.whole;
  }
  act-IsCatalog (loads files f) c h =
      let k = load_apps_lem crc qt files (qt.begin_read_array f) 0 f [] (tt, tt) in
      record { ordered = k.0; whole = k.1 }

  -- However applications are added, removed and loaded, the server keeps them in the order of
  -- their versions, each version once, and each with a binary of the size and check sum that its
  -- record names.
  pub acts-IsCatalog : (as' : List Act) (c : Catalog) → IsCatalog crc c → IsCatalog crc (acts as' c)
  unfolding acts
  acts-IsCatalog [] c h = h
  acts-IsCatalog (a ∷ as') c h = acts-IsCatalog as' (act a c) (act-IsCatalog a c h)

module _ (crc : Crc32) where
  -- An application whose metadata and binary are accepted, whose version is new or is to be
  -- replaced, and whose file is copied, is what a server that is not suspended gives to every
  -- client that asks for this version.
  pub slot_add-Serves :
      (newpath : ℕ → List ℕ) (replace copied : Bool) (mdat userapp bdat : List ℕ) (c : Catalog)
      (a : OtaApp)
      → create_ota_app_by_meta_and_bin crc mdat userapp bdat ≡ some a
      → (has_key a.info.version c.ota_apps && not replace) ≡ false
      → copied ≡ true
      → AllBytes bdat
      → let d = slot_add_ota_app crc newpath replace copied mdat userapp bdat c in
        Serves crc (record { suspended = false; ota_apps = d.ota_apps }) (copy_of crc newpath a)
  unfolding add
  slot_add-Serves newpath replace copied mdat userapp bdat c a e n k b =
      let w = create-Whole crc mdat userapp bdat a e in
      let same : a.bin ≡ bdat = create_bin crc mdat userapp bdat a e in
      record {
        open_to_all = refl;
        found =
            ap (λ (x : Catalog). find a.info.version x.ota_apps)
              (slot_add-add crc newpath replace copied mdat userapp bdat c a e n k)
            ∙ find-put (copy_of crc newpath a) c.ota_apps;
        size = w.0;
        sum = w.1;
        bytes = subst AllBytes (sym same) b;
      }
