-- ===== src/Host/Catalog/Saved.antt =====
-- Saving, loading and removing the applications of the update server.
use stc_isp_demo.Prelude.{
  ℕ, suc, ◌+◌, ◌&&◌, Option, ◌≤◌, ◌<◌, ◌≡◌, ◌∙◌, refl, sym, ap, arith, true, false, not, List, [],
  ◌∷◌, ◌++◌, append_snoc, append-nil, none, some, length, Bool-cases, inl, inr, ◌==◌, ==_refl, ltb,
  if◌then◌else◌,
}
use stc_isp_demo.Device.Crc.{Crc32, crc_of}
use stc_isp_demo.Host.Server.{OtaApp, find}
use stc_isp_demo.Host.Catalog.{
  Catalog, Entry, put, newest, slot_remove_ota_app, read_entry, load_entry, load_apps,
  load_ota_config, save_app, save_apps, save_ota_config,
}
use stc_isp_demo.Host.Settings.{
  Settings, Key, key_path, key_version, key_timestamp, key_size, key_crc, key_latest_version,
  same_key, Group, at_top, at_index, same_group, Value, uint,
}
use stc_isp_demo.OtaInfo.Codec.{IsAppInfo, u32_bound}
use stc_isp_demo.Host.Catalog.Kept.{Rising, InVersionOrder, Whole, AllWhole, IsCatalog, find-erase}

-- Every version is below `v`.
abbrev AllLess : ℕ → List OtaApp → Type 0
AllLess v [] = Unit
AllLess v (a ∷ apps) = (a.info.version < v) × AllLess v apps

-- An application with a version above all others goes to the end.
put_last :
    (a : OtaApp) (apps : List OtaApp) → AllLess a.info.version apps → put a apps ≡ apps ++ (a ∷ [])
unfolding put
put_last a [] h = refl
put_last a (b ∷ bs) h = ground (arith, h.0, put_last a bs h.1)

AllLess-le : (v w : ℕ) (apps : List OtaApp) → v ≤ w → AllLess v apps → AllLess w apps
AllLess-le v w [] h l = tt
AllLess-le v w (a ∷ apps) h l = (omega (arith, l.0), AllLess-le v w apps h l.1)

AllLess-snoc :
    (w : ℕ) (apps : List OtaApp) (a : OtaApp)
    → a.info.version < w
    → AllLess w apps
    → AllLess w (apps ++ (a ∷ []))
AllLess-snoc w [] a h l = (h, tt)
AllLess-snoc w (b ∷ bs) a h l = (l.0, AllLess-snoc w bs a h l.1)

-- The loop over the applications finds the highest version.
abbrev pub AtMost : ℕ → List OtaApp → Type 0
AtMost v [] = Unit
AtMost v (a ∷ apps) = (a.info.version ≤ v) × AtMost v apps

-- What is read of an application that was saved.
abbrev saved : OtaApp → Entry
saved a = record { info = a.info; path = a.path }

module _ (crc : Crc32) (qt : Settings) (files : List ℕ → Option (List ℕ)) where
  -- The numbers have their C types, and the binaries can be opened and are unchanged.
  abbrev pub AllStored : List OtaApp → Type 0
  AllStored [] = Unit
  AllStored (a ∷ apps) = (IsAppInfo a.info × (files a.path ≡ some a.bin)) × AllStored apps

  -- The applications are in the groups from `i` on.
  abbrev Holds : ℕ → List OtaApp → qt.File → Type 0
  Holds i [] f = Unit
  Holds i (a ∷ apps) f = (read_entry crc qt files i f ≡ saved a) × Holds (i + 1) apps f

  -- An entry is read as before if its values are.
  read_same :
      (i : ℕ) (f g : qt.File)
      → ((k : Key) → qt.value (at_index i) k g ≡ qt.value (at_index i) k f)
      → read_entry crc qt files i g ≡ read_entry crc qt files i f
  unfolding read_entry
  read_same i f g h = λ x. record {
    path = qt.to_string (h key_path x);
    info = record {
      version = qt.to_uint (h key_version x);
      timestamp = qt.to_uint (h key_timestamp x);
      size = qt.to_uint (h key_size x);
      crc = qt.to_uint (h key_crc x);
    };
  }

  elsewhere :
      (k j : Key) (g h : Group) → same_group g h ≡ false → (same_key k j && same_group g h) ≡ false
  elsewhere k j g h e = ground (arith, e)

  -- An application that is saved leaves the values of the other groups.
  save_app_other :
      (i j : ℕ) (k : Key) (a : OtaApp) (f : qt.File)
      → (i == j) ≡ false
      → qt.value (at_index i) k (save_app qt j a f) ≡ qt.value (at_index i) k f
  unfolding save_app
  save_app_other i j k a f e =
      let here = λ (m : Key). elsewhere k m (at_index i) (at_index j) e in
      qt.other_lem (at_index i) (at_index j) k key_crc _ _ (here key_crc)
      ∙ qt.other_lem (at_index i) (at_index j) k key_size _ _ (here key_size)
      ∙ qt.other_lem (at_index i) (at_index j) k key_timestamp _ _ (here key_timestamp)
      ∙ qt.other_lem (at_index i) (at_index j) k key_version _ _ (here key_version)
      ∙ qt.other_lem (at_index i) (at_index j) k key_path _ _ (here key_path)

  save_apps_other :
      (i j : ℕ) (k : Key) (apps : List OtaApp) (f : qt.File)
      → i < j
      → qt.value (at_index i) k (save_apps qt j apps f) ≡ qt.value (at_index i) k f
  unfolding save_apps
  save_apps_other i j k [] f h = refl
  save_apps_other i j k (a ∷ apps) f h =
      save_apps_other i (j + 1) k apps (save_app qt j a f) (omega (arith, h))
      ∙ save_app_other i j k a f (ground (arith, h))

  -- A value in the group of another key
  beside :
      (i : ℕ) (k j : Key) (v : Value) (f : qt.File)
      → same_key k j ≡ false
      → qt.value (at_index i) k (qt.set_value (at_index i) j v f) ≡ qt.value (at_index i) k f
  beside i k j v f e = qt.other_lem (at_index i) (at_index i) k j v f (rw e refl)

  read_saved :
      (i : ℕ) (a : OtaApp) (f : qt.File)
      → IsAppInfo a.info
      → read_entry crc qt files i (save_app qt i a f) ≡ saved a
  unfolding read_entry save_app
  read_saved i a f h =
      let path =
        beside i key_path key_crc _ _ refl
        ∙ beside i key_path key_size _ _ refl
        ∙ beside i key_path key_timestamp _ _ refl
        ∙ beside i key_path key_version _ _ refl in
      let version =
        beside i key_version key_crc _ _ refl
        ∙ beside i key_version key_size _ _ refl
        ∙ beside i key_version key_timestamp _ _ refl in
      let timestamp =
        beside i key_timestamp key_crc _ _ refl ∙ beside i key_timestamp key_size _ _ refl in
      let e_path = ap qt.to_string path ∙ qt.text_lem (at_index i) key_path a.path f in
      let e_version =
        ap qt.to_uint version ∙ qt.uint_lem (at_index i) key_version a.info.version _ h.version in
      let e_timestamp =
        ap qt.to_uint timestamp
        ∙ qt.uint_lem (at_index i) key_timestamp a.info.timestamp _ h.timestamp in
      let e_size =
        ap qt.to_uint (beside i key_size key_crc _ _ refl)
        ∙ qt.uint_lem (at_index i) key_size a.info.size _ h.size in
      let e_crc = qt.uint_lem (at_index i) key_crc a.info.crc _ h.crc in
      λ x. record {
        path = e_path x;
        info = record {
          version = e_version x;
          timestamp = e_timestamp x;
          size = e_size x;
          crc = e_crc x;
        };
      }

  save_apps-Holds :
      (i : ℕ) (apps : List OtaApp) (f : qt.File)
      → AllStored apps
      → Holds i apps (save_apps qt i apps f)
  unfolding save_apps
  save_apps-Holds i [] f h = tt
  save_apps-Holds i (a ∷ apps) f h = (
    read_same i (save_app qt i a f) _
          (λ k. save_apps_other i (i + 1) k apps (save_app qt i a f) (omega arith))
        ∙ read_saved i a f h.0.0,
    save_apps-Holds (i + 1) apps (save_app qt i a f) h.1,
  )

  -- The version that is written behind the array leaves the array.
  Holds-latest :
      (i : ℕ) (apps : List OtaApp) (v : Value) (f : qt.File)
      → Holds i apps f
      → Holds i apps (qt.set_value at_top key_latest_version v f)
  Holds-latest i [] v f h = tt
  Holds-latest i (a ∷ apps) v f h = (
    read_same i f _ (λ k.
          qt.other_lem (at_index i) at_top k key_latest_version v f
            (elsewhere k key_latest_version (at_index i) at_top refl))
        ∙ h.0,
    Holds-latest (i + 1) apps v f h.1,
  )

  size_of_saved :
      (i : ℕ) (apps : List OtaApp) (f : qt.File)
      → qt.begin_read_array (save_apps qt i apps f) ≡ qt.begin_read_array f
  unfolding save_apps save_app
  size_of_saved i [] f = refl
  size_of_saved i (a ∷ apps) f =
      size_of_saved (i + 1) apps (save_app qt i a f)
      ∙ qt.size_kept _ _ _ _
      ∙ qt.size_kept _ _ _ _
      ∙ qt.size_kept _ _ _ _
      ∙ qt.size_kept _ _ _ _
      ∙ qt.size_kept _ _ _ _

  -- An entry whose binary is as it was is loaded.
  load_saved :
      (a : OtaApp) (apps : List OtaApp)
      → Whole crc a
      → files a.path ≡ some a.bin
      → load_entry crc qt files (saved a) apps ≡ put a apps
  unfolding load_entry
  load_saved a apps w b =
      let size : not (length a.bin == a.info.size) ≡ false = ground (arith, w.0) in
      let sum : not (crc_of crc a.bin == a.info.crc) ≡ false = ground (arith, w.1) in
      rw (b, load_entry) (rw (size, sum) refl)

  -- A round of the loop over an application that was saved
  load_round :
      (i : ℕ) (a : OtaApp) (f : qt.File) (done : List OtaApp)
      → Whole crc a
      → files a.path ≡ some a.bin
      → read_entry crc qt files i f ≡ saved a
      → load_entry crc qt files (read_entry crc qt files i f) done ≡ put a done
  load_round i a f done w b e = ap (λ x. load_entry crc qt files x done) e ∙ load_saved a done w b

  load_all :
      (apps done : List OtaApp) (v i : ℕ) (f : qt.File)
      → AllWhole crc apps
      → AllStored apps
      → Holds i apps f
      → Rising v apps
      → AllLess (suc v) done
      → load_apps crc qt files (length apps) i f done ≡ done ++ apps
  unfolding load_apps
  load_all [] done v i f w b h r l = sym (append-nil done)
  load_all (a ∷ apps) done v i f w b h r l =
      ap (load_apps crc qt files (length apps) (i + 1) f) (
        load_round i a f done w.0 b.0.1 h.0
        ∙ put_last a done (AllLess-le (suc v) a.info.version done (omega (arith, r.0)) l))
      ∙ load_all apps (done ++ (a ∷ [])) a.info.version (i + 1) f w.1 b.1 h.1 r.1 (
          AllLess-snoc (suc a.info.version) done a (omega arith)
            (AllLess-le (suc v) (suc a.info.version) done (omega (arith, r.0)) l))
      ∙ append_snoc done a apps

  load_start :
      (apps : List OtaApp) (f : qt.File)
      → AllWhole crc apps
      → AllStored apps
      → Holds 0 apps f
      → InVersionOrder apps
      → load_apps crc qt files (length apps) 0 f [] ≡ apps
  unfolding load_apps put
  load_start [] f w b h r = refl
  load_start (a ∷ apps) f w b h r =
      ap (load_apps crc qt files (length apps) 1 f) (load_round 0 a f [] w.0 b.0.1 h.0)
      ∙ load_all apps (a ∷ []) a.info.version 1 f w.1 b.1 h.1 r (omega arith, tt)

  -- A catalog that is saved, over whatever the file of settings held, is loaded again as it was: every
  -- application with its record, path and binary, and the latest version. It is in order and whole,
  -- its numbers fit their C types, and the binaries can be opened and are unchanged.
  pub load-save :
      (c : Catalog) (f : qt.File)
      → IsCatalog crc c
      → AllStored c.ota_apps
      → c.ota_latest_version < u32_bound
      → load_ota_config crc qt files (save_ota_config qt c f) ≡ c
  unfolding load_ota_config save_ota_config
  load-save c f h b l =
      let start = qt.begin_write_array (length c.ota_apps) f in
      let arr = save_apps qt 0 c.ota_apps start in
      let full = qt.set_value at_top key_latest_version (uint c.ota_latest_version) arr in
      let n : qt.begin_read_array full ≡ length c.ota_apps =
        qt.size_kept _ _ _ _
        ∙ size_of_saved 0 c.ota_apps start
        ∙ qt.size_lem (length c.ota_apps) f in
      let held =
        Holds-latest 0 c.ota_apps (uint c.ota_latest_version) arr
          (save_apps-Holds 0 c.ota_apps start b) in
      let all =
        ap (λ m. load_apps crc qt files m 0 full []) n
        ∙ load_start c.ota_apps full h.whole b held h.ordered in
      let latest = qt.uint_lem at_top key_latest_version c.ota_latest_version arr l in
      λ i. record { ota_apps = all i; ota_latest_version = latest i }

module _ (crc : Crc32) where
  newest-le : (v w : ℕ) (apps : List OtaApp) → w ≤ v → AtMost v apps → newest w apps ≤ v
  unfolding newest
  newest-le v w [] h m = h
  newest-le v w (a ∷ apps) h m =
      newest-le v (if ltb w a.info.version then a.info.version else w) apps (ground (arith, h, m.0))
        m.1

  newest-ge : (w : ℕ) (apps : List OtaApp) → w ≤ newest w apps
  unfolding newest
  newest-ge w [] = omega arith
  newest-ge w (a ∷ apps) =
      let next = if ltb w a.info.version then a.info.version else w in
      let up : w ≤ next = ground arith in omega (arith, up, newest-ge next apps)

  newest-ge-find :
      (v w : ℕ) (apps : List OtaApp) (a : OtaApp) → find v apps ≡ some a → v ≤ newest w apps
  unfolding newest
  newest-ge-find v w [] a e = cc
  newest-ge-find v w (b ∷ bs) a e =
      let next = if ltb w b.info.version then b.info.version else w in
      elim (Bool-cases (b.info.version == v)) [
        | inl t ↦ let up : v ≤ next = ground (arith, t) in omega (arith, up, newest-ge next bs)
        | inr t ↦ newest-ge-find v next bs a (rw t at e)
      ]

  -- After the removal of the application with the latest version, the highest of all, the latest
  -- version is still the removed one, which the server no longer has.
  pub slot_remove_latest :
      (v : ℕ) (a : OtaApp) (c : Catalog)
      → c.ota_latest_version ≡ v
      → find v c.ota_apps ≡ some a
      → AtMost v c.ota_apps
      → ((slot_remove_ota_app crc v c).ota_latest_version ≡ v)
        × (find v (slot_remove_ota_app crc v c).ota_apps ≡ none)
  unfolding slot_remove_ota_app
  slot_remove_latest v a c e f m =
      let top : newest 0 c.ota_apps ≡ v =
        omega
          (arith, newest-le v 0 c.ota_apps (omega arith) m, newest-ge-find v 0 c.ota_apps a f) in
      let this : (v == c.ota_latest_version) ≡ true = rw e (==_refl v) in
      (rw this top, find-erase v c.ota_apps)
