-- ===== src/Host/Catalog.antt =====
-- The applications that the update server offers: createOtaAppByMetaAndBin, slotAddOtaApp,
-- slotRemoveOtaApp, loadOtaConfig and saveOtaConfig of programmer/programmer/programmer.cpp. What the
-- user answers, whether a file can be copied, the path of the copy, and the bytes of files are arguments;
-- the list that the window shows is left out.
pub mod Kept
pub mod Saved
use stc_isp_demo.Prelude.{
  ℕ, zero, suc, ◌+◌, Bool, true, false, not, ◌&&◌, ◌||◌, List, [], ◌∷◌, Option, none, some, length,
  ◌==◌, ltb, if◌then◌else◌,
}
use stc_isp_demo.Device.Crc.{Crc32, crc_of}
use stc_isp_demo.OtaInfo.{AppInfo, app_at}
use stc_isp_demo.Host.Server.{OtaApp, find}
use stc_isp_demo.Host.Image.{e2_max_size}
use stc_isp_demo.Host.Settings.{
  Settings, Key, at_top, at_index, key_path, key_version, key_timestamp, key_size, key_crc,
  key_latest_version, uint, text,
}

-- `ota_apps`, in the order of the versions, and `ota_latest_version`
pub record Catalog : Type 0 where
  pub ota_apps : List OtaApp
  pub ota_latest_version : ℕ

-- `ota_apps[app.info.version] = app`
unfoldable pub put : OtaApp → List OtaApp → List OtaApp
put a [] = a ∷ []
put a (b ∷ bs) =
    let rest = put a bs in
    if a.info.version == b.info.version
    then a ∷ bs
    else if ltb a.info.version b.info.version
    then a ∷ (b ∷ bs)
    else b ∷ rest

-- `ota_apps.erase(version)`
unfoldable pub erase : ℕ → List OtaApp → List OtaApp
erase v [] = []
erase v (b ∷ bs) = let rest = erase v bs in if b.info.version == v then rest else b ∷ rest

abbrev pub has_key : ℕ → List OtaApp → Bool
has_key v apps = elim (find v apps) [ none ↦ false | some a ↦ true ]

-- The loop in `slotRemoveOtaApp` over all applications.
unfoldable pub newest : ℕ → List OtaApp → ℕ
newest v [] = v
newest v (a ∷ apps) = newest (if ltb v a.info.version then a.info.version else v) apps

-- What `loadOtaConfig` reads of an application before it opens its binary.
pub record Entry : Type 0 where
  pub info : AppInfo
  pub path : List ℕ

module _ (crc : Crc32) where
  -- `false` with a message is `none`.
  unfoldable pub create_ota_app_by_meta_and_bin : List ℕ → List ℕ → List ℕ → Option OtaApp
  create_ota_app_by_meta_and_bin mdat bin_path bdat =
      let meta = app_at mdat 0 in
      if ltb e2_max_size (length bdat)
      then none
      else if not (length mdat == 16)
      then none
      else if not (meta.size == length bdat)
      then none
      else if not (meta.crc == crc_of crc bdat)
      then none
      else some (record { info = meta; path = bin_path; bin = bdat })

  unfoldable pub add : OtaApp → Catalog → Catalog
  unfolding put
  add a c = record {
    ota_apps = put a c.ota_apps;
    ota_latest_version =
        if c.ota_latest_version == 0 || ltb c.ota_latest_version a.info.version
        then a.info.version
        else c.ota_latest_version;
  }

  -- `replace` is the user's answer, and `copied` the outcome of the copy of the binary to `newpath`,
  -- which depends on the version.
  unfoldable pub slot_add_ota_app :
      (ℕ → List ℕ) → Bool → Bool → List ℕ → List ℕ → List ℕ → Catalog → Catalog
  slot_add_ota_app newpath replace copied mdat userapp bdat c =
      elim (create_ota_app_by_meta_and_bin mdat userapp bdat) [
        | none ↦ c
        | some a ↦
            if has_key a.info.version c.ota_apps && not replace
            then c
            else if copied
            then add (record a { path = newpath a.info.version }) c
            else c
      ]

  -- The version is that of the selected item.
  unfoldable pub slot_remove_ota_app : ℕ → Catalog → Catalog
  unfolding erase newest
  slot_remove_ota_app v c = record {
    ota_apps = erase v c.ota_apps;
    ota_latest_version =
        if v == c.ota_latest_version then newest 0 c.ota_apps else c.ota_latest_version;
  }

module _ (crc : Crc32) (qt : Settings) (files : List ℕ → Option (List ℕ)) where
  -- The reads by key; `files` has the bytes of the files that can be opened.
  unfoldable pub read_entry : ℕ → qt.File → Entry
  read_entry i f =
      let value = λ (k : Key). qt.value (at_index i) k f in
      record {
        path = qt.to_string (value key_path);
        info = record {
          version = qt.to_uint (value key_version);
          timestamp = qt.to_uint (value key_timestamp);
          size = qt.to_uint (value key_size);
          crc = qt.to_uint (value key_crc);
        };
      }

  -- The tests of the binary, and the application where they succeed
  unfoldable pub load_entry : Entry → List OtaApp → List OtaApp
  unfolding put
  load_entry e apps = elim (files e.path) [
    | none ↦ apps
    | some bdat ↦
        if not (length bdat == e.info.size)
        then apps
        else if not (crc_of crc bdat == e.info.crc)
        then apps
        else put (record { info = e.info; path = e.path; bin = bdat }) apps
  ]

  -- `n` rounds of the loop, from the index `i` on
  unfoldable pub load_apps : ℕ → ℕ → qt.File → List OtaApp → List OtaApp
  unfolding load_entry read_entry
  load_apps zero i f apps = apps
  load_apps (suc n) i f apps = load_apps n (i + 1) f (load_entry (read_entry i f) apps)

  -- `loadOtaConfig` on a file that is there
  unfoldable pub load_ota_config : qt.File → Catalog
  unfolding load_apps
  load_ota_config f = record {
    ota_apps = load_apps (qt.begin_read_array f) 0 f [];
    ota_latest_version = qt.to_uint (qt.value at_top key_latest_version f);
  }

module _ (qt : Settings) where
  -- The body of the loop of `saveOtaConfig`
  unfoldable pub save_app : ℕ → OtaApp → qt.File → qt.File
  save_app i a f =
      let f1 = qt.set_value (at_index i) key_path (text a.path) f in
      let f2 = qt.set_value (at_index i) key_version (uint a.info.version) f1 in
      let f3 = qt.set_value (at_index i) key_timestamp (uint a.info.timestamp) f2 in
      let f4 = qt.set_value (at_index i) key_size (uint a.info.size) f3 in
      qt.set_value (at_index i) key_crc (uint a.info.crc) f4

  unfoldable pub save_apps : ℕ → List OtaApp → qt.File → qt.File
  unfolding save_app
  save_apps i [] f = f
  save_apps i (a ∷ apps) f = save_apps (i + 1) apps (save_app i a f)

  -- `saveOtaConfig` on a file with any contents
  unfoldable pub save_ota_config : Catalog → qt.File → qt.File
  unfolding save_apps
  save_ota_config c f =
      qt.set_value at_top key_latest_version (uint c.ota_latest_version)
        (save_apps 0 c.ota_apps (qt.begin_write_array (length c.ota_apps) f))
