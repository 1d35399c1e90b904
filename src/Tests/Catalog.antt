-- ===== src/Tests/Catalog.antt =====
-- The applications of the update server, with one application of two bytes.
use stc_isp_demo.Prelude.{
  ℕ, ◌≡◌, refl, arith, true, false, ◌&&◌, ◌||◌, List, [], ◌∷◌, Option, none, some, ◌==◌, ==_refl,
  if◌then◌else◌,
}
use stc_isp_demo.Host.Server.{OtaApp}
use stc_isp_demo.Host.Catalog.{
  Catalog, add, create_ota_app_by_meta_and_bin, slot_add_ota_app, load_ota_config, save_ota_config,
}
use stc_isp_demo.Host.Catalog.Kept.{IsCatalog, Act, adds, removes, loads, acts, acts-IsCatalog}
use stc_isp_demo.Host.Catalog.Saved.{AllStored, load-save}
use stc_isp_demo.Host.Settings.{
  Settings, Key, key_number, same_key, Group, at_top, at_index, same_group, Value, uint, text,
}
use stc_isp_demo.OtaInfo.Codec.{IsAppInfo}
use stc_isp_demo.Tests.Devices.{sum_crc}
use stc_isp_demo.Tests.Samples.{image, image_info}

-- The path of the copy of a binary, by its version.
abbrev path_of : ℕ → List ℕ
path_of v = v ∷ 46 ∷ 98 ∷ []

-- A file of settings is the length of its array and a value under each key of each group.
abbrev values_of : Settings
values_of = record {
  File = ℕ × (Group → Key → Value);
  Variant = Value;
  to_uint = λ v. elim v [ uint n ↦ n | text s ↦ 0 ];
  to_string = λ v. elim v [ uint n ↦ [] | text s ↦ s ];
  begin_write_array = λ n f. (n, f.1);
  begin_read_array = λ f. f.0;
  set_value = λ h j v f. (f.0, λ g k. if same_key k j && same_group g h then v else f.1 g k);
  value = λ g k f. f.1 g k;
  uint_lem = λ g k n f l. rw (same_place g k) refl;
  text_lem = λ g k s f. rw (same_place g k) refl;
  other_lem = λ g h k j v f e. rw e refl;
  size_lem = λ n f. refl;
  size_kept = λ g k v f. refl;
}
  where
    same_place : (g : Group) (k : Key) → (same_key k k && same_group g g) ≡ true
    same_place at_top k = rw (==_refl (key_number k)) refl
    same_place (at_index i) k = rw (==_refl (key_number k), ==_refl i) refl

abbrev no_values : values_of.File
no_values = (7, λ g k. uint 5)

-- The two copies can be opened.
abbrev files : List ℕ → Option (List ℕ)
files [] = none
files (v ∷ rest) = if (v == 3) || (v == 16777216) then some image else none

abbrev app : OtaApp
app = record { info = image_info; path = path_of 16777216; bin = image }

abbrev older : OtaApp
older = record { info = record image_info { version = 3 }; path = path_of 3; bin = image }

-- The bytes of the metadata of `app`.
abbrev mdat : List ℕ
mdat = 0 ∷ 0 ∷ 0 ∷ 2 ∷ 0 ∷ 0 ∷ 4 ∷ 163 ∷ 0 ∷ 0 ∷ 0 ∷ 4 ∷ 1 ∷ 0 ∷ 0 ∷ 0 ∷ []

abbrev one : Catalog
one = record { ota_apps = older ∷ []; ota_latest_version = 3 }

abbrev two : Catalog
two = record { ota_apps = older ∷ app ∷ []; ota_latest_version = 16777216 }

one-IsCatalog : IsCatalog sum_crc one
one-IsCatalog = record { ordered = tt; whole = ((refl, refl), tt) }

two-IsCatalog : IsCatalog sum_crc two
two-IsCatalog = record { ordered = (omega arith, tt); whole = ((refl, refl), ((refl, refl), tt)) }

created : create_ota_app_by_meta_and_bin sum_crc mdat (path_of 16777216) image ≡ some app
unfolding create_ota_app_by_meta_and_bin
created = refl

added : slot_add_ota_app sum_crc path_of false true mdat [] image one ≡ two
unfolding slot_add_ota_app create_ota_app_by_meta_and_bin add
added = refl

abbrev some_acts : List (Act sum_crc values_of path_of)
some_acts =
    adds true true mdat [] image
    ∷ removes 3
    ∷ loads files (save_ota_config values_of two no_values)
    ∷ []

acts-IsCatalog_example : IsCatalog sum_crc (acts sum_crc values_of path_of some_acts one)
acts-IsCatalog_example = acts-IsCatalog sum_crc values_of path_of some_acts one one-IsCatalog

app-IsAppInfo : IsAppInfo app.info
app-IsAppInfo = record {
  size = omega arith;
  crc = omega arith;
  timestamp = omega arith;
  version = omega arith;
}

older-IsAppInfo : IsAppInfo older.info
older-IsAppInfo = record {
  size = omega arith;
  crc = omega arith;
  timestamp = omega arith;
  version = omega arith;
}

two-AllStored : AllStored sum_crc values_of files two.ota_apps
two-AllStored = ((older-IsAppInfo, refl), ((app-IsAppInfo, refl), tt))

load-save_example :
    load_ota_config sum_crc values_of files (save_ota_config values_of two no_values) ≡ two
load-save_example =
    load-save sum_crc values_of files two no_values two-IsCatalog two-AllStored (omega arith)
