-- ===== src/Host/Settings.antt =====
-- What programmer/programmer/programmer.cpp relies on of QSettings, which is code of Qt: a file of values
-- under keys, some of them in an array of groups.
use stc_isp_demo.Prelude.{ℕ, ◌<◌, ◌≡◌, Bool, true, false, ◌&&◌, List, ◌==◌}

-- The keys of `saveOtaConfig` and `loadOtaConfig`
pub data Key : Type 0 where
  key_path key_version key_timestamp key_size key_crc key_latest_version : Key

abbrev pub key_number : Key → ℕ
key_number key_path = 0
key_number key_version = 1
key_number key_timestamp = 2
key_number key_size = 3
key_number key_crc = 4
key_number key_latest_version = 5

abbrev pub same_key : Key → Key → Bool
same_key k j = key_number k == key_number j

-- Outside the array, or behind `setArrayIndex(i)`
pub data Group : Type 0 where
  at_top : Group
  at_index : ℕ → Group

abbrev pub same_group : Group → Group → Bool
same_group at_top at_top = true
same_group (at_index i) (at_index j) = i == j
same_group _ _ = false

-- A `QString` is the list of its characters.
pub data Value : Type 0 where
  uint : ℕ → Value
  text : List ℕ → Value

pub record Settings : Type 1 where
  pub File : Type 0
  pub Variant : Type 0
  pub to_uint : Variant → ℕ
  pub to_string : Variant → List ℕ
  pub begin_write_array : ℕ → File → File
  pub begin_read_array : File → ℕ
  pub set_value : Group → Key → Value → File → File
  pub value : Group → Key → File → Variant
  -- A value is read as it was set last,
  pub uint_lem :
      (g : Group) (k : Key) (n : ℕ) (f : File)
      → n < 4294967296
      → to_uint (value g k (set_value g k (uint n) f)) ≡ n
  pub text_lem :
      (g : Group) (k : Key) (s : List ℕ) (f : File)
      → to_string (value g k (set_value g k (text s) f)) ≡ s
  -- and one under another key or in another group stays.
  pub other_lem :
      (g h : Group) (k j : Key) (v : Value) (f : File)
      → (same_key k j && same_group g h) ≡ false
      → value g k (set_value h j v f) ≡ value g k f
  pub size_lem : (n : ℕ) (f : File) → begin_read_array (begin_write_array n f) ≡ n
  pub size_kept :
      (g : Group) (k : Key) (v : Value) (f : File)
      → begin_read_array (set_value g k v f) ≡ begin_read_array f
