-- ===== src/Host/Convert.antt =====
-- The converter from a hex file to an application image and its metadata record
-- (programmer/hex2metabin/main.cpp), on the numbers of its options and the snippets of the file;
-- the hex parser is another project's code.
pub mod Merged
pub mod Accepted
pub mod RoundTrip
pub mod Patched
use stc_isp_demo.Prelude.{
  ℕ, ◌+◌, ◌-◌, Bool, true, false, not, ◌||◌, ◌&&◌, List, [], ◌∷◌, ◌++◌, Option, none, some, length,
  get_or, ◌==◌, ltb, leb, if◌then◌else◌,
}
use stc_isp_demo.Device.Crc.{Crc32, crc_of}
use stc_isp_demo.OtaClient.{u32}
use stc_isp_demo.OtaInfo.{AppInfo, bytes_of_app}
use stc_isp_demo.Host.Image.{Snippet, filled}

-- The numbers of the options, each the `uint32_t` that `strtoul` gives.
pub record Options : Type 0 where
  pub ldr_size : ℕ
  pub meta_size : ℕ
  pub fill_value : ℕ
  pub app_build_timestamp : ℕ
  pub app_version : ℕ

-- The files that the converter writes.
pub record Files : Type 0 where
  pub meta : List ℕ
  pub bin : List ℕ

abbrev pub all_from : ℕ → List Snippet → Bool
all_from a [] = true
all_from a (s ∷ ss) = let rest = all_from a ss in leb a s.addr && rest

-- "validate hex content"
abbrev pub valid_snippets : ℕ → List Snippet → Bool
valid_snippets a [] = false
valid_snippets a (s ∷ ss) =
    if not (s.addr == 0) || not (length s.dat == 3) || not (get_or s.dat 0 0 == 2)
    then false
    else all_from (u32 (a + 3)) ss

-- The loop that appends the snippets, with bytes to fill the gaps.
unfoldable pub append_snippets : ℕ → ℕ → List ℕ → List Snippet → List ℕ
append_snippets a fill bin [] = bin
append_snippets a fill bin (s ∷ ss) =
    append_snippets a fill
      ((if ltb (length bin + a) s.addr then bin ++ filled (s.addr - (length bin + a)) fill else bin)
        ++ s.dat)
      ss

abbrev pub first_dat : List Snippet → List ℕ
first_dat [] = []
first_dat (s ∷ ss) = s.dat

abbrev pub others : List Snippet → List Snippet
others [] = []
others (s ∷ ss) = ss

unfoldable pub merge_snippets : ℕ → ℕ → List Snippet → List ℕ
unfolding append_snippets
merge_snippets a fill ss = append_snippets a fill (first_dat ss) (others ss)

module _ (crc : Crc32) where
  -- "gen meta info", in the byte order of the file
  abbrev pub meta_of : Options → List ℕ → AppInfo
  meta_of o bin = record {
    size = u32 (length bin);
    crc = crc_of crc bin;
    timestamp = o.app_build_timestamp;
    version = o.app_version;
  }

  -- `none` is an end with an error message.
  unfoldable pub hex2metabin : Options → List Snippet → Option Files
  hex2metabin o snippets =
      let a = u32 (o.ldr_size + o.meta_size) in
      let bin = merge_snippets a o.fill_value snippets in
      if o.ldr_size == 0 || o.meta_size == 0 || ltb 255 o.fill_value
      then none
      else if o.app_build_timestamp == 0 || o.app_version == 0
      then none
      else if not (valid_snippets a snippets)
      then none
      else some (record { meta = bytes_of_app (meta_of o bin); bin = bin })
