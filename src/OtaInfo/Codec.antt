-- ===== src/OtaInfo/Codec.antt =====
-- The stored form of the update record, and what is read back after it is written.
use stc_isp_demo.Prelude.{
  ℕ, ◌+◌, ◌*◌, ◌/◌, ◌%◌, ◌≤◌, ◌≢◌, ◌⊎◌, inl, inr, ap, dec_lt, ◌<◌, ◌≡◌, refl, ◌∙◌, arith, length,
}
use stc_isp_demo.Device.Memory.{AllBytes}
use stc_isp_demo.Device.Nor.{Nor, nor_size}
use stc_isp_demo.OtaInfo.{
  AppInfo, OtaInfo, OtaId, master, backup, addr_of, ota_info_size, bytes_of_info, info_of_bytes,
  read_info, write_info,
}

abbrev pub u32_bound : ℕ
u32_bound = 4294967296

-- Every field has a value of its C type.
pub record IsAppInfo (a : AppInfo) : Type 0 where
  pub size : a.size < u32_bound
  pub crc : a.crc < u32_bound
  pub timestamp : a.timestamp < u32_bound
  pub version : a.version < u32_bound

pub record IsOtaInfo (i : OtaInfo) : Type 0 where
  pub seq : i.seq < u32_bound
  pub current_app : i.current_app < 256
  pub resv0 : i.resv0 < 256
  pub resv1 : i.resv1 < 256
  pub resv2 : i.resv2 < 256
  pub state : i.dlctx.state < 256
  pub appid : i.dlctx.appid < 256
  pub ctx_resv0 : i.dlctx.resv0 < 256
  pub ctx_resv1 : i.dlctx.resv1 < 256
  pub received : i.dlctx.received < u32_bound
  pub crc : i.dlctx.crc < u32_bound
  pub factory : IsAppInfo i.factory
  pub app1 : IsAppInfo i.app1
  pub app2 : IsAppInfo i.app2

pub word :
    (x : ℕ)
    → x < u32_bound
    → x / 16777216 % 256 * 16777216 + x / 65536 % 256 * 65536 + x / 256 % 256 * 256 + x % 256 ≡ x
word x h = omega arith

byte : (x : ℕ) → x < 256 → x % 256 ≡ x
byte x h = omega arith

abbrev stored : ℕ → ℕ
stored x = x / 16777216 % 256 * 16777216 + x / 65536 % 256 * 65536 + x / 256 % 256 * 256 + x % 256

abbrev stored_app : AppInfo → AppInfo
stored_app a = record {
  size = stored a.size;
  crc = stored a.crc;
  timestamp = stored a.timestamp;
  version = stored a.version;
}

app_path : (a : AppInfo) → IsAppInfo a → stored_app a ≡ a
app_path a v = λ k. record {
  size = word a.size v.size k;
  crc = word a.crc v.crc k;
  timestamp = word a.timestamp v.timestamp k;
  version = word a.version v.version k;
}

-- The 68 bytes of a record determine it.
pub info_of_bytes-bytes_of_info : (i : OtaInfo) → IsOtaInfo i → info_of_bytes (bytes_of_info i) ≡ i
unfolding info_of_bytes bytes_of_info
info_of_bytes-bytes_of_info i v = λ k. record {
  seq = word i.seq v.seq k;
  current_app = byte i.current_app v.current_app k;
  resv0 = byte i.resv0 v.resv0 k;
  resv1 = byte i.resv1 v.resv1 k;
  resv2 = byte i.resv2 v.resv2 k;
  dlctx = record {
    state = byte i.dlctx.state v.state k;
    appid = byte i.dlctx.appid v.appid k;
    resv0 = byte i.dlctx.resv0 v.ctx_resv0 k;
    resv1 = byte i.dlctx.resv1 v.ctx_resv1 k;
    received = word i.dlctx.received v.received k;
    crc = word i.dlctx.crc v.crc k;
  };
  factory = app_path i.factory v.factory k;
  app1 = app_path i.app1 v.app1 k;
  app2 = app_path i.app2 v.app2 k;
}

pub length-bytes_of_info : (i : OtaInfo) → length (bytes_of_info i) ≡ ota_info_size
unfolding bytes_of_info
length-bytes_of_info i = refl

bytes_of_info-AllBytes : (i : OtaInfo) → AllBytes (bytes_of_info i)
unfolding bytes_of_info
bytes_of_info-AllBytes i = omega arith

-- The bytes of each copy lie in one page of a sector of their own.
addr_of_inside :
    (id : OtaId) (i : ℕ)
    → addr_of id ≤ i
    → i < addr_of id + ota_info_size
    → i / 4096 ≡ addr_of id / 4096
addr_of_inside master i h k = omega arith
addr_of_inside backup i h k = omega arith

addr_of_fits : (id : OtaId) → addr_of id % 256 + ota_info_size ≤ 256
addr_of_fits master = omega arith
addr_of_fits backup = omega arith

-- The copies lie at the front of the flash.
pub addr_of_low : (id : OtaId) (n : ℕ) → n ≤ 68 → addr_of id + n ≤ nor_size
addr_of_low master n h = omega arith
addr_of_low backup n h = omega arith

addr_of_lt : (id : OtaId) → addr_of id < nor_size
addr_of_lt master = omega arith
addr_of_lt backup = omega arith

outside_record :
    (id : OtaId) (a : ℕ)
    → a / 4096 ≢ addr_of id / 4096
    → (a < addr_of id) ⊎ (addr_of id + ota_info_size ≤ a)
outside_record master a h = inr (omega arith)
outside_record backup a h = elim (dec_lt a 4096) [ yes p ↦ inl p | no p ↦ inr (omega arith) ]

module _ (nor : Nor) where
  -- A record that is written to the flash, whatever stood there, is read back the same.
  pub read_info-write_info :
      (id : OtaId) (i : OtaInfo) (s : nor.State)
      → IsOtaInfo i
      → read_info nor id (write_info nor id i s) ≡ i
  unfolding read_info write_info
  read_info-write_info id i s v =
      ap info_of_bytes (
        nor.read_lem _ _ _ (addr_of_low id 68 (omega arith))
        ∙ nor.write_page_inside (addr_of id) (bytes_of_info i) (nor.erase_sector (addr_of id) s)
            (addr_of_fits id) (addr_of_low id 68 (omega arith)) (bytes_of_info-AllBytes i)
            (λ j h k.
              nor.erase_sector_inside (addr_of id) j s (addr_of_lt id) (addr_of_inside id j h k)))
      ∙ info_of_bytes-bytes_of_info i v

  -- Writing one copy leaves the other copy, and all else outside its sector, as it was.
  pub write_info_outside :
      (id : OtaId) (i : OtaInfo) (s : nor.State) (a : ℕ)
      → a / 4096 ≢ addr_of id / 4096
      → nor.byte_at (write_info nor id i s) a ≡ nor.byte_at s a
  unfolding write_info
  write_info_outside id i s a h =
      nor.write_page_outside (addr_of id) (bytes_of_info i) (nor.erase_sector (addr_of id) s) a
        (addr_of_fits id) (addr_of_low id 68 (omega arith)) (outside_record id a h)
      ∙ nor.erase_sector_outside (addr_of id) a s (addr_of_lt id) h
