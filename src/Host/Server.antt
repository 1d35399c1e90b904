-- ===== src/Host/Server.antt =====
-- The update server of the programmer: the cases of APP2OTA_CMD_GET_LATEST_APP_INFO and
-- APP2OTA_CMD_GET_APP_DATA in programmer::slot_serial_parsed (programmer/programmer/programmer.cpp).
-- A QByteArray is a list of bytes; offsets are below 2 ^ 31, so none is negative as an `int`.
pub mod Request
use stc_isp_demo.Prelude.{
  ℕ, ◌+◌, ◌%◌, Bool, List, [], ◌∷◌, ◌++◌, Option, none, some, ◌>>=◌, take, drop, get_or, ◌==◌, ltb,
  leb, if◌then◌else◌, zeros, copy,
}
use stc_isp_demo.Device.Crc.{Crc32, crc_of}
use stc_isp_demo.OtaInfo.{AppInfo, no_app}
use stc_isp_demo.OtaClient.{LatestAppInfo, AppData, ota_ok, ota_no_new_version, u32}
use stc_isp_demo.App.{le32_at}
use stc_isp_demo.Host.Serial.{reply_latest_ota_app_info, reply_app_data}

-- `ota_app_t`
pub record OtaApp : Type 0 where
  pub info : AppInfo
  pub path : List ℕ
  pub bin : List ℕ

-- The box "suspend server" and the map `ota_apps` from versions to applications, in the order of
-- the versions. An application is stored under its own version.
pub record Server : Type 0 where
  pub suspended : Bool
  pub ota_apps : List OtaApp

-- The loop from `rbegin` on: the last application with a version above `v`.
abbrev pub newest_above : ℕ → List OtaApp → Option AppInfo
newest_above v [] = none
newest_above v (a ∷ apps) = elim (newest_above v apps) [
  | some i ↦ some i
  | none ↦ if ltb v a.info.version then some a.info else none
]

-- `ota_apps.find(v)`
abbrev pub find : ℕ → List OtaApp → Option OtaApp
find v [] = none
find v (a ∷ apps) = let rest = find v apps in if a.info.version == v then some a else rest

-- The values of `ota_result_t` that a server gives besides `OTA_OK` and `OTA_NO_NEW_VERSION`.
abbrev pub ota_unknown_version : ℕ
ota_unknown_version = 2

abbrev pub ota_offset_out_of_range : ℕ
ota_offset_out_of_range = 3

abbrev pub ota_server_error : ℕ
ota_server_error = 4

unfoldable pub answer_latest : Server → ℕ → LatestAppInfo
answer_latest srv version =
    let none_newer : LatestAppInfo = record { result = ota_no_new_version; info = no_app } in
    if srv.suspended then none_newer else elim (newest_above version srv.ota_apps) [
      | none ↦ none_newer
      | some i ↦ record { result = ota_ok; info = i }
    ]

-- `uint8_t buf[PKT_MAX_LEN] = {0}` as a `get_app_data_res_t` with a result
abbrev pub empty_res : ℕ → AppData
empty_res result = record { result = result; offset = 0; size = 0; crc = 0; dat = zeros 242 }

module _ (crc : Crc32) where
  -- `none` is a copy past the end of `buf`.
  unfoldable pub piece : OtaApp → ℕ → ℕ → Option AppData
  piece app offset size =
      let bin = take size (drop offset app.bin) in
      do
        dat ← copy 0 bin (zeros 242)
        some (record {
          result = ota_ok;
          offset = offset;
          size = size;
          crc = crc_of crc bin;
          dat = dat;
        })

  unfoldable pub answer_data : Server → ℕ → ℕ → ℕ → Option AppData
  unfolding piece
  answer_data srv version offset size =
      if srv.suspended
      then some (empty_res ota_server_error)
      else elim (find version srv.ota_apps) [
        | none ↦ some (empty_res ota_unknown_version)
        | some app ↦
            if leb (u32 (offset + size)) app.info.size
            then piece app offset size
            else some (empty_res ota_offset_out_of_range)
      ]

  -- The bytes that the server writes to the port for a packet: a request about the latest
  -- application has the running version in its last field. Other packets are not its own.
  unfoldable pub serve : ℕ → Server → List ℕ → Option (List ℕ)
  unfolding answer_latest answer_data
  serve fuel srv buf =
      if get_or buf 1 0 == 0xC0
      then reply_latest_ota_app_info fuel (answer_latest srv (le32_at buf 15))
      else if get_or buf 1 0 == 0xC1
      then (do
        res ← answer_data srv (le32_at buf 3) (le32_at buf 7) (le32_at buf 11)
        reply_app_data fuel res)
      else some []
