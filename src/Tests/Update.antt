-- ===== src/Tests/Update.antt =====
-- Update records and downloads on small flashes.
use stc_isp_demo.Prelude.{ℕ, ◌≡◌, inl, refl, arith, [], ◌∷◌}
use stc_isp_demo.OtaClient.{
  Client, downloading, applying, ota_on_app_data, store_block, finish_download, write_block,
  advance, request_next_block,
}
use stc_isp_demo.OtaClient.Apply.{Replaced, ota_on_app_data-Replaced}
use stc_isp_demo.OtaClient.Download.{Arrives, Downloads, ota_on_app_data-Downloads}
use stc_isp_demo.OtaClient.Machine.{app_data, step}
use stc_isp_demo.OtaInfo.{
  master, backup, flip, no_app, findout_which_ota_info_is_older, read_info, write_info,
}
use stc_isp_demo.OtaInfo.Codec.{IsAppInfo, IsOtaInfo, read_info-write_info}
use stc_isp_demo.OtaInfo.Older.{update_wins}
use stc_isp_demo.Tests.Samples.{blank, image_info, info, client, block}
use stc_isp_demo.Tests.Devices.{nor_chip, sum_crc, overlay}

pub image_info-IsAppInfo : IsAppInfo image_info
image_info-IsAppInfo = record {
  size = omega arith;
  crc = omega arith;
  timestamp = omega arith;
  version = omega arith;
}

pub no_app-IsAppInfo : IsAppInfo no_app
no_app-IsAppInfo = record {
  size = omega arith;
  crc = omega arith;
  timestamp = omega arith;
  version = omega arith;
}

info-IsOtaInfo : IsOtaInfo info
info-IsOtaInfo = record {
  seq = omega arith;
  current_app = omega arith;
  resv0 = omega arith;
  resv1 = omega arith;
  resv2 = omega arith;
  state = omega arith;
  appid = omega arith;
  ctx_resv0 = omega arith;
  ctx_resv1 = omega arith;
  received = omega arith;
  crc = omega arith;
  factory = no_app-IsAppInfo;
  app1 = image_info-IsAppInfo;
  app2 = no_app-IsAppInfo;
}

-- A flash whose master copy has the sequence number 3.
abbrev older_master : ℕ → ℕ
older_master = overlay 0 (0 ∷ 0 ∷ 0 ∷ 3 ∷ []) blank

update_wins_example :
    (findout_which_ota_info_is_older nor_chip (write_info nor_chip backup info older_master)
      ≡ master)
    × (read_info nor_chip
          (flip (
            findout_which_ota_info_is_older nor_chip
              (write_info nor_chip backup info older_master)))
          (write_info nor_chip backup info older_master)
        ≡ info)
update_wins_example =
    update_wins nor_chip backup info older_master info-IsOtaInfo (omega arith) (omega arith)

client-Arrives : Arrives sum_crc block client
client-Arrives = record {
  running = refl;
  download = record {
    in_slot = inl refl;
    unfinished = omega arith;
    bounded = omega arith;
    summed = refl;
  };
  in_page = omega arith;
}

applied : (ota_on_app_data sum_crc block client).ota_state ≡ applying
unfolding ota_on_app_data store_block finish_download write_block advance
applied = refl

ota_on_app_data-Replaced_example :
    Replaced sum_crc block client (ota_on_app_data sum_crc block client)
ota_on_app_data-Replaced_example =
    ota_on_app_data-Replaced sum_crc block client client-Arrives info-IsOtaInfo (omega arith)
      applied

stepped : (step sum_crc (app_data block) client).ota_state ≡ applying
unfolding step ota_on_app_data
stepped = applied

-- A download of which the block is the first half.
abbrev longer : Client nor_chip
longer = record client { ota_info = record info { app1 = record image_info { size = 4; crc = 0 } } }

longer-Arrives : Arrives sum_crc block longer
longer-Arrives = record {
  running = refl;
  download = record {
    in_slot = inl refl;
    unfinished = omega arith;
    bounded = omega arith;
    summed = refl;
  };
  in_page = omega arith;
}

goes_on : (ota_on_app_data sum_crc block longer).ota_state ≡ downloading
unfolding ota_on_app_data store_block finish_download write_block advance request_next_block
goes_on = refl

ota_on_app_data-Downloads_example : Downloads sum_crc (ota_on_app_data sum_crc block longer)
ota_on_app_data-Downloads_example =
    ota_on_app_data-Downloads sum_crc block longer longer-Arrives goes_on

read_info-write_info_example :
    read_info nor_chip backup (write_info nor_chip backup info blank) ≡ info
read_info-write_info_example = read_info-write_info nor_chip backup info blank info-IsOtaInfo
