-- ===== src/Tests/Samples.antt =====
-- Sample images, records and clients.
use stc_isp_demo.Prelude.{ℕ, List, [], ◌∷◌}
use stc_isp_demo.Layout.{norflash_app1_addr}
use stc_isp_demo.OtaClient.{Client, AppData, app1, downloading}
use stc_isp_demo.OtaInfo.{AppInfo, OtaInfo, master, no_app, dl_downloading}
use stc_isp_demo.Tests.Devices.{nor_chip}

abbrev pub blank : ℕ → ℕ
blank i = 255

-- An image of two bytes, and the record of a download of it into the first slot.
abbrev pub image : List ℕ
image = 7 ∷ 9 ∷ []

abbrev pub image_info : AppInfo
image_info = record { size = 2; crc = 1187; timestamp = 4; version = 16777216 }

abbrev pub info : OtaInfo
info = record {
  seq = 5;
  current_app = 0;
  resv0 = 0;
  resv1 = 0;
  resv2 = 0;
  dlctx = record { state = dl_downloading; appid = 1; resv0 = 0; resv1 = 0; received = 0; crc = 1 };
  factory = no_app;
  app1 = image_info;
  app2 = no_app;
}

abbrev pub client : Client nor_chip
client = record {
  ota_state = downloading;
  ota_timeout = 10;
  ota_1s_counter = 0;
  appid_to_upgrade = 1;
  papp = app1;
  pappu = app1;
  flash_addr = norflash_app1_addr;
  erase_size = 0;
  addr = 0;
  ota_info = info;
  otaid = master;
  flash = blank;
  sent = [];
}

-- The only block of the image.
abbrev pub block : AppData
block = record { result = 0; offset = 0; size = 2; crc = 1187; dat = image }
