-- ===== src/Tests/Port.antt =====
-- Packets between the programmer, the boot loader and the application, and a whole download.
use stc_isp_demo.Prelude.{
  ℕ, ◌+◌, ◌≡◌, take, refl, inl, inr, arith, true, false, List, [], ◌∷◌, ◌++◌, some, none, ◌>>=◌,
  zeros,
}
use stc_isp_demo.Command
use stc_isp_demo.Command.{ChipInfo}
use stc_isp_demo.Device.Memory.{window}
use stc_isp_demo.OtaClient.{Client, Request, get_app_data, preparing, applying, ota_on_app_data}
use stc_isp_demo.OtaClient.Erase.{sectors, runs}
use stc_isp_demo.Protocol.{isp_pkt_head, ldr_pkt_head}
use stc_isp_demo.Uart.{idle, Parser, receive}
use stc_isp_demo.Uart.Receive.{isp_sum}
use stc_isp_demo.Host.Reply
use stc_isp_demo.Host.Reply.{ReplyParser, receive_reply}
use stc_isp_demo.Host.Serial.{reply_app_data}
use stc_isp_demo.Host.Serial.Sent.{Call, program_flash, sent_by, body, receive-sent_by}
use stc_isp_demo.Host.Flash.{Editor, slot_program}
use stc_isp_demo.Host.Flash.Programmed.{Programmed, rounds, slot_program-Programmed}
use stc_isp_demo.Host.Rom
use stc_isp_demo.Host.Rom.{read_rom, Window, slot_read_rom}
use stc_isp_demo.Host.Rom.Program
use stc_isp_demo.Host.Rom.Program.{slot_program-Ended}
use stc_isp_demo.Host.Rom.Read
use stc_isp_demo.Host.Rom.Read.{slot_read_rom_reads, read_endless}
use stc_isp_demo.Host.Server.{Server, OtaApp}
use stc_isp_demo.Host.Server.Request.{answer, served, served-send_request}
use stc_isp_demo.App.{isp_handle, quiet}
use stc_isp_demo.App.Shared.{as_app, isp_handle_same}
use stc_isp_demo.App.Message.{handled, isp_handle-app_data}
use stc_isp_demo.App.Send.{send_request}
use stc_isp_demo.Update.{Online, Serves, exchanges}
use stc_isp_demo.Update.Whole.{update_completes}
use stc_isp_demo.Tests.Samples.{blank, image, image_info, client, block}
use stc_isp_demo.Tests.Devices.{nor_chip, rom_chip, sum_crc}

abbrev at_rest : Parser
at_rest = record { state = idle; len = 0; sum = 0; buf = zeros 255; ok = false }

abbrev reply_at_rest : ReplyParser
reply_at_rest = record { state = Reply.idle; len = 0; sum = 0; buf = zeros 255; ok = false }

abbrev call : Call
call = program_flash 255 (7 ∷ 9 ∷ [])

receive-sent_by_example :
    (sent_by 256 call >>= receive at_rest)
    ≡ some (record {
      state = idle;
      len = 14;
      sum = isp_sum (body call);
      buf = isp_pkt_head ∷ 12 ∷ (body call ++ zeros 241);
      ok = true;
    })
receive-sent_by_example =
    receive-sent_by 256 call at_rest 0 0 (zeros 253) (omega arith) tt (omega arith) refl refl refl

abbrev pub app : OtaApp
app = record { info = image_info; path = 97 ∷ []; bin = image }

abbrev pub server : Server
server = record { suspended = false; ota_apps = app ∷ [] }

abbrev pub request : Request
request = get_app_data 16777216 0 2

served-send_request_example :
    (send_request 256 (ldr_pkt_head ∷ 0 ∷ 0 ∷ zeros 252) request
      >>= receive_reply reply_at_rest
      >>= served sum_crc 256 server)
    ≡ answer sum_crc 256 server request
served-send_request_example =
    served-send_request sum_crc 256 server request 0 0 (zeros 252) reply_at_rest 0 0 0 (zeros 252)
      (omega arith, omega arith, omega arith) (omega arith) refl refl refl refl

abbrev pub chip_info : ChipInfo
chip_info = record {
  version_major = 1;
  version_minor = 2;
  version = 3;
  build_time = 4;
  chip_id = 1 ∷ 2 ∷ 3 ∷ [];
  chip_version = 5;
  norflash_type = 61205;
}

abbrev pub erase_chip : (ℕ → ℕ) → ℕ → ℕ
erase_chip s = blank

-- READ_W25Q of four bytes from 256 on
abbrev read_packet : List ℕ
read_packet = 35 ∷ 10 ∷ 0xB5 ∷ 0 ∷ 0 ∷ 0 ∷ 0 ∷ 4 ∷ 0 ∷ 1 ∷ 0 ∷ 0 ∷ zeros 243

isp_handle_same_example :
    isp_handle sum_crc nor_chip erase_chip chip_info read_packet client
    ≡ as_app sum_crc nor_chip rom_chip erase_chip chip_info client (
        Command.isp_handle sum_crc nor_chip rom_chip erase_chip chip_info read_packet client.flash
          blank)
isp_handle_same_example =
    isp_handle_same sum_crc nor_chip rom_chip erase_chip chip_info read_packet client blank
      (inr (inr (inr (inr (inr (inr (inr (inl refl))))))))

isp_handle-app_data_example :
    handled sum_crc nor_chip erase_chip chip_info client
      (reply_app_data 256 block >>= receive at_rest)
    ≡ some (quiet (ota_on_app_data sum_crc block client))
isp_handle-app_data_example =
    isp_handle-app_data sum_crc nor_chip erase_chip chip_info 256 block client at_rest 0 0
      (zeros 253)
      (record { result = omega arith; offset = omega arith; size = omega arith; crc = omega arith })
      (omega arith) (omega arith) (omega arith) (omega arith) refl refl refl

abbrev pub asking : Client nor_chip
asking = record client { sent = request ∷ [] }

pub asking-Online : Online sum_crc app asking
asking-Online = record {
  state = refl;
  downloads = record {
    in_slot = inl refl;
    unfinished = omega arith;
    bounded = omega arith;
    summed = refl;
  };
  image = refl;
  so_far = refl;
  blank = λ i h k. refl;
  whole_blocks = refl;
  asks = refl;
}

pub server-Serves : Serves sum_crc server app
server-Serves = record {
  open_to_all = refl;
  found = refl;
  size = refl;
  sum = refl;
  bytes = (omega arith, (omega arith, tt));
}

abbrev announced : Client nor_chip
announced = record client { ota_state = preparing }

update_completes_example :
    let m = exchanges sum_crc server 1 (runs sum_crc (sectors sum_crc announced + 2) announced) in
    (m.ota_state ≡ applying) × (window m.flash announced.flash_addr 2 ≡ image)
update_completes_example =
    update_completes sum_crc server app announced refl
      (record { in_slot = inl refl; some_bytes = omega arith; bounded = omega arith }) refl
      server-Serves

-- A range of two bytes from the address 1 on
abbrev editor : Editor
editor = record { e2 = 7 ∷ 9 ∷ 3 ∷ []; offset = 1; range = 2; e2send = 0; e2sent = 5 }

slot_program-Programmed_example :
    Programmed sum_crc nor_chip rom_chip erase_chip chip_info [] (slot_program editor).0 (
      rounds sum_crc nor_chip rom_chip erase_chip chip_info [] 1 (record {
        editor = (slot_program editor).0;
        pending = (slot_program editor).1;
        flash = blank;
        chip = blank;
      }))
slot_program-Programmed_example =
    slot_program-Programmed sum_crc nor_chip rom_chip erase_chip chip_info [] editor blank blank
      (omega arith) (omega arith) (omega arith) (omega arith, (omega arith, (omega arith, tt)))
      (λ i h k. refl)

-- A read of three bytes from 0 on, and one from 2 on
abbrev from_zero : Window
from_zero = record { e2 = []; e2sent = 0; e2recv = 5; read_offset = 0; read_len = 3 }

abbrev from_two : Window
from_two = record { e2 = 1 ∷ []; e2sent = 0; e2recv = 0; read_offset = 2; read_len = 3 }

slot_read_rom_reads_example :
    ((Read.rounds sum_crc nor_chip rom_chip erase_chip chip_info [] blank blank 1
        ((slot_read_rom from_zero).0, some (slot_read_rom from_zero).1)).1
      ≡ none)
    × (take 3
          (Read.rounds sum_crc nor_chip rom_chip erase_chip chip_info [] blank blank 1
            ((slot_read_rom from_zero).0, some (slot_read_rom from_zero).1)).0.e2
        ≡ 255 ∷ 255 ∷ 255 ∷ [])
slot_read_rom_reads_example =
    slot_read_rom_reads sum_crc nor_chip rom_chip erase_chip chip_info [] blank blank from_zero refl
      (omega arith) (omega arith)

read_endless_example :
    (Read.rounds sum_crc nor_chip rom_chip erase_chip chip_info [] blank blank 10
      ((slot_read_rom from_two).0, some (slot_read_rom from_two).1)).1
    ≡ some (read_rom 3 0)
read_endless_example =
    read_endless sum_crc nor_chip rom_chip erase_chip chip_info [] blank blank 9 from_two
      (omega arith) (omega arith) (omega arith)

-- Three bytes for the on-chip flash
abbrev three : Window
three = record { e2 = 1 ∷ 2 ∷ 3 ∷ []; e2sent = 0; e2recv = 0; read_offset = 0; read_len = 0 }

slot_program-Ended_example :
    Program.Ended sum_crc nor_chip rom_chip erase_chip chip_info [] blank (1 ∷ 2 ∷ 3 ∷ []) (
      Program.rounds sum_crc nor_chip rom_chip erase_chip chip_info [] blank 1 (record {
        window_of = (Rom.slot_program three).0;
        pending = some (Rom.slot_program three).1;
        chip = blank;
        status = 0;
      }))
slot_program-Ended_example =
    slot_program-Ended sum_crc nor_chip rom_chip erase_chip chip_info [] blank three blank
      (omega arith) (omega arith)
