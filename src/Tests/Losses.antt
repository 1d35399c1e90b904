-- ===== src/Tests/Losses.antt =====
-- Downloads whose messages are lost, and the two receivers of commands on the same bytes.
use stc_isp_demo.Prelude.{ℕ, ◌≡◌, refl, false, List, [], ◌∷◌, ◌++◌, some, zeros}
use stc_isp_demo.Device.Memory.{window}
use stc_isp_demo.OtaClient.{
  Client, idle, checking, applying, ota_timeout_max, request_next_block, ota_run,
}
use stc_isp_demo.OtaClient.Silent.{waits, waits-request_next_block, ota_run-waits}
use stc_isp_demo.Update.Lossy.{Pause, second, turn, lossy_exchanges, lossy_completes}
use stc_isp_demo.Host.Parse.{isp_parse, isp_parse_in, uart_step, packets}
use stc_isp_demo.Host.Parse.Same.{Agree, packets-isp_parse}
use stc_isp_demo.Protocol.{isp_pkt_head}
use stc_isp_demo.Uart
use stc_isp_demo.Uart.{Parser, check_isp_pkt_head}
use stc_isp_demo.Uart.Receive.{isp_frame}
use stc_isp_demo.Tests.Devices.{nor_chip, sum_crc}
use stc_isp_demo.Tests.Samples.{image, client}
use stc_isp_demo.Tests.Port.{app, server, asking, asking-Online, server-Serves}

-- The answer is lost twice.
abbrev losses : List (List Pause)
losses = (second ∷ turn ∷ second ∷ []) ∷ []

lossy_completes_example :
    ((lossy_exchanges sum_crc server losses asking).ota_state ≡ applying)
    × (window (lossy_exchanges sum_crc server losses asking).flash asking.flash_addr 2 ≡ image)
lossy_completes_example =
    lossy_completes sum_crc server app losses asking asking-Online server-Serves refl

waits-request_next_block_example :
    waits 10 client ≡ request_next_block (record client { ota_timeout = ota_timeout_max })
waits-request_next_block_example = waits-request_next_block 9 client refl refl

abbrev asks : Client nor_chip
asks = record client { ota_state = checking }

ota_run-waits_example :
    ota_run sum_crc (waits 10 asks)
    ≡ record asks { ota_timeout = ota_timeout_max; ota_state = idle }
ota_run-waits_example = ota_run-waits sum_crc 9 asks refl refl

abbrev at_rest : Parser
at_rest = record { state = Uart.idle; len = 0; sum = 0; buf = zeros 255; ok = false }

at_rest-Agree : Agree at_rest at_rest
at_rest-Agree = record { states = refl; sums = refl; room = refl; room_too = refl; in_step = tt }

-- A byte that begins no packet, a packet, and the head of another one
abbrev bytes : List ℕ
bytes = 7 ∷ (isp_frame (6 ∷ 1 ∷ []) ++ (isp_pkt_head ∷ []))

reported_by_both : packets isp_parse at_rest bytes ≡ some ((isp_pkt_head ∷ 2 ∷ 6 ∷ 1 ∷ []) ∷ [])
unfolding packets isp_parse isp_parse_in check_isp_pkt_head
reported_by_both = refl

packets-isp_parse_example :
    packets uart_step at_rest bytes ≡ some ((isp_pkt_head ∷ 2 ∷ 6 ∷ 1 ∷ []) ∷ [])
packets-isp_parse_example =
    packets-isp_parse bytes at_rest at_rest ((isp_pkt_head ∷ 2 ∷ 6 ∷ 1 ∷ []) ∷ []) at_rest-Agree
      reported_by_both
