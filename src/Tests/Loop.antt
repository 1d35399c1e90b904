-- ===== src/Tests/Loop.antt =====
-- Turns of the application's main loop, and a second of its timer.
use stc_isp_demo.Prelude.{
  ℕ, ◌≡◌, refl, sym, subst, ◌∙◌, arith, true, false, List, [], ◌∷◌, some, some-injective, zeros,
}
use stc_isp_demo.App.Loop
use stc_isp_demo.App.Loop.{Clock, Turn, Step, t0_isrs, running, turn, send_requests}
use stc_isp_demo.App.Loop.Timer.{t0_isrs_lem}
use stc_isp_demo.App.Loop.Events.{changes_flash, turn-steps}
use stc_isp_demo.OtaClient
use stc_isp_demo.OtaClient.{Client, ota_run, ota_on_latest_app_info, ota_no_new_version}
use stc_isp_demo.OtaInfo.{no_app}
use stc_isp_demo.App.{isp_handle, handle_flash, on_latest}
use stc_isp_demo.OtaClient.Machine.{run, latest_app_info, steps}
use stc_isp_demo.Uart.{idle, at_checksum, Parser, uart_parse, parse_in}
use stc_isp_demo.Uart.Queue.{uart_run, run_bytes, isrs}
use stc_isp_demo.Tests.Devices.{nor_chip, sum_crc}
use stc_isp_demo.Tests.Samples.{client}
use stc_isp_demo.Tests.Port.{chip_info, erase_chip}
use stc_isp_demo.Tests.Queues.{ring}

half_a_second_over :
    t0_isrs 1500 (record { counter_1ms = 700; flag_1s = false })
    ≡ record { counter_1ms = 200; flag_1s = true }
half_a_second_over = t0_isrs_lem 1500 (record { counter_1ms = 700; flag_1s = false }) (omega arith)

abbrev App : Type 0
App = Loop.Loop sum_crc nor_chip erase_chip chip_info ring

-- The receiver in front of the checksum of LATEST_APP_INFO: there is no new version.
abbrev packet : List ℕ
packet = 0 ∷ 0 ∷ 0xC0 ∷ 0 ∷ 0 ∷ 0 ∷ 0 ∷ 17 ∷ ota_no_new_version ∷ zeros 246

abbrev waiting : Parser
waiting = record { state = at_checksum; len = 27; sum = 10; buf = packet; ok = false }

abbrev reports : Parser
reports = record waiting { state = idle; ok = true }

abbrev asks : Client nor_chip
asks = record client { ota_state = OtaClient.checking; ota_timeout = 5 }

abbrev before : App
before = record {
  parser = waiting;
  line = record { rxrb = 246 ∷ []; txrb = []; tx_busy = false; sbuf = [] };
  tx = zeros 255;
  client = asks;
  timer = record { counter_1ms = 700; flag_1s = false };
  sysctx = 7;
  cycles = 5;
  rx_time = 7;
  rx_timeout = 5;
}

abbrev behind : App
behind = record before {
  parser = record waiting { state = idle };
  line = record { rxrb = []; txrb = []; tx_busy = false; sbuf = [] };
  client = record asks { ota_1s_counter = 0; ota_state = OtaClient.idle };
  timer = record { counter_1ms = 701; flag_1s = false };
  cycles = 6;
  rx_time = 6;
  rx_timeout = 7;
}

abbrev one_turn : Turn sum_crc nor_chip erase_chip chip_info ring
one_turn = record { irqs = []; ticks = 1; wait_irqs = λ k i. []; key_boot = false }

received : uart_run ring waiting (246 ∷ []) ≡ some (reports, [])
unfolding uart_run run_bytes uart_parse parse_in
received = refl

turned : turn sum_crc nor_chip erase_chip chip_info ring one_turn before ≡ running behind
unfolding turn isrs Loop.take_packet Loop.on_second Loop.count_timeout t0_isrs ota_run isp_handle
    handle_flash on_latest ota_on_latest_app_info send_requests uart_run run_bytes uart_parse
    parse_in
turned = refl

no_command :
    (p : Parser) (s : List ℕ)
    → uart_run ring waiting (246 ∷ []) ≡ some (p, s)
    → changes_flash p.buf ≡ false
no_command p s e =
    let same : (reports, []) ≡ (p, s) = some-injective (reports, []) (p, s) (sym received ∙ e) in
    subst (λ (x : Parser × List ℕ). changes_flash (x.0).buf ≡ false) same refl

turn-steps_example :
    (steps sum_crc
        (latest_app_info (record { result = ota_no_new_version; info = no_app }) ∷ (run ∷ []))
        asks
      ≡ behind.client)
    × (behind.timer ≡ record { counter_1ms = 701; flag_1s = false })
unfolding isrs uart_run run_bytes uart_parse parse_in
turn-steps_example =
    turn-steps sum_crc nor_chip erase_chip chip_info ring one_turn before behind turned
      (omega arith) (λ p s e o. no_command p s e)
