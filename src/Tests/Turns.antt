-- ===== src/Tests/Turns.antt =====
-- Turns of the boot loader's main loop in the middle of a packet.
use stc_isp_demo.Prelude.{◌≡◌, refl, arith, false, [], ◌∷◌, some, zeros}
use stc_isp_demo.MainLoop.{Loop, Turn}
use stc_isp_demo.MainLoop.Timeout.{
  State, Input, NoPacket, Quiet, here, later, received, turn_quiet, turns_rest,
}
use stc_isp_demo.MainLoop
use stc_isp_demo.Uart.{idle, at_length, at_body, Parser, uart_parse, parse_in}
use stc_isp_demo.Uart.Queue.{uart_run, run_bytes, isrs, uart1_isr, on_ri}
use stc_isp_demo.Tests.Devices.{nor_chip, rom_chip, sum_crc}
use stc_isp_demo.Tests.Port.{chip_info, erase_chip}
use stc_isp_demo.Tests.Queues.{ring}
use stc_isp_demo.Tests.Samples.{blank}

abbrev Boot : Type 0
Boot = State sum_crc nor_chip rom_chip erase_chip chip_info ring

abbrev In : Type 0
In = Input sum_crc nor_chip rom_chip erase_chip chip_info ring

-- The length byte comes, and then nothing.
abbrev byte_comes : In
byte_comes = record {
  irqs = record { ri = some 9; ti = false } ∷ [];
  wait_irqs = λ i. [];
  key_reboot = false;
}

abbrev nothing_comes : In
nothing_comes = record { irqs = []; wait_irqs = λ i. []; key_reboot = false }

abbrev behind_length : Parser
behind_length = record { state = at_body; len = 2; sum = 44; buf = 35 ∷ 9 ∷ zeros 253; ok = false }

abbrev mid_packet : Boot
mid_packet = record {
  parser = record { state = at_length; len = 1; sum = 35; buf = 35 ∷ 0 ∷ zeros 253; ok = false };
  line = record { rxrb = []; txrb = []; tx_busy = false; sbuf = [] };
  tx = zeros 255;
  flash = blank;
  chip = blank;
  cycles = 5;
  rx_time = 7;
  rx_timeout = 5;
}

first_turn : NoPacket sum_crc nor_chip rom_chip erase_chip chip_info ring byte_comes mid_packet
unfolding uart_run run_bytes uart_parse parse_in isrs uart1_isr on_ri
first_turn = record { parser = behind_length; left = []; parsed = refl; quiet = refl }

abbrev behind_turn : Boot
behind_turn =
    MainLoop.tick sum_crc nor_chip rom_chip erase_chip chip_info ring (
      received sum_crc nor_chip rom_chip erase_chip chip_info ring byte_comes mid_packet first_turn)

second_turn : NoPacket sum_crc nor_chip rom_chip erase_chip chip_info ring nothing_comes behind_turn
unfolding MainLoop.tick uart_run run_bytes isrs uart1_isr on_ri first_turn
second_turn = record { parser = behind_length; left = []; parsed = refl; quiet = refl }

abbrev behind_both : Boot
behind_both = MainLoop.tick sum_crc nor_chip rom_chip erase_chip chip_info ring (
    received sum_crc nor_chip rom_chip erase_chip chip_info ring nothing_comes behind_turn
      second_turn)

two_turns : Quiet sum_crc nor_chip rom_chip erase_chip chip_info ring 2 mid_packet behind_both
two_turns =
    later
      (later here byte_comes first_turn (
        turn_quiet sum_crc nor_chip rom_chip erase_chip chip_info ring byte_comes mid_packet
          first_turn))
      nothing_comes second_turn
      (turn_quiet sum_crc nor_chip rom_chip erase_chip chip_info ring nothing_comes behind_turn
        second_turn)

turns_rest_example :
    ((behind_both.parser).state ≡ idle) × (behind_both.rx_timeout ≡ behind_both.rx_time)
turns_rest_example =
    turns_rest sum_crc nor_chip rom_chip erase_chip chip_info ring 1 mid_packet behind_both
      two_turns (omega arith) (omega arith)
