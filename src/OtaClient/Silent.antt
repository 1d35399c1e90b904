-- ===== src/OtaClient/Silent.antt =====
-- What the client of app/src/ota.c does when the server does not answer.
use stc_isp_demo.Prelude.{ℕ, zero, suc, ◌-◌, ◌<◌, ◌≡◌, ◌∙◌, refl, ap, arith, true, false, ◌==◌}
use stc_isp_demo.Device.Crc.{Crc32}
use stc_isp_demo.Device.Nor.{Nor}
use stc_isp_demo.OtaClient.{
  Client, idle, checking, timeout, downloading, ota_timeout_max, request_next_block, ota_1s_event,
  ota_run,
}

module _ {nor : Nor} where
  -- `n` seconds in which nothing arrives
  unfoldable pub waits : ℕ → Client nor → Client nor
  waits zero c = c
  waits (suc n) c = waits n (ota_1s_event c)

  -- A second of a download that does not end its timeout, one that does, and one behind it
  pub second_more :
      (c : Client nor)
      → c.ota_state ≡ downloading
      → 1 < c.ota_timeout
      → ota_1s_event c ≡ record c { ota_timeout = c.ota_timeout - 1 }
  unfolding ota_1s_event
  second_more c e h =
      let some_left : (c.ota_timeout == 0) ≡ false = ground (arith, h) in
      let more : (c.ota_timeout - 1 == 0) ≡ false = ground (arith, h) in
      rw e (rw some_left (rw more refl))

  pub second_last :
      (c : Client nor)
      → c.ota_state ≡ downloading
      → c.ota_timeout ≡ 1
      → ota_1s_event c ≡ request_next_block (record c { ota_timeout = ota_timeout_max })
  unfolding ota_1s_event
  second_last c e t =
      let some_left : (c.ota_timeout == 0) ≡ false = ground (arith, t) in
      let last : (c.ota_timeout - 1 == 0) ≡ true = ground (arith, t) in
      rw e (rw some_left (rw last refl))

  pub second_none :
      (c : Client nor) → c.ota_state ≡ downloading → c.ota_timeout ≡ 0 → ota_1s_event c ≡ c
  unfolding ota_1s_event
  second_none c e t =
      let over : (c.ota_timeout == 0) ≡ true = ground (arith, t) in rw e (rw over refl)

  -- A download whose request or its answer was lost asks for the same block again: as many seconds as
  -- the timeout has left, at least one, change nothing but the timeout, which starts again, and the
  -- requests, to which the one for the bytes behind those received is added.
  pub waits-request_next_block :
      (n : ℕ) (c : Client nor)
      → c.ota_state ≡ downloading
      → c.ota_timeout ≡ suc n
      → waits (suc n) c ≡ request_next_block (record c { ota_timeout = ota_timeout_max })
  unfolding waits
  waits-request_next_block zero c e t = second_last c e t
  waits-request_next_block (suc n) c e t =
      ap (waits (suc n)) (second_more c e (omega (arith, t)))
      ∙ waits-request_next_block n (record c { ota_timeout = c.ota_timeout - 1 }) e
          (omega (arith, t))

  checking_more :
      (c : Client nor)
      → c.ota_state ≡ checking
      → 1 < c.ota_timeout
      → ota_1s_event c ≡ record c { ota_timeout = c.ota_timeout - 1 }
  unfolding ota_1s_event
  checking_more c e h =
      let some_left : (c.ota_timeout == 0) ≡ false = ground (arith, h) in
      let more : (c.ota_timeout - 1 == 0) ≡ false = ground (arith, h) in
      rw e (rw some_left (rw more refl))

  checking_last :
      (c : Client nor)
      → c.ota_state ≡ checking
      → c.ota_timeout ≡ 1
      → ota_1s_event c ≡ record c { ota_timeout = 0; ota_state = timeout }
  unfolding ota_1s_event
  checking_last c e t =
      let some_left : (c.ota_timeout == 0) ≡ false = ground (arith, t) in
      let last : (c.ota_timeout - 1 == 0) ≡ true = ground (arith, t) in
      rw e (rw some_left (rw last refl))

  waits-timeout :
      (n : ℕ) (c : Client nor)
      → c.ota_state ≡ checking
      → c.ota_timeout ≡ suc n
      → waits (suc n) c ≡ record c { ota_timeout = 0; ota_state = timeout }
  unfolding waits
  waits-timeout zero c e t = checking_last c e t
  waits-timeout (suc n) c e t =
      ap (waits (suc n)) (checking_more c e (omega (arith, t)))
      ∙ waits-timeout n (record c { ota_timeout = c.ota_timeout - 1 }) e (omega (arith, t))

  -- A server that does not answer the question for the latest version does not hold the client up: as
  -- many seconds as the timeout has left, at least one, and a call of ota_run bring it back to rest,
  -- with the timeout set again and all else as it was.
  pub ota_run-waits :
      (crc : Crc32) (n : ℕ) (c : Client nor)
      → c.ota_state ≡ checking
      → c.ota_timeout ≡ suc n
      → ota_run crc (waits (suc n) c) ≡ record c { ota_timeout = ota_timeout_max; ota_state = idle }
  unfolding ota_run
  ota_run-waits crc n c e t = ap (ota_run crc) (waits-timeout n c e t)
