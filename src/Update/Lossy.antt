-- ===== src/Update/Lossy.antt =====
-- A download of app/src/ota.c over a port that loses messages.
use stc_isp_demo.Prelude.{
  ℕ, ◌+◌, ◌-◌, ◌/◌, ◌≡◌, inl, inr, ◌∙◌, refl, sym, ap, subst, arith, List, [], ◌∷◌, some, length,
  dec_lt,
}
use stc_isp_demo.Device.Crc.{Crc32}
use stc_isp_demo.Device.Memory.{window}
use stc_isp_demo.Device.Nor.{Nor}
use stc_isp_demo.OtaInfo.{AppInfo}
use stc_isp_demo.OtaClient.{
  Client, get_app_data, applying, downloading, ota_timeout_max, block_size, request_next_block,
  ota_1s_event, ota_run,
}
use stc_isp_demo.OtaClient.Download.{request_next_block-Downloads}
use stc_isp_demo.OtaClient.Silent.{second_more, second_last, second_none}
use stc_isp_demo.Host.Server.{Server, OtaApp}
use stc_isp_demo.Update.{Serves, Online, exchange}
use stc_isp_demo.Update.Next.{unfinished, asks_next}
use stc_isp_demo.Update.Completes.{Done, blocks_left, exchange-Exchanged}

-- What goes on while no answer arrives: a second, or a turn of the main loop.
pub data Pause : Type 0 where
  second turn : Pause

module _ {nor : Nor} (crc : Crc32) where
  abbrev pub pause : Pause → Client nor → Client nor
  pause second c = ota_1s_event c
  pause turn c = ota_run crc c

  unfoldable pub pauses : List Pause → Client nor → Client nor
  pauses [] c = c
  pauses (p ∷ ps) c = pauses ps (pause p c)

  -- In front of each answer that arrives, and for as long as one likes, messages are lost; the server
  -- answers the request that was sent last.
  unfoldable pub lossy_exchanges : Server → List (List Pause) → Client nor → Client nor
  unfolding pauses exchange
  lossy_exchanges srv [] c = c
  lossy_exchanges srv (ps ∷ pss) c = lossy_exchanges srv pss (exchange crc srv (pauses ps c))

module _ {nor : Nor} (crc : Crc32) (app : OtaApp) where
  -- The same download: as much received, in the same place.
  pub record Resumes (c m : Client nor) : Type 0 where
    pub online : Online crc app m
    pub received : m.ota_info.dlctx.received ≡ c.ota_info.dlctx.received
    pub place : m.flash_addr ≡ c.flash_addr

  timeout-Resumes :
      (c : Client nor) (t : ℕ) → Online crc app c → Resumes c (record c { ota_timeout = t })
  timeout-Resumes c t o = record {
    online = record {
      state = o.state;
      downloads = record {
        in_slot = o.downloads.in_slot;
        unfinished = o.downloads.unfinished;
        bounded = o.downloads.bounded;
        summed = o.downloads.summed;
      };
      image = o.image;
      so_far = o.so_far;
      blank = o.blank;
      whole_blocks = o.whole_blocks;
      asks = o.asks;
    };
    received = refl;
    place = refl;
  }

  again-Resumes : (c : Client nor) → Online crc app c → Resumes c (request_next_block c)
  unfolding request_next_block
  again-Resumes c o = record {
    online = record {
      state = o.state;
      downloads = request_next_block-Downloads crc c o.downloads;
      image = o.image;
      so_far = o.so_far;
      blank = o.blank;
      whole_blocks = o.whole_blocks;
      asks =
          asks_next c o.downloads.unfinished o.downloads.bounded
          ∙ ap
              (λ (k : AppInfo). some (
                get_app_data k.version c.ota_info.dlctx.received
                  (block_size (k.size - c.ota_info.dlctx.received))))
              o.image;
    };
    received = refl;
    place = refl;
  }

  Resumes-trans : (c m n : Client nor) → Resumes c m → Resumes m n → Resumes c n
  Resumes-trans c m n p q = record {
    online = q.online;
    received = q.received ∙ p.received;
    place = q.place ∙ p.place;
  }

  second-Resumes : (c : Client nor) → Online crc app c → Resumes c (ota_1s_event c)
  second-Resumes c o = elim (dec_lt 1 c.ota_timeout) [
    | yes h ↦
        subst (Resumes c) (sym (second_more c o.state h)) (timeout-Resumes c (c.ota_timeout - 1) o)
    | no h ↦ elim (dec_lt 0 c.ota_timeout) [
      | yes k ↦
          let m = record c { ota_timeout = ota_timeout_max } in
          let r = timeout-Resumes c ota_timeout_max o in
          subst (Resumes c) (sym (second_last c o.state (omega arith)))
            (Resumes-trans c m (request_next_block m) r (again-Resumes m r.online))
      | no k ↦
          subst (Resumes c) (sym (second_none c o.state (omega arith)))
            (timeout-Resumes c c.ota_timeout o)
    ]
  ]

  turn_nothing : (c : Client nor) → c.ota_state ≡ downloading → ota_run crc c ≡ c
  unfolding ota_run
  turn_nothing c e = rw e refl

  turn-Resumes : (c : Client nor) → Online crc app c → Resumes c (ota_run crc c)
  turn-Resumes c o =
      subst (Resumes c) (sym (turn_nothing c o.state)) (timeout-Resumes c c.ota_timeout o)

  pauses-Resumes :
      (ps : List Pause) (c : Client nor) → Online crc app c → Resumes c (pauses crc ps c)
  unfolding pauses
  pauses-Resumes [] c o = timeout-Resumes c c.ota_timeout o
  pauses-Resumes (second ∷ ps) c o =
      let r = second-Resumes c o in
      Resumes-trans c (ota_1s_event c) _ r (pauses-Resumes ps (ota_1s_event c) r.online)
  pauses-Resumes (turn ∷ ps) c o =
      let r = turn-Resumes c o in
      Resumes-trans c (ota_run crc c) _ r (pauses-Resumes ps (ota_run crc c) r.online)

module _ {nor : Nor} (crc : Crc32) (srv : Server) (app : OtaApp) where
  -- A download that has stored whole blocks of the image that the server has, and asks for the next
  -- one, comes to its end whatever gets lost: with any number of seconds and turns of the main loop
  -- in front of each answer that arrives, during which requests or answers are lost and the client
  -- asks again, one answer for each block that is left makes the update be applied, and the slot
  -- hold the image of the server byte by byte.
  pub lossy_completes :
      (pss : List (List Pause)) (c : Client nor)
      → Online crc app c
      → Serves crc srv app
      → length pss ≡ (app.info.size - c.ota_info.dlctx.received + 127) / 128
      → let m = lossy_exchanges crc srv pss c in
        (m.ota_state ≡ applying)
        × (window (nor.byte_at m.flash) c.flash_addr (length app.bin) ≡ app.bin)
  unfolding lossy_exchanges
  lossy_completes [] c o s e = absurd (omega (arith, e, unfinished crc srv app c o))
  lossy_completes (ps ∷ pss) c o s e =
      let m = pauses crc ps c in
      let r = pauses-Resumes crc app ps c o in
      let same : length (ps ∷ pss) ≡ blocks_left crc srv app m = omega (arith, e, r.received) in
      elim (exchange-Exchanged crc srv app m r.online s) [
        | inl (p, a, f) ↦
            subst (λ k. Done crc srv app k (lossy_exchanges crc srv pss (exchange crc srv m)))
              (a ∙ r.place) (lossy_completes pss (exchange crc srv m) p s (omega (arith, same, f)))
        | inr (f, d) ↦
            last pss m (omega (arith, same, f))
              (subst (λ k. Done crc srv app k (exchange crc srv m)) r.place d)
      ]
    where
      last :
          (pss : List (List Pause)) (m : Client nor)
          → length pss ≡ 0
          → Done crc srv app c.flash_addr (exchange crc srv m)
          → Done crc srv app c.flash_addr (lossy_exchanges crc srv pss (exchange crc srv m))
      last [] m h d = d
      last (qs ∷ qss) m h d = absurd (omega arith)
