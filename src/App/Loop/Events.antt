-- ===== src/App/Loop/Events.antt =====
-- What a turn of the application's main loop does to the update client: events of OtaClient.Machine, which
-- are read off the bytes of the packet and the count of the timer.
use stc_isp_demo.Prelude.{
  ℕ, zero, suc, ◌+◌, ◌*◌, ◌%◌, ◌<◌, ◌≡◌, ◌∙◌, refl, sym, ap, subst, arith, Bool, true, false, ◌||◌,
  ◌&&◌, List, [], ◌∷◌, ◌++◌, append-nil, Option, none, some, Option-cases, ◌==◌, ==_iff, leb,
  Bool-cases, inl, inr, get_or, take, drop, if◌then◌else◌,
}
use stc_isp_demo.App
use stc_isp_demo.App.{le32_at, latest_of, app_data_of}
use stc_isp_demo.App.Loop.{
  Clock, Loop, Turn, Step, running, resets, fails, then_do, send_bytes, send_requests, client_does,
  answer, cleared, take_packet, count_timeout, on_second, after_run, turn, t0_isrs,
}
use stc_isp_demo.App.Loop.Timer.{t0_isrs_lem}
use stc_isp_demo.Command.{ChipInfo, cmd, size, bytes_at}
use stc_isp_demo.Device.Crc.{Crc32}
use stc_isp_demo.Device.Nor.{Nor}
use stc_isp_demo.OtaClient.{
  Client, Request, LatestAppInfo, AppData, ota_1s_event, ota_run, ota_on_latest_app_info,
  ota_on_app_data,
}
use stc_isp_demo.OtaClient.Machine.{Event, second, run, latest_app_info, app_data, step, steps}
use stc_isp_demo.Uart.{Parser}
use stc_isp_demo.Uart.Queue.{Ring, Irq, isrs, uart_run}

-- The commands that erase or program the external flash
abbrev pub changes_flash : List ℕ → Bool
changes_flash rx = (cmd rx == 0xB3) || ((cmd rx == 0xB4) || (cmd rx == 0xB6))

-- The number whose digits to the base 256 are some bytes, the low one in front
abbrev pub number_of : List ℕ → ℕ
number_of [] = 0
number_of (b ∷ bs) = b + 256 * number_of bs

abbrev pub word_at : ℕ → List ℕ → ℕ
word_at o rx = number_of (take 4 (drop o rx))

-- The result and the four words of a record
abbrev pub told_latest : List ℕ → LatestAppInfo
told_latest rx = record {
  result = get_or rx 8 0;
  info = record {
    size = word_at 9 rx;
    crc = word_at 13 rx;
    timestamp = word_at 17 rx;
    version = word_at 21 rx;
  };
}

-- The result, three words and the block
abbrev pub told_data : List ℕ → AppData
told_data rx = record {
  result = get_or rx 8 0;
  offset = word_at 9 rx;
  size = word_at 13 rx;
  crc = word_at 17 rx;
  dat = drop 21 rx;
}

-- The event that a packet is to the client: the message 0xC0 with a size of 17, 0xC1 with one of 14 or
-- more, or none.
abbrev pub message_in : List ℕ → List Event
message_in rx =
    if (cmd rx == 0xC0) && (size rx == 17)
    then latest_app_info (told_latest rx) ∷ []
    else if (cmd rx == 0xC1) && leb 14 (size rx)
    then app_data (told_data rx) ∷ []
    else []

-- `rev32` reads the word in front of a list.
le32_at_front : (rx : List ℕ) → le32_at rx 0 ≡ number_of (take 4 rx)
le32_at_front [] = refl
le32_at_front (a ∷ []) = omega arith
le32_at_front (a ∷ (b ∷ [])) = omega arith
le32_at_front (a ∷ (b ∷ (c ∷ []))) = omega arith
le32_at_front (a ∷ (b ∷ (c ∷ (d ∷ rx)))) = omega arith

le32_at_lem : (o : ℕ) (rx : List ℕ) → le32_at rx o ≡ word_at o rx
le32_at_lem zero rx = le32_at_front rx
le32_at_lem (suc o) [] = refl
le32_at_lem (suc o) (b ∷ rx) =
    let one : suc o + 1 ≡ suc (o + 1) = omega arith in
    let two : suc o + 2 ≡ suc (o + 2) = omega arith in
    let three : suc o + 3 ≡ suc (o + 3) = omega arith in rw (one, two, three) (le32_at_lem o rx)

latest_of_lem : (rx : List ℕ) → latest_of rx ≡ told_latest rx
latest_of_lem rx = λ i. record {
  result = get_or rx 8 0;
  info = record {
    size = le32_at_lem 9 rx i;
    crc = le32_at_lem 13 rx i;
    timestamp = le32_at_lem 17 rx i;
    version = le32_at_lem 21 rx i;
  };
}

app_data_of_lem : (rx : List ℕ) → app_data_of rx ≡ told_data rx
app_data_of_lem rx = λ i. record {
  result = get_or rx 8 0;
  offset = le32_at_lem 9 rx i;
  size = le32_at_lem 13 rx i;
  crc = le32_at_lem 17 rx i;
  dat = drop 21 rx;
}

module _ (crc : Crc32) (nor : Nor) (erase_chip : nor.State → nor.State) (info : ChipInfo)
    (ring : Ring) where
  abbrev State : Type 0
  State = Loop crc nor erase_chip info ring

  abbrev Result : Type 0
  Result = Step crc nor erase_chip info ring

  steps-append :
      (es fs : List Event) (c : Client nor) → steps crc (es ++ fs) c ≡ steps crc fs (steps crc es c)
  unfolding steps
  steps-append [] fs c = refl
  steps-append (e ∷ es) fs c = steps-append es fs (step crc e c)

  -- The client is the one behind the events, and the timer is the given one.
  abbrev pub Has : List Event → Client nor → Clock → State → Type 0
  Has es c t l = (steps crc es c ≡ l.client) × (l.timer ≡ t)

  -- If the turn goes on, it is with this client and this timer.
  abbrev pub Leads : List Event → Client nor → Clock → Result → Type 0
  Leads es c t (running l) = Has es c t l
  Leads es c t resets = Unit
  Leads es c t fails = Unit

  module _ (es : List Event) (c : Client nor) (t : Clock) where
    Leads-then :
        (fs : List Event) (u : Clock) (r : Result) (f : State → Result)
        → Leads es c t r
        → ((l : State) → Has es c t l → Leads fs c u (f l))
        → Leads fs c u (then_do crc nor erase_chip info ring r f)
    Leads-then fs u (running l) f h g = g l h
    Leads-then fs u resets f h g = tt
    Leads-then fs u fails f h g = tt

    Leads-send_bytes :
        (irqs : ℕ → List (Irq ring)) (o : Option (List ℕ)) (l : State)
        → Has es c t l
        → Leads es c t (send_bytes crc nor erase_chip info ring irqs o l)
    Leads-send_bytes irqs none l h = tt
    Leads-send_bytes irqs (some bytes) l h = h

    Leads-send_requests :
        (k : ℕ) (irqs : ℕ → ℕ → List (Irq ring)) (rs : List Request) (l : State)
        → Has es c t l
        → Leads es c t (send_requests crc nor erase_chip info ring k irqs rs l)
    unfolding send_requests
    Leads-send_requests k irqs [] l h = h
    Leads-send_requests k irqs (r ∷ rs) l h =
        Leads-then es t _ (send_requests crc nor erase_chip info ring (suc k) irqs rs)
          (Leads-send_bytes (irqs k) _ l h) (λ m g. Leads-send_requests (suc k) irqs rs m g)

  Leads-client_does :
      (es : List Event) (e : Event) (c : Client nor) (t : Clock) (k : ℕ)
      (irqs : ℕ → ℕ → List (Irq ring)) (f : Client nor → Client nor) (l : State)
      → Has es c t l
      → ((d : Client nor) → step crc e d ≡ f d)
      → Leads (es ++ (e ∷ [])) c t (client_does crc nor erase_chip info ring k irqs f l)
  unfolding client_does steps
  Leads-client_does es e c t k irqs f l h g =
      Leads-send_requests (es ++ (e ∷ [])) c t k irqs _ (record l { client = f l.client })
        (steps-append es (e ∷ []) c ∙ ap (step crc e) h.0 ∙ g l.client, h.1)

  -- What a command does to the client.
  abbrev LeadsTo : List Event → Client nor → App.Outcome crc nor erase_chip info → Type 0
  LeadsTo es c App.fault = Unit
  LeadsTo es c App.reset = Unit
  LeadsTo es c (App.quiet d) = steps crc es c ≡ d
  LeadsTo es c (App.reply status dat d) = steps crc es c ≡ d

  LeadsTo-calc_crc32 :
      (rx : List ℕ) (c : Client nor) → LeadsTo [] c (App.calc_crc32 crc nor erase_chip info rx c)
  unfolding steps
  LeadsTo-calc_crc32 rx c = elim (Option-cases (bytes_at 8 (size rx) rx)) [
    | inl e ↦ rw (e, App.calc_crc32) tt
    | inr (bs, e) ↦ rw (e, App.calc_crc32) refl
  ]

  steps-on_latest :
      (rx : List ℕ) (c : Client nor)
      → cmd rx ≡ 0xC0
      → steps crc (message_in rx) c ≡ App.on_latest crc nor erase_chip info rx c
  unfolding App.on_latest steps step
  steps-on_latest rx c q = elim (Bool-cases (size rx == 17)) [
    | inl e ↦ rw (q, e) (ap (λ m. ota_on_latest_app_info m c) (sym (latest_of_lem rx)))
    | inr e ↦ rw (q, e) refl
  ]

  steps-on_app_data :
      (rx : List ℕ) (c : Client nor)
      → cmd rx ≡ 0xC1
      → steps crc (message_in rx) c ≡ App.on_app_data crc nor erase_chip info rx c
  unfolding App.on_app_data steps step
  steps-on_app_data rx c q = elim (Bool-cases (leb 14 (size rx))) [
    | inl e ↦ rw (q, e) (ap (λ m. ota_on_app_data crc m c) (sym (app_data_of_lem rx)))
    | inr e ↦ rw (q, e) refl
  ]

  -- A command that is no message of the server, and does not change the flash, leaves the client.
  LeadsTo-handle_flash :
      (rx : List ℕ) (c : Client nor)
      → changes_flash rx ≡ false
      → (cmd rx == 0xC0) ≡ false
      → (cmd rx == 0xC1) ≡ false
      → LeadsTo [] c (App.handle_flash crc nor erase_chip info rx c)
  unfolding App.handle_flash steps
  LeadsTo-handle_flash rx c h c0 c1 =
      let b3 : (cmd rx == 0xB3) ≡ false = ground arith in
      let b4 : (cmd rx == 0xB4) ≡ false = ground arith in
      let b6 : (cmd rx == 0xB6) ≡ false = ground arith in
      rw (b3, b4, b6, c0, c1)
        (elim (Bool-cases (cmd rx == 0xB2)) [
          | inl e ↦ rw e refl
          | inr e ↦ rw e (elim (Bool-cases (cmd rx == 0xB5)) [
            | inl e ↦ rw e refl
            | inr e ↦ rw e (elim (Bool-cases (cmd rx == 0xB9)) [
              | inl e ↦ rw e (LeadsTo-calc_crc32 rx c)
              | inr e ↦ rw e refl
            ])
          ])
        ])

  LeadsTo-others :
      (rx : List ℕ) (c : Client nor)
      → changes_flash rx ≡ false
      → (cmd rx == 0xC0) ≡ false
      → (cmd rx == 0xC1) ≡ false
      → LeadsTo [] c (App.isp_handle crc nor erase_chip info rx c)
  unfolding App.isp_handle steps
  LeadsTo-others rx c h c0 c1 = elim (Bool-cases (cmd rx == 0xA0)) [
    | inl e ↦ rw e refl
    | inr e ↦ rw e (elim (Bool-cases (cmd rx == 0xA4)) [
      | inl e ↦ rw e tt
      | inr e ↦ rw e (elim (Bool-cases (cmd rx == 0xB0)) [
        | inl e ↦ rw e refl
        | inr e ↦ rw e (elim (Bool-cases (cmd rx == 0xB1)) [
          | inl e ↦ rw e refl
          | inr e ↦ rw e (elim (Bool-cases (cmd rx == 0xB8)) [
            | inl e ↦ rw e refl
            | inr e ↦ rw e (LeadsTo-handle_flash rx c h c0 c1)
          ])
        ])
      ])
    ])
  ]

  handles-latest :
      (rx : List ℕ) (c : Client nor)
      → cmd rx ≡ 0xC0
      → App.isp_handle crc nor erase_chip info rx c
        ≡ App.quiet (App.on_latest crc nor erase_chip info rx c)
  unfolding App.isp_handle App.handle_flash
  handles-latest rx c q = rw q refl

  handles-app_data :
      (rx : List ℕ) (c : Client nor)
      → cmd rx ≡ 0xC1
      → App.isp_handle crc nor erase_chip info rx c
        ≡ App.quiet (App.on_app_data crc nor erase_chip info rx c)
  unfolding App.isp_handle App.handle_flash
  handles-app_data rx c q = rw q refl

  LeadsTo-isp_handle :
      (rx : List ℕ) (c : Client nor)
      → changes_flash rx ≡ false
      → LeadsTo (message_in rx) c (App.isp_handle crc nor erase_chip info rx c)
  LeadsTo-isp_handle rx c h = elim (Bool-cases (cmd rx == 0xC0)) [
    | inl e ↦
        let q = (==_iff (cmd rx) 0xC0).0 e in
        subst (LeadsTo (message_in rx) c) (sym (handles-latest rx c q)) (steps-on_latest rx c q)
    | inr e ↦ elim (Bool-cases (cmd rx == 0xC1)) [
      | inl f ↦
          let q = (==_iff (cmd rx) 0xC1).0 f in
          subst (LeadsTo (message_in rx) c) (sym (handles-app_data rx c q))
            (steps-on_app_data rx c q)
      | inr f ↦
          let none_in : message_in rx ≡ [] = rw (e, f) refl in
          subst (λ es. LeadsTo es c (App.isp_handle crc nor erase_chip info rx c)) (sym none_in)
            (LeadsTo-others rx c h e f)
    ]
  ]

  Leads-answer :
      (es : List Event) (c : Client nor) (irqs : ℕ → ℕ → List (Irq ring))
      (o : App.Outcome crc nor erase_chip info) (l : State)
      → LeadsTo es c o
      → Leads es c l.timer (answer crc nor erase_chip info ring irqs o l)
  Leads-answer es c irqs App.fault l h = tt
  Leads-answer es c irqs App.reset l h = tt
  Leads-answer es c irqs (App.quiet d) l h =
      Leads-send_requests es c l.timer 0 irqs _ (record l { client = d; tx = cleared l.tx })
        (h, refl)
  Leads-answer es c irqs (App.reply status dat d) l h =
      Leads-send_bytes es c l.timer (irqs 0) _ (record l { client = d }) (h, refl)

  -- The events of a packet, if one was received
  abbrev pub heard : Parser → List Event
  heard p = if p.ok then message_in p.buf else []

  Leads-take_packet :
      (irqs : ℕ → ℕ → List (Irq ring)) (l : State)
      → ((l.parser).ok ≡ true → changes_flash (l.parser).buf ≡ false)
      → Leads (heard l.parser) l.client l.timer (take_packet crc nor erase_chip info ring irqs l)
  unfolding take_packet steps
  Leads-take_packet irqs l h = elim (Bool-cases (l.parser).ok) [
    | inl e ↦ rw e (
        Leads-answer (message_in (l.parser).buf) l.client irqs _ _
          (LeadsTo-isp_handle (l.parser).buf l.client (h e)))
    | inr e ↦ rw e (refl, refl)
  ]

  -- The event of a second that is over
  abbrev pub elapsed : Bool → List Event
  elapsed b = if b then second ∷ [] else []

  abbrev unflagged : Clock → Clock
  unflagged t = record t { flag_1s = false }

  Leads-second :
      (es : List Event) (c : Client nor) (irqs : ℕ → ℕ → List (Irq ring)) (l : State)
      → steps crc es c ≡ l.client
      → Leads
          (es ++ elapsed (l.timer).flag_1s)
          c
          (unflagged l.timer)
          (on_second crc nor erase_chip info ring irqs l)
  unfolding on_second step
  Leads-second es c irqs l h = elim (Bool-cases (l.timer).flag_1s) [
    | inl e ↦
        let fs = es ++ (second ∷ []) in
        let u = unflagged l.timer in
        rw e (
          Leads-then fs c u fs u _ _
            (Leads-client_does es second c u 1 irqs ota_1s_event _ (h, refl) (λ d. refl))
            (λ m g. Leads-send_bytes fs c u (irqs 2) _ m g))
    | inr e ↦ rw (e, append-nil es) (h, refl)
  ]

  Leads-on_second :
      (es : List Event) (c : Client nor) (t : Clock) (irqs : ℕ → ℕ → List (Irq ring)) (l : State)
      → Has es c t l
      → Leads
          (es ++ elapsed t.flag_1s)
          c
          (unflagged t)
          (on_second crc nor erase_chip info ring irqs l)
  Leads-on_second es c t irqs l h =
      subst
        (λ (u : Clock).
          Leads (es ++ elapsed u.flag_1s) c (unflagged u)
            (on_second crc nor erase_chip info ring irqs l))
        h.1 (Leads-second es c irqs l h.0)

  -- The events of the received packet, of a second and of the call of `ota_run`, in their order
  abbrev pub events_of : Option (Parser × ring.State) → Bool → List Event
  events_of none b = []
  events_of (some (p, s)) b = (heard p ++ elapsed b) ++ (run ∷ [])

  Leads-after_run :
      (t : Turn crc nor erase_chip info ring) (l : State) (o : Option (Parser × ring.State))
      → ((p : Parser) (s : ring.State)
          → o ≡ some (p, s)
          → p.ok ≡ true
          → changes_flash p.buf ≡ false)
      → Leads
          (events_of o (l.timer).flag_1s)
          l.client
          (unflagged l.timer)
          (after_run crc nor erase_chip info ring t l o)
  unfolding count_timeout step
  Leads-after_run t l none h = tt
  Leads-after_run t l (some (p, s)) h =
      let got : State = record l { parser = p; line = record l.line { rxrb = s } } in
      let es = heard p in
      let u = unflagged l.timer in
      let fs = es ++ elapsed (l.timer).flag_1s in
      Leads-then es l.client l.timer (fs ++ (run ∷ [])) u _ _
        (Leads-take_packet t.wait_irqs got (h p s refl))
        (λ m g. elim (Bool-cases t.key_boot) [
          | inl e ↦ rw e tt
          | inr e ↦ rw e (
              Leads-then fs l.client u (fs ++ (run ∷ [])) u _ _
                (Leads-on_second es l.client l.timer t.wait_irqs _ g)
                (λ n i.
                  Leads-client_does fs run l.client u 3 t.wait_irqs (ota_run crc) n i (λ d. refl)))
        ])

  -- Every turn of the main loop that goes on, whatever interrupts come, makes the client take exactly
  -- these events one after the other: the message of the update server in the packet that uart1_run
  -- reports, if it is one of the right size, with its words read from their bytes; a second, if the
  -- flag was set or the count of milliseconds comes to 1000 or more in this turn; and a call of ota_run.
  -- Behind it the flag is clear, and the count goes on modulo 1000. The count was below 1000, and the
  -- packet is no command that erases or programs the external flash.
  pub turn-steps :
      (t : Turn crc nor erase_chip info ring) (l k : State)
      → turn crc nor erase_chip info ring t l ≡ running k
      → l.timer.counter_1ms < 1000
      → ((p : Parser) (s : ring.State)
          → uart_run ring l.parser (isrs ring t.irqs l.line).rxrb ≡ some (p, s)
          → p.ok ≡ true
          → changes_flash p.buf ≡ false)
      → let count = l.timer.counter_1ms + t.ticks in
        let received = uart_run ring l.parser (isrs ring t.irqs l.line).rxrb in
        (steps crc (events_of received (l.timer.flag_1s || leb 1000 count)) l.client ≡ k.client)
        × (k.timer ≡ record { counter_1ms = count % 1000; flag_1s = false })
  unfolding turn
  turn-steps t l k e b h =
      let received = uart_run ring l.parser (isrs ring t.irqs l.line).rxrb in
      let m : State = record l {
        line = isrs ring t.irqs l.line;
        timer = t0_isrs t.ticks l.timer;
        cycles = (l.cycles + 1) % 65536;
      } in
      subst (λ (u : Clock). Has (events_of received u.flag_1s) l.client (unflagged u) k)
        (t0_isrs_lem t.ticks l.timer b)
        (subst (Leads (events_of received (m.timer).flag_1s) l.client (unflagged m.timer)) e
          (Leads-after_run t m received h))
