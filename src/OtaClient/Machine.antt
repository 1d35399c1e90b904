-- ===== src/OtaClient/Machine.antt =====
-- The update client of app/src/ota.c under any sequence of events.
use stc_isp_demo.Prelude.{◌≡◌, ◌≢◌, ◌⊎◌, inl, inr, refl, arith, List, [], ◌∷◌, Bool-cases}
use stc_isp_demo.Device.Crc.{Crc32}
use stc_isp_demo.Device.Nor.{Nor}
use stc_isp_demo.OtaClient.{
  downloading, applying, error, is_downloading, Client, LatestAppInfo, AppData, ota_1s_event,
  ota_on_latest_app_info, ota_on_app_data, ota_run,
}

-- What the main loop and the UART hand to the client.
pub data Event : Type 0 where
  second : Event
  run : Event
  latest_app_info : LatestAppInfo → Event
  app_data : AppData → Event

module _ {nor : Nor} (crc : Crc32) where
  unfoldable pub step : Event → Client nor → Client nor
  step second c = ota_1s_event c
  step run c = ota_run crc c
  step (latest_app_info m) c = ota_on_latest_app_info m c
  step (app_data d) c = ota_on_app_data crc d c

  unfoldable pub steps : List Event → Client nor → Client nor
  unfolding step
  steps [] c = c
  steps (e ∷ es) c = steps es (step e c)

  step_final :
      (e : Event) (c : Client nor) → (c.ota_state ≡ applying) ⊎ (c.ota_state ≡ error) → step e c ≡ c
  unfolding step ota_1s_event ota_run ota_on_latest_app_info ota_on_app_data
  step_final second c h = ground arith
  step_final run c h = ground arith
  step_final (latest_app_info m) c h = ground arith
  step_final (app_data d) c h = ground arith

  -- Once an update is applied or has failed, nothing that arrives changes the client, its record,
  -- the flash or what was sent, until the next reset.
  pub steps_final :
      (es : List Event) (c : Client nor)
      → (c.ota_state ≡ applying) ⊎ (c.ota_state ≡ error)
      → steps es c ≡ c
  unfolding steps
  steps_final [] c h = refl
  steps_final (e ∷ es) c h = rw (step_final e c h) (steps_final es c h)

  second-applying :
      (c : Client nor) → (ota_1s_event c).ota_state ≡ applying → c.ota_state ≡ applying
  unfolding ota_1s_event
  second-applying c h = ground arith

  run-applying : (c : Client nor) → (ota_run crc c).ota_state ≡ applying → c.ota_state ≡ applying
  unfolding ota_run
  run-applying c h = ground arith

  latest-applying :
      (m : LatestAppInfo) (c : Client nor)
      → (ota_on_latest_app_info m c).ota_state ≡ applying
      → c.ota_state ≡ applying
  unfolding ota_on_latest_app_info
  latest-applying m c h = ground arith

  block-applying :
      (d : AppData) (c : Client nor)
      → (ota_on_app_data crc d c).ota_state ≡ applying
      → (c.ota_state ≡ applying) ⊎ (c.ota_state ≡ downloading)
  unfolding ota_on_app_data
  block-applying d c h = elim (Bool-cases (is_downloading c.ota_state)) [
    | inl e ↦ inr (ground arith)
    | inr e ↦ inl (rw e at h)
  ]

  -- Only a block that arrives during a download can make the client apply an update.
  pub applying_needs_block :
      (e : Event) (c : Client nor)
      → c.ota_state ≢ applying
      → (step e c).ota_state ≡ applying
      → (d : AppData) × (e ≡ app_data d) × (c.ota_state ≡ downloading)
  unfolding step
  applying_needs_block second c n h = absurd (n (second-applying c h))
  applying_needs_block run c n h = absurd (n (run-applying c h))
  applying_needs_block (latest_app_info m) c n h = absurd (n (latest-applying m c h))
  applying_needs_block (app_data d) c n h = elim (block-applying d c h) [
    | inl e ↦ absurd (n e)
    | inr e ↦ (d, refl, e)
  ]
