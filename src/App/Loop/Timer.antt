-- ===== src/App/Loop/Timer.antt =====
-- How the timer of app/src/timer.c counts a second.
use stc_isp_demo.Prelude.{
  ℕ, zero, suc, ◌+◌, ◌%◌, ◌<◌, ◌≡◌, ◌∙◌, refl, sym, ap, arith, Bool, true, false, ◌||◌, ◌==◌, leb,
  dec_lt,
}
use stc_isp_demo.App.Loop.{Clock, t0_isr, t0_isrs}

tick_last :
    (t : Clock) → t.counter_1ms ≡ 999 → t0_isr t ≡ record { counter_1ms = 0; flag_1s = true }
unfolding t0_isr
tick_last t h =
    let e : ((t.counter_1ms + 1) % 65536 == 1000) ≡ true = ground (arith, h) in rw e refl

tick_more :
    (t : Clock) → t.counter_1ms < 999 → t0_isr t ≡ record t { counter_1ms = t.counter_1ms + 1 }
unfolding t0_isr
tick_more t h =
    let e : ((t.counter_1ms + 1) % 65536 == 1000) ≡ false = ground (arith, h) in
    let n : (t.counter_1ms + 1) % 65536 ≡ t.counter_1ms + 1 = omega (arith, h) in rw e (rw n refl)

or_false : (b : Bool) → b || false ≡ b
or_false true = refl
or_false false = refl

or_true : (b : Bool) → b || true ≡ true
or_true true = refl
or_true false = refl

-- The clock when the count has gone on to `x`
abbrev counted : Clock → ℕ → Clock
counted t x = record { counter_1ms = x % 1000; flag_1s = t.flag_1s || leb 1000 x }

-- The interrupts of the timer, one each millisecond, count modulo 1000 from a count below that, and set
-- the flag at the end of each second: after `n` of them it is set if it was before, or if the count and
-- `n` come to 1000 or more.
pub t0_isrs_lem :
    (n : ℕ) (t : Clock)
    → t.counter_1ms < 1000
    → t0_isrs n t ≡ record {
      counter_1ms = (t.counter_1ms + n) % 1000;
      flag_1s = t.flag_1s || leb 1000 (t.counter_1ms + n);
    }
unfolding t0_isrs
t0_isrs_lem zero t h =
    let c : (t.counter_1ms + 0) % 1000 ≡ t.counter_1ms = omega (arith, h) in
    let f : leb 1000 (t.counter_1ms + 0) ≡ false = ground (arith, h) in
    rw (c, f) (ap (λ b. record t { flag_1s = b }) (sym (or_false t.flag_1s)))
t0_isrs_lem (suc n) t h = elim (dec_lt t.counter_1ms 999) [
  | yes k ↦
      ap (t0_isrs n) (tick_more t k)
      ∙ t0_isrs_lem n (record t { counter_1ms = t.counter_1ms + 1 }) (omega (arith, k))
      ∙ ap (counted t) (omega arith)
  | no k ↦
      let last : t.counter_1ms ≡ 999 = omega (arith, h, k) in
      let over : leb 1000 (t.counter_1ms + suc n) ≡ true = ground (arith, last) in
      let same : (0 + n) % 1000 ≡ (t.counter_1ms + suc n) % 1000 = omega (arith, last) in
      ap (t0_isrs n) (tick_last t last)
      ∙ t0_isrs_lem n (record { counter_1ms = 0; flag_1s = true }) (omega arith)
      ∙ ap (λ k. record { counter_1ms = k; flag_1s = true }) same
      ∙ rw over (
          ap (λ b. record { counter_1ms = (t.counter_1ms + suc n) % 1000; flag_1s = b })
            (sym (or_true t.flag_1s)))
]
