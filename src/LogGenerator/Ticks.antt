-- ===== src/LogGenerator/Ticks.antt =====
-- useLogGenerator.ts: the ticker goes on.
use lsmkv_enterprise.Common.{
  ℕ, suc, ◌+◌, ◌<◌, ◌≡◌, refl, sym, subst, none, Option, Bool, true, false, some, List, [], ◌∷◌,
  arith, if◌then◌else◌, All, ◌⊎◌, inl, inr,
}
use lsmkv_enterprise.Log.{push}
use lsmkv_enterprise.LogGenerator.{
  Moment, Generator, Template, pick_template, write_line, tick, TickerEvent, timeout, renamed,
  ticker_step, ticker_run,
}
use lsmkv_enterprise.LogGenerator.Templates.{pick_template-for_load}

-- The WebSocket is not active, as in the application, and an index is drawn in range.
abbrev pub IsUsual : TickerEvent → Type 0
IsUsual (timeout m) = (m.ws_active ≡ false) × ((n : ℕ) → 0 < n → m.draw n < n)
IsUsual renamed = Unit {0}

-- The number of the timeouts.
abbrev pub timeouts : List TickerEvent → ℕ
timeouts [] = 0
timeouts (timeout m ∷ es) = suc (timeouts es)
timeouts (renamed ∷ es) = timeouts es

-- A timeout of one of the two lengths is pending.
abbrev pub IsDelay : Option ℕ → Type 0
IsDelay o = (o ≡ some 700) ⊎ (o ≡ some 2000)

abbrev pub IsTicking : Generator → Type 0
IsTicking g = IsDelay g.timer

both_delays : (b : Bool) → IsDelay (some (if b then 700 else 2000))
both_delays true = inl refl
both_delays false = inr refl

write_line-writes :
    (m : Moment) (tpl : Template) (g : Generator)
    → IsTicking (write_line m (some tpl) g)
      × ((write_line m (some tpl) g).log.next_id ≡ suc g.log.next_id)
unfolding push
write_line-writes m tpl g = (both_delays m.load_running, refl)

tick-writes :
    (m : Moment) (g : Generator)
    → IsUsual (timeout m)
    → IsTicking (tick m g) × ((tick m g).log.next_id ≡ suc g.log.next_id)
unfolding tick
tick-writes m g (w, d) =
    let (tpl, e, f) = pick_template-for_load m.load_running m.percent m.draw d in
    subst
      (λ b.
        (let h : Generator =
            (if b
              then record g { timer = none }
              else write_line m (pick_template m.load_running m.percent m.draw) g) in
          IsTicking h × (h.log.next_id ≡ suc g.log.next_id)))
      (sym w)
      (subst
        (λ o. IsTicking (write_line m o g) × ((write_line m o g).log.next_id ≡ suc g.log.next_id))
        (sym e) (write_line-writes m tpl g))

pending_timeout : (m : Moment) (g : Generator) → IsTicking g → ticker_step (timeout m) g ≡ tick m g
unfolding ticker_step
pending_timeout m g (inl e) = ground (arith, e)
pending_timeout m g (inr e) = ground (arith, e)

renamed_step : (g : Generator) → ticker_step renamed g ≡ record g { timer = some 2000 }
unfolding ticker_step
renamed_step g = refl

-- From a generator with a pending timeout of 700 or 2000 ms, as long as the WebSocket's flag is false
-- and indices are drawn in range: after any timeouts and changes of the node names such a timeout is
-- pending, so that the ticker never stops, and the next id of the log has grown by one for each
-- timeout, as each has written one line.
pub ticker_run-goes_on :
    (es : List TickerEvent) (g : Generator)
    → All IsUsual es
    → IsTicking g
    → IsTicking (ticker_run es g) × ((ticker_run es g).log.next_id ≡ g.log.next_id + timeouts es)
unfolding ticker_run
ticker_run-goes_on [] g u t = (t, omega arith)
ticker_run-goes_on (timeout m ∷ es) g u t =
    let (a, b) = tick-writes m g u.0 in
    let (c, d) = ticker_run-goes_on es (tick m g) u.1 a in
    let step = pending_timeout m g t in
    subst
      (λ h.
        IsTicking (ticker_run es h)
        × ((ticker_run es h).log.next_id ≡ g.log.next_id + suc (timeouts es)))
      (sym step) (c, omega (arith, b, d))
ticker_run-goes_on (renamed ∷ es) g u t =
    subst
      (λ h.
        IsTicking (ticker_run es h) × ((ticker_run es h).log.next_id ≡ g.log.next_id + timeouts es))
      (sym (renamed_step g)) (ticker_run-goes_on es (record g { timer = some 2000 }) u.1 (inr refl))
