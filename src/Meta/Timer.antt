-- ===== src/Meta/Timer.antt =====
-- The timers of src/metadatamanagement/metaserver.cc.
use tpst.Prelude.{◌≡◌, refl, none, some, Bytes, bytes_eq_iff, arith}
use tpst.StdMap.{bytes_key, find, put, erase}
use tpst.StdMap.Laws.{find-put, find-erase}
use tpst.Coordinator.Double.{Double}
use tpst.Meta.{
  MetaState, Timespec, start_timing, end_timing, is_timing, tick_timing, elapsed, record_time,
  record_time_start, record_time_tick,
}

module _ {ℓ} (W : Type ℓ) ⦃d : Double W⦄ (key : Bytes) where
  abbrev started : Timespec → MetaState → MetaState
  started t s = record s { timer_map = put key t s.timer_map }

  start-new :
      (t : Timespec) (s : MetaState)
      → find key s.timer_map ≡ none
      → record_time_start {W = W} key t s ≡ (start_timing, started t s)
  unfolding record_time_start
  start-new t s new = rw (new, record_time_start)

  start-again :
      (t t0 : Timespec) (s : MetaState)
      → find key s.timer_map ≡ some t0
      → record_time_start {W = W} key t s ≡ (is_timing, s)
  unfolding record_time_start
  start-again t t0 s known = rw (known, record_time_start)

  tick-known :
      (t t0 : Timespec) (s : MetaState)
      → find key s.timer_map ≡ some t0
      → record_time_tick {W = W} key t s ≡ (tick_timing (elapsed t0 t), s)
  unfolding record_time_tick
  tick-known t t0 s known = rw (known, record_time_tick)

  record-known :
      (t t0 : Timespec) (s : MetaState)
      → find key s.timer_map ≡ some t0
      → record_time {W = W} key t s
        ≡ (end_timing (elapsed t0 t), record s { timer_map = erase key s.timer_map })
  unfolding record_time
  record-known t t0 s known = rw (known, record_time)

  started-find : (t : Timespec) (s : MetaState) → find key (started t s).timer_map ≡ some t
  started-find t s = ground (arith, find-put key key t s.timer_map, bytes_eq_iff key key)

  restored :
      (t : Timespec) (s : MetaState) (k : Bytes)
      → find key s.timer_map ≡ none
      → find k (erase key (started t s).timer_map) ≡ find k s.timer_map
  restored t s k new = ground (
    arith,
    find-erase k key (put key t s.timer_map),
    find-put k key t s.timer_map,
    bytes_eq_iff key k,
  )

  -- The states that `Recordtimestart`, again `Recordtimestart`, and `Recordtimetick` leave.
  abbrev pub session : Timespec → Timespec → Timespec → MetaState → MetaState
  session t0 t1 t2 s =
      (record_time_tick {W = W} key t2
        (record_time_start {W = W} key t1 (record_time_start {W = W} key t0 s).1).1).1

  session-started :
      (t0 t1 t2 : Timespec) (s : MetaState)
      → find key s.timer_map ≡ none
      → session t0 t1 t2 s ≡ started t0 s
  session-started t0 t1 t2 s new =
      rw
        (
          session,
          start-new t0 s new,
          start-again t1 t0 (started t0 s) (started-find t0 s),
          tick-known t2 t0 (started t0 s) (started-find t0 s),
        )
        refl

  -- A key that is not timed is started, started again and ticked, each time with the clock's time.
  -- The second start and the tick change nothing: `Recordtime` then prints the time since the first
  -- start and forgets the key, and every key is as it was before.
  pub timing-session :
      (t0 t1 t2 t3 : Timespec) (s : MetaState)
      → find key s.timer_map ≡ none
      → ((record_time {W = W} key t3 (session t0 t1 t2 s)).0 ≡ end_timing (elapsed t0 t3))
        × ((k : Bytes)
            → find k (record_time {W = W} key t3 (session t0 t1 t2 s)).1.timer_map
              ≡ find k s.timer_map)
  timing-session t0 t1 t2 t3 s new =
      rw (session-started t0 t1 t2 s new, record-known t3 t0 (started t0 s) (started-find t0 s))
        (refl, λ k. restored t0 s k new)
