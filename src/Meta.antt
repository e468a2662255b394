-- ===== src/Meta.antt =====
-- The metadata server, src/metadatamanagement/metaserver.cc: the handlers of its service.
pub mod Queue
pub mod Space
pub mod Timer
use tpst.Prelude.{◌≡◌, List, [], ◌∷◌, ◌++◌, Option, none, some, ℤ, pos, ◌-ℤ◌, Bytes, codes}
use tpst.StdMap.{bytes_key, Map, find, find_or, put, erase}
use tpst.Coordinator.Double.{Double}

pub record Timespec : Type 0 where
  pub tv_sec : ℤ
  pub tv_nsec : ℤ

-- The global tables. A `queue<string>` is listed from its front.
pub record MetaState : Type 0 where
  pub timer_map : Map Bytes Timespec
  pub meta_map : Map Bytes (List Bytes)
  pub meta_space : Map Bytes Bytes

-- What a timing handler prints of its key. Its reply is always "OK".
pub data Printed {ℓ} (W : Type ℓ) : Type ℓ where
  start_timing : Printed W
  end_timing : W → Printed W
  is_timing : Printed W
  not_timing : Printed W
  tick_timing : W → Printed W

-- `Putmeta`
pub put_meta : Bytes → Bytes → MetaState → Bytes × MetaState
put_meta key meta s = elim (find key s.meta_map) [
  | none ↦ (codes "OK", record s { meta_map = put key (meta ∷ []) s.meta_map })
  | some queue ↦ (codes "OK", record s { meta_map = put key (queue ++ meta ∷ []) s.meta_map })
]

-- `Getmeta`
pub get_meta : Bytes → MetaState → Bytes × MetaState
get_meta key s = elim (find key s.meta_map) [
  | none ↦ (codes "NULL", s)
  | some queue ↦ elim queue [
    | [] ↦ (codes "NULL", s)
    | meta ∷ rest ↦ (meta, record s { meta_map = put key rest s.meta_map })
  ]
]

-- `Putmetaspace`
pub put_meta_space : Bytes → Bytes → MetaState → Bytes × MetaState
put_meta_space key meta s = elim (find key s.meta_space) [
  | none ↦ (codes "OK", record s { meta_space = put key meta s.meta_space })
  | some old ↦ (codes "OK", s)
]

-- `Getmetaspace`
pub get_meta_space : Bytes → MetaState → Bytes
get_meta_space key s = elim (find key s.meta_space) [ none ↦ codes "NULL" | some meta ↦ meta ]

module _ {ℓ} {W : Type ℓ} ⦃d : Double W⦄ where
  -- `(end.tv_sec - start.tv_sec) * 1.0 + (end.tv_nsec - start.tv_nsec) * 1.0 / BILLION`
  pub elapsed : Timespec → Timespec → W
  elapsed start end = d.add (d.mul (d.of_int (end.tv_sec -ℤ start.tv_sec)) (d.of_int (pos 1))) (
      d.div (d.mul (d.of_int (end.tv_nsec -ℤ start.tv_nsec)) (d.of_int (pos 1)))
        (d.of_int (pos 1000000000)))

  -- `Recordtime`. `now` is what `clock_gettime` returns.
  pub record_time : Bytes → Timespec → MetaState → Printed W × MetaState
  unfolding elapsed
  record_time key now s = elim (find key s.timer_map) [
    | none ↦ (start_timing, record s { timer_map = put key now s.timer_map })
    | some start ↦ (end_timing (elapsed start now), record s { timer_map = erase key s.timer_map })
  ]

  -- `Recordtimestart`
  pub record_time_start : Bytes → Timespec → MetaState → Printed W × MetaState
  record_time_start key now s = elim (find key s.timer_map) [
    | none ↦ (start_timing, record s { timer_map = put key now s.timer_map })
    | some start ↦ (is_timing, s)
  ]

  -- `Recordtimetick`
  pub record_time_tick : Bytes → Timespec → MetaState → Printed W × MetaState
  unfolding elapsed
  record_time_tick key now s = elim (find key s.timer_map) [
    | none ↦ (not_timing, s)
    | some start ↦ (tick_timing (elapsed start now), s)
  ]
