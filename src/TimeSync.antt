-- ===== src/TimeSync.antt =====
-- binance_th/timesync.py. A reading of the local clock is an argument.
use binance_th.Prelude.{Bool, true, false}
use binance_th.Prelude.Int.{ℤ, pos, ◌+ℤ◌, ◌-ℤ◌}

pub record TimeSync : Type 0 where
  pub offset_ms : ℤ
  pub synced : Bool

-- `TimeSync()`
abbrev pub unsynced : TimeSync
unsynced = record { offset_ms = pos 0; synced = false }

unfoldable pub now_ms : ℤ → TimeSync → ℤ
now_ms clock t = clock +ℤ t.offset_ms

unfoldable pub update : ℤ → ℤ → TimeSync
update clock server_time_ms = record { offset_ms = server_time_ms -ℤ clock; synced = true }
