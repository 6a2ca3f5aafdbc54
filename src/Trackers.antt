-- ===== src/Trackers.antt =====
-- src-tauri/src/app_state.rs: the trackers that decide when a task is synchronised or rescanned. An
-- `Instant` is its time in milliseconds; `duration_since` is 0 for an earlier instant.
pub mod FileList
pub mod Dirty
pub mod Sweeps
use lan_bridge.Base.{ℕ, ◌+◌, ◌-◌, ◌^◌, if◌then◌else◌, ltb}

abbrev pub watcher_debounce : ℕ
watcher_debounce = 2500

abbrev pub auto_sync_fallback_sweep_interval : ℕ
auto_sync_fallback_sweep_interval = 120000

-- `u64::saturating_add`
abbrev pub saturating_add : ℕ → ℕ → ℕ
saturating_add a b = if ltb (a + b) (2 ^ 64) then a + b else 2 ^ 64 - 1
