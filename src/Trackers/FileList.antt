-- ===== src/Trackers/FileList.antt =====
-- app_state.rs: `FileListRefreshTracker`.
use lan_bridge.Base.{
  ℕ, ◌-◌, String, Bool, true, false, Option, none, some, string_eq, if◌then◌else◌, ltb,
}
use lan_bridge.Base.Assoc.{HashMap, lookup, insert}
use lan_bridge.Model.{Uuid}
use lan_bridge.Trackers.{saturating_add}

pub record FileListRefreshState : Type 0 where
  pub revision : ℕ
  pub last_changed_at : Option ℕ
  pub reason : String
  pub last_metadata_check_at : Option ℕ

abbrev pub refresh_or_new : Option FileListRefreshState → FileListRefreshState
refresh_or_new none = record {
  revision = 0;
  last_changed_at = none;
  reason = "none";
  last_metadata_check_at = none;
}
refresh_or_new (some s) = s

abbrev pub marked : String → ℕ → FileListRefreshState → FileListRefreshState
marked reason now s = record s {
  revision = saturating_add s.revision 1;
  last_changed_at = some now;
  reason = reason;
}

-- The new map and the new revision.
unfoldable pub mark :
    Uuid → String → ℕ → HashMap Uuid FileListRefreshState → HashMap Uuid FileListRefreshState × ℕ
mark task_id reason now tasks =
    let state = marked reason now (refresh_or_new (lookup task_id tasks)) in
    (insert task_id state tasks, state.revision)

-- `now.duration_since(last) < interval` of the last check, if there was one.
abbrev pub checked_recently : Option ℕ → ℕ → ℕ → Bool
checked_recently none now interval = false
checked_recently (some last) now interval = ltb (now - last) interval

unfoldable pub should_check_metadata :
    Uuid → ℕ → ℕ → HashMap Uuid FileListRefreshState → HashMap Uuid FileListRefreshState × Bool
should_check_metadata task_id interval now tasks =
    let state = refresh_or_new (lookup task_id tasks) in
    if checked_recently state.last_metadata_check_at now interval
    then (insert task_id state tasks, false)
    else (insert task_id (record state { last_metadata_check_at = some now }) tasks, true)
