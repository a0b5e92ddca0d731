-- ===== src/HealthMonitor/Loop.antt =====
-- app/core/health_monitor.py: the task that repeats the pass, with `start` and `stop`, as steps. What a
-- pass does is in the parent; here it only begins and ends.
use noxis_api_provider.Prelude.{ℕ, ◌+◌, Bool, true, false, List, [], ◌∷◌, if◌then◌else◌}

-- Where the task is: there is none, at the test of the loop, in a pass, in the wait for `_stop`, or at the
-- end of its function.
pub data Phase : Type 0 where
  absent at_test in_pass waiting ended : Phase

-- `_task` and `_stop`, and how many passes have begun.
pub record Monitor : Type 0 where
  pub phase : Phase
  pub stop : Bool
  pub passes : ℕ

-- HealthMonitor.__init__
unfoldable pub new_monitor : Monitor
new_monitor = record { phase = absent; stop = false; passes = 0 }

-- A call of `start`, the first half of `stop`, the return of its `await`, a step of the task, and the
-- timeout of its wait.
pub data Event : Type 0 where
  starts asks_stop joins steps times_out : Event

unfoldable pub start : Monitor → Monitor
start m = elim (m.phase) [
  | absent ↦ record m { phase = at_test; stop = false }
  | at_test ↦ m
  | in_pass ↦ m
  | waiting ↦ m
  | ended ↦ m
]

-- A pass that raises is logged, and ends like any other.
unfoldable pub advance : Monitor → Monitor
advance m = elim (m.phase) [
  | absent ↦ m
  | at_test ↦
      if m.stop
      then record m { phase = ended }
      else record m { phase = in_pass; passes = m.passes + 1 }
  | in_pass ↦ record m { phase = waiting }
  | waiting ↦ if m.stop then record m { phase = at_test } else m
  | ended ↦ m
]

unfoldable pub time_out : Monitor → Monitor
time_out m = elim (m.phase) [
  | absent ↦ m
  | at_test ↦ m
  | in_pass ↦ m
  | waiting ↦ record m { phase = at_test }
  | ended ↦ m
]

-- `await self._task` returns once the task has ended.
unfoldable pub join : Monitor → Monitor
join m = elim (m.phase) [
  | absent ↦ m
  | at_test ↦ m
  | in_pass ↦ m
  | waiting ↦ m
  | ended ↦ record m { phase = absent }
]

unfoldable pub step : Monitor → Event → Monitor
unfolding start advance time_out join
step m starts = start m
step m asks_stop = record m { stop = true }
step m joins = join m
step m steps = advance m
step m times_out = time_out m

unfoldable pub run : Monitor → List Event → Monitor
unfolding step
run m [] = m
run m (e ∷ es) = run (step m e) es
