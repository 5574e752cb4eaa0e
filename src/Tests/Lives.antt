-- ===== src/Tests/Lives.antt =====
-- A client whose program publishes while the pinger wakes, until the data stream fails.
use psrt.Prelude.{◌≡◌, ◌≤◌, ◌⊎◌, refl, true, false, some, [], ◌∷◌, ◌++◌, All, length}
use psrt.Prelude.Bytes.{codes}
use psrt.Client.Command.{ControlCommand, publish}
use psrt.Client.Tasks.{
  Task, at_work, sending, finishing, Tasks, TasksReach, start, next, issues, takes, data_ends,
  data_stores, pinger_wakes, pings, is_over, ping, enqueued, issued, took, new_tasks,
}
use psrt.Client.Watch.{expecting, IsOwn, reachable-Watched}

abbrev hot : ControlCommand
hot = publish 7 (codes "a/b") (codes "hot")

abbrev c0 : Tasks
c0 = new_tasks at_work 1

abbrev c1 : Tasks
c1 = issued hot 4 c0

abbrev c2 : Tasks
c2 = record c1 { pinger = sending }

abbrev c3 : Tasks
c3 = took (record { control_command = hot; response_channel = some 4 }) [] c2

abbrev c4 : Tasks
c4 = record (enqueued ping c3) { pinger = at_work }

abbrev c5 : Tasks
c5 = record c4 { data_task = finishing }

abbrev c6 : Tasks
c6 = record c5 { data_task = Task.over; connected = false }

lived : TasksReach c0 c6
lived =
    next
      (next
        (next
          (next (next (next start (issues hot 4 refl)) (pinger_wakes refl)) (takes _ [] refl refl))
          (pings refl refl))
        (data_ends refl))
      (data_stores refl)

reachable-Watched_example :
    ((c6.connected ≡ false)
      ⊎ ((c6.is_shut ≡ true)
          ⊎ ((is_over c6.control ≡ false)
              × (is_over c6.data_task ≡ false)
              × (is_over c6.pinger ≡ false))))
    × (length c6.queue ≤ c6.capacity)
    × (expecting (c6.taken ++ (c6.lost ++ c6.queue)) ≡ c6.asked)
    × All IsOwn c6.taken
reachable-Watched_example = reachable-Watched at_work 1 refl lived

waits : c6.queue ≡ ping ∷ []
waits = refl
