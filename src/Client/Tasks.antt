-- ===== src/Client/Tasks.antt =====
-- src/client.rs: the tasks that `Client::connect` spawns, for the control stream, for the data stream
-- and for the pings, in any order, over one control channel and one flag. A task is aborted at once,
-- unless its loop is over: then it stores the flag, with nothing to wait for.
use psrt.Prelude.{
  ℕ, ◌≡◌, Bool, true, false, none, some, List, [], ◌∷◌, ◌++◌, length, ltb, if◌then◌else◌,
}
use psrt.Client.Command.{ControlCommand, nop, bye}
use psrt.Client.Channel.{Command}

-- A task that is not spawned; in its loop; waiting for room in the control channel; behind its loop;
-- and done with or aborted.
pub data Task : Type 0 where
  absent at_work sending finishing over : Task

abbrev pub is_over : Task → Bool
is_over over = true
is_over task = false

-- `asked` are the commands of the program; `put` those that went into the control channel; `taken` those that the control stream
-- took; and `lost` those that were in the channel when its receiver was dropped.
pub record Tasks : Type 0 where
  pub control : Task
  pub data_task : Task
  pub pinger : Task
  pub connected : Bool
  pub is_shut : Bool
  pub capacity : ℕ
  pub queue : List Command
  pub asked : List Command
  pub put : List Command
  pub taken : List Command
  pub lost : List Command

-- The receiver of the control channel is there: `run_control_stream` owns it.
abbrev pub receives : Task → Bool
receives at_work = true
receives task = false

abbrev pub has_room : Tasks → Bool
has_room t = if receives t.control then ltb (length t.queue) t.capacity else false

-- The commands of the pinger and of `run_data_stream`.
abbrev pub ping : Command
ping = record { control_command = nop; response_channel = none }

abbrev pub farewell : Command
farewell = record { control_command = bye; response_channel = none }

abbrev pub enqueued : Command → Tasks → Tasks
enqueued cmd t = record t { queue = t.queue ++ cmd ∷ []; put = t.put ++ cmd ∷ [] }

-- `exec_command!` sends, with a response channel.
abbrev pub issued : ControlCommand → ℕ → Tasks → Tasks
issued cmd ch t =
    let sent : Command = record { control_command = cmd; response_channel = some ch } in
    enqueued sent (record t { asked = t.asked ++ sent ∷ [] })

abbrev pub took : Command → List Command → Tasks → Tasks
took cmd rest t = record t { queue = rest; taken = t.taken ++ cmd ∷ [] }

-- The receiver of the control channel is dropped, with what is in the channel.
abbrev pub hung_up : Task → Tasks → Tasks
hung_up task t = record t { control = task; queue = []; lost = t.lost ++ t.queue }

-- `JoinHandle::abort`.
abbrev pub abort : Task → Task
abort absent = absent
abort finishing = finishing
abort task = over

abbrev pub abort_control : Tasks → Tasks
abort_control t = if receives t.control then hung_up over t else t

abbrev pub shut_down : Tasks → Tasks
shut_down t = record (abort_control t) {
  data_task = abort t.data_task;
  pinger = abort t.pinger;
  is_shut = true;
}

pub data TasksStep (t : Tasks) : Tasks → Type 0 where
  issues : (cmd : ControlCommand) (ch : ℕ) → has_room t ≡ true → TasksStep t (issued cmd ch t)
  takes :
      (cmd : Command) (rest : List Command)
      → t.control ≡ at_work
      → t.queue ≡ cmd ∷ rest
      → TasksStep t (took cmd rest t)
  -- A goodbye, an error, or the end of the channel.
  control_ends : t.control ≡ at_work → TasksStep t (hung_up finishing t)
  control_stores :
      t.control ≡ finishing → TasksStep t (record t { control = over; connected = false })
  -- The data stream failed or the program dropped the receiver of the messages.
  data_ends : t.data_task ≡ at_work → TasksStep t (record t { data_task = finishing })
  -- The data stream had an invalid byte: a goodbye goes into the control channel, if it is there.
  data_objects : t.data_task ≡ at_work → TasksStep t (record t { data_task = sending })
  data_says :
      t.data_task ≡ sending
      → has_room t ≡ true
      → TasksStep t (record (enqueued farewell t) { data_task = finishing })
  data_gives_up :
      t.data_task ≡ sending
      → receives t.control ≡ false
      → TasksStep t (record t { data_task = finishing })
  data_stores :
      t.data_task ≡ finishing → TasksStep t (record t { data_task = over; connected = false })
  pinger_wakes : t.pinger ≡ at_work → TasksStep t (record t { pinger = sending })
  pings :
      t.pinger ≡ sending
      → has_room t ≡ true
      → TasksStep t (record (enqueued ping t) { pinger = at_work })
  pinger_ends :
      t.pinger ≡ sending
      → receives t.control ≡ false
      → TasksStep t (record t { pinger = finishing })
  pinger_stores : t.pinger ≡ finishing → TasksStep t (record t { pinger = over; connected = false })
  -- `bye` was answered.
  leaves : TasksStep t (record t { connected = false })
  -- `shutdown`, by `bye` and by dropping the client.
  shuts : TasksStep t (shut_down t)

pub data TasksReach (t : Tasks) : Tasks → Type 0 where
  start : TasksReach t t
  next : {a b : Tasks} → TasksReach t a → TasksStep a b → TasksReach t b

-- A client that `connect` returns; without a data stream `data_task` is `absent`.
abbrev pub new_tasks : Task → ℕ → Tasks
new_tasks data_task capacity = record {
  control = at_work;
  data_task = data_task;
  pinger = at_work;
  connected = true;
  is_shut = false;
  capacity = capacity;
  queue = [];
  asked = [];
  put = [];
  taken = [];
  lost = [];
}
