-- ===== src/Client/Watch.antt =====
-- src/client.rs: what `is_connected` says of the tasks of a client, and what becomes of the commands.
use psrt.Prelude.{
  ℕ, ◌≡◌, ◌≤◌, ◌⊎◌, refl, Bool, true, false, Option, none, some, List, [], ◌∷◌, ◌++◌, All,
  All-append, arith, length, Bool-cases, inl, inr, if◌then◌else◌, ltb, ap, sym, ◌∙◌, append-nil,
  append_assoc, length-append,
}
use mathlib.Core.Path.{subst}
use psrt.Client.Channel.{Command}
use psrt.Client.Tasks.{
  Task, Tasks, TasksStep, TasksReach, start, next, issues, takes, control_ends, control_stores,
  data_ends, data_objects, data_says, data_gives_up, data_stores, pinger_wakes, pings, pinger_ends,
  pinger_stores, leaves, shuts, is_over, receives, ping, farewell, shut_down, new_tasks,
}

abbrev pub is_awaited : Option ℕ → Bool
is_awaited none = false
is_awaited (some ch) = true

-- The command waits for an answer.
abbrev pub expects : Command → Bool
expects c = is_awaited c.response_channel

abbrev pub expecting : List Command → List Command
expecting [] = []
expecting (c ∷ cs) = if expects c then c ∷ expecting cs else expecting cs

expecting-append : (cs ds : List Command) → expecting (cs ++ ds) ≡ expecting cs ++ expecting ds
expecting-append [] ds = refl
expecting-append (c ∷ cs) ds = ground (arith, expecting-append cs ds)

-- A command that no answer is awaited for is of the pinger or of the data stream.
abbrev pub IsOwn : Command → Type 0
IsOwn c = (expects c ≡ true) ⊎ ((c ≡ ping) ⊎ (c ≡ farewell))

-- The flag is not true when the task is over, but after a shutdown.
abbrev pub Flagged : Tasks → Task → Type 0
Flagged t task = t.connected ≡ true → t.is_shut ≡ false → is_over task ≡ false

-- The control channel, by whether its receiver is there.
pub record Carries (receiving : Bool) (capacity : ℕ) (queue asked put taken lost : List Command)
    : Type 0 where
  pub fits : length queue ≤ capacity
  pub intact : receiving ≡ true → lost ≡ []
  pub idle : receiving ≡ false → queue ≡ []
  pub order : taken ++ (lost ++ queue) ≡ put
  pub mine : expecting put ≡ asked
  pub own : All IsOwn put

abbrev pub Carried : Tasks → Type 0
Carried t = Carries (receives t.control) t.capacity t.queue t.asked t.put t.taken t.lost

abbrev pub Watched : Tasks → Type 0
Watched t = (Flagged t t.control × Flagged t t.data_task × Flagged t t.pinger) × Carried t

new_tasks-Watched :
    (data_task : Task) (capacity : ℕ)
    → is_over data_task ≡ false
    → Watched (new_tasks data_task capacity)
new_tasks-Watched data_task capacity on = (
  (λ c s. refl, λ c s. on, λ c s. refl),
  record {
    fits = omega arith;
    intact = λ r. refl;
    idle = λ r. refl;
    order = refl;
    mine = refl;
    own = tt;
  },
)

no_flag : {P : Type 0} → true ≡ false → P
no_flag e = absurd (ground (arith, e))

module _ {receiving : Bool} {capacity : ℕ} {queue asked put taken lost : List Command}
    (h : Carries receiving capacity queue asked put taken lost) where
  enqueued-Carries :
      (cmd : Command) (asked' : List Command)
      → (if receiving then ltb (length queue) capacity else false) ≡ true
      → (asked' ≡ (if expects cmd then asked ++ cmd ∷ [] else asked))
      → IsOwn cmd
      → Carries receiving capacity (queue ++ cmd ∷ []) asked' (put ++ cmd ∷ []) taken lost
  enqueued-Carries cmd asked' room e own = record {
    fits = ground (arith, room, length-append queue (cmd ∷ []));
    intact = h.intact;
    idle = λ r. ground (arith, r, room);
    order =
        ap (λ l. taken ++ l) (sym (append_assoc lost queue (cmd ∷ [])))
        ∙ (sym (append_assoc taken (lost ++ queue) (cmd ∷ [])) ∙ ap (λ l. l ++ cmd ∷ []) h.order);
    mine = ground (arith, e, expecting-append put (cmd ∷ []), h.mine, append-nil asked);
    own = All-append IsOwn put (cmd ∷ []) h.own (own, tt);
  }

  took-Carries :
      (cmd : Command) (rest : List Command)
      → receiving ≡ true
      → queue ≡ cmd ∷ rest
      → Carries receiving capacity rest asked put (taken ++ cmd ∷ []) lost
  took-Carries cmd rest on e = record {
    fits = ground (arith, e, h.fits);
    intact = h.intact;
    idle = λ r. ground (arith, r, on);
    order =
        rw (h.intact on) (append_assoc taken (cmd ∷ []) rest ∙ (rw (h.intact on, e) at h.order));
    mine = h.mine;
    own = h.own;
  }

  hung_up-Carries : receiving ≡ true → Carries false capacity [] asked put taken (lost ++ queue)
  hung_up-Carries on = record {
    fits = omega arith;
    intact = λ r. ground (arith, r);
    idle = λ r. refl;
    order = ap (λ l. taken ++ l) (append-nil (lost ++ queue)) ∙ h.order;
    mine = h.mine;
    own = h.own;
  }

shut_down-Carries : (t : Tasks) → Carried t → Carried (shut_down t)
shut_down-Carries t h = elim (Bool-cases (receives t.control)) [
  | inl on ↦ rw (on) (hung_up-Carries h on)
  | inr off ↦ rw (off) h
]

TasksStep-Watched : {t u : Tasks} → TasksStep t u → Watched t → Watched u
TasksStep-Watched (issues cmd ch room) (flags, h) =
    (flags, enqueued-Carries h _ _ room refl (inl refl))
TasksStep-Watched (takes cmd rest on e) (flags, h) =
    (flags, took-Carries h cmd rest (ap receives on) e)
TasksStep-Watched (control_ends on) ((c, d, p), h) =
    ((λ k s. refl, d, p), hung_up-Carries h (ap receives on))
TasksStep-Watched {t} (control_stores on) (flags, h) = (
  (λ k. no_flag (sym k), λ k. no_flag (sym k), λ k. no_flag (sym k)),
  subst (λ b. Carries b t.capacity t.queue t.asked t.put t.taken t.lost) (ap receives on) h,
)
TasksStep-Watched (data_ends on) ((c, d, p), h) = ((c, λ k s. refl, p), h)
TasksStep-Watched (data_objects on) ((c, d, p), h) = ((c, λ k s. refl, p), h)
TasksStep-Watched (data_says on room) ((c, d, p), h) =
    ((c, λ k s. refl, p), enqueued-Carries h farewell _ room refl (inr (inr refl)))
TasksStep-Watched (data_gives_up on closed) ((c, d, p), h) = ((c, λ k s. refl, p), h)
TasksStep-Watched (data_stores on) (flags, h) =
    ((λ k. no_flag (sym k), λ k. no_flag (sym k), λ k. no_flag (sym k)), h)
TasksStep-Watched (pinger_wakes on) ((c, d, p), h) = ((c, d, λ k s. refl), h)
TasksStep-Watched (pings on room) ((c, d, p), h) =
    ((c, d, λ k s. refl), enqueued-Carries h ping _ room refl (inr (inl refl)))
TasksStep-Watched (pinger_ends on closed) ((c, d, p), h) = ((c, d, λ k s. refl), h)
TasksStep-Watched (pinger_stores on) (flags, h) =
    ((λ k. no_flag (sym k), λ k. no_flag (sym k), λ k. no_flag (sym k)), h)
TasksStep-Watched leaves (flags, h) =
    ((λ k. no_flag (sym k), λ k. no_flag (sym k), λ k. no_flag (sym k)), h)
TasksStep-Watched {t} shuts (flags, h) =
    ((λ k s. no_flag s, λ k s. no_flag s, λ k s. no_flag s), shut_down-Carries t h)

TasksReach-Watched : {t u : Tasks} → TasksReach t u → Watched t → Watched u
TasksReach-Watched start h = h
TasksReach-Watched (next r s) h = TasksStep-Watched s (TasksReach-Watched r h)

All-front : (P : Command → Type 0) (cs ds : List Command) → All P (cs ++ ds) → All P cs
All-front P [] ds ps = tt
All-front P (c ∷ cs) ds (p, ps) = (p, All-front P cs ds ps)

-- Unless the flag is false or the client was shut down, no task of a client is over, whatever its
-- tasks did and in whichever order. The control channel holds no more commands than its size. The
-- commands with a response channel among those that the control stream took, that were in the channel
-- when its receiver was dropped, and that wait in it are, in this order, the program's; and each
-- that the control stream took is one of those, or a ping or a goodbye without a response channel.
pub reachable-Watched :
    (data_task : Task) (capacity : ℕ) {t : Tasks}
    → is_over data_task ≡ false
    → TasksReach (new_tasks data_task capacity) t
    → ((t.connected ≡ false)
        ⊎ ((t.is_shut ≡ true)
            ⊎ ((is_over t.control ≡ false)
                × (is_over t.data_task ≡ false)
                × (is_over t.pinger ≡ false))))
      × (length t.queue ≤ t.capacity)
      × (expecting (t.taken ++ (t.lost ++ t.queue)) ≡ t.asked)
      × All IsOwn t.taken
reachable-Watched data_task capacity {t} on r =
    let ((c, d, p), h) = TasksReach-Watched r (new_tasks-Watched data_task capacity on) in
    (
      elim (Bool-cases t.connected) [
        | inr gone ↦ inl gone
        | inl here ↦ elim (Bool-cases t.is_shut) [
          | inl shut ↦ inr (inl shut)
          | inr held ↦ inr (inr (c here held, d here held, p here held))
        ]
      ],
      h.fits,
      ap expecting h.order ∙ h.mine,
      All-front IsOwn t.taken (t.lost ++ t.queue) (subst (λ cs. All IsOwn cs) (sym h.order) h.own),
    )
