-- ===== src/Client/Answers.antt =====
-- Every command of the client that waits for an answer gets one.
use psrt.Prelude.{
  ℕ, ◌-◌, ◌≡◌, ◌⊎◌, refl, sym, ap, ◌∙◌, Bool, true, false, ◌&&◌, Option, none, some, List, [], ◌∷◌,
  ◌++◌, append-nil, append_assoc, arith, ltb, if◌then◌else◌, Bool-cases, inl, inr, All,
}
use psrt.Prelude.Bytes.{Bytes}
use psrt.Fault.{Result, ok, err, Result-cases}
use psrt.Exec.{Exec, pure, gets, change, continue, ◌>>=◌}
use psrt.Comm.{Stream}
use psrt.Client.Command.{
  ControlCommand, nop, subscribe, subscribe_bulk, unsubscribe, unsubscribe_bulk, publish,
  publish_repl, bye,
}
use psrt.Client.Channel.{
  Command, ControlStream, on_control, code_error, replicate_message, command_loop,
  run_control_stream, receive, is_nop, give, handle_err, settle, complete, perform,
}

-- The channels that were answered.
abbrev pub answered : List (ℕ × Result (Unit {0})) → List ℕ
answered [] = []
answered ((ch, r) ∷ answers) = ch ∷ answered answers

answered-append :
    (a b : List (ℕ × Result (Unit {0}))) → answered (a ++ b) ≡ answered a ++ answered b
answered-append [] b = refl
answered-append ((ch, r) ∷ a) b = ap (◌∷◌ ch) (answered-append a b)

abbrev pub channel_of : Option ℕ → List ℕ
channel_of none = []
channel_of (some ch) = ch ∷ []

-- An action that, if it succeeds, has answered the channel, if there is one, and no other.
pub record Answers (ch : Option ℕ) (m : Exec ControlStream (Unit {0})) : Type 0 where
  pub at :
      (s : ControlStream)
      → (m s).0 ≡ ok tt
      → answered (m s).1.answers ≡ answered s.answers ++ channel_of ch

Answers-give :
    (ch : Option ℕ) (r : Result (Unit {0})) (s : ControlStream)
    → answered (give ch r s).answers ≡ answered s.answers ++ channel_of ch
Answers-give none r s = sym (append-nil (answered s.answers))
Answers-give (some ch) r s = answered-append s.answers ((ch, r) ∷ [])

Answers-handle_err : (ch : Option ℕ) (code : ℕ) → Answers ch (handle_err ch code)
Answers-handle_err ch code = record { at = λ s h. Answers-give ch (err (code_error code)) s }

Answers-settle : (ch : Option ℕ) (code : ℕ) → Answers ch (settle ch code)
unfolding settle
Answers-settle ch code = record {
  at = λ s h. ground (arith, Answers-give ch (ok tt) s, Answers-give ch (err (code_error code)) s);
}

-- What does not touch the answers may stand in front.
record Silent {A : Type 0} (m : Exec ControlStream A) : Type 0 where
  at : (s : ControlStream) → (m s).1.answers ≡ s.answers

Silent-on_control : {A : Type 0} (m : Exec Stream A) → Silent (on_control m)
Silent-on_control m = record { at = λ s. refl }

Silent-gets : {A : Type 0} (f : ControlStream → A) → Silent (gets f)
unfolding ◌>>=◌
Silent-gets f = record { at = λ s. refl }

Answers-bind :
    {A : Type 0} (ch : Option ℕ) (m : Exec ControlStream A) (f : A → Exec ControlStream (Unit {0}))
    → Silent m
    → ((a : A) → Answers ch (f a))
    → Answers ch (m >>= f)
unfolding ◌>>=◌
Answers-bind {A} ch m f quiet later = record { at = λ s. go s (m s).0 (m s).1 (quiet.at s) }
  where
    go :
        (s : ControlStream) (r : Result A) (s' : ControlStream)
        → s'.answers ≡ s.answers
        → (continue r f s').0 ≡ ok tt
        → answered (continue r f s').1.answers ≡ answered s.answers ++ channel_of ch
    go s (ok a) s' same h = (later a).at s' h ∙ ap (λ l. answered l ++ channel_of ch) same
    go s (err e) s' same h = cc

Silent-pure : {A : Type 0} (a : A) → Silent (pure a)
unfolding ◌>>=◌
Silent-pure a = record { at = λ s. refl }

Silent-bind :
    {A B : Type 0} (m : Exec ControlStream A) (f : A → Exec ControlStream B)
    → Silent m
    → ((a : A) → Silent (f a))
    → Silent (m >>= f)
unfolding ◌>>=◌
Silent-bind {A} {B} m f quiet later = record { at = λ s. go (m s).0 (m s).1 ∙ quiet.at s }
  where
    go : (r : Result A) (s' : ControlStream) → (continue r f s').1.answers ≡ s'.answers
    go (ok a) s' = (later a).at s'
    go (err e) s' = refl

Answers-if :
    (ch : Option ℕ) (b : Bool) (m n : Exec ControlStream (Unit {0}))
    → Answers ch m
    → Answers ch n
    → Answers ch (if b then m else n)
Answers-if ch true m n am an = am
Answers-if ch false m n am an = an

Answers-change-give : (ch : Option ℕ) → Answers ch (change (λ s. (tt, give ch (ok tt) s)))
unfolding ◌>>=◌
Answers-change-give ch = record { at = λ s h. Answers-give ch (ok tt) s }

ruleset answer_rules = (
  Silent-on_control, Silent-gets, Silent-pure, Silent-bind, Answers-handle_err, Answers-settle,
  Answers-bind, Answers-if, Answers-change-give,
)

Answers-replicate_message :
    (timeout op_start : ℕ) (ch : Option ℕ) (priority timestamp : ℕ) (message : Bytes)
    → Answers ch (replicate_message timeout op_start ch priority timestamp message)
unfolding replicate_message
Answers-replicate_message timeout op_start ch priority timestamp message =
    search (answer_rules) depth 12

Answers-complete :
    (timeout op_start : ℕ) (ch : Option ℕ) (c : ControlCommand)
    → Answers ch (complete timeout op_start ch c)
Answers-complete timeout op_start ch nop = search (answer_rules) depth 12
Answers-complete timeout op_start ch bye = search (answer_rules) depth 12
Answers-complete timeout op_start ch (subscribe topic) = search (answer_rules) depth 12
Answers-complete timeout op_start ch (unsubscribe topic) = search (answer_rules) depth 12
Answers-complete timeout op_start ch (subscribe_bulk topics) = search (answer_rules) depth 12
Answers-complete timeout op_start ch (unsubscribe_bulk topics) = search (answer_rules) depth 12
Answers-complete timeout op_start ch (publish priority topic message) =
    search (answer_rules) depth 12
Answers-complete timeout op_start ch (publish_repl priority topic message timestamp) =
    search (answer_rules, Answers-replicate_message) depth 12

Answers-perform : (timeout : ℕ) (cmd : Command) → Answers cmd.response_channel (perform timeout cmd)
unfolding perform
Answers-perform timeout cmd = search (answer_rules, Answers-complete) depth 12

-- The channels of the commands of a queue.
abbrev pub expecting : List (ℕ × Command) → List ℕ
expecting [] = []
expecting ((t, cmd) ∷ queue) = channel_of cmd.response_channel ++ expecting queue

-- Nobody waits for the answer to a ping.
abbrev pub IsQuiet : ℕ × Command → Type 0
IsQuiet (t, cmd) = (is_nop cmd.control_command ≡ false) ⊎ (cmd.response_channel ≡ none)

command_loop-answers :
    (beacon_interval timeout op_start : ℕ) (queue : List (ℕ × Command)) (s : ControlStream)
    → All IsQuiet queue
    → (command_loop beacon_interval timeout op_start queue s).0 ≡ ok tt
    → answered (command_loop beacon_interval timeout op_start queue s).1.answers
      ≡ answered s.answers ++ expecting queue
unfolding command_loop
command_loop-answers beacon_interval timeout op_start [] s quiet h =
    sym (append-nil (answered s.answers))
command_loop-answers beacon_interval timeout op_start ((t, cmd) ∷ queue) s (q, quiet) h =
    let s0 = receive t s in
    let done = perform timeout cmd s0 in
    elim (Bool-cases
      (is_nop cmd.control_command && ltb (s0.stream.now - op_start) beacon_interval)) [
        | inl skip ↦
            let none_waits : cmd.response_channel ≡ none = ground (arith, q, skip) in
            rw (skip, none_waits, command_loop)
              (command_loop-answers beacon_interval timeout op_start queue s0 quiet
                (ground (arith, h, skip)))
        | inr due ↦ elim (Result-cases done.0) [
          | inr (e, never) ↦ absurd (ground (arith, h, due, never))
          | inl (u, fine) ↦
              let first = (Answers-perform timeout cmd).at s0 fine in
              let later =
                command_loop-answers beacon_interval timeout s0.stream.now queue done.1 quiet
                  (ground (arith, h, due, fine)) in
              let put : answered
                    (command_loop beacon_interval timeout op_start ((t, cmd) ∷ queue) s).1.answers
                  ≡ answered
                      (command_loop beacon_interval timeout s0.stream.now queue done.1).1.answers =
                ground (arith, due, fine) in
              put
              ∙ later
              ∙ ap (λ l. l ++ expecting queue) first
              ∙ append_assoc (answered s.answers) (channel_of cmd.response_channel)
                  (expecting queue)
        ]
      ]

-- A control stream that ends without an error has answered every command of its queue that waits for
-- an answer, each once and in the order of the queue, if nobody waits for the answer to a ping.
pub run_control_stream-answers :
    (beacon_interval timeout : ℕ) (queue : List (ℕ × Command)) (s : ControlStream)
    → All IsQuiet queue
    → (run_control_stream beacon_interval timeout queue s).0 ≡ ok tt
    → answered (run_control_stream beacon_interval timeout queue s).1.answers
      ≡ answered s.answers ++ expecting queue
unfolding run_control_stream
run_control_stream-answers beacon_interval timeout queue s quiet h =
    command_loop-answers beacon_interval timeout s.stream.now queue s quiet h
