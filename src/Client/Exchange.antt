-- ===== src/Client/Exchange.antt =====
-- What one command of the client writes and reads.
use psrt.Prelude.{ℕ, ◌≡◌, refl, sym, ap, ◌∙◌, Option, [], ◌∷◌, ◌++◌, append-nil, append_assoc}
use psrt.Prelude.Bytes.{Bytes}
use psrt.Exec.{◌>>=◌}
use psrt.Comm.{Arrivals, Stream, reduce_timeout}
use psrt.Comm.Delivery.{
  at_hand, read_with_timeout-at_hand, write-at_once, write_with_timeout-at_once,
}
use psrt.Client.Command.{
  ControlCommand, nop, subscribe, subscribe_bulk, unsubscribe, unsubscribe_bulk, publish,
  publish_repl, bye, as_bytes,
}
use psrt.Client.Requests.{message_behind}
use psrt.Client.Channel.{ControlStream, settle, process_reply, perform}

-- The commands that have one answer.
abbrev pub IsSingle : ControlCommand → Type 0
IsSingle nop = Unit
IsSingle bye = Unit
IsSingle (subscribe topic) = Unit
IsSingle (unsubscribe topic) = Unit
IsSingle (subscribe_bulk topics) = Unit
IsSingle (unsubscribe_bulk topics) = Unit
IsSingle (publish priority topic message) = Unit
IsSingle (publish_repl priority topic message timestamp) = ⊥

-- The stream after bytes were written and the answer was read.
abbrev pub exchanged : Bytes → Arrivals → ControlStream → ControlStream
exchanged bytes later s = record s {
  stream = record s.stream { output = s.stream.output ++ bytes; input = later };
}

process_reply-at_hand :
    (timeout op_start : ℕ) (ch : Option ℕ) (code : ℕ) (later : Arrivals) (s : ControlStream)
    → s.stream.input ≡ at_hand (code ∷ []) later
    → process_reply timeout op_start ch s
      ≡ settle ch code (record s { stream = record s.stream { input = later } })
unfolding ◌>>=◌
process_reply-at_hand timeout op_start ch code later s h =
    rw
      (read_with_timeout-at_hand (code ∷ []) (reduce_timeout timeout op_start s.stream.now) later
        s.stream h)
      refl

plain :
    (timeout : ℕ) (bytes : Bytes) (ch : Option ℕ) (code : ℕ) (later : Arrivals) (s : ControlStream)
    → s.stream.input ≡ at_hand (code ∷ []) later
    → process_reply timeout s.stream.now ch
        (record s { stream = record s.stream { output = s.stream.output ++ bytes } })
      ≡ settle ch code (exchanged (bytes ++ []) later s)
plain timeout bytes ch code later s h =
    process_reply-at_hand timeout s.stream.now ch code later
      (record s { stream = record s.stream { output = s.stream.output ++ bytes } }) h
    ∙ ap (λ b. settle ch code (exchanged b later s)) (sym (append-nil bytes))

-- A command with one answer, when the peer takes what is written and its response code is there,
-- writes the bytes of the command and the message behind it, takes that code and nothing more off
-- the stream, and then does with the code what `settle` says.
pub perform-at_hand :
    (timeout : ℕ) (c : ControlCommand) (ch : Option ℕ) (code : ℕ) (later : Arrivals)
    (s : ControlStream)
    → IsSingle c
    → s.stream.takings ≡ []
    → s.stream.input ≡ at_hand (code ∷ []) later
    → perform timeout (record { control_command = c; response_channel = ch }) s
      ≡ settle ch code (exchanged (as_bytes c ++ message_behind c) later s)
unfolding perform ◌>>=◌
perform-at_hand timeout nop ch code later s one taken h =
    rw (write-at_once (as_bytes nop) s.stream taken)
      (plain timeout (as_bytes nop) ch code later s h)
perform-at_hand timeout bye ch code later s one taken h =
    rw (write-at_once (as_bytes bye) s.stream taken)
      (plain timeout (as_bytes bye) ch code later s h)
perform-at_hand timeout (subscribe topic) ch code later s one taken h =
    rw (write-at_once (as_bytes (subscribe topic)) s.stream taken)
      (plain timeout (as_bytes (subscribe topic)) ch code later s h)
perform-at_hand timeout (unsubscribe topic) ch code later s one taken h =
    rw (write-at_once (as_bytes (unsubscribe topic)) s.stream taken)
      (plain timeout (as_bytes (unsubscribe topic)) ch code later s h)
perform-at_hand timeout (subscribe_bulk topics) ch code later s one taken h =
    rw (write-at_once (as_bytes (subscribe_bulk topics)) s.stream taken)
      (plain timeout (as_bytes (subscribe_bulk topics)) ch code later s h)
perform-at_hand timeout (unsubscribe_bulk topics) ch code later s one taken h =
    rw (write-at_once (as_bytes (unsubscribe_bulk topics)) s.stream taken)
      (plain timeout (as_bytes (unsubscribe_bulk topics)) ch code later s h)
perform-at_hand timeout (publish priority topic message) ch code later s one taken h =
    let bytes = as_bytes (publish priority topic message) in
    let s1 : Stream = record s.stream { output = s.stream.output ++ bytes } in
    let wait = reduce_timeout timeout s.stream.now s.stream.now in
    rw (write-at_once bytes s.stream taken) (
      rw (write_with_timeout-at_once message wait s1 taken) (
        process_reply-at_hand timeout s.stream.now ch code later
          (record s { stream = record s1 { output = s1.output ++ message } }) h
        ∙ ap
            (λ o.
              settle ch code (record s { stream = record s.stream { output = o; input = later } }))
            (append_assoc s.stream.output bytes message)))
perform-at_hand timeout (publish_repl priority topic message timestamp) ch code later s one taken
      h =
    absurd one
