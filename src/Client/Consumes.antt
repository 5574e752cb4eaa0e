-- ===== src/Client/Consumes.antt =====
-- Every round of the loop of `run_data_stream` takes at least one byte.
use psrt.Prelude.{ℕ, zero, suc, ◌<◌, ◌≡◌, refl, some, [], ◌∷◌, ◌++◌, arith, length}
use psrt.Prelude.Bytes.{Bytes}
use psrt.Fault.{Error, Result, ok, err}
use psrt.Exec.{Exec, change, continue, ◌>>=◌}
use psrt.Exec.Keeps.{Keeps, Keeps-change, keeps_rules}
use psrt.Comm.{Stream, read, read_with_timeout}
use psrt.Comm.Consumes.{Within, stream_rules, read_with_timeout-consumes}
use psrt.Control.{first_byte}
use psrt.Client.Command.{bye}
use psrt.Client.Message.{Message}
use psrt.Client.Data.{
  DataStream, on_data, deliver, message_round, react, data_round, run_data_stream,
}

abbrev Left : ℕ → DataStream → Type 0
Left k s = Within k s.stream

module _ (k : ℕ) where
  on_data-Left : {A : Type 0} (m : Exec Stream A) → Keeps (Within k) m → Keeps (Left k) (on_data m)
  on_data-Left m h = record { at = λ s w. h.at s.stream w }

  deliver-Left : (r : Result Message) → Keeps (Left k) (deliver r)
  deliver-Left (err e) = record { at = λ s h. h }
  deliver-Left (ok m) = record { at = λ s h. ground (arith, h) }

  message_round-Left : (op_start : ℕ) → Keeps (Left k) (message_round op_start)
  unfolding message_round
  message_round-Left op_start =
      search (keeps_rules, stream_rules, on_data-Left, deliver-Left) depth 12

  say_bye-Left :
      Keeps (Left k) (change (λ s. (tt {0}, record s { commands = s.commands ++ bye ∷ [] })))
  say_bye-Left =
      Keeps-change (λ s. (tt {0}, record s { commands = s.commands ++ bye ∷ [] })) (λ s h. h)

  react-Left : (op_start head : ℕ) → Keeps (Left k) (react op_start head)
  unfolding react
  react-Left op_start head = search (keeps_rules, message_round-Left, say_bye-Left) depth 12

data_round-consumes :
    (s : DataStream)
    → (data_round s).0 ≡ ok tt
    → length (data_round s).1.stream.input < length s.stream.input
unfolding data_round ◌>>=◌ read
data_round-consumes s h = go (read_with_timeout 1 s.stream.timeout s.stream).0 refl h
  where
    after : DataStream
    after = record s { stream = (read_with_timeout 1 s.stream.timeout s.stream).1 }

    go :
        (r : Result Bytes)
        → (read_with_timeout 1 s.stream.timeout s.stream).0 ≡ r
        → (continue r (λ head. react s.stream.now (first_byte head)) after).0 ≡ ok tt
        → length (continue r (λ head. react s.stream.now (first_byte head)) after).1.stream.input
          < length s.stream.input
    go (err e) got k = cc
    go (ok head) got k =
        let taken = read_with_timeout-consumes 1 s.stream.timeout s.stream got in
        let kept =
          (react-Left (length after.stream.input) s.stream.now (first_byte head)).at after
            (omega arith) in
        omega (arith, taken, kept)

-- The loop of `run_data_stream` ends with an error, with more fuel than there are bytes to come,
-- whatever the server sends.
pub run_data_stream_total :
    (fuel : ℕ) (s : DataStream)
    → length s.stream.input < fuel
    → (r : Error × DataStream) × (run_data_stream fuel s ≡ some r)
unfolding run_data_stream
run_data_stream_total zero s h = absurd (omega arith)
run_data_stream_total (suc fuel) s h =
    go (data_round s).0 refl (run_data_stream_total fuel (data_round s).1)
  where
    go :
        (v : Result (Unit {0}))
        → (data_round s).0 ≡ v
        → (length (data_round s).1.stream.input < fuel
            → (r : Error × DataStream) × (run_data_stream fuel (data_round s).1 ≡ some r))
        → (r : Error × DataStream) × (run_data_stream (suc fuel) s ≡ some r)
    go (err f) e next = ((f, (data_round s).1), ground (arith, e))
    go (ok u) e next =
        let fewer = data_round-consumes s e in
        let (r, ended) = next (omega (arith, fewer, h)) in (r, ground (arith, e, ended))
