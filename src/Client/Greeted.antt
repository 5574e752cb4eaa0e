-- ===== src/Client/Greeted.antt =====
-- Each step of the two handshakes of a client, where the answer is there.
use psrt.Prelude.{ℕ, ◌≡◌, refl, [], ◌∷◌, ◌++◌, length, append_assoc, ap, sym}
use psrt.Prelude.Bytes.{Bytes, beq_refl}
use psrt.Prelude.Words.{le16, of_le}
use psrt.Wire.{protocol_version, response_ok}
use psrt.Fault.{Error, ok}
use psrt.Exec.{Exec, ◌>>=◌}
use psrt.Comm.{Arrivals, Stream, reduce_timeout, read_with_timeout, write_with_timeout}
use psrt.Comm.Delivery.{write_with_timeout-at_once, at_hand, read_with_timeout-at_hand}
use psrt.Client.Config.{Config}
use psrt.Client.Connect.{
  Side, control_side, data_side, Dial, seen, moved, on_side, read_greeting, auth_buf, authenticate,
  timeout_secs, attach,
}

pub seen-moved : (side : Side) (x : Stream) (s : Dial) → seen side (moved side x s) ≡ x
seen-moved control_side x s = refl
seen-moved data_side x s = refl

pub moved-moved :
    (side : Side) (x y : Stream) (s : Dial) → moved side y (moved side x s) ≡ moved side y s
moved-moved control_side x y s = refl
moved-moved data_side x y s = refl

pub on_side-moved :
    {A : Type 0} (side : Side) (m : Exec Stream A) (x y : Stream) (a : A) (s : Dial)
    → m x ≡ (ok a, y)
    → on_side side m (moved side x s) ≡ (ok a, moved side y s)
unfolding on_side
on_side-moved control_side m x y a s h = rw h refl
on_side-moved data_side m x y a s h = rw h refl

module _ (cfg : Config) (side : Side) (op_start : ℕ) where
  -- The greeting's answer is read off the stream.
  pub read_greeting-at_hand :
      (h1 h2 : ℕ) (e : Error) (later : Arrivals) (x : Stream) (s : Dial)
      → x.input ≡ at_hand (h1 ∷ h2 ∷ le16 protocol_version) later
      → read_greeting cfg side op_start (h1 ∷ h2 ∷ []) e (moved side x s)
        ≡ (ok tt, moved side (record x { input = later }) s)
  unfolding read_greeting ◌>>=◌ le16 of_le
  read_greeting-at_hand h1 h2 e later x s h =
      let y : Stream = record x { input = at_hand (le16 protocol_version) later } in
      rw
        (on_side-moved side (read_with_timeout 2 (left (moved side x s))) x y (h1 ∷ h2 ∷ []) s (
          read_with_timeout-at_hand (h1 ∷ h2 ∷ []) (left (moved side x s))
            (at_hand (le16 protocol_version) later) x h))
        (rw (beq_refl (h1 ∷ h2 ∷ [])) (
          rw
            (on_side-moved side (read_with_timeout 2 (left (moved side y s))) y
              (record x { input = later }) (le16 protocol_version) s
              (read_with_timeout-at_hand (le16 protocol_version) (left (moved side y s)) later y
                refl))
            refl))
    where
      left : Dial → ℕ
      left s = reduce_timeout cfg.timeout op_start s.now

module _ (cfg : Config) (op_start : ℕ) where
  -- The credentials are written, and the token is read.
  pub authenticate-at_hand :
      (token : Bytes) (later : Arrivals) (x : Stream) (s : Dial)
      → length token ≡ 32
      → x.takings ≡ []
      → x.input ≡ at_hand token later
      → authenticate cfg op_start (moved control_side x s) ≡ (
        ok token,
        moved control_side (record x { input = later; output = x.output ++ auth_buf cfg }) s,
      )
  unfolding authenticate ◌>>=◌
  authenticate-at_hand token later x s len free h =
      let y : Stream = record x { output = x.output ++ auth_buf cfg } in
      let w = reduce_timeout cfg.timeout op_start x.now in
      rw
        (on_side-moved control_side (write_with_timeout (auth_buf cfg) w) x y (tt {0}) s
          (write_with_timeout-at_once (auth_buf cfg) w x free))
        (rw
          (on_side-moved control_side (read_with_timeout 32 w) y (record y { input = later }) token
            s (rw (sym len) (read_with_timeout-at_hand token w later y h)))
          refl)

  -- The token and the timeout are written, and the answer is read.
  pub attach-at_hand :
      (token : Bytes) (later : Arrivals) (x : Stream) (s : Dial)
      → x.takings ≡ []
      → x.input ≡ at_hand (response_ok ∷ []) later
      → attach cfg op_start token (moved data_side x s) ≡ (
        ok tt,
        moved data_side
            (record x { input = later; output = x.output ++ (token ++ timeout_secs cfg ∷ []) })
            s,
      )
  unfolding attach ◌>>=◌
  attach-at_hand token later x s free h =
      let y : Stream = record x { output = x.output ++ token } in
      let z : Stream = record y { output = y.output ++ timeout_secs cfg ∷ [] } in
      let w = reduce_timeout cfg.timeout op_start x.now in
      rw
        (on_side-moved data_side (write_with_timeout token w) x y (tt {0}) s
          (write_with_timeout-at_once token w x free))
        (rw
          (on_side-moved data_side (write_with_timeout (timeout_secs cfg ∷ []) w) y z (tt {0}) s
            (write_with_timeout-at_once (timeout_secs cfg ∷ []) w y free))
          (rw
            (on_side-moved data_side (read_with_timeout 1 w) z (record z { input = later })
              (response_ok ∷ []) s (read_with_timeout-at_hand (response_ok ∷ []) w later z h))
            (ap (λ o. (ok (tt {0}), moved data_side (record x { input = later; output = o }) s))
              (append_assoc x.output token (timeout_secs cfg ∷ [])))))
