-- ===== src/Client/Handshake.antt =====
-- The client's side of the two handshakes, where the server's answers are there.
use psrt.Prelude.{ℕ, ◌+◌, ◌≤◌, ◌≡◌, refl, true, false, [], ◌∷◌, ◌++◌, arith, length}
use psrt.Prelude.Bytes.{Bytes}
use psrt.Prelude.Words.{le16}
use psrt.Wire.{control_header, data_header, protocol_version, comm_insecure, response_ok}
use psrt.Fault.{ok, error_invalid_data, text}
use psrt.Exec.{◌>>=◌}
use psrt.Comm.{Arrivals, Stream, takes, reduce_timeout, write_with_timeout}
use psrt.Comm.Delivery.{write_with_timeout-at_once, at_hand}
use psrt.Client.Config.{Config}
use psrt.Client.Connect.{
  Side, control_side, data_side, Dial, Tls, seen, moved, on_side, call_of, call, is_secured,
  new_stream, open_stream, auth_buf, timeout_secs, connect_control, connect_data, connect_streams,
}
use psrt.Client.Greeted.{on_side-moved, read_greeting-at_hand, authenticate-at_hand, attach-at_hand}

module _ (tls : Tls) (cfg : Config) where
  call-taken :
      (side : Side) (wait d : ℕ) (s : Dial)
      → call_of side s ≡ takes d
      → d ≤ wait
      → call side wait s ≡ (ok tt, moved side (record (seen side s) { now = s.now + d }) s)
  unfolding call on_side
  call-taken control_side wait d s taken soon = ground (arith, taken)
  call-taken data_side wait d s taken soon = ground (arith, taken)

  -- What a connection with its greeting makes of its stream.
  abbrev greeted : Side → ℕ → Bytes → Dial → Stream
  greeted side d header s = record (seen side s) {
    now = s.now + d;
    output = (seen side s).output ++ (header ++ comm_insecure ∷ []);
    timeout = cfg.timeout;
  }

  -- A connection that is taken in time, and its greeting.
  open_stream-taken :
      (side : Side) (wait op_start d : ℕ) (header : Bytes) (s : Dial)
      → is_secured cfg ≡ false
      → call_of side s ≡ takes d
      → d ≤ wait
      → (seen side s).takings ≡ []
      → open_stream tls cfg side wait op_start header s
        ≡ (ok tt, moved side (greeted side d header s) s)
  unfolding open_stream ◌>>=◌
  open_stream-taken side wait op_start d header s plain taken soon free =
      let called : Stream = record (seen side s) { now = s.now + d } in
      let written : Stream = record called {
        output = called.output ++ (header ++ comm_insecure ∷ []);
      } in
      let left = reduce_timeout cfg.timeout op_start (moved side called s).now in
      rw
        (
          call-taken side wait d s taken soon,
          plain,
          on_side-moved side (write_with_timeout (header ++ comm_insecure ∷ []) left) called written
              (tt {0}) s
              (write_with_timeout-at_once (header ++ comm_insecure ∷ []) left called free),
          on_side-moved side (new_stream tls cfg) written (record written { timeout = cfg.timeout })
              (tt {0}) s refl,
        )
        refl

  -- The control stream behind the handshake.
  abbrev pub logged_in : ℕ → Arrivals → Dial → Stream
  logged_in d later s = record s.control_stream {
    now = s.now + d;
    input = later;
    output = (s.control_stream.output ++ (control_header ++ comm_insecure ∷ [])) ++ auth_buf cfg;
    timeout = cfg.timeout;
  }

  pub connect_control-at_hand :
      (op_start d : ℕ) (token : Bytes) (later : Arrivals) (s : Dial)
      → is_secured cfg ≡ false
      → s.control_call ≡ takes d
      → d ≤ cfg.timeout
      → s.control_stream.takings ≡ []
      → length token ≡ 32
      → s.control_stream.input ≡ at_hand (control_header ++ (le16 protocol_version ++ token)) later
      → connect_control tls cfg op_start s ≡ (ok token, moved control_side (logged_in d later s) s)
  unfolding connect_control ◌>>=◌ le16
  connect_control-at_hand op_start d token later s plain taken soon free len h =
      let opened = greeted control_side d control_header s in
      let left : Arrivals = at_hand token later in
      rw
        (
          open_stream-taken control_side cfg.timeout op_start d control_header s plain taken soon
              free,
          read_greeting-at_hand cfg control_side op_start 238 170
              (error_invalid_data (text "Invalid control header" ∷ [])) left opened s h,
          authenticate-at_hand cfg op_start token later (record opened { input = left }) s len free
              refl,
        )
        refl

  -- The data stream behind the handshake.
  abbrev pub attached : ℕ → Bytes → Arrivals → Dial → Stream
  attached d token later s = record s.data_stream {
    now = s.now + d;
    input = later;
    output =
        (s.data_stream.output ++ (data_header ++ comm_insecure ∷ []))
        ++ (token ++ timeout_secs cfg ∷ []);
    timeout = cfg.timeout;
  }

  pub connect_data-at_hand :
      (op_start d : ℕ) (token : Bytes) (later : Arrivals) (s : Dial)
      → is_secured cfg ≡ false
      → s.data_call ≡ takes d
      → d ≤ reduce_timeout cfg.timeout op_start s.now
      → s.data_stream.takings ≡ []
      → s.data_stream.input
        ≡ at_hand (data_header ++ (le16 protocol_version ++ response_ok ∷ [])) later
      → connect_data tls cfg op_start token s
        ≡ (ok tt, moved data_side (attached d token later s) s)
  unfolding connect_data ◌>>=◌ le16
  connect_data-at_hand op_start d token later s plain taken soon free h =
      let opened = greeted data_side d data_header s in
      let left : Arrivals = at_hand (response_ok ∷ []) later in
      rw
        (
          open_stream-taken data_side (reduce_timeout cfg.timeout op_start s.now) op_start d
              data_header s plain taken soon free,
          read_greeting-at_hand cfg data_side op_start 238 171
              (error_invalid_data (text "Invalid data header" ∷ [])) left opened s h,
          attach-at_hand cfg op_start token later (record opened { input = left }) s free refl,
        )
        refl

  -- Both handshakes, one behind the other.
  pub connect_streams-at_hand :
      (d d_data : ℕ) (token : Bytes) (later later_data : Arrivals) (s : Dial)
      → is_secured cfg ≡ false
      → cfg.need_data_stream ≡ true
      → s.control_call ≡ takes d
      → s.data_call ≡ takes d_data
      → d + d_data ≤ cfg.timeout
      → s.control_stream.takings ≡ []
      → s.data_stream.takings ≡ []
      → length token ≡ 32
      → s.control_stream.input ≡ at_hand (control_header ++ (le16 protocol_version ++ token)) later
      → s.data_stream.input
        ≡ at_hand (data_header ++ (le16 protocol_version ++ response_ok ∷ [])) later_data
      → ((connect_streams tls cfg s.now s).0 ≡ ok token)
        × ((connect_streams tls cfg s.now s).1.control_stream.output
            ≡ (s.control_stream.output ++ (control_header ++ comm_insecure ∷ [])) ++ auth_buf cfg)
        × ((connect_streams tls cfg s.now s).1.data_stream.output
            ≡ (s.data_stream.output ++ (data_header ++ comm_insecure ∷ []))
              ++ (token ++ timeout_secs cfg ∷ []))
  unfolding connect_streams ◌>>=◌ reduce_timeout
  connect_streams-at_hand d d_data token later later_data s plain both call call_data soon free
        free_data len h h_data =
      rw
        (
          connect_control-at_hand s.now d token later s plain call (omega (arith, soon)) free len h,
          both,
          connect_data-at_hand s.now d_data token later_data
              (moved control_side (logged_in d later s) s) plain call_data (in_time s.now) free_data
              h_data,
        )
        (refl, refl, refl)
    where
      in_time : (now : ℕ) → d_data ≤ reduce_timeout cfg.timeout now (now + d)
      in_time now = ground (arith, soon)
