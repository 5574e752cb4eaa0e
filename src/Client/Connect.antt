-- ===== src/Client/Connect.antt =====
-- src/client.rs: `Client::connect`.
use psrt.Prelude.{
  ℕ, zero, suc, ◌+◌, ◌-◌, ◌*◌, ◌/◌, Bool, false, not, Option, none, some, [], ◌∷◌, ◌++◌, ltb, leb,
  ◌==◌, if◌then◌else◌, length,
}
use psrt.Prelude.Bytes.{Bytes, beq}
use psrt.Prelude.Words.{le32, of_le}
use psrt.Wire.{
  control_header, data_header, protocol_version, comm_insecure, comm_tls, response_ok, u32,
}
use psrt.Fault.{
  Error, Result, ok, err, error_io, error_access, error_invalid_data, error_timeout, text,
}
use psrt.Exec.{Exec, pure, raise, lift, gets, ◌>>=◌, ◌>>◌}
use psrt.Comm.{
  Stream, Taking, takes, fails, stalls, breaks, reduce_timeout, read_with_timeout,
  write_with_timeout,
}
use psrt.Control.{first_byte}
use psrt.Client.Config.{Config, is_unix_socket, domain_of, seconds, milliseconds}

pub data Side : Type 0 where
  control_side data_side : Side

-- The sockets that are opened, with the common clock: how the server takes the calls for a
-- connection, the two streams as they will be, when the path of a Unix socket appears, and how much
-- longer than asked for a sleep takes that begins at a time.
pub record Dial : Type 0 where
  pub now : ℕ
  pub oversleep : ℕ → ℕ
  pub socket_since : Option ℕ
  pub control_call : Taking
  pub data_call : Taking
  pub control_stream : Stream
  pub data_stream : Stream

-- The crate `tokio-native-tls`: a certificate and a connector are made, and a stream is secured.
pub record Tls : Type 0 where
  pub from_pem : Bytes → Result (Unit {0})
  pub build : Option Bytes → Result (Unit {0})
  pub connect : Option Bytes → Bytes → Exec Stream (Unit {0})

-- One of the streams, at the common time.
abbrev pub seen : Side → Dial → Stream
seen control_side s = record s.control_stream { now = s.now }
seen data_side s = record s.data_stream { now = s.now }

abbrev pub moved : Side → Stream → Dial → Dial
moved control_side x s = record s { control_stream = x; now = x.now }
moved data_side x s = record s { data_stream = x; now = x.now }

unfoldable pub on_side : {A : Type 0} → Side → Exec Stream A → Exec Dial A
on_side side m s = let r = m (seen side s) in (r.0, moved side r.1 s)

abbrev pub call_of : Side → Dial → Taking
call_of control_side s = s.control_call
call_of data_side s = s.data_call

-- `time::timeout(wait, connect(path)).await??`.
abbrev pub answer_call : Taking → ℕ → Exec Stream (Unit {0})
answer_call (takes d) wait s =
    if leb d wait
    then (ok tt, record s { now = s.now + d })
    else (err (error_timeout (text "deadline has elapsed" ∷ [])), record s { now = s.now + wait })
answer_call (fails e) wait s = (err e, s)
answer_call (stalls n) wait s =
    (err (error_timeout (text "deadline has elapsed" ∷ [])), record s { now = s.now + wait })
answer_call (breaks n e) wait s = (err e, s)

unfoldable pub call : Side → ℕ → Exec Dial (Unit {0})
call side wait s = on_side side (answer_call (call_of side s) wait) s

abbrev pub since : Option ℕ → ℕ → Bool
since none now = false
since (some t) now = leb t now

-- `path.exists()`.
abbrev pub exists : Dial → Bool
exists s = since s.socket_since s.now

abbrev pub sleep_step : ℕ
sleep_step = milliseconds 100

-- `tokio::time::sleep(sleep_step)`.
abbrev pub slept : Dial → Dial
slept s = record s { now = s.now + sleep_step + s.oversleep s.now }

-- The loop that waits for the path; `none` if the rounds do not suffice.
unfoldable pub wait_socket : ℕ → ℕ → ℕ → Dial → Option (Result (Unit {0}) × Dial)
wait_socket zero wait op_start s = none
wait_socket (suc fuel) wait op_start s =
    let later = slept s in
    let rest = wait_socket fuel wait op_start later in
    if exists s
    then some (ok tt, s)
    else if ltb wait (later.now - op_start)
    then some (err (error_io (text "UNIX socket not found" ∷ [])), later)
    else rest

-- TLS is for TCP only.
unfoldable pub is_secured : Config → Bool
unfolding is_unix_socket
is_secured cfg = if is_unix_socket cfg.path then false else cfg.tls

abbrev pub mode_of : Config → ℕ
mode_of cfg = if is_secured cfg then comm_tls else comm_insecure

-- What is left of the timeout.
abbrev pub time_left : Config → ℕ → Exec Dial ℕ
time_left cfg op_start = gets (λ s. reduce_timeout cfg.timeout op_start s.now)

module _ (tls : Tls) (cfg : Config) where
  -- `builder.build()` and `connector.connect(domain, stream)`.
  abbrev pub secure : Side → Exec Dial (Unit {0})
  secure side =
      if is_secured cfg
      then (do
        lift (tls.build cfg.tls_ca)
        on_side side (tls.connect cfg.tls_ca (domain_of cfg.path)))
      else pure tt

  abbrev pub new_stream : Exec Stream (Unit {0})
  new_stream s = (ok tt, record s { timeout = cfg.timeout })

  -- A connection with its greeting, up to `SStream::new`.
  unfoldable pub open_stream : Side → ℕ → ℕ → Bytes → Exec Dial (Unit {0})
  unfolding call is_secured domain_of
  open_stream side wait op_start header = do
    call side wait
    left ← time_left cfg op_start
    on_side side (write_with_timeout (header ++ mode_of cfg ∷ []) left)
    secure side
    on_side side new_stream

module _ (cfg : Config) where
  -- The header and the version that the server answers.
  unfoldable pub read_greeting : Side → ℕ → Bytes → Error → Exec Dial (Unit {0})
  unfolding beq of_le
  read_greeting side op_start header refused = do
    wait ← time_left cfg op_start
    head ← on_side side (read_with_timeout 2 wait)
    (if beq head header then pure tt else raise refused)
    wait_version ← time_left cfg op_start
    version ← on_side side (read_with_timeout 2 wait_version)
    (if of_le version == protocol_version
        then pure tt
        else raise (error_invalid_data (text "Protocol version unsupported" ∷ [])))

  -- The frame with the credentials.
  unfoldable pub auth_buf : Bytes
  unfolding le32
  auth_buf =
      le32 (u32 (u32 (u32 (length cfg.user) + u32 (length cfg.password)) + 1))
      ++ (cfg.user ++ 0 ∷ cfg.password)

  -- `is_err()`: any error of the read is a failed login.
  abbrev pub or_failed : Result Bytes × Dial → Result Bytes × Dial
  or_failed (ok token, s) = (ok token, s)
  or_failed (err e, s) = (err (error_access (text "Login failed" ∷ [])), s)

  abbrev pub read_token : ℕ → Exec Dial Bytes
  read_token wait s = or_failed (on_side control_side (read_with_timeout 32 wait) s)

  unfoldable pub authenticate : ℕ → Exec Dial Bytes
  unfolding auth_buf
  authenticate op_start = do
    wait ← time_left cfg op_start
    on_side control_side (write_with_timeout auth_buf wait)
    wait_token ← time_left cfg op_start
    read_token wait_token

  -- The timeout in seconds, 255 at most.
  abbrev pub timeout_secs : ℕ
  timeout_secs = let secs = cfg.timeout / seconds 1 in if ltb 255 secs then 255 else secs

  abbrev pub beacon_interval : ℕ
  beacon_interval = milliseconds (timeout_secs * 1000 / 2)

  -- The token, the timeout, and the server's answer.
  unfoldable pub attach : ℕ → Bytes → Exec Dial (Unit {0})
  attach op_start token = do
    wait ← time_left cfg op_start
    on_side data_side (write_with_timeout token wait)
    wait_secs ← time_left cfg op_start
    on_side data_side (write_with_timeout (timeout_secs ∷ []) wait_secs)
    wait_answer ← time_left cfg op_start
    answer ← on_side data_side (read_with_timeout 1 wait_answer)
    (if first_byte answer == response_ok
        then pure tt
        else raise (error_access (text "Data stream authentication failed" ∷ [])))

module _ (tls : Tls) (cfg : Config) where
  -- The data stream, behind the authentication of the control stream.
  unfoldable pub connect_data : ℕ → Bytes → Exec Dial (Unit {0})
  unfolding open_stream read_greeting attach
  connect_data op_start token = do
    wait ← time_left cfg op_start
    open_stream tls cfg data_side wait op_start data_header
    read_greeting cfg data_side op_start data_header
        (error_invalid_data (text "Invalid data header" ∷ []))
    attach cfg op_start token

  -- The control stream, up to the token.
  unfoldable pub connect_control : ℕ → Exec Dial Bytes
  unfolding open_stream read_greeting authenticate
  connect_control op_start = do
    open_stream tls cfg control_side cfg.timeout op_start control_header
    read_greeting cfg control_side op_start control_header
        (error_invalid_data (text "Invalid control header" ∷ []))
    authenticate cfg op_start

  -- Both streams; the token stands for the connection.
  unfoldable pub connect_streams : ℕ → Exec Dial Bytes
  unfolding connect_control connect_data
  connect_streams op_start = do
    token ← connect_control op_start
    (if cfg.need_data_stream then connect_data op_start token else pure tt)
    pure token

  -- The certificate of the configuration, which is read first.
  abbrev pub load_ca : Option Bytes → Result (Unit {0})
  load_ca none = ok tt
  load_ca (some ca) = tls.from_pem ca

  abbrev pub behind_wait : Option (Result (Unit {0}) × Dial) → Option (Result Bytes × Dial)
  behind_wait none = none
  behind_wait (some (err e, s)) = some (err e, s)
  behind_wait (some (ok u, s)) = some (connect_streams s.now s)

  -- The start time is taken again once the path of a Unix socket has appeared.
  abbrev pub connect_path : ℕ → Dial → Option (Result Bytes × Dial)
  connect_path fuel s =
      let waited = wait_socket fuel cfg.socket_wait_timeout s.now s in
      if (if is_unix_socket cfg.path then not (exists s) else false)
      then behind_wait waited
      else some (connect_streams s.now s)

  abbrev pub behind_ca : Result (Unit {0}) → ℕ → Dial → Option (Result Bytes × Dial)
  behind_ca (err e) fuel s = some (err e, s)
  behind_ca (ok u) fuel s = connect_path fuel s

  unfoldable pub connect : ℕ → Dial → Option (Result Bytes × Dial)
  unfolding connect_streams wait_socket is_unix_socket
  connect fuel s = behind_ca (if cfg.tls then load_ca cfg.tls_ca else ok tt) fuel s
