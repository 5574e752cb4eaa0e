-- ===== src/Client/Waiting.antt =====
-- The wait for a Unix socket, and that `Client::connect` returns.
use psrt.Prelude.{
  ℕ, zero, suc, ◌+◌, ◌-◌, ◌*◌, ◌≤◌, ◌<◌, ◌≡◌, refl, ap, ◌∙◌, true, false, not, some, [], ◌∷◌, arith,
  ltb, if◌then◌else◌, Bool-cases, inl, inr,
}
use psrt.Prelude.Bytes.{Bytes}
use psrt.Fault.{Result, ok, err, error_io, text}
use psrt.Client.Config.{Config, is_unix_socket}
use psrt.Client.Connect.{
  Dial, Tls, exists, sleep_step, slept, wait_socket, connect_streams, load_ca, behind_wait,
  connect_path, behind_ca, connect,
}

-- A path that appears a sleep before the wait is over is found within the wait.
pub wait_socket_finds :
    (fuel wait op_start t slack : ℕ) (s : Dial)
    → s.socket_since ≡ some t
    → ((n : ℕ) → s.oversleep n ≤ slack)
    → op_start ≤ s.now
    → s.now ≤ op_start + wait
    → t + sleep_step + slack ≤ op_start + wait
    → wait < (s.now - op_start) + fuel * sleep_step
    → (s' : Dial) × (wait_socket fuel wait op_start s ≡ some (ok tt, s'))
      × (exists s' ≡ true)
      × (s'.now ≤ op_start + wait)
unfolding wait_socket
wait_socket_finds zero wait op_start t slack s since prompt from early soon enough =
    absurd (omega (arith, enough, early, from))
wait_socket_finds (suc fuel) wait op_start t slack s since prompt from early soon enough =
    elim (Bool-cases (exists s)) [
      | inl e ↦ (s, rw (e, wait_socket) refl, e, early)
      | inr n ↦
          let late : s.now < t = ground (arith, rw since at n) in
          let lag = prompt s.now in
          let (s', found, there, in_time) =
            wait_socket_finds fuel wait op_start t slack (slept s) since prompt
              (omega (arith, from)) (omega (arith, late, soon, lag)) soon
              (omega (arith, enough, from)) in
          let more : ltb wait ((slept s).now - op_start) ≡ false =
            ground (arith, late, soon, from, lag) in
          (s', rw (n, more, wait_socket) found, there, in_time)
    ]

-- The loop ends with enough rounds.
pub wait_socket_total :
    (fuel wait op_start : ℕ) (s : Dial)
    → op_start ≤ s.now
    → s.now ≤ op_start + wait
    → wait < (s.now - op_start) + fuel * sleep_step
    → (r : Result (Unit {0}) × Dial) × (wait_socket fuel wait op_start s ≡ some r)
unfolding wait_socket
wait_socket_total zero wait op_start s from early enough =
    absurd (omega (arith, enough, early, from))
wait_socket_total (suc fuel) wait op_start s from early enough = elim (Bool-cases (exists s)) [
  | inl e ↦ ((ok tt, s), rw (e, wait_socket) refl)
  | inr n ↦ elim (Bool-cases (ltb wait ((slept s).now - op_start))) [
    | inl over ↦ (
      (err (error_io (text "UNIX socket not found" ∷ [])), slept s),
      rw (n, over, wait_socket) refl,
    )
    | inr more ↦
        let (r, done) =
          wait_socket_total fuel wait op_start (slept s) (omega (arith, from))
            (ground (arith, more, from)) (omega (arith, enough, from)) in
        (r, rw (n, more, wait_socket) done)
  ]
]

module _ (tls : Tls) (cfg : Config) where
  behind_wait-returns :
      (r : Result (Unit {0}) × Dial)
      → (q : Result Bytes × Dial) × (behind_wait tls cfg (some r) ≡ some q)
  behind_wait-returns (err e, s) = ((err e, s), refl)
  behind_wait-returns (ok u, s) = (connect_streams tls cfg s.now s, refl)

  connect_path_total :
      (fuel : ℕ) (s : Dial)
      → cfg.socket_wait_timeout < fuel * sleep_step
      → (r : Result Bytes × Dial) × (connect_path tls cfg fuel s ≡ some r)
  connect_path_total fuel s enough =
      elim (Bool-cases (if is_unix_socket cfg.path then not (exists s) else false)) [
        | inr n ↦ (connect_streams tls cfg s.now s, rw n refl)
        | inl e ↦
            let (r, waited) =
              wait_socket_total fuel cfg.socket_wait_timeout s.now s (omega arith) (omega arith)
                (omega (arith, enough)) in
            let (q, done) = behind_wait-returns r in (q, rw (e, waited) done)
      ]

  behind_ca_total :
      (loaded : Result (Unit {0})) (fuel : ℕ) (s : Dial)
      → cfg.socket_wait_timeout < fuel * sleep_step
      → (r : Result Bytes × Dial) × (behind_ca tls cfg loaded fuel s ≡ some r)
  behind_ca_total (err e) fuel s enough = ((err e, s), refl)
  behind_ca_total (ok u) fuel s enough = connect_path_total fuel s enough

  -- With more rounds than there are steps of 100 ms in the wait for a Unix socket, the client's
  -- connect returns, whatever the configuration, the sockets and the server do.
  pub connect_total :
      (fuel : ℕ) (s : Dial)
      → cfg.socket_wait_timeout < fuel * sleep_step
      → (r : Result Bytes × Dial) × (connect tls cfg fuel s ≡ some r)
  unfolding connect
  connect_total fuel s enough =
      behind_ca_total (if cfg.tls then load_ca tls cfg cfg.tls_ca else ok tt) fuel s enough

  connect_path-found :
      (fuel : ℕ) (s s' : Dial)
      → is_unix_socket cfg.path ≡ true
      → exists s ≡ false
      → wait_socket fuel cfg.socket_wait_timeout s.now s ≡ some (ok tt, s')
      → connect_path tls cfg fuel s ≡ some (connect_streams tls cfg s'.now s')
  connect_path-found fuel s s' local absent found = rw (local, absent, found) refl

  -- Without TLS, a Unix socket whose path is missing at first is found when its path appears as much
  -- before the end of the wait as the longest sleep takes: connect stops to wait when the path is
  -- there, at a time within the wait, and returns what the handshakes give from then on, whose
  -- timeout starts anew.
  pub connect_finds :
      (fuel t slack : ℕ) (s : Dial)
      → cfg.tls ≡ false
      → is_unix_socket cfg.path ≡ true
      → s.socket_since ≡ some t
      → ((n : ℕ) → s.oversleep n ≤ slack)
      → s.now < t
      → t + sleep_step + slack ≤ s.now + cfg.socket_wait_timeout
      → cfg.socket_wait_timeout < fuel * sleep_step
      → (s' : Dial) × (connect tls cfg fuel s ≡ some (connect_streams tls cfg s'.now s'))
        × (exists s' ≡ true)
        × (s'.now ≤ s.now + cfg.socket_wait_timeout)
  unfolding connect
  connect_finds fuel t slack s plain local appears prompt missing soon enough =
      let (s', found, there, in_time) =
        wait_socket_finds fuel cfg.socket_wait_timeout s.now t slack s appears prompt (omega arith)
          (omega arith) soon (omega (arith, enough)) in
      let absent : exists s ≡ false = rw appears (ground (arith, missing)) in
      let certified : (if cfg.tls then load_ca tls cfg cfg.tls_ca else ok tt) ≡ ok (tt {0}) =
        ap (λ b. if b then load_ca tls cfg cfg.tls_ca else ok tt) plain in
      (
        s',
        ap (λ r. behind_ca tls cfg r fuel s) certified
            ∙ connect_path-found fuel s s' local absent found,
        there,
        in_time,
      )
