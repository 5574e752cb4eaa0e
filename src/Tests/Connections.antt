-- ===== src/Tests/Connections.antt =====
-- A TCP client that logs in and says goodbye.
use psrt.Prelude.{◌≡◌, refl, Bool, true, false, Option, none, some, [], ◌∷◌, ◌++◌, arith}
use psrt.Prelude.Bytes.{Bytes, codes}
use psrt.Prelude.Words.{le32}
use psrt.Prelude.Assoc.{lookup}
use psrt.Prelude.Split.{splitn2}
use psrt.Wire.{op_bye}
use psrt.Keys.{verify}
use psrt.Prelude.Utf8.{is_utf8}
use psrt.Fault.{Result, ok, err, error_eof, text}
use psrt.Exec.{◌>>=◌}
use psrt.Comm.{fails, read, read_with_timeout, read_frame, write}
use psrt.Comm.Delivery.{at_hand}
use psrt.Acl.{new_full, get_acl}
use psrt.PubSub.Db.{data_of, register_client}
use psrt.Server.{Session, on_stream, on_db}
use psrt.Control.{process_control, round, command}
use psrt.Connection.{control_stream, serving, init_tcp_stream, second_part, max_auth_frame_size}
use psrt.Connection.Serving.{
  enroll, open_tcp, tcp_opening, handle_tcp_stream, handle_unix_stream, finish, serve,
}
use psrt.PubSub.Db.Invariant.{new_db-WellFormed}
use psrt.Control.Keeping.{IsSound}
use psrt.Connection.Keeping.{handle_tcp_stream-IsSound}
use psrt.Connection.Release.{Gone, handle_tcp_stream-Gone, enroll_leaks}
use psrt.Connection.Entry.{LoggedIn, open_tcp-LoggedIn, handle_unix_stream_total}
use psrt.Tests.ListedMap.{ListedMap, listed_map}
use psrt.Tests.ListedLaws.{listed_laws}
use psrt.Tests.Database.{ann, empty_db}
use psrt.Tests.Sessions.{limits, session_of}
use psrt.Tests.Packets.{plain_crypto, guards}

abbrev login_frame : Bytes
login_frame = codes "ann" ++ 0 ∷ codes "pw"

-- The login frame and a goodbye, behind the greeting.
abbrev greeted : Session ListedMap
greeted = record (session_of (at_hand (le32 6 ++ (login_frame ++ op_bye ∷ [])) [])) {
  db = empty_db;
}

abbrev arriving : Session ListedMap
arriving = record greeted {
  stream = record greeted.stream { input = at_hand (0xee ∷ 0xaa ∷ 0 ∷ []) greeted.stream.input };
}

opened_for_ann :
    (tcp_opening listed_map limits plain_crypto guards 10 (codes "host") none true arriving).0
    ≡ ok (serving ann new_full)
unfolding init_tcp_stream open_tcp ◌>>=◌ on_stream read_with_timeout write read_frame le32 is_utf8
    splitn2 verify get_acl on_db register_client
opened_for_ann = refl

abbrev get_or {ℓ} : {A : Type ℓ} → Option A → A → A
get_or none d = d
get_or (some a) d = a

-- How her connection ends.
abbrev ended : Result Bool × Session ListedMap
ended =
    get_or
      (handle_tcp_stream listed_map limits plain_crypto guards 3 10 7 8 (codes "host") none true
        arriving)
      (ok false, arriving)

ended_runs :
    handle_tcp_stream listed_map limits plain_crypto guards 3 10 7 8
      (codes "host")
      none
      true
      arriving
    ≡ some ended
unfolding handle_tcp_stream finish serve process_control round command init_tcp_stream open_tcp
    ◌>>=◌ on_stream read_with_timeout write read_frame le32 is_utf8 splitn2 verify get_acl on_db
    register_client read
ended_runs = refl

handle_tcp_stream-Gone_example : Gone listed_map listed_laws limits ann ended.1.db
handle_tcp_stream-Gone_example =
    handle_tcp_stream-Gone listed_map listed_laws limits plain_crypto guards 3 10 7 8 (codes "host")
      none true arriving {acl = new_full} opened_for_ann ended_runs

abbrev broken : Session ListedMap
broken = record greeted {
  stream = record greeted.stream { takings = fails (error_eof (text "broken pipe" ∷ [])) ∷ [] };
}

ann_registers : (register_client listed_map (codes "ann") (codes "host") broken.db).0 ≡ ok ann
unfolding register_client
ann_registers = refl

enroll_leaks_example :
    ((enroll listed_map limits (codes "ann") (codes "host") broken).0
      ≡ err (error_eof (text "broken pipe" ∷ [])))
    × (lookup
          (data_of ann (enroll listed_map limits (codes "ann") (codes "host") broken).1.db).token
          (enroll listed_map limits (codes "ann") (codes "host") broken).1.db.clients_by_token
        ≡ some ann)
enroll_leaks_example =
    enroll_leaks listed_map limits (codes "ann") (codes "host") broken ann_registers refl

opens_for_ann :
    (open_tcp listed_map limits plain_crypto guards (codes "host") control_stream greeted).0
    ≡ ok (serving ann new_full)
unfolding open_tcp ◌>>=◌ on_stream read_with_timeout write read_frame le32 is_utf8 splitn2 verify
    get_acl on_db register_client
opens_for_ann = refl

open_tcp-LoggedIn_example :
    (frame : Bytes) × ((read_frame (some max_auth_frame_size) greeted.stream).0 ≡ ok frame)
    × ((password : Bytes) × (second_part (splitn2 0 frame).1 ≡ ok password)
        × LoggedIn limits plain_crypto guards (splitn2 0 frame).0 password new_full)
open_tcp-LoggedIn_example =
    open_tcp-LoggedIn listed_map limits plain_crypto guards (codes "host") greeted opens_for_ann

handle_unix_stream_total_example :
    (r : Result Bool × Session ListedMap) × (handle_unix_stream listed_map limits 100 10 7 8
        (codes "sock")
        arriving
      ≡ some r)
unfolding le32
handle_unix_stream_total_example =
    handle_unix_stream_total listed_map limits 100 10 7 8 (codes "sock") arriving (omega arith)

empty_db-IsSound : IsSound listed_map listed_laws empty_db
empty_db-IsSound = (
  new_db-WellFormed listed_map listed_laws empty_db.heap empty_db.channels empty_db.supply,
  λ ch. omega arith,
)

handle_tcp_stream-IsSound_example : IsSound listed_map listed_laws ended.1.db
handle_tcp_stream-IsSound_example =
    handle_tcp_stream-IsSound listed_map listed_laws limits plain_crypto guards 3 10 7 8
      (codes "host") none true arriving ended_runs empty_db-IsSound
