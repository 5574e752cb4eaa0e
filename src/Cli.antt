-- ===== src/Cli.antt =====
-- src/cli.rs: the command line client, what it does with its options, with the messages that come in
-- and with the sizes that it is given. A duration is a number of nanoseconds.
pub mod Tallies
pub mod Sorting
pub mod Tables
pub mod Benchmark
use psrt.Prelude.{
  ℕ, zero, suc, ◌+◌, ◌%◌, ◌-◌, ◌^◌, Bool, true, false, Option, none, some, List, [], ◌∷◌, ◌++◌, ltb,
  any, if◌then◌else◌, length, take, ◌||◌,
}
use psrt.Prelude.Bytes.{Bytes, codes, beq}
use psrt.Prelude.Split.{split_on}
use psrt.Fault.{ok, err}
use psrt.Client.Config as Client
use psrt.Client.Config.{
  set_auth, set_queue_size, set_timeout, set_socket_wait_timeout, set_tls, set_tls_ca,
  disable_data_stream, seconds,
}
use psrt.Client.Message.{Message}

-- The options that go into the configuration.
pub record Opts : Type 0 where
  pub path : Bytes
  pub user : Option Bytes
  pub password : Option Bytes
  pub topic : Option Bytes
  pub message : Option Bytes
  pub benchmark : Bool
  pub timeout : ℕ
  pub tls : Bool

abbrev or_empty : Option Bytes → Bytes
or_empty none = []
or_empty (some s) = s

-- The configuration of the client; `tls_ca` is the text of the file that the option names.
abbrev pub config_of : Option Bytes → Opts → Client.Config
config_of tls_ca opts = set_tls_ca tls_ca (
    set_tls opts.tls (
      set_socket_wait_timeout opts.timeout (
        set_timeout opts.timeout (
          set_queue_size (if opts.benchmark then 256000 else 4096)
            (set_auth (or_empty opts.user) (or_empty opts.password) (Client.new opts.path))))))

-- A client that only publishes opens no data stream.
abbrev pub plain_config : Option Bytes → Opts → Client.Config
plain_config tls_ca opts = behind_message opts.message (config_of tls_ca opts)
  where
    behind_message : Option Bytes → Client.Config → Client.Config
    behind_message none config = config
    behind_message (some m) config = disable_data_stream config

-- `parse_topics`; without a topic it is a panic.
abbrev pub parse_topics : Option Bytes → Option (List Bytes)
parse_topics none = none
parse_topics (some topic) = some (split_on 44 topic)

-- A message of a size, whose bytes count up.
unfoldable pub counting : ℕ → ℕ → Bytes
counting i zero = []
counting i (suc size) = i % 256 ∷ counting (i + 1) size

-- `strip_prefix("==")`.
unfoldable pub strip_prefix : Bytes → Option Bytes
strip_prefix [] = none
strip_prefix (a ∷ []) = none
strip_prefix (a ∷ b ∷ rest) = if beq (a ∷ b ∷ []) (codes "==") then some rest else none

-- `byte_unit::Byte::from_str` is a parameter.
module _ (bytes_of : Bytes → Option ℕ) where
  abbrev generated : Option ℕ → Option Bytes
  generated none = none
  generated (some size) = some (counting 0 size)

  abbrev either : Bytes → Option Bytes → Option Bytes
  either msg none = some msg
  either msg (some message_size) = generated (bytes_of message_size)

  -- What is published for the option `-m`; `none` is a panic.
  unfoldable pub message_body : Bytes → Option Bytes
  unfolding strip_prefix counting
  message_body msg = either msg (strip_prefix msg)

pub record TopicStat : Type 0 where
  pub topic : Bytes
  pub count : ℕ
  pub bytes : ℕ

abbrev pub new : Bytes → TopicStat
new topic = record { topic = topic; count = 0; bytes = 0 }

abbrev pub u64 : ℕ → ℕ
u64 n = n % 2 ^ 64

abbrev pub u128 : ℕ → ℕ
u128 n = n % 2 ^ 128

abbrev pub counted : ℕ → TopicStat → TopicStat
counted size s = record s { bytes = u128 (s.bytes + size); count = u64 (s.count + 1) }

-- The order of the keys of a `BTreeMap` of strings.
unfoldable pub precedes : Bytes → Bytes → Bool
precedes [] [] = false
precedes [] (d ∷ b) = true
precedes (c ∷ a) [] = false
precedes (c ∷ a) (d ∷ b) =
    let rest = precedes a b in if ltb c d then true else if ltb d c then false else rest

-- `topic_stats`: the values of the map, in the order of their keys.
unfoldable pub has_topic : Bytes → List TopicStat → Bool
unfolding beq
has_topic topic stats = any (λ s. beq s.topic topic) stats

-- `get_mut`, where the key is there; a key is there once.
unfoldable pub count_in : Bytes → ℕ → List TopicStat → List TopicStat
unfolding beq
count_in topic size [] = []
count_in topic size (s ∷ stats) =
    (if beq s.topic topic then counted size s else s) ∷ count_in topic size stats

-- `insert`, where the key is not there.
unfoldable pub insert_stat : TopicStat → List TopicStat → List TopicStat
unfolding precedes
insert_stat stat [] = stat ∷ []
insert_stat stat (s ∷ stats) =
    let rest = insert_stat stat stats in
    if precedes stat.topic s.topic then stat ∷ s ∷ stats else s ∷ rest

unfoldable pub count_message : Message → List TopicStat → List TopicStat
unfolding has_topic count_in insert_stat
count_message message stats =
    if has_topic message.topic stats
    then count_in message.topic (length message.body) stats
    else insert_stat (counted (length message.body) (new message.topic)) stats

-- `SORT_MODE`: by count, or by bytes after the key `s`.
abbrev pub rank : Bool → TopicStat → ℕ
rank false s = s.count
rank true s = s.bytes

-- `sort_by`, which is stable, from the highest to the lowest.
unfoldable pub place : Bool → TopicStat → List TopicStat → List TopicStat
place mode s [] = s ∷ []
place mode s (t ∷ stats) =
    let rest = place mode s stats in
    if ltb (rank mode s) (rank mode t) then t ∷ rest else s ∷ t ∷ stats

unfoldable pub sort_stats : Bool → List TopicStat → List TopicStat
unfolding place
sort_stats mode [] = []
sort_stats mode (s ∷ stats) = place mode s (sort_stats mode stats)

-- The rows of the table, on a terminal with `h` lines.
unfoldable pub rows : Bool → ℕ → List TopicStat → List TopicStat
unfolding sort_stats
rows mode h stats = take (h - 4) (sort_stats mode stats)

-- A message with the times at which it is counted and the table drawn, the sort mode and the lines
-- of the terminal by then.
pub record Event : Type 0 where
  pub message : Message
  pub checked_at : ℕ
  pub drawn_at : ℕ
  pub sort_mode : Bool
  pub height : ℕ

-- `tables` are the tables drawn, the last in front.
pub record Top : Type 0 where
  pub topic_stats : List TopicStat
  pub last_refresh : Option ℕ
  pub tables : List (List TopicStat)

abbrev pub start : Top
start = record { topic_stats = []; last_refresh = none; tables = [] }

-- `elapsed() < show_step`.
abbrev pub is_early : Option ℕ → ℕ → Bool
is_early none now = false
is_early (some last) now = ltb (now - last) (seconds 1)

-- One round of the loop.
unfoldable pub on_message : Event → Top → Top
unfolding count_message rows
on_message e top =
    let stats = count_message e.message top.topic_stats in
    if is_early top.last_refresh e.checked_at then record top { topic_stats = stats } else record {
      topic_stats = stats;
      last_refresh = some e.drawn_at;
      tables = rows e.sort_mode e.height stats ∷ top.tables;
    }

unfoldable pub run : List Event → Top → Top
unfolding on_message
run [] top = top
run (e ∷ events) top = run events (on_message e top)
