-- ===== src/Lib.antt =====
-- A model of the PSRT server, its client library and its command line client.
--
-- PSRT is a broker for messages on topics. A client opens a control connection, on which it
-- subscribes and publishes, and a data connection, on which the messages of its topics come; it may
-- also publish by UDP packets. The server prepares the topic of a message, checks the access list
-- of the client, asks the subscription map for the subscribers and puts the message into the queue
-- of each one's data channel. The files:
--
--   * Fault, Wire: src/lib.rs, the errors and the constants; Fault/Foreign the conversions of other
--     crates' errors. Exec: code that changes a state and may fail, in the order in which it runs;
--     Exec/Keeps has the rules for invariants of it, Exec/Yields those for what its results are.
--   * Comm: src/comm.rs, framed reads and writes with timeouts. A stream is a schedule of bytes with
--     their arrival times, of the close, and of how each write is taken, whole, in part or not; only
--     waiting moves the time on. The laws are in Comm/Deadline, Comm/Delivery and Comm/Consumes.
--   * Topic: `prepare_topic` of src/pubsub.rs. Topic/Squeeze is the one-pass definition, Topic/Laws
--     the laws.
--   * Acl: src/acl.rs. Acl/Covers is the relation between masks and paths, Acl/Parse the texts of
--     masks, Acl/Lists the lists, Acl/Yaml the serde traits.
--   * PubSub: `ServerClientDB` of src/pubsub.rs. Client data is shared by `Arc`, so PubSub/Store
--     keeps it on a heap and a client is a place on it. PubSub/Submap is the interface of the crate
--     `submap`, its operations and its documented behaviour. PubSub/Db has the operations,
--     PubSub/Db/Invariant, PubSub/Db/Enlisting, PubSub/Db/Reach, PubSub/Db/Access and
--     PubSub/Db/Registered their laws; PubSub/Db/Broker is the abstract broker, which only knows who
--     is subscribed to what.
--   * Stats, Server, Push, Commands, Control: src/server.rs, the counters, what connections share,
--     `push_to_subscribers`, and `process_control`, of which Commands has the commands to subscribe
--     and to unsubscribe. Push/Queues, Push/Following and Push/Delivery are about what a push leaves
--     of the database and who gets its message. Control/Kept, Control/Keeping, Control/Consumes,
--     Control/Publishing and Control/Subscribing are named for their subjects; Control/Escape and
--     Control/Unprepared are about what the check of a subscription lets through.
--     Stats/Status is `get_status`, with `handle_call` of src/eva_svc.rs, which returns it;
--     Stats/Http is the handler of the statistics pages, Stats/Access who gets them.
--   * Traffic: src/server.rs and src/pubsub.rs, the tasks of the server over one client database, as a
--     step relation: calls under the lock, data channels made and registered, pushes one subscriber
--     after the other, pingers, and what data streams take. A push takes its test of the queue and its
--     send at once. Histories of what each channel accepted and gave, and of what was published,
--     stand beside the state. Traffic/Quiet, Traffic/Invariant, Traffic/Attaching, Traffic/Sending
--     and Traffic/Receiving are about its steps, Traffic/Histories about all that can be reached.
--   * Connection: src/server.rs, the greetings and `launch_data_stream`; Connection/Serving has
--     `handle_unix_stream` and `handle_tcp_stream`, Connection/Sending `handle_data_stream`. About
--     them: Connection/Entry, who is let in; Connection/Release, what is left of a client;
--     Connection/Greeting and Connection/Launching, what a well-behaved client gets;
--     Connection/Live, Connection/Sound and Connection/Keeping, the invariant of the database.
--   * Guards, Keys, Token: the three databases that decide about a login; src/keys.rs, with
--     `openssl` and `bcrypt` as a record of functions and laws, and src/token.rs. Keys/Reload is the
--     reload of the key file, Keys/Passwords that of the password file (src/passwords.rs), and
--     Keys/LastLine which line of it counts.
--   * Udp: the packets of src/server.rs and the acknowledgments; Udp/Client those of src/client.rs;
--     Udp/Opening, Udp/Reading, Udp/Authentic and Udp/Admission their laws; Udp/Listening the loop of
--     `handle_udp_listener`.
--   * Client: src/client.rs, the configuration (Client/Config), `connect` with both handshakes and
--     the wait for a Unix socket (Client/Connect), the methods of `Client` (Client/Handle), the bytes
--     of commands (Client/Command), messages of src/lib.rs (Client/Message), the data stream
--     (Client/Data) and the control stream (Client/Channel). Client/Requests, with the frames of
--     Client/Framing, Client/Deliveries and Client/Feeds put it against the server; Client/Handshake,
--     with the steps of Client/Greeted, and Client/Waiting are about connecting,
--     Client/Exchange and Client/Answers about commands and their answers, Client/Consumes about the
--     fuel. Client/Tasks are the tasks of one client, interleaved in any order, over its control
--     channel and its flag; Client/Watch is about them. Handshake runs `connect` against the server's
--     handlers, Journey a command to publish against the server and a subscriber's client.
--   * Startup: src/server.rs, the configuration, where it is read from, the listeners and what they
--     leave on the disk; Startup/Files the files that are read and removed, Startup/Auth the loading
--     of the databases and the hangup signal, Startup/Listening what is listened on.
--   * Cli: src/cli.rs, the options, the messages made up, and the loop of `--top`; Cli/Tallies,
--     Cli/Sorting and Cli/Tables are about its tables. Cli/Benchmark has what a worker calls.
--   * Tests: concrete inputs, with a subscription map of two lists that meets the interface's laws.
--
-- Strings are their UTF-8 bytes. The bounded integers of the code are numbers below their bound,
-- and its casts and sums are reduced to the width that the code has, as in a release build. The
-- loops of `process_control` and `run_data_stream` take fuel: each round reads at least one byte,
-- so more fuel than there are bytes to come is enough. The wait of `connect` for a Unix socket
-- takes fuel too: a round waits at least 100 ms, so more rounds than there are such steps in the
-- wait are enough. The calls on the client database that tasks make under its lock are the steps of
-- `DbStep`, in any order.
--
-- Parameters: TLS, an action on the stream that the handlers are given; openssl, bcrypt, hex,
-- base64 and the header parts of the crate http; the files and sockets, by what the system answers;
-- YAML, by the values that it gives.
--
-- A data queue has room for at least one message: with the size 0 the server panics when a data
-- stream is launched, where the model has a channel that is always full.
--
-- Not modelled: replication, whose source is not in the repository and whose calls are recorded; the
-- command line of the server, its logging, its PID file and the loops that accept connections and
-- spawn their handlers; the start of src/eva_svc.rs inside another product; the socket option
-- set_nodelay; the measuring of the benchmark of src/cli.rs and the stages around its messages, and
-- its terminal.
pub mod Prelude
pub mod Fault
pub mod Exec
pub mod Comm
pub mod Topic
pub mod Acl
pub mod PubSub
pub mod Wire
pub mod Stats
pub mod Server
pub mod Token
pub mod Keys
pub mod Guards
pub mod Udp
pub mod Push
pub mod Commands
pub mod Control
pub mod Traffic
pub mod Connection
pub mod Client
pub mod Handshake
pub mod Journey
pub mod Startup
pub mod Cli
pub mod Tests
