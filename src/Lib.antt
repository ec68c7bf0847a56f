-- ===== src/Lib.antt =====
-- A model of soju, an IRC bouncer written in Go: a user keeps one connection to each IRC server (an
-- upstream), and any number of clients (downstreams) come and go.
--
-- The parts and the files that model them:
--
-- - Ring (ring.go): the backlog of messages of one upstream connection, with a consumer for each client
--   that reads it. A sequence number has 64 bits, and `Produce` wraps around at 2 ^ 64. The consumers are
--   pointers, so they live in a heap, and the ring holds their places; a channel of one place is a flag. A
--   ring has a log, the list of all messages ever produced, only in the theorems. `drain` is the loop of
--   `writeMessages` (downstream.go) over `Peek` and `Consume`, on fuel: one more than the messages that there
--   are to read is enough, and a ring holds no more than its capacity.
-- - Irc (irc.go): commands, messages, mode sets, channel statuses, membership prefixes, parameters. A Go
--   panic (an index out of range, a send on a closed channel, a nil dereference) is a result of its own. A
--   text is a list of bytes; `Apply` reads runes, so its theorems are about ASCII, and case mapping and white
--   space (package strings) are those of ASCII.
-- - Conn: the records of upstream.go, downstream.go and db.go, and how names are marshalled for a client.
-- - Upstream (upstream.go, bridge.go): the connection to a server. A handler takes a `World`, the connection,
--   the record of its network and the clients of the user, and returns its result with the world that it
--   leaves; what it has written before an error stays. `Upstream.Handle.handle_message` is the whole of
--   `handleMessage`; its cases are in Registration (welcome, capabilities), Authenticate (SASL) and Channels.
--   Broadcast is `forEachDownstream`, and Bridge is `forwardChannel`. `handle_all` is the loop of `user.run`
--   (user.go) over the messages of one connection.
-- - User (user.go): a user, with its networks and the places of its clients. A pointer to a network is the name of the
--   user that has it and its place there; what belongs to one user (a connection, a reader) has the place only.
-- - Downstream (downstream.go): the connection of a client. A handler takes a `Session`, the client with the users and
--   the journal of the database, and returns its result with the session that it leaves, even after an error.
--   `Downstream.Handle.handle_message` is the whole of `handleMessage`; Unregistered and Register are
--   `handleMessageUnregistered` with `authenticate`, `setNetwork` and `register`, and Registered is
--   `handleMessageRegistered`. `serve` is what the loop of `user.run` (user.go) does with one message, `serve_all` with
--   a list of them, and `until_registered` is `runUntilRegistered`. Names, Routing and Caps are how a client names its
--   user, network and channels (forEachUpstream of user.go is `upstreams`), `handleCapCommand`, and what it tells
--   NickServ. Delivery is the loop of `writeMessages` over a ring, on fuel: one more than the messages that there are to
--   read is enough. A message of `ourMessages` is known by the identity of its connection and its number in the ring.
-- - Downstream.Frame holds the rules by which a registered client is seen to change only what it may, Isolation and
--   Strangers what follows for its user and for other users.
-- - Server (server.go, user.go): the users and the clients that ever connected, and the steps by which they change:
--   `start` is `Run`, `accept` and `hang_up` are what `Serve` does with a client, and `receive` handles one message of a
--   client. Server.Networks has what the goroutine of a network does (`connect` with `connectToUpstream`, `disconnect`),
--   the messages of its connection (`hear`), and the end of the goroutine that `register` starts (`leave`);
--   Server.Sound is about sequences of these.
--   A handler of a connection is given what it reaches in the source: its connection, the record of its network, and
--   the clients of its user, through `forEachDownstream`.
-- - Db (db.go): how `StoreNetwork` writes a network into columns, and how `ListNetworks` reads a row back; Db.Store is every
--   operation over a database that answers by any function of the statements so far; Db.Stored is what they promise of
--   the networks of a user, in whatever order the query returns them, and Db.Table is a database of which it holds.
-- - Samples: a user with one server connection, on which the theorems are tried.
-- - Config (config/config.go): the parser of the configuration file, over runes, on fuel for one step more
--   than there are runes.
--
-- Parameters, since their code is not here: the texts of the numerics of gopkg.in/irc.v3 (`Env.text`), the
-- SASL client of go-sasl, base64, the channels that the database lists, the hostname of the server; for a
-- client (`Outside`) also the SASL server of go-sasl, bcrypt, the text of a message, `%q` of package fmt, and whether a TLS
-- server answers; and the SQL database (`Sql`).
--
-- Not modelled: the reading and writing of sockets and their goroutines (a connection's channel is the list
-- of what was sent on it, without its bound of 64 places), locks, logging, the listening of the
-- server and its TLS, the delay before a network connects again, messages of a connection that its network has no more,
-- and the two commands under cmd. The clients of a user are visited in order under one lock, as `forEachDownstream` does.
-- A Go map is an association list: where the source ranges over one, it does so in the order of the list.
mod Prelude
pub mod Ring
pub mod Irc
pub mod Conn
pub mod Upstream
pub mod User
pub mod Server
pub mod Samples
pub mod Db
pub mod Downstream
pub mod Config
