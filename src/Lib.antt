-- ===== src/Lib.antt =====
-- Vasily, a ping and traceroute program in Go: models of its core and theorems about them.
--
-- The program pings hosts through a backend connection, keeps the latest results of each host in a
-- ring with running statistics, and shows them in a table. Where raw sockets need privileges, the
-- connections live in a privileged server process, to which the program talks over two pipes.
--
-- Base (Tests, Lists, Results, Int) has what the modules share: Boolean tests on the native numbers,
-- lists, the result of a Go call (a value, an error, a panic that nothing recovers), signed
-- integers and the wrap of an int64.
-- Backend is internal/backend/backend.go: packets and the options of WriteTo, and in Registry the
-- backends by name. A packet type is the number that the wire
-- carries, since unknown types are passed on; an address is the bytes of its IP.
-- Messages is internal/privsep/messages/messages.go: Raw has readRawMessage and
-- RawMessage.WriteTo, Args the arguments (encodeInt, argInt, encodePacket, decodePacket, ...), Kinds
-- the messages with WriteTo, the as... decoders and ReadMessage. A reader is the list of the bytes
-- to come, with io.EOF at its end; a writer takes the one buffer that WriteTo builds. The panics
-- that catchError recovers are errors of the model; log.Panicf and an index out of range are its
-- panic. Bitwise or of shifted bytes is written as a sum. Framing, Streams, Integers, RoundTrip and
-- Safety hold the proofs.
-- History is internal/pinger/history.go: Get, Add, Record, addStatsFor, RevResults, History, Latest.
-- A sequence number is a signed integer, a time counts from Go's zero time, and durations are
-- signed integers that wrap at 64 bits. The clock and the floating-point square root are arguments.
-- Window, Calls and Counts hold the proofs.
-- Pinger is internal/pinger/pinger.go: the options, sendPing, handleReply and maybeRecordTimeout;
-- Pinger/Run has Run and sendLoop as a step function over the events that the environment orders:
-- ticks, the rendezvous on sentSeqs, replies, timers, Close. Every handler holds the mutex, so a
-- step is atomic. Replies, Run/Slots, Run/Waiting, Run/Firing, Run/Steps and Run/Endings hold the
-- proofs.
-- Privsep is internal/privsep: Privileges has dropPrivileges of privsep.go over the system calls it
-- makes, Start Initialize; Server has server.go as steps: the main loop with its handlers, and the
-- readLoop goroutines. Connections, the pipe and the kernel are parameters that act on a world. A
-- handler is one step, which leaves out the orders in which a reader runs in the middle of it.
-- log.Fatalf is a panic too, since it ends the process. Server/Conns has the map of connections;
-- Server/Moves, Fresh, Output, Ending and Races hold the proofs.
-- Privsep/Client is internal/privsep/client: inputDemux and the calls of Client and Connection as
-- steps. A call that blocks on a channel is cut there: NewConn into its request, the rendezvous on
-- openConnReply and its registration, Close into its request and its return. The demultiplexer
-- that is blocked in the send on a full readFrom keeps mu, and the calls that need mu wait. What a
-- pipe refuses to take and what ReadFrom has handed out are part of the events and of the state.
-- Tidy, Routed, Routing, Sends, Blocking, Streams, Quiet and Closing hold the proofs; Closing
-- composes the client with the server's output.
-- Tracer is internal/tracer/tracer.go: TraceRoute with its two loops and readSeq. What the network
-- answers is a function of the number of probes sent before and the time to live; the context's
-- deadline is the end of the list of reads. The steps sent on the channel and the ports that a
-- PortConn's sequence numbers stand for are lists in the state. Addresses are printed by a
-- parameter. Reads, Rounds, Steps, Ports, Clear and Paths hold the proofs.
-- Udppkt is internal/util/udppkt/udppkt.go: UDP headers, their bytes and the checksum, with the
-- fields of the x/net headers that it reads. Headers and Sums hold the proofs.
-- Util is internal/util/util.go: IP versions, MaybeSetDefault and the id generator.
-- Icmppkt is internal/util/icmppkt: Parse over the parsers of x/net, which are parameters, and the
-- packet types of a Linux socket's error queue. Parse calls itself for a message that is quoted in
-- a message and runs on fuel; more fuel than the buffer has bytes is enough, if a quoted part is
-- shorter than its message. Linux has ParseLinuxEE, with the kernel's control data as parameters.
-- Ends, Quoted, Quoting, ErrorQueue and Reporting hold the proofs.
-- Sockets is what internal/backend needs of a socket: its time to live and sending, over a world.
-- Icmpbase is internal/backend/icmpbase: New, Close and ReadFrom of icmpbase.go with the listeners
-- of service_normal.go as steps, where a blocked send holds the mutex; Icmpbase/Linux has
-- service_linux.go, Icmpbase/Writing WriteTo of internalconn.go, Icmpbase/Reading ReadFrom of
-- readfrom_normal.go and readfrom_linux.go over what the system calls return, Icmpbase/ReadLoop the
-- loop around it, Icmpbase/Services serviceFor. Owned, Sound, Delivery, Held and Slots hold
-- the proofs.
-- Icmp is internal/backend/icmp/icmp.go over them, with x/net's Marshal as a parameter; Answers
-- follows a ping to its reply.
-- Udp is internal/backend/udp/udp_icmpconn.go: sequence numbers as ports; Udp/Linux is udp_linux.go,
-- which reads its socket's error queue. Ports holds proofs about both.
-- Lookup is internal/lookup/lookup.go: the choice that String makes among resolved addresses, with
-- package net's To4 as a parameter.
-- Sortselect is internal/tui/sortselect/sortselect.go: the handlers that select sort columns, on the
-- list's items and its cursor, which the keys of the list move. Toggling, Places, Accepting and
-- Opening hold the proofs.
-- Table is internal/tui/table/table.go: cmpRows with cmpKey, for statistics that do not change
-- while the rows are sorted and an order of floats as a parameter; SetSort, the collapsed numbers of
-- UpdateRows, lpad and rpad on the bytes of a text; Latencies has renderLatencies, on characters and
-- bars with their colours, and color of internal/tui/theme/theme.go, with every index into the bars
-- and the gradients; Layout the columns, the header and the rows, as texts with the widths of their
-- styles; Sizes the sizes and View, as the parts that it joins, with internal/tui/help/help.go. How
-- a share of the width and a latency's share of the scale are rounded, how numbers are printed and
-- how high the help is drawn are parameters. Orders, Rows, Cells, Columns, Pictures and Screen hold
-- proofs.
-- Tui is internal/tui/tui.go: options, screens and keys; Tui/Commands has Init, Update and the
-- commands as steps, in which the environment chooses the command that ends or the message that is
-- handled next. A channel of a trace is the list of the steps that TraceRoute still sends on it. The
-- table is its rows and its sort order. Views has View. Kept, Handled, Finished, Traced, Paths and
-- Blanks hold the proofs.
-- Command is cmd/vasily.go: what main does with the flags, to the options of Tui. The parsed flags,
-- and whether the log opens, are arguments.
--
-- Other loops recur on what is left to read or to visit.
--
-- Not modelled: sockets, processes, name resolution, terminal rendering, log texts and the String
-- methods, which are input and output or third-party code.
pub mod Base
pub mod Backend
pub mod Messages
pub mod History
pub mod Pinger
pub mod Privsep
pub mod Tracer
pub mod Udppkt
pub mod Lookup
pub mod Sortselect
pub mod Util
pub mod Icmppkt
pub mod Icmpbase
pub mod Icmp
pub mod Tui
pub mod Sockets
pub mod Udp
pub mod Table
pub mod Command
