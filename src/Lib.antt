-- ===== src/Lib.antt =====
-- StayRTR: a server of the RPKI-to-Router protocol (RFC 6810 and RFC 8210), modelled from its Go
-- source.
--
-- The daemon of cmd/stayrtr reads a JSON file of validated ROA payloads (VRPs), applies local
-- exceptions, and hands the VRPs to a server of lib/server.go. The server keeps the current list
-- and, for some serials before the current one, a diff that leads from there to the current list.
-- Routers connect, ask with a Reset Query for the whole list or with a Serial Query for what
-- changed, and are answered in PDUs of lib/structs.go.
--
-- Which file is about what:
--
-- Prelude: Boolean tests, lists measured by native numbers, bytes and strings, Go's maps as
-- association lists, Go's int and Go's bitwise operators; Prelude/Decimal is about printed numbers,
-- Prelude/Split about strings.Split, and Prelude/Options has the do blocks over Option and nil slices.
-- Net: net.IPNet and what the program calls of Go's package net (To4, To16, CIDRMask, Mask.Size).
-- Pdu: lib/structs.go. A record per PDU struct and one sum for the interface PDU. Pdu/Write has the
-- Write methods, Pdu/Decode has Decode with its error returns and with a separate value for an
-- index or a slice out of range. Pdu/Layout, Pdu/Bodies and Pdu/RoundTrip are about the round trip,
-- Pdu/Safety about indices and slices, and Pdu/Header about the header of what is decoded.
-- Vrp: the struct VRP, HashKey and ConvertVRPListToMap of lib/server.go; Vrp/Key is about keys and
-- Equals.
-- Diff: ComputeDiff and ApplyDiff. Diff/Replay says what a router makes of a diff: a set of keys,
-- from which each entry sets or clears its own. Diff/Compute, Diff/Merge and Diff/Flap compare the
-- two functions with it.
-- Server: the struct Server without its locks, NewServer, the queries, and AddVRPs with the
-- functions that it calls. Server/Linked is the invariant of serials, diffs and map; Server/Update
-- is about an update and it; Server/Resync follows one router over any number of updates;
-- Server/Crossed is about a router with a serial and a later list.
-- Client: the struct Client and its Send methods. Client/Handlers has ClientConnected,
-- ClientDisconnected and HandlePDU of the server and the event handler that answers queries;
-- Client/Raced has RequestCache with updates between its two reads. Client/Loop has the loop of
-- Client.Start, as a function of what each Read returns. Client/Pool has the server with all of its
-- clients: SetMaxConnections, the setters, SendPDU, and in Client/Pool/Accepts the connections that
-- loopTCP accepts, which are counted when their own goroutine starts. Client/Ssh has the goroutine of
-- acceptClientSSH from event to event, and Client/Ssh/Counted its connections among those over TCP.
-- Client/SendLoop has sendLoop with its channel; Client/SendLoop/Order is about what it has written,
-- and Client/SendLoop/Delivered about what a session on the other side makes of that. Client/Counters
-- has metricsEvent of cmd/stayrtr, the handler that counts clients and PDUs.
-- Prefixfile: prefixfile/prefixfile.go; Prefixfile/Slurm: prefixfile/slurm.go, with Prefixfile/Filtering
-- and Prefixfile/Matching about its filters.
-- Fetch: utils/utils.go, FetchFile with the ETags and times that it keeps from answer to answer.
-- Feed: processData of cmd/stayrtr/stayrtr.go; Feed/State: its updateFromNewState, with the
-- notifications of NotifyClientsLatest; Feed/Refresh: its updateFile and updateSlurm; Feed/Turns:
-- the start of run and the turns of routineUpdate, as a relation of the states that can be reached,
-- which Feed/Fed follows, and for which Feed/Latest tells from the fetches alone what was decoded last;
-- Feed/Exported has the exporter; Feed/Quiet is about two metrics, and
-- Feed/Metrics about the gauge of the VRPs.
-- Startup: what run of cmd/stayrtr/stayrtr.go makes of its flags. Startup/Life has the daemon from its
-- start on, with the turns of Feed/Turns and the connections over TCP and TLS in any order, and with
-- whatever connections over SSH make of the list and the count of the clients, for
-- which Startup/Kept says what they leave as it is, and Startup/Exports what the exporter shows of
-- it; Startup/Access has the part of run that says who
-- may log in over SSH, Startup/KeyLines is about the file of the keys, and Startup/Logins about the
-- logins that are taken.
-- Session: lib/client.go, a client's session with a server for any handler. Session/Stream follows
-- the loop of StartRW over the bytes that a server sends, and Session/Listener is about the
-- handlers of the two programs below. Session/Connect has Start, and the configurations of TLS and
-- SSH that both programs hand to it; Session/Network opens its connections over a network that is a
-- parameter, and Session/Ending has the error that StartRW returns.
-- Dump: cmd/rtrdump/rtrdump.go, its handler and the session of its main; Dump/Daemon puts it
-- to a server that the daemon feeds, and Dump/Connect has what main makes of its flags; Dump/Output has main from
-- its flags to the file that it writes, Dump/Output/Entries describes what the PDUs stand for, and
-- Dump/Output/Written says when it writes what.
-- Monitor: of cmd/rtrmon/rtrmon.go, HandlePDU of its Client, BuildNewVrpMap, Diff and
-- countFirstSeenOnOrBefore. Monitor/Router and Monitor/InStep put the monitor to the server as its
-- router; Monitor/Grace is about the grace period; Monitor/Link has a session of the monitor on the
-- bytes of a server; Monitor/Files has its turns that fetch a file, and Monitor/Files/Shared those
-- of two clients that share one FetchConfig; Monitor/Connect has what main makes of the flags of its
-- two clients, which Monitor/Connect/Same compares with rtrdump; Monitor/Turns has the whole of Start with
-- both kinds of turns, and Monitor/Turns/Closed says what the end of a session leads to; Monitor/Refresh has continuousRTR,
-- and Monitor/Refresh/Lost a monitor that the server has left behind; Monitor/Thresholds has the flag
-- for the metric of durations; Monitor/Compare has the Comparator, with Compare as a function of what
-- it receives in turn, Monitor/Compare/Served has ServeDiff, and Monitor/Compare/Gauges the metrics
-- that Compare sets, which Monitor/Compare/Gauges/Shown puts beside what is served and whose
-- directions Monitor/Compare/Gauges/Directions is about, with the ages of Monitor/Compare/Gauges/Ages.
-- Monitor/System has both clients and Compare beside each other, from message to message, for which
-- Monitor/System/Settles has the invariant, and Monitor/System/CatchUp the steps by which Compare
-- catches up.
-- Tests: the theorems at concrete inputs.
--
-- What the model takes from outside, as parameters: the method String of net.IPNet (ipnet_string),
-- of which one theorem, about Equals, assumes that it prints no dash and two different prefixes
-- differently, and the others nothing, so that a key is a key and no more; net.ParseCIDR
-- (parse_cidr), of which one theorem assumes that a prefix has at most 128 bits; the conversion of
-- a float64 to a uint32; the method Int64 of json.Number; time.Parse; the random number of
-- GenerateSessionId; http.ParseTime, the SHA-256 sum, and the decoders of the JSON file and of the
-- local exceptions; and for each fetch what answers its request and what can be read of a file (the
-- record Outside). Of SSH it takes os.Getenv, os.ReadFile, ssh.ParsePrivateKey, and the text in
-- base64 of a key.
--
-- Bounds: the code's own loops run over lists and have no fuel, but for the loop of StartRW, which
-- has one round more than the server's bytes: every PDU takes at least one byte, and the end of the
-- bytes is an error that ends the session. The eight rounds in which a mask's leading ones are
-- counted are the bits of a byte, and the twenty digits of a number in a key hold any uint64.
-- Numbers of 8, 16 and 32 bits are natural numbers with their wrap-around written out, and the
-- theorems name the ranges that they need. The number of diffs that are kept is a natural number; a
-- negative one behaves as 0. A serial is followed through the wrap of 2^32: the theorems about
-- serials ask for fewer than 2^31 kept diffs.
--
-- Not modelled: locks (an operation of the server is one step; only the start of a client, and the
-- two reads of RequestCache, are steps of their own), the channels' capacity but for that of
-- sendLoop, the listening on sockets and what the handshakes of TLS and SSH do, logs, the metrics of
-- rtrmon but those that Compare sets, the HTTP servers of the metrics and of the exports, the
-- reading and writing of JSON, and the reading of the flags themselves. The time between two turns
-- of the daemon, and between two Serial Queries of the monitor, is left open. The monitor's times
-- are natural numbers of seconds, one for all PDUs of an answer. The daemon's life has the
-- steps of the connections over TCP and TLS; those over SSH stand with the server alone, and may change
-- the list and the count of its clients in the daemon's life as they please. A write fails just on a
-- socket that Disconnect has closed; that the other side closes it is seen by Read alone.
pub mod Prelude
pub mod Net
pub mod Pdu
pub mod Vrp
pub mod Diff
pub mod Server
pub mod Client
pub mod Prefixfile
pub mod Fetch
pub mod Feed
pub mod Session
pub mod Startup
pub mod Dump
pub mod Monitor
pub mod Tests
