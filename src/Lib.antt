-- ===== src/Lib.antt =====
-- The server of viindetta/wfc-server_private: a replacement for the online services of Nintendo Wii
-- and DS games, in Go. Its parts talk over GameSpy protocols: qr2 keeps the servers (players who wait
-- for others), serverbrowser searches them with an expression that the game sends, gpcm carries
-- messages between players, among them the match commands by which a game is arranged, and natneg
-- tells two players behind routers which addresses to connect to, and reports to qr2 how that went.
--
-- Prelude          shared helpers: Boolean tests, lists over the native numbers, association lists,
--                  decimal texts, and Outcome, the results of fallible code: a value, a refusal
--                  (`return …, false`, or an error) or a panic (a read past the end, a nil pointer)
-- MatchCommand     common/match_command.go: the data types, DecodeMatchCommand (Decode and its modules)
--                  and EncodeMatchCommand (Encode); Safety and RoundTrip hold the proofs
-- IpAddress        common/ip_address.go: IPFormatToInt and IPFormatBytes
-- FriendCode       common/friend_code.go: CalcFriendCode and its checksums; the first byte of an MD5
--                  digest is a parameter
-- Natneg           natneg: the types and packet headers (main.go); Connect (connect.go), Init (init.go,
--                  preinit.go), Report (report.go, with makeLookupAddr of qr2/session.go) and Server
--                  (the session table, handleConnection and closeSession of main.go). Invariant,
--                  Sessions, Reachable (runs as a step relation), Safety, Pairing, ThreeClients,
--                  Reports and Identity hold the proofs
-- Filter           serverbrowser/filter: Filter (tokens.go, treenode.go), Eval, Like and Rk (eval.go);
--                  Search (serverbrowser/filter.go). Search.Selects, Search.Lookup and Facts hold
--                  the proofs
-- AuthToken        common/auth_token.go: the tokens, Layout and RoundTrip with the proofs; AES and base64 are
--                  the record Codec, with what is documented of them as hypotheses
-- GameSpy          common/gamespy_message.go: the messages of the GameSpy protocols (GameSpy) and their
--                  round trip (RoundTrip)
-- Gpcm             gpcm: the sessions (main.go), Lists, Friend, Send, Status and OpenHost (friend.go, and
--                  updateProfile of profile.go with UpdateProfile of database/user.go), Profile (getProfile
--                  of profile.go, and report.go), Bestie with Relay and Receive (message.go), Packet
--                  (HandlePacket of main.go). Lists.Removal, Lists.Once, Store, Send.Shown,
--                  Friend.Mutual, OpenHost.Clears, Bestie.Keeps, Bestie.Guarded, Bestie.Facts,
--                  Packet.Fragments, Packet.Login and Invariant (the store of sessions and the friend
--                  lists through every handler) hold the proofs
--
-- Bytes are natural numbers; a word of w bits is a number below 2 ^ w, and what wraps in the code wraps
-- in the model (`% 2 ^ w`). A Go map is an association list with one entry for a key; where the code
-- iterates a map, the order is an argument and the theorems hold for every order that they name. A
-- handler of natneg runs under the mutex of its session, so it is one function from the state before
-- to the state after and the effects in their order: packets sent, reports to qr2, and the goroutines
-- started, which repeat their connect requests in rounds of their own. The timer that ends a session
-- is the separate event close_session. The handlers of gpcm change session objects, which both of its
-- maps point to: an object stands under the index of its connection, and what a handler does outside of
-- the sessions is a list of actions. What qr2 answers to gpcm, the queries of the database, the base64
-- codec, the random characters and the order in which a map of texts is iterated are the record Services,
-- the two handlers of the login of gpcm the record Handlers; where a theorem asks something of them it
-- says so. In Filter a run is an outcome with the players it kicks.
-- All loops are structural recursion on a list, a tree or a count that the code itself bounds, but for
-- the matching of a pattern with "%" in Filter.Like, which has one unit of fuel for each byte of the
-- text: each unit that is used drops at least one byte; and the loops of GameSpy, which have the length of
-- the message: a pair of a key and a value has at least two bytes.
--
-- Not modelled: sockets, files, logging and the statements of the database; the parser of the filter,
-- whose result is an argument of filter_servers; the login of gpcm and the texts of its errors;
-- gpsp, gamestats, sake, nas, api and the rest of common and qr2; and
-- nhttp, a copy of the standard library's net/http.
pub mod Prelude
pub mod MatchCommand
pub mod IpAddress
pub mod FriendCode
pub mod Natneg
pub mod Filter
pub mod AuthToken
pub mod GameSpy
pub mod Gpcm
