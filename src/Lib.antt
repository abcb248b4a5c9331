-- ===== src/Lib.antt =====
-- Quantumcat (qcat) is a point-to-point VPN without a coordination server. Two paired devices run an
-- authenticated handshake that gives each connection a fresh WireGuard pre-shared key; application
-- traffic then flows through the tunnel, with proxies and datagram framing at its ends.
--
-- The development follows the repository's packages:
-- - Base: shared lists, byte strings, maps as association lists, counts and signed integers.
-- - Crypto: the primitives of Go's crypto packages as a parameter; nothing is assumed of them but what
--   a theorem names (output sizes, decapsulation, verification of what was signed).
-- - Files: the operating system's files as a record of operations over an unknown state, and Files/Laws
--   what the store relies on of them.
-- - Trust: internal/trust/path.go.
-- - Config: internal/config/config.go and permissions.go. Config has the descriptors and the reading and
--   writing of files, Store the operations of Store; Loaded, Entries, Created, Extends and Pairing are
--   about them.
-- - Wire: internal/protocol/wire.go. Framing is about the frames, Layout about the
--   transcript and identities.
-- - Handshake: internal/protocol/handshake.go. The key schedule is in Handshake itself; Limits has the
--   token buckets; Server has the server's state with Expire, Close and the installation callback,
--   Finish and Hello its two branches of Handle, Handle the call as a whole; Steps an abstract
--   transition relation for it; Life any sequence of calls and reports. Client has the
--   client's side, and Agreement the exchange of both.
-- - Reload: cmd/qcat/authorization.go, with the loop of serve that calls it once a second.
-- - Transport: internal/transport/transport.go, the client's bootstrap loop as a function of what it
--   meets, over the client of Handshake, and the validity of a session, over the peers of Reload.
-- - Udp: internal/proxy/udp_frame.go, with accept cut at its checks. Header reads back the frames that
--   Write sends, Pieces is the copy loop, Reassembly the state between frames, Delivery and Exchange
--   the arrival of a whole datagram, Bounds the limits of the decoder and of Write.
-- - Renewal: internal/transport/renew.go, the loop watch, where round is the body of the loop and watch
--   the loop itself over the rounds that come. Recovery has its theorems.
-- - Socks: internal/proxy/socks.go, Serve and Dial cut at their reads. Negotiation puts the two ends
--   against each other.
-- - Flows: internal/proxy/udp.go, the table of flows of ForwardUDP. The sends and receives on a queue
--   happen under the loop's lock, but the flow may take from it in between: receive has the numbers of
--   datagrams taken there as arguments. Flows/Life has all goroutines of ForwardUDP with their single
--   moves, each possible at any time; what the caller's dial gives and errors of connections are arbitrary; Order, Parts and Sent are about the order of the datagrams, Ending
--   and Progress about the end of all flows, Subsequence about lists. Flows/Published is UDPServices, the
--   connections in progress as a table by their numbers, with one pump of proxyUDPDatagrams in
--   udp_frame.go; Limits is about it.
-- - Services: cmd/qcat/udp.go, the entries of published UDP services. Ranges and Keeps have
--   its theorems. It uses the targets of Socks.
-- - Serve: cmd/qcat/main.go, the services that serve is asked for and the choice of what a connection
--   gets, over Services and Socks; Routes is about where connections lead.
-- - Enclave: internal/crypto/provider/se/se.go, the choice of the helper program over Trust and the calls
--   over its pipes, where the processes are a record of operations over an unknown world; Chosen and
--   Framing are about them. Enclave/Identity is identity.go of the same package; Pinned, Signed, Settled
--   and History are about what an identity keeps, Recovery about failures.
-- - Mosh: cmd/qcat/mosh.go, the command for the remote shell, the response to it, and the environment and
--   arguments of the session; Quoting reads the command as a shell does, Session is about the response.
--   Mosh/Bootstrap is the end of ssh with the diagnostic, and Redaction is about what that shows.
-- - Tunnel: internal/tunnel/tunnel.go, over commands that are a parameter; Mirror compares the table of
--   routes with what the commands did.
-- - Control: internal/control/control.go, a query as a function of the requests before, over sockets that
--   are a parameter, and the start of a command's socket over Files; Targets and Starting are about them.
-- - Command: cmd/qcat/main.go and the function forwardUDP of cmd/qcat/udp.go, the client commands as
--   traces of what they acquire, release and call, over Config, Socks and Services. A deferred call is the
--   release at the end of hold; the loop that accepts local connections is one call of this
--   trace. accept_local is what becomes of one of them, a trace of its own, since the goroutine is not waited
--   for. Parts goes through the parts of a command, Released is about what is
--   held and Local about what is reached. Command/Dispatch has run, identity and peers, and Removed is
--   about a peer that is gone; Command/Mosh is the function mosh of cmd/qcat/mosh.go over Mosh, and
--   Contained is about it.
--
-- Correspondence. A method that changes a struct is a function that returns the new record; an early
-- return is a branch; a nil reply is `none`. Times are nanoseconds since Go's zero time. The mutex of
-- the server makes each call one step, so concurrency is the order of the steps. What a call draws from
-- outside (random bytes, encapsulation, signatures, errors of providers) is an argument.
-- Numbers that the source keeps in a fixed width are reduced explicitly where they can wrap.
-- No definition takes fuel: every loop is a recursion on the list that it ranges over, on the rounds or
-- the frames that come, or on the exact number of its rounds.
--
-- Not modelled: the copy of the tailcat library under third_party, the operating system's sockets,
-- files and processes, and the erasure of secrets from memory beyond the fields that stay reachable.
-- The package version only describes the build, and crypto/provider/software only calls Go's crypto packages.
-- What serve does beyond its services, its routes and its reloads starts the libraries, and printing and
-- the parsing of flags are left out or parameters.
pub mod Base
pub mod Crypto
pub mod Files
pub mod Trust
pub mod Wire
pub mod Handshake
pub mod Config
pub mod Reload
pub mod Transport
pub mod Udp
pub mod Renewal
pub mod Socks
pub mod Flows
pub mod Services
pub mod Enclave
pub mod Mosh
pub mod Serve
pub mod Tunnel
pub mod Control
pub mod Command
