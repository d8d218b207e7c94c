-- ===== src/Lib.antt =====
-- A model of meek, a transport that carries a TCP stream in the bodies of HTTP requests.
--
-- The program has a client and a server. meek-client takes a local connection, cuts what it reads
-- into chunks, and sends each as the body of a POST request with a session id in the header field
-- X-Session-Id; it polls with empty requests when there is nothing to send, and writes each response
-- body to the local connection. meek-server keeps a map from session ids to connections to the OR
-- port (a relay, or a proxy), forwards a request's body to its session's connection, waits a moment
-- for something to come back, and answers with that. A second thread culls idle sessions.
--
-- Which file models what:
--
--   Base, Go         Shared helpers, and the parts of Go's standard library that the program uses:
--                    error values (Go/Errors), header fields, requests and the response writer
--                    (Go/Http), TrimSpace and SplitN (Go/Text), SplitHostPort and JoinHostPort
--                    (Go/HostPort), path.Clean (Go/Path), base64 (Go/Base64), the package flag
--                    (Go/Flag, with numbers that are not negative). A string is a list of
--                    bytes, a map an association list with one entry a key.
--   Server/Session   meek-server/meek-server.go: Session, State, NewState, GetSession, CloseSession
--                    and one round of ExpireSessions. A connection is a number; `World` records
--                    which connections were opened and closed, what was written to them, and the
--                    log.
--   Server/Handler   the same file: ServeHTTP, Get, Post, transact, scrubError. What the network
--                    does during a transaction is the argument `Link`.
--   Server/Lifetime  the loop of ExpireSessions over time, and in Lifetime/Late a request behind it.
--   Server/Abstract  the map as a function from ids to sessions; Server/Order: maps that differ in the
--                    order of their entries, and in Order/Classes servers up to that order.
--   Server/Steps     handlers and sweeps side by side, as sequences of steps: the look-up, the
--                    transaction, the log and the closing are one each. Steps/Requests: which of
--                    them a request takes.
--   Server/Scrub     what a failed transaction reports, and which addresses are in it.
--   Server/Clients   the requests of many clients, and sweeps, in any order; Server/Apart: what a
--                    request of one client leaves of another's connection; Server/Waits: what
--                    they leave of a session that waits for its next request.
--   UserAddr         meek-server/useraddr.go, and getUseraddr.
--   Certificate      meek-server/certificate.go, with its panics as values; the handshakes come one
--                    after the other.
--   Client/SessionId meek-client/meek-client.go: genSessionID.
--   Client/Transport the same file: makeRequest, roundTripRetries, sendRecv. A round tripper is a
--                    function on a state of its own; `sleep` is what goes on in that state
--                    during a pause between tries.
--   Client/Poll      the same file: copyLoop. What the select statement receives is a list of events.
--   Client/Url       the parts of a URL.
--   Client/Config    the same file: the configuration in handleSOCKS, acceptSOCKS, checkProxyURL.
--                    Config/Sources compares options and SOCKS args.
--   Client/Socks     the same file: handleSOCKS whole.
--   Client/Startup   the same file: in main, the options, the proxy set-up and the loop over
--                    the methods; Client/Main is main from its flags to its end, and Client/Command
--                    its flags.
--   Client/Helper    meek-client/helper.go: makeProxySpec, SetProxy, RoundTrip; in Helper/Peer the helper's
--                    answer depends on what it is sent, and Helper/Specs is about makeProxySpec.
--   Client/Utls      meek-client/utls.go: addrForDial, dialUTLS, makeProxyDialer, makeRoundTripper with
--                    its dialTLS, RoundTrip, NewUTLSRoundTripper; clientHelloIDMap is in Utls/Hello,
--                    and Utls/History is about many requests.
--   Client/ProxyHttp meek-client/proxy_http.go: Dial. The constructors are those of Utls.Dialer.
--   Client/Dial      how the dialers of these two files reach the network, and the closure `dial` of
--                    makeRoundTripper.
--   Server/Startup   meek-server/meek-server.go: in main, the environment it sets, the ways of setting up
--                    TLS, the loop over the bind addresses and the closing of the servers;
--                    initServer, getCertificateCacheDir.
--   Server/Main      the same file: main from its flags to its end; in Main/Aborts, runProxy and the
--                    responder for ACME end the program beside it. Server/Command has main's flags.
--   Lifecycle        what both main functions do with a log file and at their end.
--   Reflect          appengine/reflect.go: pathJoin, copyRequest, handler.
--   Tunnel           the client's loop over a round tripper that calls the server's handler, where
--                    other clients' requests and sweeps come before each call;
--                    Tunnel/Reflected has appengine/reflect.go in between, Tunnel/Helped the
--                    helper, and Tunnel/Socks starts at handleSOCKS. Delivery has the interface
--                    `Carries` of the round trippers that bring the requests to the server, and
--                    Loop what follows for the loop.
--
-- The other files of a part prove things about it, and its Tests file runs it on concrete inputs.
--
-- Numbers: times are nanoseconds, as natural numbers; a time before another subtracts to 0, where
-- Go's negative duration passes the same tests. float64(interval) * 1.5 is computed exactly, since
-- intervals are far below 2^52. No loop needs fuel: copyLoop, ExpireSessions and the handshakes of a
-- server recur on the list of what happens to them, and roundTripRetries on its limit.
--
-- Parameters, since their code is not in the repository or is a copy of a library: pt.DialOr of
-- lib/goptlib; net.ParseIP with IP.String; http.NewRequest's parsing of a URL, url.Parse; JSON coding;
-- uTLS, the SOCKS5 dialer of x/net, http.Transport, http2.Transport, http.ReadResponse and urlfetch;
-- random bytes, clocks, files,
-- environment variables, listeners and connections; strconv.ParseInt; pt.ClientSetup and
-- pt.ServerSetup; the SOCKS5 server that runProxy starts.
--
-- A transaction is one step, where its writes to the OR port and those of another handler of the same
-- session can come in between each other; handlers of other sessions do not meet it. A sweep reads the
-- clock once, where the code reads it at each entry. The race of concurrent handshakes on lastWarnAt is
-- not modelled.
--
-- Not modelled: the lines of both programs' logs outside the handler, and their help messages; lib/,
-- which holds copies of libraries, and so what the internal proxy serves; php/, which is in another
-- language; read and write deadlines; the content type and date that net/http adds to a response.
pub mod Base
pub mod Go
pub mod UserAddr
pub mod Server
pub mod Certificate
pub mod Client
pub mod Tunnel
pub mod Reflect
pub mod Lifecycle
