-- ===== src/Tunnel.antt =====
-- meek-client and meek-server joined by HTTP: the client's polling loop over a round tripper that
-- hands each request to the server's handler. The network in between is not part of the program;
-- it is taken to deliver each request once, unchanged, and its answer. Between the requests, other
-- clients and sweeps use the server.
pub mod Delivery
pub mod Loop
pub mod Stream
pub mod Reflected
pub mod Helped
pub mod Socks
pub mod Tests
use meek.Base.{Bytes, List, [], ◌∷◌, ◌++◌, Option, none, some, ℕ, codes, take}
use meek.Go.Errors.{plain, Result, ok, err}
use meek.Go.Http.{Request, ResponseWriter, new_response, status_of}
use meek.Server.Session.{Server}
use meek.Server.Handler.{Externals, Files, Link, serve_http, post}
use meek.Server.Clients.{Action, acts}
use meek.Client.Transport.{ClientRequest, ClientResponse, RoundTripper, max_payload_length}
use meek.Client.Poll.{Event, local, timer, closed}

-- The server's surroundings at one request, and what others do to it before the request arrives.
pub record Hop : Type 0 where
  pub externals : Externals
  pub files : Files
  pub link : Link
  pub now : ℕ
  pub remote_addr : Bytes
  pub others : List Action

abbrev pub body_bytes : Option Bytes → Bytes
body_bytes none = []
body_bytes (some b) = b

abbrev pub drained : Option Bytes → Option Bytes
drained none = none
drained (some b) = some []

abbrev pub arriving : Hop → ClientRequest → Request
arriving h req = record {
  method = req.method;
  path = req.url.path;
  header = req.header;
  remote_addr = h.remote_addr;
  body = record { bytes = body_bytes req.body; failure = none };
}

abbrev pub answer : ResponseWriter → ClientResponse
answer w = record { status_code = status_of w; body = record { bytes = w.body; failure = none } }

unfoldable pub over_http : RoundTripper (List Hop × Server)
over_http req ([], v) = (err (plain (codes "connection refused")), req, ([], v))
over_http req (h ∷ hs, v) =
    let (w, v') =
      serve_http h.externals h.files h.link h.now (arriving h req) new_response (acts h.others v) in
    (ok (answer w), record req { body = drained req.body }, (hs, v'))

-- What the local connection sent, and what the OR port said.
abbrev pub chunks : List Event → Bytes
chunks [] = []
chunks (local buf sink ∷ es) = buf ++ chunks es
chunks (timer sink ∷ es) = chunks es
chunks (closed ∷ es) = []

abbrev pub replies : List Event → List Hop → Bytes
replies [] hs = []
replies (e ∷ es) [] = []
replies (e ∷ es) (h ∷ hs) = take max_payload_length h.link.or_read.0 ++ replies es hs
