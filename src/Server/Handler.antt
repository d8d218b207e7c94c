-- ===== src/Server/Handler.antt =====
-- The HTTP handler of meek-server/meek-server.go: ServeHTTP, Get, Post, transact, scrubError.
use Prim.Native.Nat.{ℕ}
use meek.Base.{
  ◌+◌, Bytes, codes, [], ◌∷◌, ◌++◌, Option, none, some, Bool, false, not, ltb, if◌then◌else◌,
  length, take, same,
}
use meek.Go.Errors.{
  Addr, tcp_addr, scrubbed_addr, GoError, op_error, net_error, plain, is_timeout, Result, ok, err,
}
use meek.Go.Http.{
  Request, Body, ResponseWriter, set_header, write_header, write, http_error, not_found, get_field,
}
use meek.UserAddr.{get_useraddr}
use meek.Go.Path.{clean}
use meek.Server.Session.{
  Session, World, Server, min_session_id_length, max_payload_length, get_session, close_session,
}

unfoldable pub http_bad_request : ResponseWriter → ResponseWriter
http_bad_request w = http_error (codes "Bad request.") 400 w

unfoldable pub http_internal_server_error : ResponseWriter → ResponseWriter
http_internal_server_error w = http_error (codes "Internal server error.") 500 w

-- scrubbedAddr.Network and scrubbedAddr.String
abbrev pub addr_text : Addr → Bytes
addr_text (tcp_addr a) = a
addr_text scrubbed_addr = codes "[scrubbed]"

unfoldable pub scrub_error : GoError → GoError
scrub_error (op_error op net source addr inner) = op_error op net source (some scrubbed_addr) inner
scrub_error (net_error timeout reason) = net_error timeout reason
scrub_error (plain reason) = plain reason

-- The part of an OpError's text that names addresses.
abbrev addrs_text : Option Addr → Option Addr → Bytes
addrs_text none none = []
addrs_text none (some a) = codes " " ++ addr_text a
addrs_text (some s) none = codes " " ++ addr_text s
addrs_text (some s) (some a) = codes " " ++ addr_text s ++ codes "->" ++ addr_text a

-- err.Error()
unfoldable pub error_text : GoError → Bytes
error_text (op_error op net source addr inner) =
    op
    ++ (if same net [] then [] else codes " " ++ net)
    ++ addrs_text source addr
    ++ codes ": "
    ++ error_text inner
error_text (net_error timeout reason) = reason
error_text (plain reason) = reason

-- http.MaxBytesReader: a body longer than the limit is cut there, and ends in an error.
unfoldable pub max_bytes_reader : ℕ → Body → Body
max_bytes_reader limit b =
    if ltb limit (length b.bytes)
    then record {
      bytes = take limit b.bytes;
      failure = some (plain (codes "http: request body too large"));
    }
    else b

-- What the network does during one transaction, and between which addresses: the error, if any, that stops the writes to the OR
-- port behind a number of bytes; the result of the read from it; the error of the write to the
-- client.
pub record Link : Type 0 where
  pub or_local : Bytes
  pub or_remote : Bytes
  pub or_write : Option (ℕ × GoError)
  pub or_read : Bytes × Option GoError
  pub client_write : Option GoError

-- The copying of a body to a connection: what was written, and the error. A write error comes before
-- a read error if the body does not fit.
unfoldable pub io_copy : Option (ℕ × GoError) → Body → Bytes × Option GoError
io_copy none b = (b.bytes, b.failure)
io_copy (some (room, e)) b =
    if ltb room (length b.bytes) then (take room b.bytes, some e) else (b.bytes, b.failure)

-- The OpError that TCPConn.ReadFrom makes of an error.
unfoldable pub wrapped : Link → Option GoError → Option GoError
wrapped link none = none
wrapped link (some e) = some (
    op_error (codes "readfrom") (codes "tcp") (some (tcp_addr link.or_local))
      (some (tcp_addr link.or_remote)) e)

-- io.Copy(or, body) goes through TCPConn.ReadFrom, since `or` is a *net.TCPConn.
unfoldable pub read_from : Link → Body → Bytes × Option GoError
unfolding wrapped io_copy
read_from link b = let (sent, e) = io_copy link.or_write b in (sent, wrapped link e)

-- The outcome of `transact`: the response, the world, and the error.
pub record Transaction : Type 0 where
  pub response : ResponseWriter
  pub world : World
  pub error : Option GoError

-- err != nil and it is no timeout.
abbrev pub is_fatal : Option GoError → Bool
is_fatal none = false
is_fatal (some e) = not (is_timeout e)

abbrev pub text_of : Option GoError → Bytes
text_of none = []
text_of (some e) = error_text e

-- n, err = w.Write(buf[:n])
unfoldable pub reply : Bytes → Option GoError → ResponseWriter → World → Transaction
reply buf none w o = record { response = write buf w; world = o; error = none }
reply buf (some e) w o = record {
  response = write_header 200 w;
  world = o;
  error = some (plain (codes "error writing to response: " ++ error_text (scrub_error e)));
}

-- From the read on.
unfoldable pub read_back : Link → ResponseWriter → World → Transaction
unfolding reply
read_back link w o =
    if is_fatal link.or_read.1
    then record {
      response = http_internal_server_error w;
      world = o;
      error = some (plain (codes "reading from ORPort: " ++ text_of link.or_read.1));
    }
    else reply (take max_payload_length link.or_read.0) link.client_write
        (set_header (codes "Content-Type") (codes "application/octet-stream") w) o

unfoldable pub forwarded : Link → ResponseWriter → World → Option GoError → Transaction
unfolding read_back
forwarded link w o none = read_back link w o
forwarded link w o (some e) = record {
  response = w;
  world = o;
  error = some (plain (codes "error copying body to ORPort: " ++ error_text (scrub_error e)));
}

unfoldable pub transact : Link → Session → Request → ResponseWriter → World → Transaction
unfolding forwarded max_bytes_reader read_from
transact link session req w o =
    let (sent, e) = read_from link (max_bytes_reader (max_payload_length + 1) req.body) in
    forwarded link w (record o { sent = (session.or, sent) ∷ o.sent }) e

-- The callees outside the program: net.ParseIP with IP.String, and pt.DialOr with the server info.
pub record Externals : Type 0 where
  pub parse_ip : Bytes → Option Bytes
  pub dial_or : Bytes → Bytes → Result ℕ

unfoldable pub log_error : GoError → World → World
log_error e o = record o { log = e ∷ o.log }

-- The end of Post: an error is logged, and the session closed.
unfoldable pub finish : Bytes → Server → Transaction → ResponseWriter × Server
finish id v t = elim t.error [
  | none ↦ (t.response, record v { world = t.world })
  | some e ↦ (t.response, close_session id (record v { world = log_error e t.world }))
]

unfoldable pub with_session :
    Link → Bytes → Request → ResponseWriter → Result Session × Server → ResponseWriter × Server
unfolding finish log_error
with_session link id req w (err e, v) =
    (http_internal_server_error w, record v { world = log_error e v.world })
with_session link id req w (ok s, v) = finish id v (transact link s req w v.world)

unfoldable pub post :
    Externals → Link → ℕ → Request → ResponseWriter → Server → ResponseWriter × Server
unfolding with_session
post x link now req w v =
    let id = get_field (codes "X-Session-Id") req.header in
    if ltb (length id) min_session_id_length
    then (http_bad_request w, v)
    else with_session link id req w (get_session x.dial_or (get_useraddr x.parse_ip req) id now v)

-- The other callees: os.Getenv and ioutil.ReadFile.
pub record Files : Type 0 where
  pub getenv : Bytes → Bytes
  pub read_file : Bytes → Result Bytes

-- The fixed page; its apostrophe is three bytes of UTF-8.
abbrev pub happy_page : Bytes
happy_page =
    codes "I" ++ (0xe2 ∷ 0x80 ∷ 0x99 ∷ codes "m just a happy little web server.") ++ 10 ∷ []

page : Result Bytes → ResponseWriter → ResponseWriter
page (err e) w =
    write happy_page
      (write_header 200 (set_header (codes "Content-Type") (codes "text/plain; charset=utf-8") w))
page (ok file) w =
    write file
      (write_header 200 (set_header (codes "Content-Type") (codes "text/html; charset=utf-8") w))

-- The name of the mask document.
abbrev pub mask_doc : Bytes → Bytes
mask_doc doc = if same doc [] then codes "index.html" else doc

decoy : Files → ResponseWriter → ResponseWriter
unfolding page
decoy f w =
    let mask_redirect = f.getenv (codes "MASK_REDIRECT") in
    if same mask_redirect []
    then page (f.read_file (mask_doc (f.getenv (codes "MASK_DOC")))) w
    else write (codes "Moved permanently." ++ 10 ∷ []) (
        write_header 301 (
          set_header (codes "Location") mask_redirect
            (set_header (codes "Content-Type") (codes "text/html; charset=utf-8") w)))

unfoldable pub get : Files → Request → ResponseWriter → ResponseWriter
unfolding decoy
get f req w = if same (clean req.path) (codes "/") then decoy f w else not_found w

unfoldable pub serve_http :
    Externals → Files → Link → ℕ → Request → ResponseWriter → Server → ResponseWriter × Server
serve_http x f link now req w v =
    if same req.method (codes "GET")
    then (get f req w, v)
    else if same req.method (codes "POST")
    then post x link now req w v
    else (http_bad_request w, v)
