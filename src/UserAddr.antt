-- ===== src/UserAddr.antt =====
-- meek-server/useraddr.go and getUseraddr of meek-server/meek-server.go: the address of the
-- original client, read from a request. net.ParseIP and IP.String are parameters: addresses are
-- kept as the text of their canonical form.
pub mod Laws
pub mod Tests
use meek.Base.{
  ℕ, Bytes, codes, List, [], ◌∷◌, ◌++◌, Option, none, some, same, if◌then◌else◌, leb, ◌≡◌, refl,
  length,
}
use meek.Go.Errors.{GoError, plain, Result, ok, err, ◌>>=◌}
use meek.Go.Http.{Request, Header, get_field}
use meek.Go.Text.{split_n, trim_space}
use meek.Go.HostPort.{split_host_port, join_host_port}

-- parts[0], behind the test of the number of parts.
first_part : Bytes → List Bytes → Result Bytes
first_part value [] = err (plain (codes "bad X-Forwarded-For value " ++ value))
first_part value (part ∷ parts) = ok (trim_space part)

unfoldable pub get_x_forwarded_for : Bytes → Result Bytes
unfolding first_part
get_x_forwarded_for value = first_part value (split_n b',' 1 value)

-- The header field that names the client: Meek-IP, or else X-Forwarded-For.
pub forwarded_field : Header → Bytes
forwarded_field h =
    let meek_ip = get_field (codes "Meek-IP") h in
    if same meek_ip [] then get_field (codes "X-Forwarded-For") h else meek_ip

host_of : Result (Bytes × Bytes) → Result Bytes
host_of (ok (host, port)) = ok host
host_of (err e) = err e

pub client_host : Request → Result Bytes
unfolding forwarded_field host_of
client_host req =
    let field = forwarded_field req.header in
    if same field [] then host_of (split_host_port req.remote_addr) else get_x_forwarded_for field

-- `parse_ip host` is the canonical text of net.ParseIP(host), or none where that is nil.
module _ (parse_ip : Bytes → Option Bytes) where
  parsed : Bytes → Option Bytes → Result Bytes
  parsed host none = err (plain (codes "cannot parse " ++ host ++ codes " as IP address"))
  parsed host (some ip) = ok ip

  unfoldable pub original_client_ip : Request → Result Bytes
  unfolding client_host parsed
  original_client_ip req = do host ← client_host req; parsed host (parse_ip host)

  joined : Result Bytes → Bytes
  joined (ok ip) = join_host_port ip (codes "1")
  joined (err e) = []

  unfoldable pub get_useraddr : Request → Bytes
  unfolding original_client_ip joined
  get_useraddr req = joined (original_client_ip req)
