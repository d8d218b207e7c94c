-- ===== src/Client/Url.antt =====
-- *url.URL, of which the program reads and sets the parts below; parsing and printing one are
-- parameters wherever they are needed. Hostname and Port split the host part.
use meek.Base.{
  Bytes, [], ◌∷◌, Option, none, some, Bool, true, ◌==◌, ◌&&◌, leb, if◌then◌else◌, ◌≡◌, refl, codes,
}
use mathlib.Core.List.{reverse}
use meek.Go.HostPort.{cut_last}

pub record Userinfo : Type 0 where
  pub username : Bytes
  pub password : Option Bytes

pub record Url : Type 0 where
  pub scheme : Bytes
  pub user : Option Userinfo
  pub host : Bytes
  pub path : Bytes

all_digits : Bytes → Bool
all_digits [] = true
all_digits (c ∷ s) = (leb b'0' c && leb c b'9') && all_digits s

-- The text before the last colon and the digits behind it, or all of it and no port.
port_cut : Bytes → Option (Bytes × Bytes) → Bytes × Bytes
unfolding all_digits
port_cut host none = (host, [])
port_cut host (some (h, p)) = if all_digits p then (h, p) else (host, [])

-- Behind the opening bracket, without the closing one.
strip_close : Bytes → Bytes → Bytes
strip_close whole [] = whole
strip_close whole (c ∷ s) = if c == b']' then reverse s else whole

strip_brackets : Bytes → Bytes
unfolding strip_close
strip_brackets [] = []
strip_brackets (c ∷ s) = if c == b'[' then strip_close (c ∷ s) (reverse s) else c ∷ s

split_url_host : Bytes → Bytes × Bytes
unfolding port_cut strip_brackets
split_url_host host = let (h, p) = port_cut host (cut_last b':' host) in (strip_brackets h, p)

unfoldable pub hostname : Url → Bytes
unfolding split_url_host
hostname u = (split_url_host u.host).0

unfoldable pub port : Url → Bytes
unfolding split_url_host
port u = (split_url_host u.host).1

split_tests :
    (split_url_host (codes "[::1]:80") ≡ (codes "::1", codes "80"))
    × (split_url_host (codes "a.example") ≡ (codes "a.example", []))
    × (split_url_host (codes "a.example:") ≡ (codes "a.example", []))
unfolding split_url_host cut_last
split_tests = (refl, refl, refl)
