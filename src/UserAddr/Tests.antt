-- ===== src/UserAddr/Tests.antt =====
-- The client's address at concrete inputs.
use meek.Base.{
  Bytes, codes, [], ◌∷◌, Option, none, some, ◌≡◌, refl, ◌⊎◌, Lacks, arith, same, if◌then◌else◌,
  Bool-cases, inl, inr,
}
use mathlib.Core.Option.{some-injective}
use meek.Go.Errors.{GoError, ok, err}
use meek.Go.Http.{Request, Header, get_field}
use meek.Go.Text.{trim_space, split_n}
use mathlib.Core.Path.{subst}
use meek.Go.HostPort.{split_host_port, join_host_port}
use meek.UserAddr.{get_x_forwarded_for, original_client_ip, get_useraddr}
use meek.UserAddr.Laws.{get_useraddr_splits}

addr : Unit {0}
unfolding get_useraddr original_client_ip get_x_forwarded_for get_field join_host_port
    split_host_port split_n trim_space same
addr = tt

-- A parser that knows one address.
abbrev parse_ip : Bytes → Option Bytes
parse_ip host = if same host (codes "2001:db8::1") then some (codes "2001:db8::1") else none

parse_ip-Lacks : (host ip : Bytes) → parse_ip host ≡ some ip → Lacks b'[' ip × Lacks b']' ip
parse_ip-Lacks host ip h = elim (Bool-cases (same host (codes "2001:db8::1"))) [
  | inl known ↦ known_address (rw known at h)
  | inr other ↦ absurd (unknown (rw other at h))
]
  where
    known_address : some (codes "2001:db8::1") ≡ some ip → Lacks b'[' ip × Lacks b']' ip
    known_address e = subst (λ x. Lacks b'[' x × Lacks b']' x) (some-injective _ _ e) (omega arith)

    unknown : ◌≡◌ {A = Option Bytes} none (some ip) → ⊥
    unknown e = cc e

abbrev ask : Header → Request
ask h = record {
  method = codes "POST";
  path = codes "/";
  header = h;
  remote_addr = codes "192.0.2.1:4000";
  body = record { bytes = []; failure = none };
}

abbrev forwarded : Request
forwarded = ask ((codes "X-Forwarded-For", codes " 2001:db8::1 , 192.0.2.1" ∷ []) ∷ [])

useraddr_forwarded : get_useraddr parse_ip forwarded ≡ codes "[2001:db8::1]:1"
unfolding addr
useraddr_forwarded = refl

useraddr_meek_ip :
    get_useraddr parse_ip (
      ask (
        (codes "X-Forwarded-For", codes "192.0.2.1" ∷ [])
        ∷ (codes "Meek-Ip", codes "2001:db8::1" ∷ [])
        ∷ []))
    ≡ codes "[2001:db8::1]:1"
unfolding addr
useraddr_meek_ip = refl

useraddr_remote : get_useraddr (λ host. some host) (ask []) ≡ codes "192.0.2.1:1"
unfolding addr
useraddr_remote = refl

get_useraddr_splits_example :
    ((e : GoError) × (original_client_ip parse_ip forwarded ≡ err e)
      × (get_useraddr parse_ip forwarded ≡ []))
    ⊎ ((ip : Bytes) × (original_client_ip parse_ip forwarded ≡ ok ip)
        × (split_host_port (get_useraddr parse_ip forwarded) ≡ ok (ip, codes "1")))
get_useraddr_splits_example = get_useraddr_splits parse_ip forwarded parse_ip-Lacks
