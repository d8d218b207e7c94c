-- ===== src/UserAddr/Laws.antt =====
-- Laws of the client address: what is read from a header field, and what is handed to the dialer.
use meek.Base.{
  Bytes, codes, [], ◌++◌, Option, some, ◌≡◌, ◌≢◌, arith, Lacks, ◌⊎◌, inl, inr, Option-cases,
}
use meek.Go.Errors.{GoError, plain, ok, err, Result-cases}
use meek.Go.Http.{Request}
use meek.Go.Text.{trim_space, split_n, cut}
use meek.Go.HostPort.{split_host_port}
use meek.Go.HostPort.RoundTrip.{split_host_port-join_host_port}
use meek.UserAddr.{get_x_forwarded_for, original_client_ip, get_useraddr, client_host}

cut-head : (s : Bytes) → (split_n b',' 1 s) ≢ []
unfolding split_n
cut-head s = ground arith

-- The value of a forwarding header field never gives an error: what counts is the text up to the
-- first comma, or all of it, without the white space around it.
pub get_x_forwarded_for_lem : (s : Bytes) → get_x_forwarded_for s ≡ ok (trim_space (cut b',' s).0)
unfolding get_x_forwarded_for split_n
get_x_forwarded_for_lem s = ground arith

-- If the canonical texts of addresses hold no bracket: either the client's address is not known, and
-- the text for the dialer is empty; or that text splits into the address and the port 1.
pub get_useraddr_splits :
    (parse_ip : Bytes → Option Bytes) (req : Request)
    → ((host ip : Bytes) → parse_ip host ≡ some ip → Lacks b'[' ip × Lacks b']' ip)
    → ((e : GoError) × (original_client_ip parse_ip req ≡ err e) × (get_useraddr parse_ip req ≡ []))
      ⊎ ((ip : Bytes) × (original_client_ip parse_ip req ≡ ok ip)
          × (split_host_port (get_useraddr parse_ip req) ≡ ok (ip, codes "1")))
unfolding get_useraddr original_client_ip
get_useraddr_splits parse_ip req clean = elim (Result-cases (client_host req)) [
  | inr (e, h) ↦ inl (e, rw (h, original_client_ip), rw (h, get_useraddr))
  | inl (host, h) ↦ elim (Option-cases (parse_ip host)) [
    | inl bad ↦ inl (
      plain (codes "cannot parse " ++ host ++ codes " as IP address"),
      rw (h, bad, original_client_ip),
      rw (h, bad, get_useraddr),
    )
    | inr (ip, good) ↦
        let (no_open, no_close) = clean host ip good in
        inr (
          ip,
          rw (h, good, original_client_ip),
          rw (h, good, get_useraddr)
              (split_host_port-join_host_port ip (codes "1") no_open no_close (omega arith)
                (omega arith) (omega arith)),
        )
  ]
]
