-- ===== src/Go/HostPort/RoundTrip.antt =====
-- Splitting what was joined gives the host and the port back.
use meek.Base.{
  Bytes, [], ◌∷◌, ◌++◌, append_assoc, some, ◌≡◌, refl, arith, Lacks, Bool-cases, inl, inr, false,
}
use meek.Go.Errors.{ok}
use meek.Go.HostPort.{
  has_byte, join_host_port, cut_last, split_at, split_host_port, split_plain, split_bracketed,
  split_literal, split_end, has_byte-Lacks, has_byte-append_Lacks, cut_last-append, cut-append,
}

module _ (host port : Bytes) (no_open : Lacks b'[' host) (no_close : Lacks b']' host)
    (port_colon : Lacks b':' port) (port_open : Lacks b'[' port)
    (port_close : Lacks b']' port) where
  split_plain-join :
      has_byte b':' host ≡ false → split_plain (host ++ b':' ∷ port) host port ≡ ok (host, port)
  unfolding split_plain split_end has_byte
  split_plain-join bare = ground (
    arith,
    has_byte-append_Lacks b'[' host (b':' ∷ port) no_open,
    has_byte-append_Lacks b']' host (b':' ∷ port) no_close,
    has_byte-Lacks b'[' port port_open,
    has_byte-Lacks b']' port port_close,
  )

  split_bracketed-join :
      split_bracketed (b'[' ∷ (host ++ b']' ∷ b':' ∷ port)) (host ++ b']' ∷ b':' ∷ port)
      ≡ ok (host, port)
  unfolding split_bracketed split_literal split_end has_byte
  split_bracketed-join = ground (
    arith,
    cut-append b']' host (b':' ∷ port) no_close,
    has_byte-append_Lacks b'[' host (b']' ∷ b':' ∷ port) no_open,
    has_byte-Lacks b':' port port_colon,
    has_byte-Lacks b'[' port port_open,
    has_byte-Lacks b']' port port_close,
  )

  split_at-join :
      (h : Bytes)
      → h ≡ host
      → has_byte b':' host ≡ false
      → split_at (h ++ b':' ∷ port) (host, port) ≡ ok (host, port)
  unfolding split_at
  split_at-join [] e bare = ground (arith, split_plain-join bare)
  split_at-join (c ∷ h) e bare = ground (arith, split_plain-join bare)

  literal_cut :
      cut_last b':' (b'[' ∷ (host ++ b']' ∷ b':' ∷ port)) ≡ some (b'[' ∷ (host ++ b']' ∷ []), port)
  literal_cut =
      rw (← append_assoc host (b']' ∷ []) (b':' ∷ port))
        (cut_last-append b':' (b'[' ∷ (host ++ b']' ∷ [])) port port_colon)

  -- SplitHostPort undoes JoinHostPort where no bracket stands in the host, and no bracket and no
  -- colon in the port.
  pub split_host_port-join_host_port : split_host_port (join_host_port host port) ≡ ok (host, port)
  unfolding split_host_port join_host_port split_at
  split_host_port-join_host_port = elim (Bool-cases (has_byte b':' host)) [
    | inl six ↦ rw six (ground (arith, literal_cut, split_bracketed-join))
    | inr bare ↦ rw bare (
        rw (cut_last-append b':' host port port_colon, split_host_port)
          (split_at-join host refl bare))
  ]
