-- ===== src/Go/HostPort.antt =====
-- package net: JoinHostPort and SplitHostPort.
pub mod RoundTrip
use meek.Base.{
  Bytes, codes, [], ◌∷◌, ◌++◌, Option, none, some, Bool, false, ◌==◌, ◌||◌, if◌then◌else◌, ℕ, ◌≡◌,
  refl, arith, Lacks,
}
use meek.Go.Errors.{net_error, Result, ok, err}
use meek.Go.Text.{cut}

unfoldable pub has_byte : ℕ → Bytes → Bool
has_byte b [] = false
has_byte b (c ∷ s) = c == b || has_byte b s

-- A host with a colon is an IPv6 literal, and is put in brackets.
unfoldable pub join_host_port : Bytes → Bytes → Bytes
unfolding has_byte
join_host_port host port =
    if has_byte b':' host then b'[' ∷ (host ++ b']' ∷ b':' ∷ port) else host ++ b':' ∷ port

-- The text before the last separator and that behind it.
unfoldable pub cut_last : ℕ → Bytes → Option (Bytes × Bytes)
cut_last sep [] = none
cut_last sep (c ∷ s) = elim (cut_last sep s) [
  | some p ↦ some (c ∷ p.0, p.1)
  | none ↦ if c == sep then some ([], s) else none
]

abbrev addr_error {ℓ} : {A : Type ℓ} → Bytes → Bytes → Result A
addr_error addr why = err (net_error false (codes "address " ++ addr ++ codes ": " ++ why))

abbrev missing_port {ℓ} : {A : Type ℓ} → Bytes → Result A
missing_port addr = addr_error addr (codes "missing port in address")

abbrev too_many_colons {ℓ} : {A : Type ℓ} → Bytes → Result A
too_many_colons addr = addr_error addr (codes "too many colons in address")

-- The last two tests, and the result.
split_end : Bytes → Bytes → Bytes → Bytes → Bytes → Result (Bytes × Bytes)
unfolding has_byte
split_end addr opens closes host port =
    if has_byte b'[' opens
    then addr_error addr (codes "unexpected '[' in address")
    else if has_byte b']' closes
    then addr_error addr (codes "unexpected ']' in address")
    else ok (host, port)

-- What stands behind the first closing bracket: it must be the last colon and the port.
split_literal : Bytes → Bytes → Bytes → Bytes → Result (Bytes × Bytes)
unfolding has_byte split_end
split_literal addr inside host [] = missing_port addr
split_literal addr inside host (c ∷ port) =
    if c == b':'
    then if has_byte b':' port
      then too_many_colons addr
      else split_end addr inside (c ∷ port) host port
    else missing_port addr

split_bracketed : Bytes → Bytes → Result (Bytes × Bytes)
unfolding cut split_literal
split_bracketed addr inside =
    let (host, behind) = cut b']' inside in
    elim behind [
      | none ↦ addr_error addr (codes "missing ']' in address")
      | some rest ↦ split_literal addr inside host rest
    ]

split_plain : Bytes → Bytes → Bytes → Result (Bytes × Bytes)
unfolding has_byte split_end
split_plain addr host port =
    if has_byte b':' host then too_many_colons addr else split_end addr addr addr host port

split_at : Bytes → Bytes × Bytes → Result (Bytes × Bytes)
unfolding split_bracketed split_plain
split_at [] p = missing_port []
split_at (c ∷ s) p = if c == b'[' then split_bracketed (c ∷ s) s else split_plain (c ∷ s) p.0 p.1

unfoldable pub split_host_port : Bytes → Result (Bytes × Bytes)
unfolding cut_last split_at
split_host_port addr = elim (cut_last b':' addr) [
  | none ↦ missing_port addr
  | some p ↦ split_at addr p
]

split_tests :
    (split_host_port (codes "1.2.3.4:80") ≡ ok (codes "1.2.3.4", codes "80"))
    × (split_host_port (codes "[::1]:80") ≡ ok (codes "::1", codes "80"))
    × (split_host_port (codes "::1:80") ≡ too_many_colons (codes "::1:80"))
    × (split_host_port (codes "[::1]x:80") ≡ missing_port (codes "[::1]x:80"))
    × (split_host_port (codes "host") ≡ missing_port (codes "host"))
unfolding split_host_port
split_tests = (refl, refl, refl, refl, refl)

has_byte-Lacks : (b : ℕ) (s : Bytes) → Lacks b s → has_byte b s ≡ false
unfolding has_byte
has_byte-Lacks b [] h = refl
has_byte-Lacks b (c ∷ s) h = ground (arith, has_byte-Lacks b s h.1)

has_byte-append_Lacks : (b : ℕ) (s t : Bytes) → Lacks b s → has_byte b (s ++ t) ≡ has_byte b t
unfolding has_byte
has_byte-append_Lacks b [] t h = refl
has_byte-append_Lacks b (c ∷ s) t h = ground (arith, has_byte-append_Lacks b s t h.1)

cut_last-Lacks : (b : ℕ) (s : Bytes) → Lacks b s → cut_last b s ≡ none
unfolding cut_last
cut_last-Lacks b [] h = refl
cut_last-Lacks b (c ∷ s) h = ground (arith, cut_last-Lacks b s h.1)

cut_last-append : (b : ℕ) (s t : Bytes) → Lacks b t → cut_last b (s ++ b ∷ t) ≡ some (s, t)
unfolding cut_last
cut_last-append b [] t h = ground (arith, cut_last-Lacks b t h)
cut_last-append b (c ∷ s) t h = ground (arith, cut_last-append b s t h)

cut-append : (b : ℕ) (s t : Bytes) → Lacks b s → cut b (s ++ b ∷ t) ≡ (s, some t)
unfolding cut
cut-append b [] t h = ground arith
cut-append b (c ∷ s) t h = ground (arith, cut-append b s t h.1)
