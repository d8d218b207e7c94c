-- ===== src/Go/Errors.antt =====
-- Error values: `*net.OpError`, other `net.Error`s, and those made by `fmt.Errorf` and the like.
use meek.Base.{Bytes, Option, Bool, false, ◌≡◌, refl, ◌⊎◌, inl, inr}

-- A `net.Addr`: a real address, or the program's `scrubbedAddr`.
pub data Addr : Type 0 where
  tcp_addr : Bytes → Addr
  scrubbed_addr : Addr

pub data GoError : Type 0 where
  op_error : (op net : Bytes) (source addr : Option Addr) (inner : GoError) → GoError
  net_error : (timeout : Bool) (reason : Bytes) → GoError
  plain : Bytes → GoError

-- `e, ok := err.(net.Error); ok && e.Timeout()`
abbrev pub is_timeout : GoError → Bool
is_timeout (op_error op net source addr inner) = is_timeout inner
is_timeout (net_error timeout reason) = timeout
is_timeout (plain reason) = false

-- A Go `(value, error)` result.
pub data Result {ℓ} (A : Type ℓ) : Type ℓ where
  ok : A → Result A
  err : GoError → Result A

infixl 5 ◌>>=◌
abbrev pub ◌>>=◌ {ℓ κ} : {A : Type ℓ} {B : Type κ} → Result A → (A → Result B) → Result B
ok a >>= f = f a
err e >>= f = err e

pub Result-cases {ℓ} :
    {A : Type ℓ} (r : Result A) → ((a : A) × (r ≡ ok a)) ⊎ ((e : GoError) × (r ≡ err e))
Result-cases (ok a) = inl (a, refl)
Result-cases (err e) = inr (e, refl)
