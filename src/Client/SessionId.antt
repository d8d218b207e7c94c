-- ===== src/Client/SessionId.antt =====
-- genSessionID of meek-client/meek-client.go.
use meek.Base.{
  ℕ, ◌+◌, ◌*◌, ◌/◌, ◌%◌, ◌<◌, Bytes, [], ◌∷◌, Option, none, some, ◌≡◌, refl, length, All, arith, ap,
}
use meek.Go.Errors.{Result, ok, err}
use meek.Go.Text.{trim_right}
use meek.Go.Base64.{letter, encode, letter-ne-pad, letter-injective}

abbrev pub session_id_length : ℕ
session_id_length = 8

-- The argument is what rand.Read put into the buffer; `none` is the panic.
unfoldable pub gen_session_id : Result Bytes → Option Bytes
gen_session_id (ok buf) = some (trim_right b'=' (encode buf))
gen_session_id (err e) = none

-- The eleven letters that eight bytes give.
unfoldable pub spell : (a b c d e f g h : ℕ) → Bytes
spell a b c d e f g h =
    letter (a / 4)
    ∷ letter (a % 4 * 16 + b / 16)
    ∷ letter (b % 16 * 4 + c / 64)
    ∷ letter (c % 64)
    ∷ letter (d / 4)
    ∷ letter (d % 4 * 16 + e / 16)
    ∷ letter (e % 16 * 4 + f / 64)
    ∷ letter (f % 64)
    ∷ letter (g / 4)
    ∷ letter (g % 4 * 16 + h / 16)
    ∷ letter (h % 16 * 4)
    ∷ []

trim_right-encode :
    (a b c d e f g h : ℕ)
    → trim_right b'=' (encode (a ∷ b ∷ c ∷ d ∷ e ∷ f ∷ g ∷ h ∷ [])) ≡ spell a b c d e f g h
unfolding trim_right encode spell
trim_right-encode a b c d e f g h = ground (arith, letter-ne-pad (h % 16 * 4))

-- A list of eight.
pub record Eight (s : Bytes) : Type 0 where
  pub a : ℕ
  pub b : ℕ
  pub c : ℕ
  pub d : ℕ
  pub e : ℕ
  pub f : ℕ
  pub g : ℕ
  pub h : ℕ
  pub is_list : s ≡ a ∷ b ∷ c ∷ d ∷ e ∷ f ∷ g ∷ h ∷ []

length-Eight : (s : Bytes) → length s ≡ session_id_length → Eight s
length-Eight (a ∷ b ∷ c ∷ d ∷ e ∷ f ∷ g ∷ h ∷ []) l = record {
  a = a;
  b = b;
  c = c;
  d = d;
  e = e;
  f = f;
  g = g;
  h = h;
  is_list = refl;
}
length-Eight [] l = absurd (omega arith)
length-Eight (a ∷ []) l = absurd (omega arith)
length-Eight (a ∷ b ∷ []) l = absurd (omega arith)
length-Eight (a ∷ b ∷ c ∷ []) l = absurd (omega arith)
length-Eight (a ∷ b ∷ c ∷ d ∷ []) l = absurd (omega arith)
length-Eight (a ∷ b ∷ c ∷ d ∷ e ∷ []) l = absurd (omega arith)
length-Eight (a ∷ b ∷ c ∷ d ∷ e ∷ f ∷ []) l = absurd (omega arith)
length-Eight (a ∷ b ∷ c ∷ d ∷ e ∷ f ∷ g ∷ []) l = absurd (omega arith)
length-Eight (a ∷ b ∷ c ∷ d ∷ e ∷ f ∷ g ∷ h ∷ i ∷ s) l = absurd (omega arith)

gen-spell :
    (s : Bytes) (n : Eight s) → gen_session_id (ok s) ≡ some (spell n.a n.b n.c n.d n.e n.f n.g n.h)
unfolding gen_session_id
gen-spell s n = rw (n.is_list) (ap some (trim_right-encode n.a n.b n.c n.d n.e n.f n.g n.h))

three-injective :
    (a b c a' b' c' : ℕ)
    → All (λ x. x < 256) (a ∷ b ∷ c ∷ a' ∷ b' ∷ c' ∷ [])
    → letter (a / 4) ≡ letter (a' / 4)
    → letter (a % 4 * 16 + b / 16) ≡ letter (a' % 4 * 16 + b' / 16)
    → letter (b % 16 * 4 + c / 64) ≡ letter (b' % 16 * 4 + c' / 64)
    → letter (c % 64) ≡ letter (c' % 64)
    → (a ≡ a') × (b ≡ b') × (c ≡ c')
three-injective a b c a' b' c' small p q r s =
    let p' = letter-injective (a / 4) (a' / 4) (omega arith) (omega arith) p in
    let q' =
      letter-injective (a % 4 * 16 + b / 16) (a' % 4 * 16 + b' / 16) (omega arith) (omega arith)
        q in
    let r' =
      letter-injective (b % 16 * 4 + c / 64) (b' % 16 * 4 + c' / 64) (omega arith) (omega arith)
        r in
    let s' = letter-injective (c % 64) (c' % 64) (omega arith) (omega arith) s in
    (omega arith, omega arith, omega arith)

two-injective :
    (a b a' b' : ℕ)
    → All (λ x. x < 256) (a ∷ b ∷ a' ∷ b' ∷ [])
    → letter (a / 4) ≡ letter (a' / 4)
    → letter (a % 4 * 16 + b / 16) ≡ letter (a' % 4 * 16 + b' / 16)
    → letter (b % 16 * 4) ≡ letter (b' % 16 * 4)
    → (a ≡ a') × (b ≡ b')
two-injective a b a' b' small p q r =
    let p' = letter-injective (a / 4) (a' / 4) (omega arith) (omega arith) p in
    let q' =
      letter-injective (a % 4 * 16 + b / 16) (a' % 4 * 16 + b' / 16) (omega arith) (omega arith)
        q in
    let r' = letter-injective (b % 16 * 4) (b' % 16 * 4) (omega arith) (omega arith) r in
    (omega arith, omega arith)

spell-injective :
    (a b c d e f g h a' b' c' d' e' f' g' h' : ℕ)
    → All (λ x. x < 256) (a ∷ b ∷ c ∷ d ∷ e ∷ f ∷ g ∷ h ∷ [])
    → All (λ x. x < 256) (a' ∷ b' ∷ c' ∷ d' ∷ e' ∷ f' ∷ g' ∷ h' ∷ [])
    → spell a b c d e f g h ≡ spell a' b' c' d' e' f' g' h'
    → ((a ≡ a') × (b ≡ b') × (c ≡ c')) × ((d ≡ d') × (e ≡ e') × (f ≡ f')) × ((g ≡ g') × (h ≡ h'))
unfolding spell
spell-injective a b c d e f g h a' b' c' d' e' f' g' h' p q eq = (
  three-injective a b c a' b' c' (omega arith) (cc) (cc) (cc) (cc),
  three-injective d e f d' e' f' (omega arith) (cc) (cc) (cc) (cc),
  two-injective g h g' h' (omega arith) (cc) (cc) (cc),
)

-- Two session ids that come of eight random bytes each are the same only if the bytes are.
gen_session_id-injective :
    (s t : Bytes)
    → length s ≡ session_id_length
    → length t ≡ session_id_length
    → All (λ x. x < 256) s
    → All (λ x. x < 256) t
    → gen_session_id (ok s) ≡ gen_session_id (ok t)
    → s ≡ t
gen_session_id-injective s t ls lt ps pt eq =
    let m = length-Eight s ls in
    let n = length-Eight t lt in
    let spelled = gen-spell s m in
    let spelled' = gen-spell t n in
    let r =
      spell-injective m.a m.b m.c m.d m.e m.f m.g m.h n.a n.b n.c n.d n.e n.f n.g n.h
        (rw m.is_list at ps) (rw n.is_list at pt) (cc (spelled, spelled')) in
    cc (m.is_list, n.is_list, r.0.0, r.0.1, r.0.2, r.1.0, r.1.1, r.1.2, r.2.0, r.2.1)

-- Eight random bytes give a session id of eleven letters.
pub gen_session_id-length :
    (s : Bytes)
    → length s ≡ session_id_length
    → (id : Bytes) × (gen_session_id (ok s) ≡ some id) × (length id ≡ 11)
unfolding spell
gen_session_id-length s l = let n = length-Eight s l in (_, gen-spell s n, refl)
