-- ===== src/Go/Flag/RoundTrip.antt =====
-- A flag that is written out is read back.
use meek.Base.{
  ℕ, Bytes, codes, List, [], ◌∷◌, ◌++◌, Option, none, some, Bool, true, false, not, ◌&&◌, ◌==◌,
  same, Map, lookup, ◌≡◌, refl, arith, ap, ◌∙◌, sym, append-nil,
}
use meek.Go.Flag.{
  Kind, string, boolean, int, Value, sets, wants, cut_equals, set_value, see, named, add, parse,
  assigned, given, set_to, last, taken, then_others,
}

-- A flag in one argument, or in two.
abbrev pub written : Bool → Bytes → Bytes → List Bytes
written true name v = (codes "--" ++ (name ++ b'=' ∷ v)) ∷ []
written false name v = (codes "--" ++ name) ∷ v ∷ []

abbrev no_equals : Bytes → Bool
no_equals [] = true
no_equals (c ∷ s) = not (c == b'=') && no_equals s

abbrev pub is_name : Bytes → Bool
is_name [] = false
is_name (c ∷ s) = not (c == b'-') && no_equals (c ∷ s)

cut_equals-value :
    (name v : Bytes) → no_equals name ≡ true → cut_equals (name ++ b'=' ∷ v) ≡ (name, some v)
unfolding cut_equals
cut_equals-value [] v h = refl
cut_equals-value (c ∷ name) v h = ground (arith, cut_equals-value name v)

cut_equals-name : (name : Bytes) → no_equals name ≡ true → cut_equals name ≡ (name, none)
unfolding cut_equals
cut_equals-name [] h = refl
cut_equals-name (c ∷ name) h = ground (arith, cut_equals-name name)

is_name-no_equals : (name : Bytes) → is_name name ≡ true → no_equals name ≡ true
is_name-no_equals [] h = absurd (cc h)
is_name-no_equals (c ∷ name) h = ground arith

abbrev pub is_boolean : Kind → Bool
is_boolean string = false
is_boolean boolean = true
is_boolean int = false

module _ (parse_int : Bytes → Option ℕ) (formal : Map Kind) where
  named-name :
      (name rest : Bytes)
      → is_name name ≡ true
      → named parse_int formal (name ++ rest)
        ≡ assigned parse_int formal (cut_equals (name ++ rest))
  unfolding named
  named-name [] rest h = absurd (cc h)
  named-name (c ∷ name) rest h = ground arith

  see-named :
      (name rest : Bytes)
      → is_name name ≡ true
      → see parse_int formal (codes "--" ++ (name ++ rest)) ≡ named parse_int formal (name ++ rest)
  unfolding see same
  see-named [] rest h = absurd (cc h)
  see-named (c ∷ name) rest h = refl

  assigned-value :
      (name v : Bytes) (kind : Kind) (x : Value)
      → lookup name formal ≡ some kind
      → set_value parse_int formal kind v ≡ some x
      → assigned parse_int formal (name, some v) ≡ sets name x
  assigned-value name v kind x k e =
      ap (given parse_int formal name (some v)) k ∙ ap (set_to parse_int formal name v) e

  assigned-none :
      (name : Bytes) (kind : Kind)
      → lookup name formal ≡ some kind
      → is_boolean kind ≡ false
      → assigned parse_int formal (name, none) ≡ wants name kind
  assigned-none name string k s = ap (given parse_int formal name none) k
  assigned-none name boolean k s = absurd (cc s)
  assigned-none name int k s = ap (given parse_int formal name none) k

  see-value :
      (name v : Bytes) (kind : Kind) (x : Value)
      → is_name name ≡ true
      → lookup name formal ≡ some kind
      → set_value parse_int formal kind v ≡ some x
      → see parse_int formal (codes "--" ++ (name ++ b'=' ∷ v)) ≡ sets name x
  see-value name v kind x h k e =
      see-named name (b'=' ∷ v) h
      ∙ named-name name (b'=' ∷ v) h
      ∙ ap (assigned parse_int formal) (cut_equals-value name v (is_name-no_equals name h))
      ∙ assigned-value name v kind x k e

  see-name :
      (name : Bytes) (kind : Kind)
      → is_name name ≡ true
      → lookup name formal ≡ some kind
      → is_boolean kind ≡ false
      → see parse_int formal (codes "--" ++ name) ≡ wants name kind
  see-name name kind h k s =
      ap (λ n. see parse_int formal (codes "--" ++ n)) (sym (append-nil name))
      ∙ see-named name [] h
      ∙ named-name name [] h
      ∙ ap (assigned parse_int formal)
          (ap cut_equals (append-nil name) ∙ cut_equals-name name (is_name-no_equals name h))
      ∙ assigned-none name kind k s

  -- A flag that is written in front of arguments is the first that is read.
  pub parse-written :
      (in_one : Bool) (name v : Bytes) (kind : Kind) (x : Value) (args : List Bytes)
      → is_name name ≡ true
      → lookup name formal ≡ some kind
      → set_value parse_int formal kind v ≡ some x
      → is_boolean kind && not in_one ≡ false
      → parse parse_int formal (written in_one name v ++ args)
        ≡ add (name, x) (parse parse_int formal args)
  unfolding parse
  parse-written true name v kind x [] h k e b =
      ap (last parse_int formal (codes "--" ++ (name ++ b'=' ∷ v))) (see-value name v kind x h k e)
  parse-written true name v kind x (a ∷ args) h k e b =
      ap
        (then_others parse_int formal (codes "--" ++ (name ++ b'=' ∷ v)) a args
          (parse parse_int formal (a ∷ args)) (parse parse_int formal args))
        (see-value name v kind x h k e)
  parse-written false name v kind x args h k e b =
      ap
        (then_others parse_int formal (codes "--" ++ name) v args
          (parse parse_int formal (v ∷ args)) (parse parse_int formal args))
        (see-name name kind h k (ground arith))
      ∙ ap (taken parse_int formal name v (parse parse_int formal args)) e
