-- ===== src/Go/Flag.antt =====
-- Go's flag package, as far as the programs use it: flag.StringVar, BoolVar, IntVar and Parse.
pub mod RoundTrip
pub mod Settings
use meek.Base.{
  ℕ, Bytes, codes, List, [], ◌∷◌, ◌++◌, Option, none, some, Bool, true, false, ◌||◌, ◌==◌,
  if◌then◌else◌, same, Map, lookup, ◌≡◌, refl,
}
use meek.Go.Errors.{GoError, plain}

pub data Kind : Type 0 where
  string : Kind
  boolean : Kind
  int : Kind

pub data Value : Type 0 where
  text : Bytes → Value
  truth : Bool → Value
  number : ℕ → Value

-- Parse returns, or ends the program: with status 0 behind a help message, or with status 2.
pub data Outcome (A : Type 0) : Type 0 where
  parsed : A → Outcome A
  helped : Outcome A
  misused : GoError → Outcome A

-- A name, and what follows the first equals sign.
unfoldable cut_equals : Bytes → Bytes × Option Bytes
cut_equals [] = ([], none)
cut_equals (c ∷ s) =
    let (name, value) = cut_equals s in if c == b'=' then ([], some s) else (c ∷ name, value)

abbrev is_one_of : Bytes → List Bytes → Bool
is_one_of s [] = false
is_one_of s (t ∷ ts) = same s t || is_one_of s ts

-- strconv.ParseBool
abbrev parse_bool : Bytes → Option Bool
parse_bool s =
    if is_one_of s
      (codes "1" ∷ codes "t" ∷ codes "T" ∷ codes "TRUE" ∷ codes "true" ∷ codes "True" ∷ [])
    then some true
    else if is_one_of s
        (codes "0" ∷ codes "f" ∷ codes "F" ∷ codes "FALSE" ∷ codes "false" ∷ codes "False" ∷ [])
    then some false
    else none

-- What an argument is: no flag, the end of the flags, a mistake, a call for help, a flag with its value,
-- or one whose value is the next argument.
pub data Seen : Type 0 where
  stops : Seen
  terminates : Seen
  mistaken : GoError → Seen
  asks_help : Seen
  sets : Bytes → Value → Seen
  wants : Bytes → Kind → Seen

-- Without the quotes and the cause that the library's text has.
abbrev invalid : Bytes → Bytes → GoError
invalid name value = plain (codes "invalid value " ++ (value ++ (codes " for flag -" ++ name)))

-- The flags that are set, in order, and the arguments that are left.
abbrev pub Parsed : Type 0
Parsed = List (Bytes × Value) × List Bytes

abbrev pub add : Bytes × Value → Outcome Parsed → Outcome Parsed
add a (parsed (as', rest)) = parsed (a ∷ as', rest)
add a helped = helped
add a (misused e) = misused e

-- `parse_int` is strconv.ParseInt(s, 0, 64), for numbers that are not negative: negative ones are left
-- out; `formal` has the
-- flags that are defined.
module _ (parse_int : Bytes → Option ℕ) (formal : Map Kind) where
  abbrev truth_of : Option Bool → Option Value
  truth_of none = none
  truth_of (some b) = some (truth b)

  abbrev pub number_of : Option ℕ → Option Value
  number_of none = none
  number_of (some n) = some (number n)

  abbrev pub set_value : Kind → Bytes → Option Value
  set_value string v = some (text v)
  set_value boolean v = truth_of (parse_bool v)
  set_value int v = number_of (parse_int v)

  abbrev set_to : Bytes → Bytes → Option Value → Seen
  set_to name v (some x) = sets name x
  set_to name v none = mistaken (invalid name v)

  abbrev given : Bytes → Option Bytes → Option Kind → Seen
  given name none (some boolean) = sets name (truth true)
  given name none (some string) = wants name string
  given name none (some int) = wants name int
  given name (some v) (some kind) = set_to name v (set_value kind v)
  given name value none =
      if is_one_of name (codes "help" ∷ codes "h" ∷ [])
      then asks_help
      else mistaken (plain (codes "flag provided but not defined: -" ++ name))

  abbrev assigned : Bytes × Option Bytes → Seen
  assigned (name, value) = given name value (lookup name formal)

  abbrev bad_syntax : Seen
  bad_syntax = mistaken (plain (codes "bad flag syntax"))

  unfoldable named : Bytes → Seen
  unfolding cut_equals
  named [] = bad_syntax
  named (c ∷ s) = if c == b'-' || c == b'=' then bad_syntax else assigned (cut_equals (c ∷ s))

  unfoldable pub see : Bytes → Seen
  unfolding named
  see [] = stops
  see (c ∷ []) = stops
  see (c ∷ d ∷ s) =
      if c == b'-'
      then if d == b'-' then if same s [] then terminates else named s else named (d ∷ s)
      else stops

  -- What the last argument comes to.
  abbrev last : Bytes → Seen → Outcome Parsed
  last s stops = parsed ([], s ∷ [])
  last s terminates = parsed ([], [])
  last s (mistaken e) = misused e
  last s asks_help = helped
  last s (sets name x) = parsed ((name, x) ∷ [], [])
  last s (wants name kind) = misused (plain (codes "flag needs an argument: -" ++ name))

  abbrev taken : Bytes → Bytes → Outcome Parsed → Option Value → Outcome Parsed
  taken name v rest (some x) = add (name, x) rest
  taken name v rest none = misused (invalid name v)

  -- What an argument comes to that has others behind it: `next` is what they come to, and `behind` what
  -- those come to that follow the first of them.
  abbrev then_others :
      Bytes → Bytes → List Bytes → Outcome Parsed → Outcome Parsed → Seen → Outcome Parsed
  then_others s t args next behind stops = parsed ([], s ∷ t ∷ args)
  then_others s t args next behind terminates = parsed ([], t ∷ args)
  then_others s t args next behind (mistaken e) = misused e
  then_others s t args next behind asks_help = helped
  then_others s t args next behind (sets name x) = add (name, x) next
  then_others s t args next behind (wants name kind) = taken name t behind (set_value kind t)

  unfoldable pub parse : List Bytes → Outcome Parsed
  parse [] = parsed ([], [])
  parse (s ∷ []) = last s (see s)
  parse (s ∷ t ∷ args) =
      let next = parse (t ∷ args) in
      let behind = parse args in then_others s t args next behind (see s)

-- Each flag that is set is put into its variable, in order.
abbrev pub assign : {C : Type 0} → (Bytes × Value → C → C) → List (Bytes × Value) → C → C
assign set [] c = c
assign set (a ∷ as') c = assign set as' (set a c)

-- The variables behind Parse; the arguments that are left are not looked at.
abbrev pub assigned_from : {C : Type 0} → (Bytes × Value → C → C) → C → Outcome Parsed → Outcome C
assigned_from set c (parsed (as', rest)) = parsed (assign set as' c)
assigned_from set c helped = helped
assigned_from set c (misused e) = misused e
