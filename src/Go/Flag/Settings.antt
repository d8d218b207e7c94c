-- ===== src/Go/Flag/Settings.antt =====
-- Lists of flags that are written out, and what they come to.
use meek.Base.{
  ℕ, Bytes, All, List, [], ◌∷◌, ◌++◌, Option, none, some, Bool, true, false, not, ◌&&◌, Map, lookup,
  ◌≡◌, refl, ap, ◌∙◌,
}
use meek.Go.Flag.{
  Kind, string, boolean, int, Value, text, set_value, add, parse, parsed, assign, assigned_from,
}
use meek.Go.Flag.RoundTrip.{written, is_name, is_boolean, parse-written}

-- A flag as it is written, and the value that it gives.
pub record Setting : Type 0 where
  pub in_one : Bool
  pub name : Bytes
  pub text : Bytes
  pub value : Value

abbrev pub on_command_line : List Setting → List Bytes
on_command_line [] = []
on_command_line (s ∷ ss) = written s.in_one s.name s.text ++ on_command_line ss

abbrev pub settings : List Setting → List (Bytes × Value)
settings [] = []
settings (s ∷ ss) = (s.name, s.value) ∷ settings ss

-- A flag that is defined, with a text that stands for its value.
pub record Fits (parse_int : Bytes → Option ℕ) (formal : Map Kind) (s : Setting) : Type 0 where
  pub kind : Kind
  pub named : is_name s.name ≡ true
  pub defined : lookup s.name formal ≡ some kind
  pub meant : set_value parse_int formal kind s.text ≡ some s.value
  pub joined : is_boolean kind && not s.in_one ≡ false

parse-on_command_line :
    (parse_int : Bytes → Option ℕ) (formal : Map Kind) (ss : List Setting)
    → All (Fits parse_int formal) ss
    → parse parse_int formal (on_command_line ss) ≡ parsed (settings ss, [])
unfolding parse
parse-on_command_line parse_int formal [] fs = refl
parse-on_command_line parse_int formal (s ∷ ss) (f, fs) =
    parse-written parse_int formal s.in_one s.name s.text f.kind s.value (on_command_line ss)
      f.named f.defined f.meant f.joined
    ∙ ap (add (s.name, s.value)) (parse-on_command_line parse_int formal ss fs)

assign-append :
    {C : Type 0} (set : Bytes × Value → C → C) (ss ts : List Setting) (c : C)
    → assign set (settings (ss ++ ts)) c ≡ assign set (settings ts) (assign set (settings ss) c)
assign-append set [] ts c = refl
assign-append set (s ∷ ss) ts c = assign-append set ss ts (set (s.name, s.value) c)

All-append : {A : Type 0} (P : A → Type 0) (xs ys : List A) → All P xs → All P ys → All P (xs ++ ys)
All-append P [] ys ps qs = qs
All-append P (x ∷ xs) ys (p, ps) qs = (p, All-append P xs ys ps qs)

-- Flags that set every variable, behind others, are read back.
pub assigned_from-append :
    {C : Type 0} (parse_int : Bytes → Option ℕ) (formal : Map Kind) (set : Bytes × Value → C → C)
    (c e : C) (ss ts : List Setting)
    → ((d : C) → assign set (settings ts) d ≡ e)
    → All (Fits parse_int formal) ss
    → All (Fits parse_int formal) ts
    → assigned_from set c (parse parse_int formal (on_command_line (ss ++ ts))) ≡ parsed e
assigned_from-append parse_int formal set c e ss ts h fs gs =
    ap (assigned_from set c) (
      parse-on_command_line parse_int formal (ss ++ ts)
        (All-append (Fits parse_int formal) ss ts fs gs))
    ∙ ap parsed (assign-append set ss ts c ∙ h (assign set (settings ss) c))

abbrev pub in_texts : Bool → List (Bytes × Bytes) → List Setting
in_texts in_one [] = []
in_texts in_one ((name, v) ∷ ts) =
    record { in_one = in_one; name = name; text = v; value = text v } ∷ in_texts in_one ts

abbrev is_text_flag : Option Kind → Bool
is_text_flag (some string) = true
is_text_flag (some boolean) = false
is_text_flag (some int) = false
is_text_flag none = false

-- Whether all are flags for strings.
abbrev pub are_text_flags : Map Kind → List (Bytes × Bytes) → Bool
are_text_flags formal [] = true
are_text_flags formal ((name, v) ∷ ts) =
    is_name name && (is_text_flag (lookup name formal) && are_text_flags formal ts)

is_text_flag_lem : (k : Option Kind) → is_text_flag k ≡ true → k ≡ some string
is_text_flag_lem (some string) h = refl
is_text_flag_lem (some boolean) h = absurd (cc h)
is_text_flag_lem (some int) h = absurd (cc h)
is_text_flag_lem none h = absurd (cc h)

and-both : (a b : Bool) → a && b ≡ true → (a ≡ true) × (b ≡ true)
and-both true b h = (refl, h)
and-both false b h = absurd (cc h)

pub in_texts-Fits :
    (parse_int : Bytes → Option ℕ) (formal : Map Kind) (in_one : Bool) (ts : List (Bytes × Bytes))
    → are_text_flags formal ts ≡ true
    → All (Fits parse_int formal) (in_texts in_one ts)
in_texts-Fits parse_int formal in_one [] h = tt
in_texts-Fits parse_int formal in_one ((name, v) ∷ ts) h =
    let (n, h') = and-both (is_name name) _ h in
    let (k, hs) = and-both (is_text_flag (lookup name formal)) _ h' in
    (
      record {
        kind = string;
        named = n;
        defined = is_text_flag_lem (lookup name formal) k;
        meant = refl;
        joined = refl;
      },
      in_texts-Fits parse_int formal in_one ts hs,
    )
