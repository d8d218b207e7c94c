-- ===== src/Client/Config/Sources.antt =====
-- The comment at the top of meek-client/meek-client.go says that a configuration can be given by SOCKS
-- args or by command line options, and that the args take precedence.
use meek.Base.{
  Bytes, codes, [], ◌∷◌, ◌++◌, Option, none, some, ◌≡◌, refl, sym, ◌∙◌, arith, if◌then◌else◌, same,
  lookup, Bool-cases, inl, inr,
}
use meek.Go.Errors.{Result, ok, err, plain, ◌>>=◌}
use meek.Client.Url.{Url}
use meek.Client.Config.{
  Options, Args, Info, arg_or_option, configure, requested_url, choose, fronted,
}

-- An option, if it is set, as a SOCKS arg.
abbrev named : Bytes → Bytes → Args
named key value = if same value [] then [] else (key, value) ∷ []

abbrev pub as_args : Options → Args
as_args o =
    named (codes "url") o.url ++ (named (codes "front") o.front ++ named (codes "utls") o.utls_name)

-- The options that cannot be given as SOCKS args.
abbrev pub without_args : Options → Options
without_args o = record o { url = []; front = []; utls_name = [] }

-- The first of two.
abbrev or_else : Option Bytes → Option Bytes → Option Bytes
or_else (some v) other = some v
or_else none other = other

lookup-append :
    (k : Bytes) (xs ys : Args) → lookup k (xs ++ ys) ≡ or_else (lookup k xs) (lookup k ys)
unfolding lookup
lookup-append k [] ys = refl
lookup-append k ((j, v) ∷ xs) ys = ground (arith, lookup-append k xs ys)

lookup-named :
    (k j v : Bytes) → lookup k (named j v) ≡ (if same j k then arg_or_option none v else none)
unfolding lookup arg_or_option
lookup-named k j v = ground arith

arg_or_option-append :
    (k : Bytes) (args more : Args) (v : Bytes)
    → lookup k more ≡ arg_or_option none v
    → arg_or_option (lookup k (args ++ more)) [] ≡ arg_or_option (lookup k args) v
unfolding arg_or_option same
arg_or_option-append k args more v h = ground (arith, lookup-append k args more)

lookup-as_args :
    (o : Options)
    → (lookup (codes "url") (as_args o) ≡ arg_or_option none o.url)
      × (lookup (codes "front") (as_args o) ≡ arg_or_option none o.front)
      × (lookup (codes "utls") (as_args o) ≡ arg_or_option none o.utls_name)
unfolding same arg_or_option lookup
lookup-as_args o = elim (Bool-cases (same o.url [])) [
  | inl e ↦ elim (Bool-cases (same o.front [])) [
    | inl f ↦ ground (arith, e, f)
    | inr f ↦ ground (arith, e, f)
  ]
  | inr e ↦ elim (Bool-cases (same o.front [])) [
    | inl f ↦ ground (arith, e, f)
    | inr f ↦ ground (arith, e, f)
  ]
]

module _ {R : Type 0} (parse_url : Bytes → Result Url)
    (new_utls_round_tripper : Bytes → Option Url → Result R) where
  -- What configure does with the three values that it has found.
  configured_with : Options → Bytes → Option Bytes → Option Bytes → Option Bytes → Result (Info R)
  configured_with o sid url front utls = do
    u ← elim url [
      | none ↦ err (plain (codes "no URL for SOCKS request"))
      | some text ↦ parse_url text
    ]
    let f = fronted front u
    rt ← choose parse_url new_utls_round_tripper o utls
    ok (record { session_id = sid; url = f.0; host = f.1; round_tripper = rt })

  configure-configured_with :
      (o : Options) (args : Args) (sid : Bytes)
      → configure parse_url new_utls_round_tripper o args sid
        ≡ configured_with o sid
            (arg_or_option (lookup (codes "url") args) o.url)
            (arg_or_option (lookup (codes "front") args) o.front)
            (arg_or_option (lookup (codes "utls") args) o.utls_name)
  unfolding configure requested_url configured_with
  configure-configured_with o args sid = refl

  choose-without_args :
      (o : Options) (utls : Option Bytes)
      → choose parse_url new_utls_round_tripper (without_args o) utls
        ≡ choose parse_url new_utls_round_tripper o utls
  unfolding choose
  choose-without_args o none = refl
  choose-without_args o (some name) = refl

  configured_with-without_args :
      (o : Options) (sid : Bytes) (url front utls : Option Bytes)
      → configured_with (without_args o) sid url front utls ≡ configured_with o sid url front utls
  unfolding configured_with
  configured_with-without_args o sid url front utls = rw (choose-without_args o utls) refl

  -- The command line options for the URL, the front and the uTLS fingerprint do what they do as SOCKS
  -- args behind the connection's own: with any args, configuring a connection gives the same result,
  -- errors included, if the options that are set are taken off the command line and put behind the
  -- args. So an arg takes precedence over the option of its name.
  pub configure-as_args :
      (o : Options) (args : Args) (sid : Bytes)
      → configure parse_url new_utls_round_tripper (without_args o) (args ++ as_args o) sid
        ≡ configure parse_url new_utls_round_tripper o args sid
  configure-as_args o args sid =
      let l = lookup-as_args o in
      configure-configured_with (without_args o) (args ++ as_args o) sid
      ∙ configured_with-without_args o sid _ _ _
      ∙ rw
          (
            arg_or_option-append (codes "url") args (as_args o) o.url l.0,
            arg_or_option-append (codes "front") args (as_args o) o.front l.1,
            arg_or_option-append (codes "utls") args (as_args o) o.utls_name l.2,
          )
          (sym (configure-configured_with o args sid))
