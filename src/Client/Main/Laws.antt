-- ===== src/Client/Main/Laws.antt =====
-- What the client holds and closes, and that it has its proxy before it listens.
use meek.Base.{
  Bytes, List, [], ◌∷◌, ◌++◌, some, ◌≡◌, refl, ◌∙◌, arith, inl, inr, Option-cases, Bool-cases,
}
use meek.Go.Errors.{Result, ok, err}
use meek.Lifecycle.{log_failure, is_over}
use meek.Client.Url.{Url}
use meek.Client.Config.{Options}
use meek.Client.Startup.{
  ClientFlags, options_of, Message, Started, set_up_proxy, proxy_of, MethodEvent, cmethod,
  cmethod_error, cmethods_done, listen_methods, tried,
}
use meek.Client.Startup.Laws.{Proxied, set_up_proxy-Proxied}
use meek.Client.Main.{
  ClientInfo, ClientProcess, Line, about_proxy, about_method, ClientEnding, fatal, accepting,
  closed_all, proxy_lines, method_lines, no_proxy, listened, with_proxy, with_options, with_info,
  client_main,
}

-- The addresses of the lines that say that a listener is there.
abbrev pub opened : List Line → List Bytes
opened [] = []
opened (about_proxy m ∷ ls) = opened ls
opened (about_method (cmethod name addr) ∷ ls) = addr ∷ opened ls
opened (about_method (cmethod_error name text) ∷ ls) = opened ls
opened (about_method cmethods_done ∷ ls) = opened ls

-- Main with this proxy: where it ends by an error, it has not listened; where it has listeners, the
-- proxy is in place, and they are those that it reported.
abbrev pub Ready : {W : Type 0} → Url → W → List Line × ClientEnding × W → Type 0
Ready u w (ls, fatal e, w') = (w' ≡ w) × (opened ls ≡ [])
Ready u w (ls, accepting started listeners, w') = Proxied u started × (opened ls ≡ listeners)
Ready u w (ls, closed_all started listeners, w') = Proxied u started × (opened ls ≡ listeners)

opened-proxy_lines :
    (ms : List Message) (ls : List Line) → opened (proxy_lines ms ++ ls) ≡ opened ls
opened-proxy_lines [] ls = refl
opened-proxy_lines (m ∷ ms) ls = opened-proxy_lines ms ls

opened-proxy_lines_only : (ms : List Message) → opened (proxy_lines ms) ≡ []
opened-proxy_lines_only [] = refl
opened-proxy_lines_only (m ∷ ms) = opened-proxy_lines_only ms

opened-tried :
    (name : Bytes) (r : Result Bytes) (es : List MethodEvent)
    → opened (about_method (tried name r).0 ∷ method_lines es)
      ≡ (tried name r).1 ++ opened (method_lines es)
opened-tried name (ok addr) es = refl
opened-tried name (err e) es = refl

listen_methods-opened :
    {W : Type 0} (listen : W → Result Bytes × W) (names : List Bytes) (w : W)
    → opened (method_lines (listen_methods listen names w).0.0)
      ≡ (listen_methods listen names w).0.1
unfolding listen_methods
listen_methods-opened listen [] w = refl
listen_methods-opened listen (name ∷ names) w = ground (
  arith,
  opened-tried name (listen w).0 (listen_methods listen names (listen w).1).0.0,
  listen_methods-opened listen names (listen w).1,
  listen_methods-opened listen names w,
)

module _ {W : Type 0} (p : ClientProcess W) (u : Url) where
  listened-Ready :
      (info : ClientInfo) (w : W) (told : List Message) (started : Started)
      → Proxied u started
      → Ready u w (listened p told started (listen_methods p.listen info.method_names w))
  unfolding listened
  listened-Ready info w told started x =
      let r = listen_methods p.listen info.method_names w in
      let reported : opened (proxy_lines told ++ method_lines r.0.0) ≡ r.0.1 =
        opened-proxy_lines told (method_lines r.0.0)
        ∙ listen_methods-opened p.listen info.method_names w in
      elim (Bool-cases (is_over p.exit_on_stdin_close p.incoming)) [
        | inl over ↦ rw over (x, reported)
        | inr waiting ↦ rw waiting (x, reported)
      ]

  with_proxy-Ready :
      (info : ClientInfo) (w : W) (r : List Message × Result Started)
      → ((st : Started) → r.1 ≡ ok st → Proxied u st)
      → Ready u w (with_proxy p info w r)
  unfolding with_proxy
  with_proxy-Ready info w (told, err e) x = (refl, opened-proxy_lines_only told)
  with_proxy-Ready info w (told, ok started) x = listened-Ready info w told started (x started refl)

  with_info-Ready :
      (f : ClientFlags) (log_name : Bytes) (w : W) (info : ClientInfo) (o : Options)
      → options_of p.resolve p.parse_url f ≡ ok o
      → proxy_of o info.managed_proxy ≡ some u
      → Ready u w (with_info p f log_name w (ok info))
  unfolding with_info with_options
  with_info-Ready f log_name w info o k h = elim (Option-cases (log_failure p.open_log log_name)) [
    | inl n ↦
        rw (n, k, with_info)
          (with_proxy-Ready info w (set_up_proxy o info.managed_proxy no_proxy)
            (λ st e. set_up_proxy-Proxied o info.managed_proxy no_proxy st u h e))
    | inr (e, n) ↦ rw (n, with_info) (refl, refl)
  ]

  -- The client does not listen before its proxy is in place. Where the command line or the managed
  -- configuration names a proxy, of which the command line's goes before the other: if main ends by an
  -- error, it has not listened at all and has reported no listener; and if it comes so far that it
  -- accepts connections, the native round tripper and the options for uTLS have the proxy's URL, the
  -- helper, if it is in use, has the specification of it, and its listeners are those that it reported.
  pub client_main-Ready :
      (f : ClientFlags) (log_name : Bytes) (w : W) (info : ClientInfo) (o : Options)
      → p.client_setup ≡ ok info
      → options_of p.resolve p.parse_url f ≡ ok o
      → proxy_of o info.managed_proxy ≡ some u
      → Ready u w (client_main p f log_name w)
  unfolding client_main
  client_main-Ready f log_name w info o i k h = rw i (with_info-Ready f log_name w info o k h)
