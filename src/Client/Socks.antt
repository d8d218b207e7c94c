-- ===== src/Client/Socks.antt =====
-- handleSOCKS of meek-client/meek-client.go, whole: the grant, the session id, the configuration and
-- copyLoop. Which round tripper a choice stands for is a parameter, and `sleep` is for its tries.
use meek.Base.{ℕ, Bytes, List, Option, none, some}
use meek.Go.Errors.{GoError, Result, ok, err}
use meek.Client.Url.{Url}
use meek.Client.SessionId.{gen_session_id}
use meek.Client.Transport.{RequestInfo, RoundTripper}
use meek.Client.Poll.{Event, Loop, copy_loop, start_loop}
use meek.Client.Config.{Options, Args, Choice, Info, configure}

-- An error before the loop, the panic of genSessionID, or the loop. The connection is closed at the
-- end in each case.
pub data Handled (S : Type 0) : Type 0 where
  refused : GoError → Handled S
  panicked : Handled S
  looped : Loop S → Handled S

module _ {R : Type 0} {S : Type 0} (parse_url : Bytes → Result Url) (reparse : Url → Result Url)
    (new_utls_round_tripper : Bytes → Option Url → Result R) (tripper : Choice R → RoundTripper S)
    (sleep : ℕ → S → S) where
  abbrev pub request_info : Info R → RequestInfo S
  request_info i = record {
    session_id = i.session_id;
    url = i.url;
    host = i.host;
    round_tripper = tripper i.round_tripper;
    sleep = sleep;
  }

  unfoldable pub configured : List Event → S → Result (Info R) → Handled S
  configured es s (err e) = refused e
  configured es s (ok i) = looped (copy_loop reparse (request_info i) es (start_loop s))

  unfoldable pub with_id : Options → Args → List Event → S → Option Bytes → Handled S
  unfolding configured
  with_id o args es s none = panicked
  with_id o args es s (some id) =
      configured es s (configure parse_url new_utls_round_tripper o args id)

  -- `grant` is the error of conn.Grant, `random` what rand.Read gives.
  unfoldable pub handle_socks :
      Options → Option GoError → Result Bytes → Args → List Event → S → Handled S
  unfolding with_id
  handle_socks o (some e) random args es s = refused e
  handle_socks o none random args es s = with_id o args es s (gen_session_id random)
