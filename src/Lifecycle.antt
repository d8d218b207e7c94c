-- ===== src/Lifecycle.antt =====
-- The end of main in meek-client/meek-client.go and in meek-server/meek-server.go, which are alike:
-- the program waits for SIGTERM, and takes the end of its standard input for one where the
-- environment asks for that. Also what both do with the name of a log file.
use meek.Base.{
  Bytes, List, [], ◌∷◌, ◌++◌, Option, none, Bool, true, false, if◌then◌else◌, same, ◌≡◌, refl,
}
use meek.Go.Errors.{GoError, plain}
use meek.Server.Handler.{error_text}

pub data Incoming : Type 0 where
  sigterm : Incoming
  stdin_closed : Incoming

-- Whether the wait for a signal is over.
unfoldable pub is_over : Bool → List Incoming → Bool
is_over on_close [] = false
is_over on_close (sigterm ∷ es) = true
is_over on_close (stdin_closed ∷ es) =
    let rest = is_over on_close es in if on_close then true else rest

-- The error that ends the program, behind the words that the code puts in front of its cause.
abbrev pub because : Bytes → GoError → GoError
because words e = plain (words ++ error_text e)

-- The error of opening the log file, if one is named.
unfoldable pub log_failure : (Bytes → Option GoError) → Bytes → Option GoError
log_failure open_log name = if same name [] then none else open_log name

is_over_tests :
    (is_over false (stdin_closed ∷ []) ≡ false)
    × (is_over true (stdin_closed ∷ []) ≡ true)
    × (is_over false (stdin_closed ∷ sigterm ∷ []) ≡ true)
unfolding is_over
is_over_tests = (refl, refl, refl)
