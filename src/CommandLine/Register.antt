-- ===== src/CommandLine/Register.antt =====
-- `register_command`: the commands' array is never overrun.
use hry_os.Base.{
  ℕ, ◌<◌, ◌≡◌, true, List, [], ◌∷◌, ◌++◌, arith, ltb, Bool-cases, inl, inr, take, length,
  length-append,
}
use hry_os.Cstring.{is_terminated}
use hry_os.CommandLine.{Command, CommandLine, register_command}
use hry_os.CommandLine.Line.{AreTerminated, IsLine}

AreTerminated-append :
    (xs : List Command) (c : Command)
    → AreTerminated xs
    → is_terminated c.command ≡ true
    → AreTerminated (xs ++ c ∷ [])
AreTerminated-append [] c e f = (f, tt)
AreTerminated-append (x ∷ xs) c e f = (e.0, AreTerminated-append xs c e.1 f)

-- `register_command` of a name with its zero among the first 32 characters keeps the form of the
-- command line and fewer than 32 commands.
pub register_command-IsLine :
    (name : List ℕ) (callback : ℕ) (l : CommandLine)
    → IsLine l
    → length l.commands < 32
    → is_terminated (take 32 name) ≡ true
    → IsLine (register_command name callback l)
      × (length (register_command name callback l).commands < 32)
unfolding register_command
register_command-IsLine name callback l is bound ends =
    let c : Command = record { command = take 32 name; callback = callback } in
    elim (Bool-cases (ltb (length l.commands) 31)) [
      | inl room ↦ rw room (
        record {
          size = is.size;
          within = is.within;
          typed = is.typed;
          names = AreTerminated-append l.commands c is.names ends;
          ascii = is.ascii;
        },
        ground (arith, length-append l.commands (c ∷ [])),
      )
      | inr full ↦ rw full (is, bound)
    ]
