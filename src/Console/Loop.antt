-- ===== src/Console/Loop.antt =====
-- The loop of the console over its two inputs (src/fss_console.c).
pub mod Order
use file_sync_system.Common.{
  ℕ, suc, Bool, true, false, Option, none, some, List, [], ◌∷◌, ◌++◌, if◌then◌else◌,
}
use file_sync_system.Common.Text.{Text, codes, str_eq}
use file_sync_system.Console.{Command, line}

-- `words` are the words that the user has yet to type, `sent` what is written into `fss_in` and
-- `printed` what the user sees.
pub record Console : Type 0 where
  pub action : Text
  pub words : List Text
  pub sent : List Text
  pub printed : List Text

-- What `poll` finds: neither input, output of the manager with what `read` gives, `none` for a
-- negative result, or the standard input.
pub data Event : Type 0 where
  idle : Event
  answered : Option Text → Event
  typed : Event

-- `scanf("%s")`, which leaves its argument as it is at the end of the input.
unfoldable pub scanf : Text → List Text → Text × List Text
scanf old [] = (old, [])
scanf old (w ∷ words) = (w, words)

unfoldable pub send : Command → List Text → Console → Console
send c words k = record k { action = c.action; words = words; sent = k.sent ++ line c ∷ [] }

-- The branch of the standard input.
unfoldable pub type_in : Console → Console
type_in k =
    let (action, words) = scanf k.action k.words in
    let (source_dir, words₁) = scanf [] words in
    let (target_dir, words₂) = scanf [] words₁ in
    let two : Command = record {
      action = action;
      source_dir = source_dir;
      target_dir = target_dir;
    } in
    let one : Command = record { action = action; source_dir = source_dir; target_dir = [] } in
    let alone : Command = record { action = action; source_dir = []; target_dir = [] } in
    if str_eq action (codes "add")
    then send two words₂ k
    else if str_eq action (codes "status")
    then send one words₁ k
    else if str_eq action (codes "cancel")
    then send one words₁ k
    else if str_eq action (codes "sync")
    then send one words₁ k
    else if str_eq action (codes "shutdown")
    then send alone words k
    else record k {
      action = action;
      words = words;
      printed = k.printed ++ codes "Wrong command given\n" ∷ [];
    }

-- `none` is `exit(-1)`.
unfoldable pub round : Event → Console → Option Console
round idle k = some k
round (answered none) k = none
round (answered (some output)) k =
    some (record k { printed = k.printed ++ (output ++ codes "\n") ∷ [] })
round typed k = some (type_in k)

-- How the rounds of a sequence of events end: the loop goes on, has ended, or the program has.
pub data End : Type 0 where
  going : Console → End
  ended : Console → End
  exited : End

unfoldable pub loop : List Event → Console → End
loop [] k = going k
loop (event ∷ events) k = elim (round event k) [
  | none ↦ exited
  | some k' ↦
      let rest = loop events k' in if str_eq k'.action (codes "shutdown") then ended k' else rest
]

-- The arguments without the program's name: the name of the log file, or an exit.
unfoldable pub read_args : List Text → Option Text
read_args (flag ∷ file ∷ []) = if str_eq flag (codes "-l") then some file else none
read_args _ = none

-- The copying of the manager's output behind the loop, on what the calls of `read` give: `none` for
-- a negative result, and nothing at the end of the FIFO.
unfoldable pub drain : List (Option Text) → Console → End
drain [] k = going k
drain (none ∷ reads) k = ended k
drain (some [] ∷ reads) k = ended (record k { printed = k.printed ++ [] ∷ [] })
drain (some (c ∷ text) ∷ reads) k =
    drain reads (record k { printed = k.printed ++ (c ∷ text) ∷ [] })
