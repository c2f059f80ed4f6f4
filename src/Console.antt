-- ===== src/Console.antt =====
-- The console's reading of a command (src/fss_console.c): the words that `scanf("%s")` gives from
-- the standard input, and the line that `dprintf` writes into the FIFO.
pub mod Loop
use file_sync_system.Common.{List, [], ◌∷◌, ◌++◌, if◌then◌else◌}
use file_sync_system.Common.Text.{Text, codes, str_eq}

pub record Command : Type 0 where
  pub action : Text
  pub source_dir : Text
  pub target_dir : Text

-- With the words that are left. `starved` is the end of the input before the command is complete.
pub data Reading : Type 0 where
  sent : Command → List Text → Reading
  wrong : List Text → Reading
  starved : Reading

unfoldable pub read_two : Text → List Text → Reading
read_two action (source_dir ∷ target_dir ∷ words) =
    sent (record { action = action; source_dir = source_dir; target_dir = target_dir }) words
read_two action _ = starved

unfoldable pub read_one : Text → List Text → Reading
read_one action (source_dir ∷ words) =
    sent (record { action = action; source_dir = source_dir; target_dir = [] }) words
read_one action [] = starved

unfoldable pub read_command : List Text → Reading
read_command [] = starved
read_command (action ∷ words) =
    if str_eq action (codes "add")
    then read_two action words
    else if str_eq action (codes "status")
    then read_one action words
    else if str_eq action (codes "cancel")
    then read_one action words
    else if str_eq action (codes "sync")
    then read_one action words
    else if str_eq action (codes "shutdown")
    then sent (record { action = action; source_dir = []; target_dir = [] }) words
    else wrong words

-- `"%s %s %s\n"`
unfoldable pub line : Command → Text
line c = c.action ++ b' ' ∷ (c.source_dir ++ b' ' ∷ (c.target_dir ++ b'\n' ∷ []))
