-- ===== src/Tests/Words.antt =====
-- A command of the console (src/fss_console.c) on its way to the manager (src/fss_manager.c).
use file_sync_system.Common.{◌≡◌, refl, true, some, List, [], ◌∷◌, All}
use file_sync_system.Common.Text.{Text, codes, str_eq, Free-check}
use file_sync_system.Console.{Command, sent, read_two, read_command, line}
use file_sync_system.Manager.Command.{add, delims, parse_command}
use file_sync_system.Manager.Scan.{is_full_command}
use file_sync_system.Manager.Command.Words.{IsWord}
use file_sync_system.Protocol.Commands.{intended, read_command-parse}

abbrev add_words : List Text
add_words = codes "add" ∷ codes "/a" ∷ codes "/b" ∷ codes "status" ∷ []

abbrev add_command : Command
add_command = record { action = codes "add"; source_dir = codes "/a"; target_dir = codes "/b" }

IsWord-add_words : All IsWord add_words
IsWord-add_words = (
  record { nonempty = λ e. cc; free = Free-check delims (codes "add") refl },
  (
    record { nonempty = λ e. cc; free = Free-check delims (codes "/a") refl },
    (
      record { nonempty = λ e. cc; free = Free-check delims (codes "/b") refl },
      (record { nonempty = λ e. cc; free = Free-check delims (codes "status") refl }, tt),
    ),
  ),
)

was_read : read_command add_words ≡ sent add_command (codes "status" ∷ [])
unfolding read_command read_two str_eq
was_read = refl

read_command-parse_example :
    (is_full_command (line add_command) ≡ true)
    × (parse_command (line add_command) ≡ some (add (some (codes "/a")) (some (codes "/b"))))
unfolding intended str_eq
read_command-parse_example =
    read_command-parse add_words (codes "status" ∷ []) add_command IsWord-add_words was_read
