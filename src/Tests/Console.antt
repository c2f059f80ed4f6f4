-- ===== src/Tests/Console.antt =====
-- The loop of the console (src/fss_console.c) on a few words.
use file_sync_system.Common.{refl, some, List, [], ◌∷◌, arith, All}
use file_sync_system.Common.Text.{Text, codes, str_eq}
use file_sync_system.Console.{Command, read_command, read_one}
use file_sync_system.Console.Loop.{Console, Event, idle, answered, typed}
use file_sync_system.Console.Loop.Order.{
  Spoken, silent, speak, mistake, Heard, count_typed, Sent, loop-Sent,
}

abbrev events : List Event
events = typed ∷ idle ∷ answered (some (codes "yes")) ∷ typed ∷ typed ∷ []

abbrev shut_down : List Text
shut_down = codes "shutdown" ∷ codes "sync" ∷ []

abbrev with_mistake : List Text
with_mistake = codes "stat" ∷ shut_down

abbrev all_words : List Text
all_words = codes "status" ∷ codes "/a" ∷ with_mistake

abbrev console : Console
console = record { action = []; words = all_words; sent = []; printed = [] }

abbrev status_a : Command
status_a = record { action = codes "status"; source_dir = codes "/a"; target_dir = [] }

two_rounds : Spoken 2 all_words (status_a ∷ []) shut_down
unfolding read_command read_one str_eq
two_rounds =
    speak 1 all_words with_mistake shut_down status_a [] refl refl
      (mistake 0 with_mistake shut_down shut_down [] refl (silent shut_down))

events-Heard : All Heard events
unfolding Heard
events-Heard = (tt, (tt, (tt, (tt, (tt, tt)))))

loop-Sent_example : Sent events console (status_a ∷ []) (codes "sync" ∷ [])
unfolding count_typed str_eq
loop-Sent_example =
    loop-Sent events console 2 (status_a ∷ []) all_words (codes "sync" ∷ []) refl two_rounds
      events-Heard refl (omega arith)
