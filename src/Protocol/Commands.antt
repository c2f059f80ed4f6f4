-- ===== src/Protocol/Commands.antt =====
-- The two ends of the FIFO from the console (src/fss_console.c) to the manager
-- (src/fss_manager.c): the command that the one sends is what the other reads.
use file_sync_system.Common.{
  ◌≡◌, ◌∙◌, refl, ap, true, false, some, List, [], ◌∷◌, ◌++◌, arith, if◌then◌else◌, All, Bool-cases,
  inl, inr,
}
use file_sync_system.Common.Text.{Text, codes, str_eq}
use file_sync_system.Console.{Command, sent, read_two, read_one, read_command, line}
use file_sync_system.Manager.Command.{
  Request, add, status, sync, cancel, shutdown, request, parse_action, parse_command,
}
use file_sync_system.Manager.Command.Words.{IsWord, strtok-word, strtok-last}
use file_sync_system.Manager.Scan.{is_full_command}

-- The request that a command means.
unfoldable pub intended : Command → Request
intended c =
    if str_eq c.action (codes "add")
    then add (some c.source_dir) (some c.target_dir)
    else if str_eq c.action (codes "status")
    then status (some c.source_dir)
    else if str_eq c.action (codes "sync")
    then sync (some c.source_dir)
    else if str_eq c.action (codes "cancel")
    then cancel (some c.source_dir)
    else if str_eq c.action (codes "shutdown")
    then shutdown
    else Request.wrong

sent_injective : {c d : Command} {ws vs : List Text} → sent c ws ≡ sent d vs → c ≡ d
sent_injective e = ground arith

parse_command-action :
    (c : Command)
    → IsWord c.action
    → parse_command (line c)
      ≡ some (request c.action (c.source_dir ++ b' ' ∷ (c.target_dir ++ b'\n' ∷ [])))
unfolding parse_command parse_action line
parse_command-action c w =
    ap parse_action (strtok-word c.action (c.source_dir ++ b' ' ∷ (c.target_dir ++ b'\n' ∷ [])) w)

is_full_command-behind : (s t : Text) → is_full_command t ≡ true → is_full_command (s ++ t) ≡ true
unfolding is_full_command
is_full_command-behind [] t h = h
is_full_command-behind (c ∷ s) t h = ground (arith, is_full_command-behind s t h)

-- A command that the manager reads back.
Understood : Command → Type 0
Understood c = parse_command (line c) ≡ some (intended c)

module _ (action : Text) (w : IsWord action) where
  abbrev command : Text → Text → Command
  command source_dir target_dir = record {
    action = action;
    source_dir = source_dir;
    target_dir = target_dir;
  }

  two-Understood :
      (s t : Text)
      → str_eq action (codes "add") ≡ true
      → IsWord s
      → IsWord t
      → Understood (command s t)
  unfolding Understood request intended
  two-Understood s t h ws wt =
      parse_command-action (command s t) w
      ∙ ap some (rw (request, strtok-word s (t ++ b'\n' ∷ []) ws, strtok-last t wt, h) refl)

  one-Understood :
      (s t : Text) → str_eq action (codes "add") ≡ false → IsWord s → Understood (command s t)
  unfolding Understood request intended
  one-Understood s t h ws =
      parse_command-action (command s t) w
      ∙ ap some (rw (request, strtok-word s (t ++ b'\n' ∷ []) ws, h) refl)

  none-Understood :
      (s t : Text)
      → str_eq action (codes "add") ≡ false
      → str_eq action (codes "status") ≡ false
      → str_eq action (codes "cancel") ≡ false
      → str_eq action (codes "sync") ≡ false
      → Understood (command s t)
  unfolding Understood request intended
  none-Understood s t h h₁ h₂ h₃ =
      parse_command-action (command s t) w ∙ ap some (rw (request, h, h₁, h₂, h₃) refl)

  read_two-Understood :
      (words rest : List Text) (c : Command)
      → str_eq action (codes "add") ≡ true
      → All IsWord words
      → read_two action words ≡ sent c rest
      → Understood c
  unfolding read_two
  read_two-Understood [] rest c h ws e = cc
  read_two-Understood (s ∷ []) rest c h ws e = cc
  read_two-Understood (s ∷ t ∷ words) rest c h ws e =
      let same : command s t ≡ c = sent_injective e in
      rw (← same) (two-Understood s t h ws.0 ws.1.0)

  read_one-Understood :
      (words rest : List Text) (c : Command)
      → str_eq action (codes "add") ≡ false
      → All IsWord words
      → read_one action words ≡ sent c rest
      → Understood c
  unfolding read_one
  read_one-Understood [] rest c h ws e = cc
  read_one-Understood (s ∷ words) rest c h ws e =
      let same : command s [] ≡ c = sent_injective e in rw (← same) (one-Understood s [] h ws.0)

newline_end : is_full_command (b'\n' ∷ []) ≡ true
unfolding is_full_command
newline_end = refl

is_full_command-line : (c : Command) → is_full_command (line c) ≡ true
unfolding line
is_full_command-line c = is_full_command-behind c.action _ (
    is_full_command-behind (b' ' ∷ c.source_dir) _
      (is_full_command-behind (b' ' ∷ c.target_dir) (b'\n' ∷ []) newline_end))

read_command-Understood :
    (action : Text) (words rest : List Text) (c : Command)
    → IsWord action
    → All IsWord words
    → read_command (action ∷ words) ≡ sent c rest
    → Understood c
unfolding read_command
read_command-Understood action words rest c w ws e =
    elim (Bool-cases (str_eq action (codes "add"))) [
      | inl h ↦ read_two-Understood action w words rest c h ws (rw h at e)
      | inr h ↦ elim (Bool-cases (str_eq action (codes "status"))) [
        | inl h₁ ↦ read_one-Understood action w words rest c h ws (rw (h, h₁) at e)
        | inr h₁ ↦ elim (Bool-cases (str_eq action (codes "cancel"))) [
          | inl h₂ ↦ read_one-Understood action w words rest c h ws (rw (h, h₁, h₂) at e)
          | inr h₂ ↦ elim (Bool-cases (str_eq action (codes "sync"))) [
            | inl h₃ ↦ read_one-Understood action w words rest c h ws (rw (h, h₁, h₂, h₃) at e)
            | inr h₃ ↦ elim (Bool-cases (str_eq action (codes "shutdown"))) [
              | inl h₄ ↦
                  let same : command action w [] [] ≡ c =
                    sent_injective (rw (h, h₁, h₂, h₃, h₄) at e) in
                  rw (← same) (none-Understood action w [] [] h h₁ h₂ h₃)
              | inr h₄ ↦ cc (rw (h, h₁, h₂, h₃, h₄) at e)
            ]
          ]
        ]
      ]
    ]

-- The line that the console writes for the words that it has read is a full command, and the
-- manager reads from it the action and the directories that were meant. The words are those that
-- `scanf` gives.
pub read_command-parse :
    (words rest : List Text) (c : Command)
    → All IsWord words
    → read_command words ≡ sent c rest
    → (is_full_command (line c) ≡ true) × (parse_command (line c) ≡ some (intended c))
unfolding Understood read_command
read_command-parse [] rest c ws e = cc
read_command-parse (action ∷ words) rest c ws e =
    (is_full_command-line c, read_command-Understood action words rest c ws.0 ws.1 e)
