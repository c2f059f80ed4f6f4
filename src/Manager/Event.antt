-- ===== src/Manager/Event.antt =====
-- A notification of inotify (src/fss_manager.c), read from the bytes of the array `buffer`.
pub mod First
use file_sync_system.Common.{
  ℕ, zero, suc, ◌+◌, ◌*◌, ◌/◌, ◌%◌, ◌^◌, Bool, true, false, Option, none, some, List, [], ◌∷◌, ◌++◌,
  ltb, ◌==◌, if◌then◌else◌,
}
use file_sync_system.Common.Text.{Text, codes}
use file_sync_system.HashTable as Watches
use file_sync_system.ListNode.{Pair}
use file_sync_system.Manager.Config.{Job}
use file_sync_system.Manager.Run.{Run, ok, or_exit, aborted, fault, ◌>>=◌, of_store, of_table}
use file_sync_system.Manager.State.{State, Decision, skipped, started}
use file_sync_system.MemStore as Store

-- `struct inotify_event`, its numbers of four bytes each, the lowest byte first; `name` stands at
-- the end.
pub record InotifyEvent : Type 0 where
  pub wd : ℕ
  pub mask : ℕ
  pub cookie : ℕ
  pub len : ℕ
  pub name : Text

-- The text up to a NUL.
unfoldable pub until_nul : List ℕ → Text
until_nul [] = []
until_nul (c ∷ bytes) = let rest = until_nul bytes in if c == 0 then [] else c ∷ rest

unfoldable pub strlen : List ℕ → ℕ
strlen [] = 0
strlen (c ∷ bytes) = let rest = strlen bytes in if c == 0 then 0 else suc rest

-- `none` if there are less than four bytes.
unfoldable pub word : List ℕ → Option (ℕ × List ℕ)
word (a ∷ b ∷ c ∷ d ∷ bytes) = some (a + 256 * b + 65536 * c + 16777216 * d, bytes)
word _ = none

abbrev pub bind_word {ℓ} : {A : Type ℓ} → List ℕ → (ℕ → List ℕ → Run A) → Run A
bind_word bytes f = elim (word bytes) [ none ↦ fault | some (x, rest) ↦ f x rest ]

unfoldable pub decode : List ℕ → Run InotifyEvent
decode buffer = bind_word buffer λ wd bytes₁. bind_word bytes₁ λ mask bytes₂.
    bind_word bytes₂ λ cookie bytes₃. bind_word bytes₃ λ len bytes₄.
      ok (record { wd = wd; mask = mask; cookie = cookie; len = len; name = until_nul bytes₄ })

unfoldable pub drop : ℕ → List ℕ → List ℕ
drop zero bytes = bytes
drop (suc n) [] = []
drop (suc n) (b ∷ bytes) = drop n bytes

-- `read` into the array from its start.
unfoldable pub overwrite : (input buffer : List ℕ) → List ℕ
overwrite [] buffer = buffer
overwrite (b ∷ input) buffer = b ∷ overwrite input (drop 1 buffer)

-- The bits of `sys/inotify.h`.
abbrev bit : ℕ → ℕ → Bool
bit mask k = mask / 2 ^ k % 2 == 1

unfoldable pub action_of : ℕ → Option Text
action_of mask =
    if bit mask 8
    then some (codes "ADDED")
    else if bit mask 1
    then some (codes "MODIFIED")
    else if bit mask 9
    then some (codes "DELETED")
    else none

-- The pair of the watch, without which the manager exits.
unfoldable pub watched_pair : InotifyEvent → State → Run Pair
watched_pair e s = of_table (Watches.find s.inotify_map e.wd) >>= or_exit

-- The decision on an event in the directory of the pair.
unfoldable pub on_found : InotifyEvent → Pair → State → Run (Decision × State)
on_found e p s = of_store (Store.find s.desk.mem p.value) >>= λ dr. elim dr [
  | none ↦ aborted
  | some d ↦ elim (action_of e.mask) [
    | none ↦ ok (skipped, s)
    | some action ↦ ok (
      started (record {
        source_dir = p.value;
        target_dir = d.target_dir;
        filename = e.name;
        operation = action;
      }),
      s,
    )
  ]
]

-- The decision on an event.
unfoldable pub on_event : InotifyEvent → State → Run (Decision × State)
on_event e s = watched_pair e s >>= λ p. on_found e p s

-- The branch of the loop, on the bytes that are read and the array before. If `strlen(buffer)` goes
-- beyond the first event, `strcpy` copies between parts of the array that overlap; otherwise `pos`
-- is 0, as it was.
unfoldable pub notify : (input buffer : List ℕ) → State → Run (Decision × State)
notify input buffer s =
    let bytes = overwrite input buffer in
    decode bytes >>= λ e.
    watched_pair e s >>= λ p. if ltb (16 + e.len + 1) (strlen bytes) then fault else on_found e p s
