-- ===== src/Console/Loop/Order.antt =====
-- The commands that the console sends, in the order in which they are typed.
use file_sync_system.Common.{
  ℕ, suc, ◌<◌, ◌≡◌, ◌∙◌, refl, sym, ap, false, none, some, List, [], ◌∷◌, ◌++◌, append-nil,
  append_assoc, arith, All, if◌then◌else◌,
}
use file_sync_system.Common.Text.{Text, codes, str_eq}
use file_sync_system.Console.{Command, sent, wrong, read_two, read_one, read_command, line}
use file_sync_system.Console.Loop.{
  Console, Event, idle, answered, typed, scanf, send, type_in, round, End, ended, exited, loop,
}

-- The words are those of the commands, none of them `shutdown`, with wrong ones between them, and
-- the rest; `n` counts both kinds.
pub data Spoken : ℕ → List Text → List Command → List Text → Type 0 where
  silent : (words : List Text) → Spoken 0 words [] words
  speak :
      (n : ℕ) (words rest rest' : List Text) (c : Command) (cs : List Command)
      → read_command words ≡ sent c rest
      → str_eq c.action (codes "shutdown") ≡ false
      → Spoken n rest cs rest'
      → Spoken (suc n) words (c ∷ cs) rest'
  mistake :
      (n : ℕ) (words rest rest' : List Text) (cs : List Command)
      → read_command words ≡ wrong rest
      → Spoken n rest cs rest'
      → Spoken (suc n) words cs rest'

unfoldable pub lines : List Command → List Text
lines [] = []
lines (c ∷ cs) = line c ∷ lines cs

-- No `read` of the manager's output fails.
unfoldable pub Heard : Event → Type 0
Heard idle = Unit
Heard (answered none) = ⊥
Heard (answered (some output)) = Unit
Heard typed = Unit

-- How often the standard input has something.
unfoldable pub count_typed : List Event → ℕ
count_typed [] = 0
count_typed (typed ∷ events) = suc (count_typed events)
count_typed (_ ∷ events) = count_typed events

type_in-sent :
    (words rest : List Text) (k : Console) (c : Command)
    → read_command words ≡ sent c rest
    → type_in (record k { words = words }) ≡ send c rest k
unfolding read_command read_two read_one type_in scanf send
type_in-sent [] rest k c e = cc
type_in-sent (a ∷ []) rest k c e = ground arith
type_in-sent (a ∷ s ∷ []) rest k c e = ground arith
type_in-sent (a ∷ s ∷ t ∷ ws) rest k c e = ground arith

-- A wrong command is not sent, and does not end the loop.
record Refused (k : Console) (rest : List Text) (k' : Console) : Type 0 where
  words : k'.words ≡ rest
  sent : k'.sent ≡ k.sent
  stays : str_eq k'.action (codes "shutdown") ≡ false

type_in-wrong :
    (words rest : List Text) (k : Console)
    → read_command words ≡ wrong rest
    → Refused k rest (type_in (record k { words = words }))
unfolding read_command read_two read_one type_in scanf send
type_in-wrong [] rest k e = cc
type_in-wrong (a ∷ []) rest k e = record {
  words = ground arith;
  sent = ground arith;
  stays = ground arith;
}
type_in-wrong (a ∷ s ∷ []) rest k e = record {
  words = ground arith;
  sent = ground arith;
  stays = ground arith;
}
type_in-wrong (a ∷ s ∷ t ∷ ws) rest k e = record {
  words = ground arith;
  sent = ground arith;
  stays = ground arith;
}

abbrev pub farewell : Command
farewell = record { action = codes "shutdown"; source_dir = []; target_dir = [] }

-- The loop has ended, with the commands and `shutdown` sent behind what had been sent.
pub record Sent (events : List Event) (k : Console) (cs : List Command) (rest : List Text)
    : Type 0 where
  pub after : Console
  pub ends : loop events k ≡ ended after
  pub order : after.sent ≡ k.sent ++ (lines cs ++ line farewell ∷ [])
  pub left : after.words ≡ rest

loop-round :
    (event : Event) (events : List Event) (k k' : Console)
    → round event k ≡ some k'
    → loop (event ∷ events) k
      ≡ (if str_eq k'.action (codes "shutdown") then ended k' else loop events k')
unfolding loop
loop-round event events k k' e =
    ap
      (λ o. elim o as (λ _. End) [
        | none ↦ exited
        | some k' ↦ if str_eq k'.action (codes "shutdown") then ended k' else loop events k'
      ])
      e

-- A round that sends `new` and does not end the loop.
step-Sent :
    (event : Event) (events : List Event) (k k' : Console) (cs cs' : List Command)
    (rest new : List Text)
    → round event k ≡ some k'
    → str_eq k'.action (codes "shutdown") ≡ false
    → k'.sent ≡ k.sent ++ new
    → lines cs' ≡ new ++ lines cs
    → Sent events k' cs rest
    → Sent (event ∷ events) k cs' rest
step-Sent event events k k' cs cs' rest new e stays sends all s = record {
  after = s.after;
  ends = loop-round event events k k' e ∙ rw stays s.ends;
  order = s.order ∙ rw (sends, all) (rw (append_assoc, append_assoc) refl);
  left = s.left;
}

type_in_of :
    (k k' : Console) (words : List Text)
    → k.words ≡ words
    → type_in (record k { words = words }) ≡ k'
    → round typed k ≡ some k'
unfolding round
type_in_of k k' words w e =
    ap (λ ws. some (type_in (record k { words = ws }))) w ∙ ap (λ k. some k) e

farewell-sent : (rest : List Text) → read_command (codes "shutdown" ∷ rest) ≡ sent farewell rest
unfolding read_command str_eq
farewell-sent rest = refl

-- The round in which `shutdown` is typed.
last-Sent :
    (events : List Event) (k : Console) (rest : List Text)
    → k.words ≡ codes "shutdown" ∷ rest
    → Sent (typed ∷ events) k [] rest
unfolding lines send str_eq
last-Sent events k rest w =
    let k' = send farewell rest k in
    record {
      after = k';
      ends = loop-round typed events k k' (
          type_in_of k k' (codes "shutdown" ∷ rest) w
            (type_in-sent (codes "shutdown" ∷ rest) rest k farewell (farewell-sent rest)));
      order = refl;
      left = refl;
    }

-- The loop of the console ends with the `shutdown` that is typed behind other commands, once the
-- standard input has been found ready for each of them, for each wrong command among them and for
-- `shutdown` itself, whenever the manager's output comes in between, if no `read` of it fails. It
-- has then sent the commands and `shutdown`, each once and in the order in which they are typed, and
-- reads no word behind. Before its first round no word stands in `action` that is `shutdown`.
pub loop-Sent :
    (events : List Event) (k : Console) (n : ℕ) (cs : List Command) (words rest : List Text)
    → k.words ≡ words
    → Spoken n words cs (codes "shutdown" ∷ rest)
    → All Heard events
    → str_eq k.action (codes "shutdown") ≡ false
    → n < count_typed events
    → Sent events k cs rest
unfolding count_typed Heard lines round send
loop-Sent [] k n cs words rest w spoken heard fresh enough = absurd (omega arith)
loop-Sent (idle ∷ events) k n cs words rest w spoken heard fresh enough =
    step-Sent idle events k k cs cs rest [] refl fresh (sym (append-nil k.sent)) refl
      (loop-Sent events k n cs words rest w spoken heard.1 fresh enough)
loop-Sent (answered none ∷ events) k n cs words rest w spoken heard fresh enough = elim heard.0 [ ]
loop-Sent (answered (some output) ∷ events) k n cs words rest w spoken heard fresh enough =
    let k' : Console = record k { printed = k.printed ++ (output ++ codes "\n") ∷ [] } in
    step-Sent (answered (some output)) events k k' cs cs rest [] refl fresh
      (sym (append-nil k.sent)) refl
      (loop-Sent events k' n cs words rest w spoken heard.1 fresh enough)
loop-Sent (typed ∷ events) k _ _ _ rest w (silent _) heard fresh enough = last-Sent events k rest w
loop-Sent (typed ∷ events) k _ _ _ rest w (speak n words next _ c cs e more spoken) heard fresh
      enough =
    let k' = send c next k in
    step-Sent typed events k k' cs (c ∷ cs) rest (line c ∷ [])
      (type_in_of k k' words w (type_in-sent words next k c e)) more refl refl
      (loop-Sent events k' n cs next rest refl spoken heard.1 more (omega arith))
loop-Sent (typed ∷ events) k _ _ _ rest w (mistake n words next _ cs e spoken) heard fresh enough =
    let k' = type_in (record k { words = words }) in
    let r = type_in-wrong words next k e in
    step-Sent typed events k k' cs cs rest [] (type_in_of k k' words w refl) r.stays
      (r.sent ∙ sym (append-nil k.sent)) refl
      (loop-Sent events k' n cs next rest r.words spoken heard.1 r.stays (omega arith))
