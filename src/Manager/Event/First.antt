-- ===== src/Manager/Event/First.antt =====
-- Of the events that one `read` gives, the manager serves the first.
use file_sync_system.Common.{
  ℕ, ◌+◌, ◌/◌, ◌%◌, ◌≤◌, ◌<◌, ◌≡◌, ◌≢◌, ◌∙◌, refl, ap, false, none, some, List, [], ◌∷◌, ◌++◌,
  arith, ltb, All,
}
use file_sync_system.Common.Text.{Text}
use file_sync_system.Manager.Event.{
  InotifyEvent, until_nul, strlen, word, bind_word, decode, drop, overwrite, on_event, notify,
}
use file_sync_system.Manager.Run.{Run, ok, fault}
use file_sync_system.Manager.State.{State}

-- A number of four bytes.
unfoldable pub bytes : ℕ → List ℕ → List ℕ
bytes x rest = x % 256 ∷ x / 256 % 256 ∷ x / 65536 % 256 ∷ x / 16777216 % 256 ∷ rest

-- The bytes of an event, with the NUL behind its name and with what follows.
unfoldable pub encode : InotifyEvent → List ℕ → List ℕ
encode e rest = bytes e.wd (bytes e.mask (bytes e.cookie (bytes e.len (e.name ++ 0 ∷ rest))))

-- Numbers of four bytes, the descriptor one of three, and a name without NUL.
pub record IsEvent (e : InotifyEvent) : Type 0 where
  pub wd : e.wd < 16777216
  pub mask : e.mask < 4294967296
  pub cookie : e.cookie < 4294967296
  pub len : e.len < 4294967296
  pub name : All (λ c. c ≢ 0) e.name

word-bytes : (x : ℕ) (rest : List ℕ) → x < 4294967296 → word (bytes x rest) ≡ some (x, rest)
unfolding word bytes
word-bytes x rest h = ap (λ n. some (n, rest)) (omega arith)

until_nul-append :
    (name : Text) (rest : List ℕ) → All (λ c. c ≢ 0) name → until_nul (name ++ 0 ∷ rest) ≡ name
unfolding until_nul
until_nul-append [] rest h = refl
until_nul-append (c ∷ name) rest h = ground (arith, h.0, until_nul-append name rest h.1)

bind_word-bytes {ℓ} :
    {A : Type ℓ} (x : ℕ) (rest : List ℕ) (f : ℕ → List ℕ → Run A)
    → x < 4294967296
    → bind_word (bytes x rest) f ≡ f x rest
bind_word-bytes x rest f h =
    ap (λ o. elim o [ none ↦ fault | some (y, ys) ↦ f y ys ]) (word-bytes x rest h)

decode-encode : (e : InotifyEvent) (rest : List ℕ) → IsEvent e → decode (encode e rest) ≡ ok e
unfolding decode encode
decode-encode e rest v =
    bind_word-bytes e.wd _ _ (omega (arith, v.wd))
    ∙ bind_word-bytes e.mask _ _ v.mask
    ∙ bind_word-bytes e.cookie _ _ v.cookie
    ∙ bind_word-bytes e.len _ _ v.len
    ∙ ap (λ n. ok (record e { name = n })) (until_nul-append e.name rest v.name)

strlen-le : (a b c d : ℕ) (rest : List ℕ) → d ≡ 0 → strlen (a ∷ b ∷ c ∷ d ∷ rest) ≤ 3
unfolding strlen
strlen-le a b c d rest h = ground (arith, h)

strlen-encode : (e : InotifyEvent) (rest : List ℕ) → IsEvent e → strlen (encode e rest) ≤ 3
unfolding encode bytes
strlen-encode e rest v =
    strlen-le (e.wd % 256) (e.wd / 256 % 256) (e.wd / 65536 % 256) (e.wd / 16777216 % 256) _
      (omega (arith, v.wd))

overwrite-bytes :
    (x : ℕ) (input buffer : List ℕ)
    → (later : List ℕ) × (overwrite (bytes x input) buffer ≡ bytes x (overwrite input later))
unfolding overwrite bytes
overwrite-bytes x input buffer = (_, refl)

overwrite-name :
    (name : Text) (rest buffer : List ℕ)
    → (later : List ℕ) × (overwrite (name ++ 0 ∷ rest) buffer ≡ name ++ 0 ∷ later)
unfolding overwrite
overwrite-name [] rest buffer = (_, refl)
overwrite-name (c ∷ name) rest buffer =
    let (later, e) = overwrite-name name rest (drop 1 buffer) in (later, ap (λ l. c ∷ l) e)

overwrite-encode :
    (e : InotifyEvent) (rest buffer : List ℕ)
    → (later : List ℕ) × (overwrite (encode e rest) buffer ≡ encode e later)
unfolding encode
overwrite-encode e rest buffer =
    let tail = e.name ++ 0 ∷ rest in
    let (b₁, e₁) = overwrite-bytes e.wd (bytes e.mask (bytes e.cookie (bytes e.len tail))) buffer in
    let (b₂, e₂) = overwrite-bytes e.mask (bytes e.cookie (bytes e.len tail)) b₁ in
    let (b₃, e₃) = overwrite-bytes e.cookie (bytes e.len tail) b₂ in
    let (b₄, e₄) = overwrite-bytes e.len tail b₃ in
    let (later, e₅) = overwrite-name e.name rest b₄ in (later, rw (e₁, e₂, e₃, e₄, e₅) refl)

-- The decision on what one `read` has given is the decision on its first event, whatever other
-- events stand behind it and whatever was in the array before: the other events are lost. The
-- descriptor of the watch fits into three bytes.
pub notify-encode :
    (e : InotifyEvent) (rest buffer : List ℕ) (s : State)
    → IsEvent e
    → notify (encode e rest) buffer s ≡ on_event e s
unfolding notify on_event
notify-encode e rest buffer s v =
    let (later, same) = overwrite-encode e rest buffer in
    let short : ltb (16 + e.len + 1) (strlen (encode e later)) ≡ false =
      ground (arith, strlen-encode e later v) in
    rw (same, decode-encode e later v, short) refl
