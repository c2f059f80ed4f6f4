-- ===== src/Heap.antt =====
-- Nodes on the C heap: what `malloc`, `free` and the accesses through a pointer do to them, for the
-- linked structures of src/queue.c and src/lnode.c.
use file_sync_system.Common.{ℕ, ◌≡◌, ◌≢◌, arith, Option, none, some, ◌==◌, if◌then◌else◌}

abbrev pub Ptr : Type 0
Ptr = ℕ

abbrev pub null : Ptr
null = 0

-- `none` is an address that holds no live node.
abbrev pub Heap : Type 0 → Type 0
Heap N = Ptr → Option N

unfoldable pub put : {N : Type 0} → Heap N → Ptr → Option N → Heap N
put h p c a = if a == p then c else h a

-- `fault` is an access through NULL or a dangling pointer, `exited` is `exit(-1)`.
pub data Run (N A : Type 0) : Type 0 where
  ok : A → Heap N → Run N A
  fault : Run N A
  exited : Run N A
  out_of_fuel : Run N A

abbrev pub Cmd : Type 0 → Type 0 → Type 0
Cmd N A = Heap N → Run N A

abbrev pub pure : {N A : Type 0} → A → Cmd N A
pure = ok

module _ {N A B : Type 0} where
  abbrev pub and_then : Run N A → (A → Cmd N B) → Run N B
  and_then (ok a h) k = k a h
  and_then fault k = fault
  and_then exited k = exited
  and_then out_of_fuel k = out_of_fuel

  infixl 5 ◌>>=◌ ◌>>◌
  abbrev pub ◌>>=◌ : Cmd N A → (A → Cmd N B) → Cmd N B
  m >>= k = λ h. and_then (m h) k

  abbrev pub ◌>>◌ : Cmd N A → Cmd N B → Cmd N B
  m >> n = m >>= λ _. n

module _ {N : Type 0} where
  -- `*p`
  unfoldable pub load : Ptr → Cmd N N
  load p h = if p == null then fault else elim (h p) [ none ↦ fault | some n ↦ ok n h ]

  -- `*p = n`, at a live node.
  unfoldable pub store : Ptr → N → Cmd N (Unit {0})
  unfolding put
  store p n = do _ ← load p; λ h. ok tt (put h p (some n))

  -- The node that `malloc` gave, with its fields assigned.
  unfoldable pub init : Ptr → N → Cmd N (Unit {0})
  unfolding put
  init p n h = ok tt (put h p (some n))

  unfoldable pub free : Ptr → Cmd N (Unit {0})
  unfolding put
  free p = do _ ← load p; λ h. ok tt (put h p none)

module _ {N : Type 0} (h : Heap N) where
  pub put_self : (p : Ptr) (c : Option N) → put h p c p ≡ c
  unfolding put
  put_self p c = ground arith

  pub put_ne : (p a : Ptr) (c : Option N) → a ≢ p → put h p c a ≡ h a
  unfolding put
  put_ne p a c ne = ground arith

  module _ (p : Ptr) (n : N) (ne : p ≢ null) (live : h p ≡ some n) where
    pub load-ok : load p h ≡ ok n h
    unfolding load
    load-ok = ground (arith, live)

    pub store-ok : (m : N) → store p m h ≡ ok tt (put h p (some m))
    unfolding store
    store-ok m = rw load-ok

    pub free-ok : free p h ≡ ok tt (put h p none)
    unfolding free
    free-ok = rw load-ok
