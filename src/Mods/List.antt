-- ===== src/Mods/List.antt =====
-- mods/list.h and mods/list.c: the intrusive doubly linked list, over an explicit heap of list
-- members. A `ListMember *` is an address and NULL is 0; a `List` is a value that the operations
-- return anew. A read or write through NULL, or through an address that holds no member, is `none`.
pub mod Chain
pub mod Fifo
pub mod Queue
mod Examples
use libthreads_c.Base.{ℕ, Bool, Option, none, some, ◌&&◌, ◌==◌, if◌then◌else◌, update}

abbrev pub Ptr : Type 0
Ptr = ℕ

abbrev pub null : Ptr
null = 0

pub record ListMember : Type 0 where
  pub next : Ptr
  pub prev : Ptr

pub record LinkedList : Type 0 where
  pub head : Ptr
  pub tail : Ptr

abbrev pub Links : Type 0
Links = Ptr → Option ListMember

-- A command reads and writes the heap, or faults.
abbrev pub Cmd : Type 0 → Type 0
Cmd A = Links → Option (A × Links)

abbrev pub pure : {A : Type 0} → A → Cmd A
pure a h = some (a, h)

module _ {A B : Type 0} where
  abbrev pub and_then : Option (A × Links) → (A → Cmd B) → Option (B × Links)
  and_then none f = none
  and_then (some (a, h)) f = f a h

  infixl 5 ◌>>=◌ ◌>>◌
  abbrev pub ◌>>=◌ : Cmd A → (A → Cmd B) → Cmd B
  m >>= f = λ h. and_then (m h) f

  abbrev pub ◌>>◌ : Cmd A → Cmd B → Cmd B
  m >> n = m >>= λ _. n

unfoldable pub load : Ptr → Cmd ListMember
load p h = if p == null then none else elim (h p) [ none ↦ none | some m ↦ some (m, h) ]

-- `p->next = q`
unfoldable pub set_next : Ptr → Ptr → Cmd (Unit {0})
unfolding load
set_next p q = do m ← load p; λ h. some (tt, update h p (some (record m { next = q })))

-- `p->prev = q`
unfoldable pub set_prev : Ptr → Ptr → Cmd (Unit {0})
unfolding load
set_prev p q = do m ← load p; λ h. some (tt, update h p (some (record m { prev = q })))

-- LIST_INITIALIZER, and what list_init stores
unfoldable pub list_init : LinkedList
list_init = record { head = null; tail = null }

unfoldable pub list_is_empty : LinkedList → Bool
list_is_empty list = (list.head == null) && (list.tail == null)

unfoldable pub do_list_enqueue : LinkedList → Ptr → Cmd LinkedList
unfolding set_next set_prev
do_list_enqueue list new = do
  set_next new null
  list' ←
      if list.tail == null
      then pure (record list { head = new })
      else (do set_next list.tail new; pure list)
  set_prev new list'.tail
  pure (record list' { tail = new })

unfoldable pub do_list_dequeue : LinkedList → Cmd (Ptr × LinkedList)
unfolding load set_next set_prev
do_list_dequeue list = do
  let head = list.head
  m ← load head
  let list' = record list { head = m.next }
  list'' ←
      if list'.head == null
      then pure (record list' { tail = null })
      else (do set_prev list'.head null; pure list')
  set_next head null
  pure (head, list'')
