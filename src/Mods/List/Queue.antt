-- ===== src/Mods/List/Queue.antt =====
-- A whole history of calls on one list, against a queue of addresses.
use libthreads_c.Base.{
  ◌≡◌, ◌≢◌, ◌∙◌, refl, true, false, some, is_some→some, List, [], ◌∷◌, ◌++◌, has, is_some,
}
use libthreads_c.Mods.List.{
  Ptr, null, LinkedList, Links, Cmd, pure, ◌>>=◌, do_list_enqueue, do_list_dequeue,
}
use libthreads_c.Mods.List.Chain.{IsList}
use libthreads_c.Mods.List.Fifo.{SameAllocated, do_list_enqueue_lem, do_list_dequeue_lem}

pub data Op : Type 0 where
  enqueue : Ptr → Op
  dequeue : Op

-- The calls in turn; the addresses that the dequeues return, and the list after the last call.
unfoldable pub run : List Op → LinkedList → Cmd (List Ptr × LinkedList)
run [] l = pure ([], l)
run (enqueue p ∷ ops) l = do_list_enqueue l p >>= run ops
run (dequeue ∷ ops) l = do (x, l') ← do_list_dequeue l; (out, l'') ← run ops l'; pure (x ∷ out, l'')

-- The caller's side: an address is enqueued while it is not in the list, and only a list with a
-- member is dequeued.
abbrev pub Admissible : List Op → List Ptr → Type 0
Admissible [] xs = Unit
Admissible (enqueue p ∷ ops) xs = (p ≢ null) × (has p xs ≡ false) × Admissible ops (xs ++ p ∷ [])
Admissible (dequeue ∷ ops) [] = ⊥
Admissible (dequeue ∷ ops) (x ∷ xs) = Admissible ops xs

-- The queue of addresses: what comes out, and what is left.
abbrev pub outputs : List Op → List Ptr → List Ptr
outputs [] xs = []
outputs (enqueue p ∷ ops) xs = outputs ops (xs ++ p ∷ [])
outputs (dequeue ∷ ops) [] = []
outputs (dequeue ∷ ops) (x ∷ xs) = x ∷ outputs ops xs

abbrev pub left : List Op → List Ptr → List Ptr
left [] xs = xs
left (enqueue p ∷ ops) xs = left ops (xs ++ p ∷ [])
left (dequeue ∷ ops) [] = []
left (dequeue ∷ ops) (x ∷ xs) = left ops xs

abbrev pub Allocated : Links → Type 0
Allocated h = (a : Ptr) → a ≢ null → is_some (h a) ≡ true

Allocated-kept : (h g : Links) → Allocated h → SameAllocated h g → Allocated g
Allocated-kept h g all kept a ne = kept a ∙ all a ne

-- Every admissible history of enqueues and dequeues runs without a fault, returns the addresses
-- that a queue returns, in that order, and leaves a well-formed list of what the queue still
-- holds.
pub run-queue :
    (ops : List Op) (h : Links) (l : LinkedList) (xs : List Ptr)
    → Allocated h
    → IsList h l xs
    → Admissible ops xs
    → (l' : LinkedList) × (g : Links) × (run ops l h ≡ some ((outputs ops xs, l'), g))
      × IsList g l' (left ops xs)
unfolding run
run-queue [] h l xs all is adm = (l, h, refl, is)
run-queue (enqueue p ∷ ops) h l xs all is (ne, apart, adm) =
    let (m, cell) = is_some→some (h p) (all p ne) in
    let (l', g, e, enq) = do_list_enqueue_lem h l p m xs is cell ne apart in
    let (l'', g', e', is') =
      run-queue ops g l' (xs ++ p ∷ []) (Allocated-kept h g all enq.kept) enq.is_list adm in
    (l'', g', rw e e', is')
run-queue (dequeue ∷ ops) h l [] all is adm = absurd adm
run-queue (dequeue ∷ ops) h l (x ∷ xs) all is adm =
    let (l', g, e, deq) = do_list_dequeue_lem h l x xs is in
    let (l'', g', e', is') =
      run-queue ops g l' xs (Allocated-kept h g all deq.kept) deq.is_list adm in
    (l'', g', rw (e, e'), is')
