-- ===== src/Messages/Header.antt =====
-- struct Message of TaskSystem/include/TaskSystem/Messages/Message.h, and the arrays that messages
-- point to.
use francois_gingras_master.Common.{
  ℕ, ◌+◌, ◌≤◌, ◌≡◌, ◌≢◌, Bool, List, [], Outcome, done, fault, or_fault, ◌>>=◌, leb, ◌==◌,
  if◌then◌else◌, length, take, get_elem?, ℤ, arith,
}

-- `methods`: the function pointers are set, to functions of the process that holds the object.
pub record Header : Type 0 where
  pub tag : ℤ
  pub tid : ℕ
  pub msg_size : ℕ
  pub methods : Bool

-- Where an array is: nowhere, in a block of its own, or in a queue's segment at an address.
pub data Place : Type 0 where
  null owned : Place
  inline : ℕ → Place

-- An array that one message owns, and the pointer to it.
pub record Array (A : Type 0) : Type 0 where
  pub place : Place
  pub items : List A

abbrev pub null_array : {A : Type 0} → Array A
null_array = record { place = Place.null; items = [] }

-- A pointer to ints that are not copied: the block and the offset in it. The heap is the blocks.
pub record Ptr : Type 0 where
  pub block : ℕ
  pub offset : ℕ

abbrev pub Heap : Type 0
Heap = List (List ℤ)

-- `p[i]`. A read behind the end of the block is a fault.
unfoldable pub deref : Heap → Ptr → ℕ → Outcome ℤ
deref heap p i = do
  cells ← or_fault (get_elem? heap p.block)
  or_fault (get_elem? cells (p.offset + i))

module _ {A : Type 0} where
  -- The first `n` elements, for an object whose struct ends at `own_end`: a pointer into a segment is
  -- good only if it points there, behind the struct.
  unfoldable pub read_array : ℕ → Array A → ℕ → Outcome (List A)
  read_array own_end a n = elim a.place [
    | Place.null ↦ if n == 0 then done [] else fault
    | Place.owned ↦ if leb n (length a.items) then done (take n a.items) else fault
    | Place.inline at ↦
        if at == own_end
        then (if leb n (length a.items) then done (take n a.items) else fault)
        else fault
  ]

  -- An array in a block of its own, or none and no element to read: what `writeAt` reads.
  abbrev pub IsOwned : Array A → ℕ → Type 0
  IsOwned a n = elim a.place [
    | Place.null ↦ n ≡ 0
    | Place.owned ↦ n ≤ length a.items
    | Place.inline at ↦ ⊥
  ]

  read_array_at :
      (p : Place) (own_end : ℕ) (items : List A) (n : ℕ)
      → IsOwned (record { place = p; items = items }) n
      → read_array own_end (record { place = p; items = items }) n ≡ done (take n items)
  unfolding read_array
  read_array_at Place.null own_end items n h = rw h
  read_array_at Place.owned own_end items n h = ground arith
  read_array_at (Place.inline at) own_end items n h = elim h [ ]

  -- Such an array is read from anywhere.
  pub read_array_owned :
      (own_end : ℕ) (a : Array A) (n : ℕ)
      → IsOwned a n
      → read_array own_end a n ≡ done (take n a.items)
  read_array_owned own_end a n h = read_array_at a.place own_end a.items n h

  -- The array behind a struct is read once the pointer leads there.
  pub read_array_inline :
      (own_end : ℕ) (items : List A) (n : ℕ)
      → n ≤ length items
      → read_array own_end (record { place = Place.inline own_end; items = items }) n
        ≡ done (take n items)
  unfolding read_array
  read_array_inline own_end items n h = ground arith

  -- A pointer that was set in another mapping is not.
  pub read_array_stale :
      (own_end at : ℕ) (items : List A) (n : ℕ)
      → at ≢ own_end
      → read_array own_end (record { place = Place.inline at; items = items }) n ≡ fault
  unfolding read_array
  read_array_stale own_end at items n h = ground arith
