-- ===== src/GenericList.antt =====
-- GenericList: the singly linked list of src/wtsl_core/utils/wtsl_core_list.c on an explicit heap.
-- The node and the block of its data, which are allocated and freed together, are one cell here; what
-- malloc returns is an input, NULL if there is no memory for one of them. The lists and the data are
-- there, and indices are not negative: the source refuses such calls like an index that is too large.
-- The loops that follow the cells to the end have one round more than the list counts.
pub mod Chain
pub mod Insert
pub mod Tokens
pub mod Middle
pub mod Remove
mod Examples
use wtsl_app.Base.{
  ℕ, zero, suc, ◌+◌, ◌-◌, Bool, true, false, Option, none, some, List, [], ◌∷◌, ◌==◌, leb, ltb,
  if◌then◌else◌,
}
use wtsl_app.Nodes.{Ptr, null, Run, ◌>>=◌}

pub record ListNode (A : Type 0) : Type 0 where
  pub data_of : A
  pub next : Ptr

abbrev pub list_node : {A : Type 0} → A → Ptr → ListNode A
list_node a q = record { data_of = a; next = q }

abbrev pub Memory : Type 0 → Type 0
Memory A = Ptr → Option (ListNode A)

pub record LinkedList (A : Type 0) : Type 0 where
  pub heap : Memory A
  pub head : Ptr
  pub size : ℕ

module _ {A : Type 0} where
  abbrev pub put : Memory A → Ptr → Option (ListNode A) → Memory A
  put h p c a = if a == p then c else h a

  abbrev node_there : Option (ListNode A) → Run (ListNode A)
  node_there none = Run.fault
  node_there (some c) = Run.value c

  -- `*p`
  abbrev pub node_at : Memory A → Ptr → Run (ListNode A)
  node_at h p = if p == null then Run.fault else node_there (h p)

  unfoldable pub list_create : Memory A → LinkedList A
  list_create h = record { heap = h; head = null; size = 0 }

  abbrev pub pushed : LinkedList A → Ptr → A → LinkedList A
  pushed l fresh a = record {
    heap = put l.heap fresh (some (list_node a l.head));
    head = fresh;
    size = l.size + 1;
  }

  unfoldable pub list_insert_head : LinkedList A → Ptr → A → LinkedList A
  list_insert_head l fresh a = if fresh == null then l else pushed l fresh a

  -- `while (cur->next)`
  abbrev pub last_loop : ℕ → Memory A → Ptr → Run Ptr
  last_loop zero h p = Run.out_of_fuel
  last_loop (suc k) h p = node_at h p >>= λ c.
      let rest = last_loop k h c.next in if c.next == null then Run.value p else rest

  -- `cur->next = node`
  abbrev pub set_next : Memory A → Ptr → Ptr → Run (Memory A)
  set_next h p q = node_at h p >>= λ c. Run.value (put h p (some (list_node c.data_of q)))

  abbrev pub put_last : LinkedList A → Ptr → A → Run (LinkedList A)
  put_last l fresh a =
      let h = put l.heap fresh (some (list_node a null)) in
      let behind : Run (LinkedList A) = last_loop (l.size + 1) h l.head >>= λ cur.
      set_next h cur fresh >>= λ h'.
      Run.value (record { heap = h'; head = l.head; size = l.size + 1 }) in
      if l.head == null
      then Run.value (record { heap = h; head = fresh; size = l.size + 1 })
      else behind

  unfoldable pub list_insert_tail : LinkedList A → Ptr → A → Run (LinkedList A)
  list_insert_tail l fresh a = if fresh == null then Run.value l else put_last l fresh a

  -- The cell that many steps behind.
  abbrev pub walk : ℕ → Memory A → Ptr → Run Ptr
  walk zero h p = Run.value p
  walk (suc i) h p = node_at h p >>= λ c. walk i h c.next

  abbrev pub put_behind : LinkedList A → Ptr → A → Ptr → Run (Bool × LinkedList A)
  put_behind l fresh a cur =
      let linked : Run (Bool × LinkedList A) = node_at l.heap cur >>= λ c.
      let h = put l.heap fresh (some (list_node a c.next)) in
      Run.value (
        true,
        record {
          heap = put h cur (some (list_node c.data_of fresh));
          head = l.head;
          size = l.size + 1;
        },
      ) in
      if fresh == null then Run.value (false, l) else linked

  -- true is 0.
  unfoldable pub list_insert_at : LinkedList A → ℕ → Ptr → A → Run (Bool × LinkedList A)
  unfolding list_insert_head
  list_insert_at l zero fresh a = Run.value (true, list_insert_head l fresh a)
  list_insert_at l (suc i) fresh a =
      let placed : Run (Bool × LinkedList A) = walk i l.heap l.head >>= put_behind l fresh a in
      if ltb l.size (suc i) then Run.value (false, l) else placed

  -- The loop of list_find over the rounds that are left.
  abbrev pub seek : (A → Bool) → ℕ → ℕ → Memory A → Ptr → Run (Option ℕ)
  seek is zero i h p = Run.value none
  seek is (suc k) i h p = node_at h p >>= λ c.
      let rest = seek is k (i + 1) h c.next in if is c.data_of then Run.value (some i) else rest

  unfoldable pub list_find : LinkedList A → (A → Bool) → Run (Option ℕ)
  list_find l is = seek is l.size 0 l.heap l.head

  unfoldable pub list_get : LinkedList A → ℕ → Run (Option A)
  list_get l index =
      let reached : Run (Option A) = walk index l.heap l.head >>= λ cur.
      node_at l.heap cur >>= λ c. Run.value (some c.data_of) in
      if leb l.size index then Run.value none else reached

  unfoldable pub list_remove_head : LinkedList A → Run (Bool × LinkedList A)
  list_remove_head l =
      let removed : Run (Bool × LinkedList A) = node_at l.heap l.head >>= λ c.
      Run.value
        (true, record { heap = put l.heap l.head none; head = c.next; size = l.size - 1 }) in
      if l.size == 0 then Run.value (false, l) else removed

  -- The cell behind the one at the address is taken out and freed.
  abbrev pub cut_behind : LinkedList A → Ptr → Run (Bool × LinkedList A)
  cut_behind l cur = node_at l.heap cur >>= λ c. node_at l.heap c.next >>= λ temp. Run.value (
    true,
    record {
      heap = put (put l.heap cur (some (list_node c.data_of temp.next))) c.next none;
      head = l.head;
      size = l.size - 1;
    },
  )

  -- `while (cur->next->next)`
  abbrev pub last_but_one : ℕ → Memory A → Ptr → Run Ptr
  last_but_one zero h p = Run.out_of_fuel
  last_but_one (suc k) h p = node_at h p >>= λ c. node_at h c.next >>= λ d.
      let rest = last_but_one k h c.next in if d.next == null then Run.value p else rest

  unfoldable pub list_remove_tail : LinkedList A → Run (Bool × LinkedList A)
  unfolding list_remove_head
  list_remove_tail l =
      if l.size == 0
      then Run.value (false, l)
      else if l.size == 1
      then list_remove_head l
      else last_but_one l.size l.heap l.head >>= cut_behind l

  unfoldable pub list_remove_at : LinkedList A → ℕ → Run (Bool × LinkedList A)
  unfolding list_remove_head
  list_remove_at l zero = if l.size == 0 then Run.value (false, l) else list_remove_head l
  list_remove_at l (suc i) =
      let removed : Run (Bool × LinkedList A) = walk i l.heap l.head >>= cut_behind l in
      if leb l.size (suc i) then Run.value (false, l) else removed

  abbrev remove_found : LinkedList A → Option ℕ → Run (Bool × LinkedList A)
  remove_found l none = Run.value (false, l)
  remove_found l (some index) = list_remove_at l index

  unfoldable pub list_remove_by_value : LinkedList A → (A → Bool) → Run (Bool × LinkedList A)
  unfolding list_find list_remove_at
  list_remove_by_value l is = list_find l is >>= remove_found l

  -- The data that the callback gets, in order.
  abbrev visit : ℕ → Memory A → Ptr → Run (List A)
  visit zero h p = Run.out_of_fuel
  visit (suc k) h p =
      let rest : Run (List A) =
        node_at h p >>= λ c. visit k h c.next >>= λ seen. Run.value (c.data_of ∷ seen) in
      if p == null then Run.value [] else rest

  unfoldable pub list_traverse : LinkedList A → Run (List A)
  list_traverse l = if l.size == 0 then Run.value [] else visit (l.size + 1) l.heap l.head

  unfoldable pub list_size : LinkedList A → ℕ
  list_size l = l.size

  abbrev free_loop : ℕ → Memory A → Ptr → Run (Memory A)
  free_loop zero h p = Run.out_of_fuel
  free_loop (suc k) h p =
      let rest : Run (Memory A) = node_at h p >>= λ c. free_loop k (put h p none) c.next in
      if p == null then Run.value h else rest

  unfoldable pub list_destroy : LinkedList A → Run (Memory A)
  list_destroy l = free_loop (l.size + 1) l.heap l.head
