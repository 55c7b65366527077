-- ===== src/Nodes.antt =====
-- The list of known nodes of src/wtsl_core/slal/node/wtsl_core_node_list.c on an explicit heap:
-- cells with a node and the address of the next cell, and the list head with head, tail and count.
-- What malloc returns is an input. The interface table of a node, which only its callers read, is
-- not on the heap. Loops run on fuel and are given one round more than the count.
pub mod Links
pub mod Tail
mod Destroy
mod Examples
pub mod Service
pub mod Cut
pub mod Remove
pub mod Search
use wtsl_app.Base.{
  to_lower, ℕ, zero, suc, ◌+◌, ◌-◌, Bool, true, false, Option, none, some, List, ◌==◌,
  if◌then◌else◌, map, leb, ◌&&◌, Text, starts_with, c_string, text_eq,
}

abbrev pub Ptr : Type 0
Ptr = ℕ

abbrev pub null : Ptr
null = 0

-- Of WTSLNodeInfo the bytes of `mac`, and the other bytes.
pub record NodeInfo : Type 0 where
  pub mac : List ℕ
  pub others : List ℕ

pub record WtslNode : Type 0 where
  pub id : ℕ
  pub active : Bool
  pub last_heartbeat : ℕ
  pub addr : List ℕ
  pub info : NodeInfo

pub record Cell : Type 0 where
  pub node : WtslNode
  pub next : Ptr

abbrev pub cell : WtslNode → Ptr → Cell
cell n q = record { node = n; next = q }

abbrev pub Heap : Type 0
Heap = Ptr → Option Cell

abbrev pub write : Heap → Ptr → Option Cell → Heap
write h p c a = if a == p then c else h a

pub record NodeList : Type 0 where
  pub heap : Heap
  pub head : Ptr
  pub tail : Ptr
  pub node_count : ℕ

-- fault is a read at NULL or at an address that holds no cell.
pub data Run (A : Type 0) : Type 0 where
  value : A → Run A
  fault : Run A
  out_of_fuel : Run A

infixl 5 ◌>>=◌
abbrev pub ◌>>=◌ : {A B : Type 0} → Run A → (A → Run B) → Run B
value a >>= f = f a
fault >>= f = fault
out_of_fuel >>= f = out_of_fuel

abbrev of_cell : Option Cell → Run Cell
of_cell none = fault
of_cell (some c) = value c

abbrev pub load : Heap → Ptr → Run Cell
load h p = if p == null then fault else of_cell (h p)

pub create_wtsl_node_list : Heap → NodeList
create_wtsl_node_list h = record { heap = h; head = null; tail = null; node_count = 0 }

-- The cell in front of which nothing stands, or the one behind the last.
pub link_tail : NodeList → Ptr → WtslNode → Run NodeList
link_tail l fresh n =
    let h = write l.heap fresh (some (cell n null)) in
    let first : NodeList = record l {
      heap = h;
      head = fresh;
      tail = fresh;
      node_count = l.node_count + 1;
    } in
    let behind : Run NodeList = load h l.tail >>= λ last. value (record l {
      heap = write h l.tail (some (cell last.node fresh));
      tail = fresh;
      node_count = l.node_count + 1;
    }) in
    if l.head == null then value first else behind

-- `fresh` is the cell that malloc gives.
pub add_wtsl_node_to_list_tail : NodeList → Ptr → WtslNode → Run (Bool × NodeList)
unfolding link_tail
add_wtsl_node_to_list_tail l fresh n =
    let added : Run (Bool × NodeList) = link_tail l fresh n >>= λ l'. value (true, l') in
    if fresh == null then value (false, l) else added

pub add_wtsl_node_to_list_head : NodeList → Ptr → WtslNode → Run (Bool × NodeList)
add_wtsl_node_to_list_head l fresh n =
    let added : NodeList = record {
      heap = write l.heap fresh (some (cell n l.head));
      head = fresh;
      tail = if l.tail == null then fresh else l.tail;
      node_count = l.node_count + 1;
    } in
    if fresh == null then value (false, l) else value (true, added)

count_loop : ℕ → Heap → Ptr → ℕ → Run ℕ
count_loop zero h p count = out_of_fuel
count_loop (suc k) h p count =
    let rest : Run ℕ =
      load h p >>= λ c. count_loop k h c.next (if c.node.active then count + 1 else count) in
    if p == null then value count else rest

pub get_active_wtsl_node_count : NodeList → Run ℕ
unfolding count_loop
get_active_wtsl_node_count l = count_loop (l.node_count + 1) l.heap l.head 0

-- The loop of the four searches: the address of the first node that passes the test.
pub find_loop : (WtslNode → Bool) → ℕ → Heap → Ptr → Run (Option Ptr)
find_loop test zero h p = out_of_fuel
find_loop test (suc k) h p =
    let rest : Run (Option Ptr) = load h p >>= λ c.
    let further = find_loop test k h c.next in if test c.node then value (some p) else further in
    if p == null then value none else rest

abbrev find : (WtslNode → Bool) → NodeList → Run (Option Ptr)
find test l = find_loop test (l.node_count + 1) l.heap l.head

unfoldable pub find_wtsl_node_by_id : NodeList → ℕ → Run (Option Ptr)
unfolding find_loop
find_wtsl_node_by_id l id = find (λ n. n.id == id) l

-- `strncasecmp(node_mac, mac, strlen(mac)) == 0`
abbrev pub has_mac_prefix : Text → WtslNode → Bool
has_mac_prefix mac n = starts_with (map to_lower mac) (map to_lower (c_string n.info.mac))

pub find_wtsl_node_by_mac : NodeList → Text → Run (Option Ptr)
unfolding find_loop c_string
find_wtsl_node_by_mac l mac = find (has_mac_prefix mac) l

-- The cell before the first node with the id, NULL if there is none, and that node's cell.
delete_loop : ℕ → Heap → ℕ → Ptr → Ptr → Run (Option (Ptr × Ptr))
delete_loop zero h id prev p = out_of_fuel
delete_loop (suc k) h id prev p =
    let rest : Run (Option (Ptr × Ptr)) = load h p >>= λ c.
    let further = delete_loop k h id p c.next in
    if c.node.id == id then value (some (prev, p)) else further in
    if p == null then value none else rest

-- The cell is taken out of the list and freed.
pub unlink : NodeList → Ptr → Ptr → Run NodeList
unlink l prev p = load l.heap p >>= λ c.
    let tail : Ptr = if l.tail == p then prev else l.tail in
    let front : Run NodeList = value (record {
      heap = write l.heap p none;
      head = c.next;
      tail = tail;
      node_count = l.node_count - 1;
    }) in
    let inside : Run NodeList = load l.heap prev >>= λ before. value (record {
      heap = write (write l.heap prev (some (cell before.node c.next))) p none;
      head = l.head;
      tail = tail;
      node_count = l.node_count - 1;
    }) in
    if prev == null then front else inside

abbrev delete_located : NodeList → Option (Ptr × Ptr) → Run (Bool × NodeList)
delete_located l none = value (false, l)
delete_located l (some (prev, p)) = unlink l prev p >>= λ l'. value (true, l')

pub delete_wtsl_node_by_id : NodeList → ℕ → Run (Bool × NodeList)
unfolding delete_loop unlink
delete_wtsl_node_by_id l id =
    let deleted : Run (Bool × NodeList) =
      delete_loop (l.node_count + 1) l.heap id null l.head >>= delete_located l in
    if l.head == null then value (false, l) else deleted

-- `*p` is overwritten in place.
unfoldable pub set_node : NodeList → Ptr → (WtslNode → WtslNode) → Run NodeList
set_node l p f = load l.heap p >>= λ c.
    value (record l { heap = write l.heap p (some (cell (f c.node) c.next)) })

abbrev at_found : NodeList → (WtslNode → WtslNode) → Option Ptr → Run (Bool × NodeList)
at_found l f none = value (false, l)
at_found l f (some p) = set_node l p f >>= λ l'. value (true, l')

pub update_wtsl_node_heartbeat : NodeList → ℕ → ℕ → Run (Bool × NodeList)
unfolding find_wtsl_node_by_id set_node
update_wtsl_node_heartbeat l id now =
    find_wtsl_node_by_id l id >>= at_found l (λ n. record n { last_heartbeat = now; active = true })

pub update_wtsl_node : NodeList → WtslNode → Run (Bool × NodeList)
unfolding find_wtsl_node_by_mac set_node
update_wtsl_node l n = find_wtsl_node_by_mac l (c_string n.info.mac) >>= at_found l (λ old. n)

-- Only the basic info is copied; `info` is taken to hold nothing else here.
pub update_wtsl_node_basicinfo : NodeList → NodeInfo → Run (Bool × NodeList)
unfolding find_wtsl_node_by_mac set_node
update_wtsl_node_basicinfo l info =
    find_wtsl_node_by_mac l (c_string info.mac) >>= at_found l (λ n. record n { info = info })

-- The cells in the order in which they are freed.
destroy_loop : ℕ → Heap → Ptr → Run Heap
destroy_loop zero h p = out_of_fuel
destroy_loop (suc k) h p =
    let rest : Run Heap = load h p >>= λ c. destroy_loop k (write h p none) c.next in
    if p == null then value h else rest

pub destroy_wtsl_node_list : NodeList → Run Heap
unfolding destroy_loop
destroy_wtsl_node_list l = destroy_loop (l.node_count + 1) l.heap l.head
