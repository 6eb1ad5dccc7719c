-- ===== src/LinkedList.antt =====
-- code/hlib/include/list.hpp: `hlib::list<T, StoreErased>`, a doubly linked list that can keep the
-- nodes it erased for reuse. An iterator is the pointer to its node. The three pointers of the list
-- object are passed in and out; the nodes are in memory. `fresh` is what `new node` returns.
pub mod Shape
pub mod Taken
pub mod Push
pub mod Erase
pub mod EraseIf
pub mod Destroy
pub mod Values
mod Tests
use hry_os.Base.{ℕ, zero, suc, Bool, true, false, not, ◌&&◌, ◌||◌, none, some, ◌==◌, if◌then◌else◌}
use hry_os.Memory.{Ptr, null, Memory, Cmd, out_of_fuel, pure, ◌>>=◌, ◌>>◌, store, load, modify}

pub record Node (T : Type 0) : Type 0 where
  pub next : Ptr
  pub prev : Ptr
  pub value : T

abbrev pub node : {T : Type 0} → Ptr → Ptr → T → Node T
node p n v = record { next = n; prev = p; value = v }

pub record LinkedList : Type 0 where
  pub head : Ptr
  pub tail : Ptr
  pub free : Ptr

abbrev pub empty_list : LinkedList
empty_list = record { head = null; tail = null; free = null }

module _ {T : Type 0} where
  pub join : Ptr → Ptr → Cmd (Node T) (Unit {0})
  join left right = do
    modify left (λ n. record n { next = right })
    modify right (λ n. record n { prev = left })

  pub begin : LinkedList → Cmd (Node T) Ptr
  begin l = pure l.head

  pub end : LinkedList → Cmd (Node T) Ptr
  end l = if l.tail == null then pure null else do n ← load l.tail; pure n.next

  -- The const overload has no test for the empty list.
  pub end_const : LinkedList → Cmd (Node T) Ptr
  end_const l = do n ← load l.tail; pure n.next

  pub front : LinkedList → Cmd (Node T) T
  front l = do n ← load l.head; pure n.value

  pub back : LinkedList → Cmd (Node T) T
  back l = do n ← load l.tail; pure n.value

  pub destroy_loop : ℕ → Ptr → Cmd (Node T) (Unit {0})
  destroy_loop zero curr = λ _. out_of_fuel
  destroy_loop (suc k) curr =
      if curr == null then pure tt else do n ← load curr; store curr none; destroy_loop k n.next

  -- `~list`
  pub destroy : ℕ → LinkedList → Cmd (Node T) LinkedList
  unfolding destroy_loop
  destroy fuel l = do destroy_loop fuel l.head; pure (record l { head = null; tail = null })

pub empty : LinkedList → Bool
empty l = (l.head == null) || (l.tail == null)

module _ {T : Type 0} (store_erased : Bool) where
  pub get_free_node : Ptr → T → LinkedList → Cmd (Node T) (Ptr × LinkedList)
  get_free_node fresh value l =
      if store_erased && not (l.free == null)
      then (do
        result ← load l.free
        store l.free (some (node null null value))
        pure (l.free, record l { free = result.next }))
      else (do store fresh (some (node null null value)); pure (fresh, l))

  pub push_back : Ptr → T → LinkedList → Cmd (Node T) (Ptr × LinkedList)
  unfolding get_free_node join
  push_back fresh value l = do
    (n, l) ← get_free_node fresh value l
    if l.tail == null
        then pure (n, record l { head = n; tail = n })
        else (do join l.tail n; pure (n, record l { tail = n }))

  pub push_front : Ptr → T → LinkedList → Cmd (Node T) (Ptr × LinkedList)
  unfolding get_free_node join
  push_front fresh value l = do
    (n, l) ← get_free_node fresh value l
    if l.head == null
        then pure (n, record l { tail = n; head = n })
        else (do join n l.head; pure (n, record l { head = n }))

  -- What becomes of the node that `erase` has unlinked.
  pub drop_node : Ptr → LinkedList → Cmd (Node T) LinkedList
  drop_node n l =
      if store_erased
      then (do
        modify n (λ m. record m { next = l.free; prev = null })
        pure (record l { free = n }))
      else (do store n none; pure l)

  pub erase : Ptr → LinkedList → Cmd (Node T) LinkedList
  unfolding drop_node
  erase n l = do
    m ← load n
    if m.next == null then pure tt else modify m.next (λ x. record x { prev = m.prev })
    if m.prev == null then pure tt else modify m.prev (λ x. record x { next = m.next })
    drop_node n (record l {
      head = if n == l.head then m.next else l.head;
      tail = if n == l.tail then m.prev else l.tail;
    })

  pub pop_front : LinkedList → Cmd (Node T) LinkedList
  unfolding erase
  pop_front l = erase l.head l

  pub pop_back : LinkedList → Cmd (Node T) LinkedList
  unfolding erase
  pop_back l = erase l.tail l

  -- The predicate may change state `S` of its own, which holds no node of this list.
  pub erase_if_loop :
      {S : Type 0} → ℕ → (T → S → Bool × S) → Ptr → LinkedList → S → Cmd (Node T) (LinkedList × S)
  unfolding end erase
  erase_if_loop zero func it l s = λ _. out_of_fuel
  erase_if_loop (suc k) func it l s = do
    e ← end l
    if it == e then pure (l, s) else do
      n ← load it
      let (hit, s') = func n.value s
      l' ← if hit then erase it l else pure l
      erase_if_loop k func n.next l' s'

  pub erase_if :
      {S : Type 0} → ℕ → (T → S → Bool × S) → LinkedList → S → Cmd (Node T) (LinkedList × S)
  unfolding erase_if_loop
  erase_if fuel func l s = erase_if_loop fuel func l.head l s
