-- ===== src/List/Store.antt =====
-- The shared text of the three versions of list.c in task2/2.3. `L` is the type of the lock in a
-- node; the functions of this file are those of the source with the lock as a parameter.
use osi.Base.{
  ℕ, zero, suc, ◌-◌, ◌^◌, Option, none, some, List, ◌==◌, if◌then◌else◌, inc_int, dec_int, le_int,
  leb, length,
}
use osi.Chain
use osi.Chain.{Ptr, null, node, write}
use osi.Machine.{Cmd, ok, stop, fault, aborted, no_fuel, pure, ◌>>=◌, ◌>>◌, modify, read, assert}

-- `lnode_t` without `next`
pub record Item (L : Type 0) : Type 0 where
  pub val : ℕ
  pub string : List ℕ
  pub lock : L

-- `list_t` without the thread id of the monitor
pub record Lists : Type 0 where
  pub first : Ptr
  pub last : Ptr
  pub count_equal : ℕ
  pub count_less : ℕ
  pub count_more : ℕ
  pub count : ℕ
  pub max_count : ℕ
  pub swap_count : ℕ

pub record State (L : Type 0) : Type 0 where
  pub heap : Chain.Heap (Item L)
  pub list : Lists

-- The room of `char string[100]`
abbrev pub string_size : ℕ
string_size = 100

-- -1, as an `int`
abbrev pub minus_one : ℕ
minus_one = 2 ^ 32 - 1

-- What `list_print_stats` prints: what it calls the current size, and four counts
pub record Stats : Type 0 where
  pub size : ℕ
  pub swaps : ℕ
  pub more : ℕ
  pub less : ℕ
  pub equal : ℕ

module _ {L : Type 0} where
  abbrev pub set_list : (Lists → Lists) → Cmd (State L) (Unit {0})
  set_list f = modify λ s. record s { list = f s.list }

  abbrev pub get_list : Cmd (State L) Lists
  get_list = read λ s. s.list

  abbrev found : Option (Chain.Node (Item L)) → Cmd (State L) (Chain.Node (Item L))
  found none s = stop fault
  found (some n) s = ok n s

  unfoldable pub load : Ptr → Cmd (State L) (Chain.Node (Item L))
  load p s = if p == null then stop fault else found (s.heap p) s

  abbrev pub store : Ptr → Option (Chain.Node (Item L)) → Cmd (State L) (Unit {0})
  store p c = modify λ s. record s { heap = write s.heap p c }

  -- `p->next = q`
  unfoldable pub set_next : Ptr → Ptr → Cmd (State L) (Unit {0})
  unfolding load
  set_next p q = load p >>= λ n. store p (some (record n { next = q }))

  unfoldable pub free : Ptr → Cmd (State L) (Unit {0})
  unfolding load
  free p = load p >> store p none

  -- `swap_count` is not among the fields that are set.
  unfoldable pub list_init : (allocated : ℕ) (err max_count : ℕ) → Cmd (State L) (Unit {0})
  list_init allocated err max_count = if allocated == null then (λ _. stop aborted) else do
    set_list (λ l. record l { first = null })
    set_list (λ l. record l { last = null })
    set_list (λ l. record l { count_equal = 0 })
    set_list (λ l. record l { count_less = 0 })
    set_list (λ l. record l { count_more = 0 })
    set_list (λ l. record l { max_count = max_count })
    set_list (λ l. record l { count = 0 })
    if err == 0 then pure tt else (λ _. stop aborted)

  -- `list_get(q, &val)`: the answer, and what it leaves in `val`
  unfoldable pub list_get : (val : ℕ) → Cmd (State L) (ℕ × ℕ)
  unfolding load free
  list_get val = do
    assert (λ s. le_int 0 s.list.count)
    l ← get_list
    if l.count == 0 then pure (0, val) else do
      n ← load l.first
      m ← load l.first
      set_list (λ l. record l { first = m.next })
      free l.first
      pure (1, n.val.val)

  unfoldable pub list_get_first : (val : ℕ) → Cmd (State L) (ℕ × ℕ)
  unfolding load free
  list_get_first val = do
    assert (λ s. le_int 0 s.list.count)
    l ← get_list
    if l.count == 0 then pure (0, val) else do
      n ← load l.first
      m ← load l.first
      set_list (λ l. record l { first = m.next })
      free l.first
      set_list (λ l. record l { count = dec_int l.count })
      pure (1, n.val.val)

  unfoldable pub list_destroy : (fuel : ℕ) → Cmd (State L) (Unit {0})
  unfolding list_get
  list_destroy zero = λ _. stop no_fuel
  list_destroy (suc fuel) = do
    l ← get_list
    if l.first == null then pure tt else do list_get minus_one; list_destroy fuel

  unfoldable pub link_last : Ptr → Cmd (State L) (Unit {0})
  unfolding load set_next
  link_last new = do
    l ← get_list
    if l.first == null
        then set_list (λ l. record l { first = new; last = new })
        else do set_next l.last new; n ← load l.last; set_list (λ l. record l { last = n.next })

  -- `malloc` has answered `fresh`, with `junk` in the field `val`, which nothing sets. A string that
  -- does not fit is copied over the rest of the node, which is undefined.
  unfoldable pub list_add_last : (unlocked : L) (fresh junk : ℕ) (str : List ℕ) → Cmd (State L) ℕ
  unfolding link_last
  list_add_last unlocked fresh junk str = do
    assert (λ s. le_int s.list.count s.list.max_count)
    l ← get_list
    if l.count == l.max_count
        then pure 0
        else if fresh == null
        then (λ _. stop aborted)
        else if leb string_size (length str)
        then (λ _. stop fault)
        else do
          store fresh (some (node (record { val = junk; string = str; lock = unlocked }) null))
          link_last fresh
          set_list (λ l. record l { count = inc_int l.count })
          pure 1

  unfoldable pub swap_nodes : (first second parent : Ptr) → Cmd (State L) (Unit {0})
  unfolding load set_next
  swap_nodes first second parent = do
    set_next parent second
    n ← load second
    set_next first n.next
    set_next second first

  unfoldable pub list_print_stats : Cmd (State L) Stats
  list_print_stats = do
    l ← get_list
    pure (record {
      size = l.max_count;
      swaps = l.swap_count;
      more = l.count_more;
      less = l.count_less;
      equal = l.count_equal;
    })
