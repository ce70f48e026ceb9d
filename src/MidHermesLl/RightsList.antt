-- ===== src/MidHermesLl/RightsList.antt =====
-- src/mid_hermes_ll/mid_hermes_ll_rights_list.c: a doubly linked list. The nodes stand in memory by
-- number, and NULL is `none`. A function that follows a NULL pointer, or one to no node, has no result.
-- Freeing is not modelled.
pub mod Walk
use hermes_core.Prelude.{
  ℕ, zero, suc, ◌+◌, ◌-◌, ◌%◌, ◌^◌, Bool, true, false, not, ◌&&◌, Option, none, some, if◌then◌else◌,
  ◌==◌,
}
use hermes_core.MidHermesLl.Block.Rights.{RightsNode}

pub record Node : Type 0 where
  pub prev : Option ℕ
  pub next : Option ℕ
  pub rights : RightsNode

pub record RightsList : Type 0 where
  pub head : Option ℕ
  pub tail : Option ℕ
  pub len : ℕ

abbrev pub Memory : Type 0
Memory = ℕ → Option Node

abbrev pub put : ℕ → Node → Memory → Memory
put a n m b = if a == b then some n else m b

abbrev pub put_next : ℕ → Option ℕ → Option Node → Memory → Option Memory
put_next a next none m = none
put_next a next (some n) m = some (put a (record n { next = next }) m)

abbrev pub put_prev : ℕ → Option ℕ → Option Node → Memory → Option Memory
put_prev a prev none m = none
put_prev a prev (some n) m = some (put a (record n { prev = prev }) m)

-- `p->next = q` and `p->prev = q`.
abbrev pub set_next : Option ℕ → Option ℕ → Memory → Option Memory
set_next none next m = none
set_next (some a) next m = put_next a next (m a) m

abbrev pub set_prev : Option ℕ → Option ℕ → Memory → Option Memory
set_prev none prev m = none
set_prev (some a) prev m = put_prev a prev (m a) m

unfoldable pub rights_list_create : RightsList
rights_list_create = record { head = none; tail = none; len = 0 }

abbrev pub with_list : RightsList → Option Memory → Option (RightsList × Memory)
with_list list none = none
with_list list (some m) = some (list, m)

abbrev pub then_set : Option Memory → (Memory → Option Memory) → Option Memory
then_set none f = none
then_set (some m) f = f m

unfoldable pub rights_list_rpush : RightsList → ℕ → Memory → Option (RightsList × Memory)
rights_list_rpush list node m =
    if not (list.len == 0)
    then with_list (record list { tail = some node; len = (list.len + 1) % 2 ^ 64 })
        (then_set (set_prev (some node) list.tail m)
          λ m. then_set (set_next (some node) none m) λ m. set_next list.tail (some node) m)
    else with_list (record { head = some node; tail = some node; len = (list.len + 1) % 2 ^ 64 })
        (then_set (set_prev (some node) none m) λ m. set_next (some node) none m)

-- The iterator is the node that comes next: what it gives, and where it stands then.
abbrev pub stepped : ℕ → Option Node → Option (Option ℕ × Option ℕ)
stepped a none = none
stepped a (some n) = some (some a, n.next)

unfoldable pub rights_list_iterator_create : RightsList → Option ℕ
rights_list_iterator_create list = list.head

unfoldable pub rights_list_iterator_next : Option ℕ → Memory → Option (Option ℕ × Option ℕ)
rights_list_iterator_next none m = some (none, none)
rights_list_iterator_next (some a) m = stepped a (m a)

abbrev pub next_of : ℕ → Memory → Option (Option ℕ × Option ℕ)
next_of node m = elim (m node) [ none ↦ none | some n ↦ some (n.prev, n.next) ]

abbrev pub cleared : RightsList → ℕ → Option Memory → Option (Option ℕ × RightsList × Memory)
cleared list node none = none
cleared list node (some m) =
    elim (then_set (set_next (some node) none m) (set_prev (some node) none)) [
      | none ↦ none
      | some m' ↦ some (some node, list, m')
    ]

abbrev pub popped :
    RightsList
    → ℕ
    → ℕ
    → Option (Option ℕ × Option ℕ)
    → Memory
    → Option (Option ℕ × RightsList × Memory)
popped list node left none m = none
popped list node left (some (prev, next)) m =
    if not (left == 0)
    then cleared (record list { tail = prev; len = left }) node (set_next prev none m)
    else cleared (record list { tail = none; len = left }) node (set_prev (some node) none m)

-- The last node leaves the list; the head of a list of one node is kept.
unfoldable pub rights_list_rpop : RightsList → Memory → Option (Option ℕ × RightsList × Memory)
rights_list_rpop list m = if list.len == 0 then some (none, list, m) else elim list.tail [
  | none ↦ none
  | some node ↦ popped list node (list.len - 1) (next_of node m) m
]

abbrev pub unlinked_next :
    RightsList → Option ℕ → Option ℕ → Option Memory → Option (RightsList × Memory)
unlinked_next list prev next none = none
unlinked_next list prev none (some m) = some (record list { tail = prev }, m)
unlinked_next list prev (some a) (some m) = with_list list (set_prev (some a) prev m)

abbrev pub unlinked :
    RightsList → Option (Option ℕ × Option ℕ) → Memory → Option (RightsList × Memory)
unlinked list none m = none
unlinked list (some (none, next)) m = unlinked_next (record list { head = next }) none next (some m)
unlinked list (some (some a, next)) m = unlinked_next list (some a) next (set_next (some a) next m)

abbrev pub one_less : Option (RightsList × Memory) → Option (RightsList × Memory)
one_less none = none
one_less (some (list, m)) = some (record list { len = (list.len + (2 ^ 64 - 1)) % 2 ^ 64 }, m)

unfoldable pub rights_list_remove : RightsList → ℕ → Memory → Option (RightsList × Memory)
rights_list_remove list node m = one_less (unlinked list (next_of node m) m)
