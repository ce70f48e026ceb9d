-- ===== src/MidHermesLl/RightsList/Walk.antt =====
-- What the iterator of a rights list visits (src/mid_hermes_ll/mid_hermes_ll_rights_list.c).
use hermes_core.Prelude.{
  ℕ, zero, suc, ◌≡◌, ◌<◌, refl, Option, none, some, List, [], ◌∷◌, length, arith,
}
use hermes_core.MidHermesLl.RightsList.{Node, Memory, rights_list_iterator_next}

-- From a pointer, the `next` pointers lead over these nodes to NULL.
pub data Linked (m : Memory) : Option ℕ → List ℕ → Type 0 where
  at_end : Linked m none []
  at_node :
      (a : ℕ) (n : Node) (rest : List ℕ)
      → m a ≡ some n
      → Linked m n.next rest
      → Linked m (some a) (a ∷ rest)

-- `while ((node = mid_hermes_ll_rights_list_iterator_next(iterator)))`, with fuel.
abbrev pub visited : Option (Option ℕ × Option ℕ) → (Option ℕ → Option (List ℕ)) → Option (List ℕ)
visited none rest = none
visited (some (none, next)) rest = some []
visited (some (some a, next)) rest = elim (rest next) [
  | none ↦ none
  | some others ↦ some (a ∷ others)
]

unfoldable pub walk : ℕ → Option ℕ → Memory → Option (List ℕ)
walk zero at m = none
walk (suc fuel) at m = visited (rights_list_iterator_next at m) (λ next. walk fuel next m)

-- The iterator visits the linked nodes, in order, and ends.
pub walk-Linked :
    (fuel : ℕ) (at : Option ℕ) (m : Memory) (nodes : List ℕ)
    → Linked m at nodes
    → length nodes < fuel
    → walk fuel at m ≡ some nodes
unfolding walk rights_list_iterator_next
walk-Linked zero at m nodes l h = absurd (omega (arith, h))
walk-Linked (suc fuel) none m [] at_end h = refl
walk-Linked (suc fuel) none m (a' ∷ rest) l h = elim l [ ]
walk-Linked (suc fuel) (some a) m [] l h = elim l [ ]
walk-Linked (suc fuel) (some a) m (a' ∷ rest) (at_node _ n _ e l) h =
    rw (e, walk-Linked fuel n.next m rest l (omega (arith, h))) refl
