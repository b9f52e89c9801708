-- ===== src/Topological.antt =====
-- utils/sorts/topological.go: items with dependencies in an order. A map is the list of its entries,
-- and a pointer to a node is the index under which `nodes` holds it. `order` is the order in which the
-- last range loop visits the entries. A visit runs on fuel, one more than the number of nodes; without
-- fuel it panics.
pub mod Visit
pub mod Ends
pub mod Build
pub mod Graph
pub mod Items
pub mod Order
pub mod Ranked
pub mod Count
pub mod Sorts
mod Tests
use mathlib.Core.List.{lookup}
use mathlib.Core.Logic.{ite}
use minotaur.Base.{
  ℕ, zero, suc, List, [], ◌∷◌, ◌++◌, Bool, true, false, same, not, Option, some, none,
  if◌then◌else◌, ◌==◌, length, map, Go, ret, panic, ◌>>=◌,
}
use minotaur.SyncMap.{put_entry}

pub data Sorting (V : Type 0) : Type 0 where
  sorted_as : List V → Sorting V
  err_circular_dependency_detected : Sorting V

-- `topologicalNode`
pub record Node (I V : Type 0) : Type 0 where
  pub value : V
  pub depends_on : List I
  pub dependents : List I

-- The variables `visited` and `sorted`.
pub record Progress (I V : Type 0) : Type 0 where
  pub visited : List I
  pub sorted : List V

-- A loop over a list whose body may panic.
unfoldable pub each_in {ℓ κ} : {S : Type ℓ} {A : Type κ} → (S → A → Go S) → S → List A → Go S
each_in body s [] = ret s
each_in body s (a ∷ as') = body s a >>= λ s'. each_in body s' as'

module _ {I : Type 0} (dec : Discrete I) where
  unfoldable pub is_visited : I → List I → Bool
  is_visited i [] = false
  is_visited i (j ∷ js) = if same dec i j then true else is_visited i js

module _ {I V : Type 0} (dec : Discrete I) where
  -- The first loop, which makes a node for each item.
  unfoldable pub add_nodes : (V → I) → List V → List (I × Node I V) → List (I × Node I V)
  unfolding put_entry
  add_nodes query_index [] nodes = nodes
  add_nodes query_index (item ∷ slice) nodes = add_nodes query_index slice (
      put_entry dec (query_index item) (record { value = item; depends_on = []; dependents = [] })
        nodes)

  -- `node.dependsOn` and `node.dependents` of the node at `depend`, if there is one.
  unfoldable pub add_depend : I → I → List (I × Node I V) → List (I × Node I V)
  add_depend depend i [] = []
  add_depend depend i ((j, node) ∷ nodes) =
      ite (dec depend j)
        ((
          j,
          record node {
            depends_on = node.depends_on ++ i ∷ [];
            dependents = node.dependents ++ i ∷ [];
          },
        )
          ∷ nodes)
        ((j, node) ∷ add_depend depend i nodes)

  unfoldable pub add_depends : List I → I → List (I × Node I V) → List (I × Node I V)
  unfolding add_depend
  add_depends [] i nodes = nodes
  add_depends (depend ∷ depends) i nodes = add_depends depends i (add_depend depend i nodes)

  -- The second loop.
  unfoldable pub connect :
      (V → I) → (V → List I) → List V → List (I × Node I V) → List (I × Node I V)
  unfolding add_depends
  connect query_index query_depends [] nodes = nodes
  connect query_index query_depends (item ∷ slice) nodes =
      connect query_index query_depends slice
        (add_depends (query_depends item) (query_index item) nodes)

  unfoldable pub nodes_of : (V → I) → (V → List I) → List V → List (I × Node I V)
  unfolding add_nodes connect
  nodes_of query_index query_depends slice =
      connect query_index query_depends slice (add_nodes query_index slice [])

  -- `visit`. The node of `i` is `nodes[i]`.
  unfoldable pub visit : List (I × Node I V) → ℕ → Progress I V → I → Go (Progress I V)
  unfolding lookup is_visited each_in
  visit nodes zero s i = panic
  visit nodes (suc fuel) s i = elim (lookup dec i nodes) [
    | none ↦ panic
    | some node ↦ elim (is_visited dec i s.visited) [
      | true ↦ ret s
      | false ↦
          each_in (visit nodes fuel) (record s { visited = i ∷ s.visited }) node.depends_on
          >>= λ s'. ret (record s' { sorted = s'.sorted ++ node.value ∷ [] })
    ]
  ]

  unfoldable pub topological : (V → I) → (V → List I) → List V → List I → Go (Sorting V)
  unfolding nodes_of visit each_in
  topological query_index query_depends slice order =
      let nodes = nodes_of query_index query_depends slice in
      each_in (visit nodes (suc (length nodes))) (record { visited = []; sorted = [] }) order
      >>= λ s. ret (
          if not (length s.sorted == length slice)
          then err_circular_dependency_detected
          else sorted_as s.sorted)
