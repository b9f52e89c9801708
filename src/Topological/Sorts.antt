-- ===== src/Topological/Sorts.antt =====
-- utils/sorts/topological.go: what Topological returns.
use mathlib.Core.List.{Memᴰ}
use mathlib.Core.List.Memᴰ
use mathlib.Core.Logic.{◌↔◌}
use minotaur.Base.{
  ℕ, suc, ◌<◌, List, [], ◌∷◌, ◌++◌, not, if◌then◌else◌, length, map, ret, ◌>>=◌, ◌≡◌, refl, sym, ap,
  ◌∙◌, subst, arith, ◌==◌, eq→==, ne→==,
}
use minotaur.Topological.{
  Node, Progress, Sorting, sorted_as, err_circular_dependency_detected, nodes_of, each_in, visit,
  topological, is_visited,
}
use minotaur.Topological.Visit.{Distinct, unvisited, mem-is_visited}
use minotaur.Topological.Ends.{indices, each_ends, visit_ends, HasVisited}
use minotaur.Topological.Build.{lookup-AllNodes}
use minotaur.Topological.Items.{IsItem, nodes_of-IsItem, index_mem, mem_index, nodes_of-IsGraph}
use minotaur.Topological.Order.{DependentsFirst, index_injective}
use minotaur.Topological.Ranked.{each-Orders, visit-Orders}
use minotaur.Topological.Count.{length-nodes_of_same, nodes_of_repeat, length-indices}

module _ {I : Type 0} (dec : Discrete I) where
  unvisited_start : (ks : List I) → unvisited dec [] ks ≡ length ks
  unfolding is_visited
  unvisited_start [] = refl
  unvisited_start (k ∷ ks) = ap suc (unvisited_start ks)

  unvisited_end :
      (visited ks : List I) → ((j : I) → Memᴰ j ks → Memᴰ j visited) → unvisited dec visited ks ≡ 0
  unvisited_end visited [] h = refl
  unvisited_end visited (k ∷ ks) h =
      let seen = mem-is_visited dec k visited (h k (Memᴰ.head refl)) in
      rw seen (unvisited_end visited ks (λ j m. h j (Memᴰ.tail m)))

nothing_held : {V : Type 0} (xs ys : List V) (y : V) → ¬ ([] ≡ xs ++ y ∷ ys)
nothing_held [] ys y h = cc
nothing_held (x ∷ xs) ys y h = cc

module _ {I V : Type 0} (dec : Discrete I) (query_index : V → I) (query_depends : V → List I)
    (items : List V) where
  abbrev start : Progress I V
  start = record { visited = []; sorted = [] }

  abbrev nodes : List (I × Node I V)
  nodes = nodes_of dec query_index query_depends items

  abbrev Ended : List I → Type 0
  Ended order =
      (s : Progress I V) × (each_in (visit dec nodes (suc (length nodes))) start order ≡ ret s)
      × HasVisited dec nodes (nodes_of-IsGraph dec query_index query_depends items) order start s

  topological_runs :
      (order : List I) → ((j : I) → Memᴰ j order → Memᴰ j (map query_index items)) → Ended order
  topological_runs order inside =
      each_ends dec nodes (nodes_of-IsGraph dec query_index query_depends items)
        (visit dec nodes (suc (length nodes))) (length nodes)
        (visit_ends dec nodes (nodes_of-IsGraph dec query_index query_depends items) (length nodes))
        order start
        (λ j m.
          let (item, k, e) = Memᴰ.of_map query_index items (inside j m) in
          subst (λ j. Memᴰ j (indices dec nodes)) e
            (index_mem dec query_index query_depends items item k))
        (omega (
          arith,
          unvisited_start dec (indices dec nodes),
          length-indices dec query_index query_depends items,
        ))

  abbrev result : Progress I V → Sorting V
  result s =
      if not (length s.sorted == length items)
      then err_circular_dependency_detected
      else sorted_as s.sorted

  topological-result :
      (order : List I) (s : Progress I V)
      → each_in (visit dec nodes (suc (length nodes))) start order ≡ ret s
      → topological dec query_index query_depends items order ≡ ret (result s)
  unfolding topological
  topological-result order s e = ap (λ r. r >>= λ s. ret (result s)) e

  -- Topological returns, whatever the items are, if the range loop visits nothing but entries.
  pub topological_returns :
      (order : List I)
      → ((j : I) → Memᴰ j order → Memᴰ j (map query_index items))
      → (r : Sorting V) × (topological dec query_index query_depends items order ≡ ret r)
  topological_returns order inside =
      let (s, e, _) = topological_runs order inside in (result s, topological-result order s e)

  all_sorted :
      (order : List I) (s : Progress I V)
      → ((j : I) → Memᴰ j (map query_index items) → Memᴰ j order)
      → HasVisited dec nodes (nodes_of-IsGraph dec query_index query_depends items) order start s
      → length s.sorted ≡ length nodes
  all_sorted order s all h =
      let over =
        unvisited_end dec s.visited (indices dec nodes)
          (λ j m. h.now j (all j (mem_index dec query_index query_depends items j m))) in
      let w = h.work in
      omega (
        arith,
        unvisited_start dec (indices dec nodes),
        length-indices dec query_index query_depends items,
      )

  sorts : (s : Progress I V) → length s.sorted ≡ length items → result s ≡ sorted_as s.sorted
  sorts s e = rw (eq→== (length s.sorted) (length items) e) refl

  -- Where the range loop visits every entry and nothing else, Topological returns
  -- ErrCircularDependencyDetected exactly if two of the items have the same index.
  pub topological_error_iff :
      (order : List I)
      → ((j : I) → Memᴰ j order → Memᴰ j (map query_index items))
      → ((j : I) → Memᴰ j (map query_index items) → Memᴰ j order)
      → (topological dec query_index query_depends items order
          ≡ ret err_circular_dependency_detected)
        ↔ (¬ Distinct dec (map query_index items))
  topological_error_iff order inside all =
      let (s, e, h) = topological_runs order inside in
      let l = all_sorted order s all h in
      let runs = topological-result order s e in
      (
        λ err d.
            let right = sorts s (l ∙ length-nodes_of_same dec query_index query_depends items d) in
            let bad : ret (sorted_as s.sorted) ≡ ret err_circular_dependency_detected =
              ap ret (sym right) ∙ sym runs ∙ err in
            absurd (cc),
        λ twice.
            let short =
              ne→== (length s.sorted) (length items)
                (λ q. twice (nodes_of_repeat dec query_index query_depends items (sym l ∙ q))) in
            runs ∙ rw short refl,
      )

  -- Where the range loop visits every entry and nothing else, the indices of the items are
  -- different, and a rank of the indices falls from each item to what it depends on, Topological
  -- returns as many items as it was given, each of them among these, and whatever depends on one
  -- of them before it.
  pub topological_sorts :
      (order : List I) (rank : I → ℕ)
      → ((j : I) → Memᴰ j order → Memᴰ j (map query_index items))
      → ((j : I) → Memᴰ j (map query_index items) → Memᴰ j order)
      → Distinct dec (map query_index items)
      → ((item : V) (depend : I)
          → Memᴰ item items
          → Memᴰ depend (query_depends item)
          → rank depend < rank (query_index item))
      → (sorted : List V) × (topological dec query_index query_depends items order
          ≡ ret (sorted_as sorted))
        × (length sorted ≡ length items)
        × ((item : V) → Memᴰ item items → Memᴰ item sorted)
        × DependentsFirst query_index query_depends items sorted
  topological_sorts order rank inside all d falls =
      let (s, e, h) = topological_runs order inside in
      let l =
        all_sorted order s all h ∙ length-nodes_of_same dec query_index query_depends items d in
      let o =
        each-Orders dec query_index query_depends items d rank falls
          (visit dec nodes (suc (length nodes)))
          (visit-Orders dec query_index query_depends items d rank falls (suc (length nodes))) []
          order start s e
          (record {
            settled = λ j m. absurd (Memᴰ.not-nil m);
            first = λ xs ys y q. absurd (nothing_held xs ys y q);
          })
          (λ j m i k. absurd (Memᴰ.not-nil k)) in
      let ordered = o.ordered in
      (
        s.sorted,
        topological-result order s e ∙ ap ret (sorts s l),
        l,
        λ item m.
            let (node, at, k) =
              o.done (query_index item) (all (query_index item) (Memᴰ.map query_index m)) in
            let (q, in_, _) =
              lookup-AllNodes dec (IsItem dec query_index query_depends items) (query_index item)
                node nodes (nodes_of-IsItem dec query_index query_depends items) at in
            subst (λ v. Memᴰ v s.sorted)
              (index_injective dec query_index query_depends items node.value item d in_ m q) k,
        ordered.first,
      )
