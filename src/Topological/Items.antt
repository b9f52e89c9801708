-- ===== src/Topological/Items.antt =====
-- utils/sorts/topological.go: the nodes of the items are a graph with the edges that the items state.
use mathlib.Core.List.{lookup, Memᴰ}
use mathlib.Core.List.Memᴰ
use minotaur.Base.{List, [], ◌∷◌, some, map, ◌≡◌, refl, sym, ◌∙◌, subst, inl, inr}
use minotaur.SyncMap.{put_entry}
use minotaur.Topological.{Node, add_nodes, add_depend, add_depends, connect, nodes_of}
use minotaur.Topological.Visit.{Distinct}
use minotaur.Topological.Ends.{indices, IsGraph}
use minotaur.Topological.Build.{
  put_entry-AllNodes, AllNodes, lookup-AllNodes, add_depend-AllNodes, indices-add_depend,
}
use minotaur.Topological.Graph.{
  indices-connect, connect-AllNodes, add_depends-AllNodes, add_nodes_mem, indices-add_nodes,
  add_nodes-Distinct, indices-add_depends,
}

module _ {I V : Type 0} (dec : Discrete I) (query_index : V → I) (query_depends : V → List I)
    (items : List V) where
  -- A node is one of the items, and what it depends on are items that name it.
  abbrev pub IsItem : I → Node I V → Type 0
  IsItem i node =
      (query_index node.value ≡ i)
      × Memᴰ node.value items
      × ((j : I)
          → Memᴰ j node.depends_on
          → (item : V) × Memᴰ item items × (query_index item ≡ j) × Memᴰ i (query_depends item))

  add_nodes-IsItem :
      (slice : List V) (nodes : List (I × Node I V))
      → ((item : V) → Memᴰ item slice → Memᴰ item items)
      → AllNodes dec IsItem nodes
      → AllNodes dec IsItem (add_nodes dec query_index slice nodes)
  unfolding add_nodes
  add_nodes-IsItem [] nodes inside h = h
  add_nodes-IsItem (item ∷ slice) nodes inside h =
      let fresh : Node I V = record { value = item; depends_on = []; dependents = [] } in
      add_nodes-IsItem slice (put_entry dec (query_index item) fresh nodes)
        (λ other m. inside other (Memᴰ.tail m))
        (put_entry-AllNodes dec IsItem (query_index item) fresh nodes
          (refl, inside item (Memᴰ.head refl), λ j m. absurd (Memᴰ.not-nil m)) h)

  pub nodes_of-IsItem : AllNodes dec IsItem (nodes_of dec query_index query_depends items)
  unfolding nodes_of
  nodes_of-IsItem =
      connect-AllNodes dec query_index query_depends IsItem items
        (λ item i node m names (e, at, h). (
          e,
          at,
          λ j k. elim (Memᴰ.append_cases node.depends_on k) [
            | inl k ↦ h j k
            | inr k ↦ (item, m, sym (Memᴰ.eq_of_singleton k), names)
          ],
        ))
        (add_nodes dec query_index items [])
        (add_nodes-Distinct dec query_index query_depends items [] tt)
        (add_nodes-IsItem items [] (λ item m. m) tt)

  indices-nodes_of :
      indices dec (nodes_of dec query_index query_depends items)
      ≡ indices dec (add_nodes dec query_index items [])
  unfolding nodes_of
  indices-nodes_of =
      indices-connect dec query_index query_depends items (add_nodes dec query_index items [])

  pub index_mem :
      (item : V)
      → Memᴰ item items
      → Memᴰ (query_index item) (indices dec (nodes_of dec query_index query_depends items))
  index_mem item m =
      subst (Memᴰ (query_index item)) (sym indices-nodes_of)
        ((add_nodes_mem dec query_index query_depends items []).0 item m)

  pub mem_index :
      (j : I)
      → Memᴰ j (indices dec (nodes_of dec query_index query_depends items))
      → Memᴰ j (map query_index items)
  mem_index j m =
      elim (indices-add_nodes dec query_index query_depends items [] j
        (subst (Memᴰ j) indices-nodes_of m)) [ inl k ↦ k | inr k ↦ absurd (Memᴰ.not-nil k) ]

  pub nodes_of-IsGraph : IsGraph dec (nodes_of dec query_index query_depends items)
  nodes_of-IsGraph = record {
    distinct =
        subst (Distinct dec) (sym indices-nodes_of)
          (add_nodes-Distinct dec query_index query_depends items [] tt);
    closed = λ i node j at m.
        let (_, _, h) =
          lookup-AllNodes dec IsItem i node (nodes_of dec query_index query_depends items)
            nodes_of-IsItem at in
        let (item, k, e, _) = h j m in
        subst (λ j. Memᴰ j (indices dec (nodes_of dec query_index query_depends items))) e
          (index_mem item k);
  }

module _ {I V : Type 0} where
  -- The node `depend` knows what depends on it.
  abbrev pub Knows : I → I → I → Node I V → Type 0
  Knows depend i j node = depend ≡ j → Memᴰ i node.depends_on

  Any : I → Node I V → Type 0
  Any i node = Unit {0}

  any : (dec : Discrete I) (nodes : List (I × Node I V)) → AllNodes dec Any nodes
  unfolding Any
  any dec [] = tt
  any dec ((i, node) ∷ nodes) = (tt, any dec nodes)

module _ {I V : Type 0} (dec : Discrete I) (query_index : V → I) (query_depends : V → List I) where
  add_depends-Knows :
      (item : V) (depend : I) (depends : List I) (nodes : List (I × Node I V))
      → Distinct dec (indices dec nodes)
      → Memᴰ depend depends
      → ((j : I) → Memᴰ j depends → Memᴰ j (query_depends item))
      → AllNodes dec
          (Knows depend (query_index item))
          (add_depends dec depends (query_index item) nodes)
  unfolding add_depends Any
  add_depends-Knows item depend [] nodes d m inside = absurd (Memᴰ.not-nil m)
  add_depends-Knows item depend (other ∷ depends) nodes d m inside =
      let K : I → Node I V → Type 0 = Knows depend (query_index item) in
      let d' =
        subst (Distinct dec) (sym (indices-add_depend dec other (query_index item) nodes)) d in
      elim (Memᴰ.cases_cons m) [
        | inl e ↦
            add_depends-AllNodes dec query_index query_depends K item
              (λ j node m h q. Memᴰ.append_left (query_index item ∷ []) (h q)) depends
              (add_depend dec other (query_index item) nodes) (λ j m. inside j (Memᴰ.tail m)) d'
              (add_depend-AllNodes dec Any K other (query_index item)
                (λ j node n h q. absurd (n (sym e ∙ q)))
                (λ j node q h p. Memᴰ.append_right node.depends_on (Memᴰ.head refl)) nodes d
                (any dec nodes))
        | inr m ↦
            add_depends-Knows item depend depends (add_depend dec other (query_index item) nodes) d'
              m (λ j m. inside j (Memᴰ.tail m))
      ]

  connect-Knows :
      (item : V) (depend : I) (slice : List V) (nodes : List (I × Node I V))
      → Distinct dec (indices dec nodes)
      → Memᴰ item slice
      → Memᴰ depend (query_depends item)
      → AllNodes dec
          (Knows depend (query_index item))
          (connect dec query_index query_depends slice nodes)
  unfolding connect
  connect-Knows item depend [] nodes d m names = absurd (Memᴰ.not-nil m)
  connect-Knows item depend (other ∷ slice) nodes d m names =
      let nodes' = add_depends dec (query_depends other) (query_index other) nodes in
      let d' =
        subst (Distinct dec)
          (sym (
            indices-add_depends dec query_index query_depends (query_depends other)
              (query_index other) nodes))
          d in
      elim (Memᴰ.cases_cons m) [
        | inl e ↦
            connect-AllNodes dec query_index query_depends (Knows depend (query_index item)) slice
              (λ other j node m names h q. Memᴰ.append_left (query_index other ∷ []) (h q)) nodes'
              d'
              (subst (λ v. AllNodes dec (Knows depend (query_index v)) nodes') (sym e)
                (add_depends-Knows other depend (query_depends other) nodes d
                  (subst (λ v. Memᴰ depend (query_depends v)) e names) (λ j m. m)))
        | inr m ↦ connect-Knows item depend slice nodes' d' m names
      ]

  pub nodes_of-Knows :
      (items : List V) (item : V) (depend : I) (node : Node I V)
      → Memᴰ item items
      → Memᴰ depend (query_depends item)
      → lookup dec depend (nodes_of dec query_index query_depends items) ≡ some node
      → Memᴰ (query_index item) node.depends_on
  unfolding nodes_of
  nodes_of-Knows items item depend node m names at =
      lookup-AllNodes dec (Knows depend (query_index item)) depend node
        (nodes_of dec query_index query_depends items)
        (connect-Knows item depend items (add_nodes dec query_index items [])
          (add_nodes-Distinct dec query_index query_depends items [] tt) m names)
        at refl
