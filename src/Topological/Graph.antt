-- ===== src/Topological/Graph.antt =====
-- utils/sorts/topological.go: the nodes are those of the items, with what depends on them.
use mathlib.Core.List.{Memᴰ}
use mathlib.Core.List.Memᴰ
use minotaur.Base.{List, [], ◌∷◌, map, ◌≡◌, refl, sym, ap, ◌∙◌, subst, inl, inr, ◌⊎◌}
use minotaur.SyncMap.{put_entry}
use minotaur.Topological.{Node, add_nodes, add_depend, add_depends, connect}
use minotaur.Topological.Visit.{Distinct}
use minotaur.Topological.Ends.{indices}
use minotaur.Topological.Build.{
  indices-put_entry, put_entry_mem, put_entry-Distinct, AllNodes, depending, add_depend-AllNodes,
  indices-add_depend,
}

module _ {I V : Type 0} (dec : Discrete I) (query_index : V → I) (query_depends : V → List I) where
  abbrev pub Nodes : Type 0
  Nodes = List (I × Node I V)

  pub indices-add_depends :
      (depends : List I) (i : I) (nodes : Nodes)
      → indices dec (add_depends dec depends i nodes) ≡ indices dec nodes
  unfolding add_depends
  indices-add_depends [] i nodes = refl
  indices-add_depends (depend ∷ depends) i nodes =
      indices-add_depends depends i (add_depend dec depend i nodes)
      ∙ indices-add_depend dec depend i nodes

  pub indices-connect :
      (slice : List V) (nodes : Nodes)
      → indices dec (connect dec query_index query_depends slice nodes) ≡ indices dec nodes
  unfolding connect
  indices-connect [] nodes = refl
  indices-connect (item ∷ slice) nodes =
      indices-connect slice (add_depends dec (query_depends item) (query_index item) nodes)
      ∙ indices-add_depends (query_depends item) (query_index item) nodes

  -- A relation of nodes that each link keeps is kept by all of them.
  module _ (P : I → Node I V → Type 0) (item : V)
      (kept : (j : I) (node : Node I V)
        → Memᴰ j (query_depends item)
        → P j node
        → P j (depending dec (query_index item) node)) where
    pub add_depends-AllNodes :
        (depends : List I) (nodes : Nodes)
        → ((j : I) → Memᴰ j depends → Memᴰ j (query_depends item))
        → Distinct dec (indices dec nodes)
        → AllNodes dec P nodes
        → AllNodes dec P (add_depends dec depends (query_index item) nodes)
    unfolding add_depends
    add_depends-AllNodes [] nodes inside d h = h
    add_depends-AllNodes (depend ∷ depends) nodes inside d h =
        add_depends-AllNodes depends (add_depend dec depend (query_index item) nodes)
          (λ j m. inside j (Memᴰ.tail m))
          (subst (Distinct dec) (sym (indices-add_depend dec depend (query_index item) nodes)) d)
          (add_depend-AllNodes dec P P depend (query_index item) (λ j node n p. p)
            (λ j node e p. kept j node (inside j (Memᴰ.head (sym e))) p) nodes d h)

  pub connect-AllNodes :
      (P : I → Node I V → Type 0) (slice : List V)
      → ((item : V) (j : I) (node : Node I V)
          → Memᴰ item slice
          → Memᴰ j (query_depends item)
          → P j node
          → P j (depending dec (query_index item) node))
      → (nodes : Nodes) → Distinct dec (indices dec nodes)
      → AllNodes dec P nodes
      → AllNodes dec P (connect dec query_index query_depends slice nodes)
  unfolding connect
  connect-AllNodes P [] kept nodes d h = h
  connect-AllNodes P (item ∷ slice) kept nodes d h =
      connect-AllNodes P slice (λ item j node m. kept item j node (Memᴰ.tail m))
        (add_depends dec (query_depends item) (query_index item) nodes)
        (subst (Distinct dec)
          (sym (indices-add_depends (query_depends item) (query_index item) nodes)) d)
        (add_depends-AllNodes P item (λ j node. kept item j node (Memᴰ.head refl))
          (query_depends item) nodes (λ j m. m) d h)

  pub add_nodes_mem :
      (slice : List V) (nodes : Nodes)
      → ((item : V)
          → Memᴰ item slice
          → Memᴰ (query_index item) (indices dec (add_nodes dec query_index slice nodes)))
        × ((j : I)
            → Memᴰ j (indices dec nodes)
            → Memᴰ j (indices dec (add_nodes dec query_index slice nodes)))
  unfolding add_nodes
  add_nodes_mem [] nodes = (λ item m. absurd (Memᴰ.not-nil m), λ j m. m)
  add_nodes_mem (item ∷ slice) nodes =
      let fresh : Node I V = record { value = item; depends_on = []; dependents = [] } in
      let (now, still) = put_entry_mem dec (query_index item) fresh nodes in
      let (later, keeps) = add_nodes_mem slice (put_entry dec (query_index item) fresh nodes) in
      (
        λ other m. elim (Memᴰ.cases_cons m) [
          | inl e ↦
              subst
                (λ i. Memᴰ i (
                  indices dec (
                    add_nodes dec query_index slice
                      (put_entry dec (query_index item) fresh nodes))))
                (sym (ap query_index e)) (keeps (query_index item) now)
          | inr m ↦ later other m
        ],
        λ j m. keeps j (still j m),
      )

  pub indices-add_nodes :
      (slice : List V) (nodes : Nodes) (j : I)
      → Memᴰ j (indices dec (add_nodes dec query_index slice nodes))
      → Memᴰ j (map query_index slice) ⊎ Memᴰ j (indices dec nodes)
  unfolding add_nodes
  indices-add_nodes [] nodes j h = inr h
  indices-add_nodes (item ∷ slice) nodes j h =
      let fresh : Node I V = record { value = item; depends_on = []; dependents = [] } in
      elim (indices-add_nodes slice (put_entry dec (query_index item) fresh nodes) j h) [
        | inl m ↦ inl (Memᴰ.tail m)
        | inr m ↦ elim (indices-put_entry dec (query_index item) fresh nodes j m) [
          | inl e ↦ inl (Memᴰ.head e)
          | inr m ↦ inr m
        ]
      ]

  pub add_nodes-Distinct :
      (slice : List V) (nodes : Nodes)
      → Distinct dec (indices dec nodes)
      → Distinct dec (indices dec (add_nodes dec query_index slice nodes))
  unfolding add_nodes
  add_nodes-Distinct [] nodes d = d
  add_nodes-Distinct (item ∷ slice) nodes d =
      let fresh : Node I V = record { value = item; depends_on = []; dependents = [] } in
      add_nodes-Distinct slice (put_entry dec (query_index item) fresh nodes)
        (put_entry-Distinct dec (query_index item) fresh nodes d)
