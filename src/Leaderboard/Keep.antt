-- ===== src/Leaderboard/Keep.antt =====
-- utils/leaderboard/binary_search.go: a new competitor keeps the list sorted and within its bound.
use minotaur.Base.{
  ℕ, ◌+◌, ◌-◌, ◌<◌, ◌≤◌, [], ◌∷◌, ◌++◌, Bool, true, false, ◌&&◌, ◌||◌, some, length, ◌≡◌, refl, ap,
  ◌∙◌, subst, get_elem?, arith, inl, inr, take, drop, Go, ret, index, slice, slice_of_le,
  take_of_length-le, drop_of_length-le, index_of_get_elem?, get_elem?_of_lt, ltb, leb, ◌==◌,
  Bool-cases, length-append, length-take, length-drop, ℕ_discrete, eq→==, ne→==,
}
use minotaur.Base.Int.{ℤ, pos, negsuc}
use minotaur.Base.Orders.{Ordered}
use minotaur.SyncMap.{put_entry, without}
use minotaur.Leaderboard.{BinarySearch, rank_change, place_loop}
use minotaur.Leaderboard.Order.{IsSorted, cmp-cases}
use minotaur.Leaderboard.Place.{IsFront, IsBack, place_loop-place}
use minotaur.Leaderboard.Insert.{insert_at, insert_at-IsSorted, take-IsSorted}
use minotaur.Leaderboard.Enter.{full, enter_room, enter_less, enter_even, enter_more}
use minotaur.Leaderboard.Board.{trim, place, search_and_place, enter}

module _ {K S : Type 0} (dec : Discrete K) (lt : S → S → Bool) (ord : Ordered lt) where
  -- Sorted, and no longer than `rank_count`, if that is a limit.
  pub record IsOrdered (slf : BinarySearch K S) : Type 0 where
    pub sorted : IsSorted lt slf.asc slf.scores
    pub bounded : 0 < slf.rank_count → length slf.scores ≤ slf.rank_count

  abbrev Keeps : Go (BinarySearch K S) → Type 0
  Keeps run = (slf' : BinarySearch K S) × (run ≡ ret slf') × IsOrdered slf'

  trim_lem :
      (slf : BinarySearch K S)
      → IsSorted lt slf.asc slf.scores
      → (0 < slf.rank_count → length slf.scores ≤ slf.rank_count + 1)
      → Keeps (trim dec lt slf)
  unfolding trim
  trim_lem slf s b =
      elim (Bool-cases ((slf.rank_count == 0) || leb (length slf.scores) slf.rank_count)) [
        | inl h ↦ (slf, rw h refl, record { sorted = s; bounded = λ l. ground arith })
        | inr h ↦
            let (si, at) = get_elem?_of_lt slf.scores (length slf.scores - 1) (ground arith) in
            cut h si at
      ]
    where
      cut :
          ((slf.rank_count == 0) || leb (length slf.scores) slf.rank_count) ≡ false
          → (si : K × S) → get_elem? slf.scores (length slf.scores - 1) ≡ some si
          → Keeps (trim dec lt slf)
      cut h si at = (
        record slf {
          events =
              slf.events
              ++ rank_change si.0 (pos (length slf.scores - 1)) (negsuc 0) si.1 si.1 ∷ [];
          competitors = without dec si.0 slf.competitors;
          scores = take (length slf.scores - 1) slf.scores;
        },
        rw
            (
              h,
              index_of_get_elem? slf.scores (length slf.scores - 1) si at,
              slice_of_le slf.scores 0 (length slf.scores - 1) (omega arith) (omega arith),
            )
            refl,
        record {
          sorted = take-IsSorted lt slf.asc slf.scores (length slf.scores - 1) s;
          bounded = λ l. let n = length-take (length slf.scores - 1) slf.scores in ground arith;
        },
      )

  module _ (id : K) (old_score : S) (old_rank : ℤ) (score : S) (slf : BinarySearch K S)
      (h : IsOrdered slf) where
    length-insert_at :
        (p : ℕ)
        → p ≤ length slf.scores
        → length (insert_at p (id, score) slf.scores) ≡ length slf.scores + 1
    length-insert_at p l =
        rw (length-append (take p slf.scores) ((id, score) ∷ drop p slf.scores))
          (rw (length-take p slf.scores, length-drop p slf.scores) (omega arith))

    insert_at-end :
        insert_at (length slf.scores) (id, score) slf.scores ≡ slf.scores ++ (id, score) ∷ []
    insert_at-end =
        rw
          (
            take_of_length-le (length slf.scores) slf.scores (omega arith),
            drop_of_length-le (length slf.scores) slf.scores (omega arith),
          )
          refl

    slice_rest :
        (p : ℕ)
        → p ≤ length slf.scores
        → slice slf.scores p (length slf.scores) ≡ ret (drop p slf.scores)
    slice_rest p l =
        slice_of_le slf.scores p (length slf.scores) l (omega arith)
        ∙ ap (λ xs. ret (drop p xs))
            (take_of_length-le (length slf.scores) slf.scores (omega arith))

    place_last :
        IsFront lt ord slf.asc slf.scores score (length slf.scores)
        → IsBack lt ord slf.asc slf.scores score (length slf.scores)
        → Keeps (place dec lt id old_score old_rank score (length slf.scores) slf)
    unfolding place
    place_last f b =
        elim (Bool-cases (ltb 0 slf.rank_count && leb slf.rank_count (length slf.scores))) [
          | inl full ↦ (slf, rw (eq→== (length slf.scores) (length slf.scores) refl, full) refl, h)
          | inr room ↦ (
            record slf {
              scores = slf.scores ++ (id, score) ∷ [];
              competitors = put_entry dec id score slf.competitors;
              events =
                  slf.events
                  ++ rank_change id old_rank (pos (length slf.scores)) old_score score ∷ [];
            },
            rw (eq→== (length slf.scores) (length slf.scores) refl, room) refl,
            record {
              sorted = subst (IsSorted lt slf.asc) insert_at-end (
                  insert_at-IsSorted lt ord slf.asc slf.scores (id, score) (length slf.scores)
                    (omega arith) h.sorted f b);
              bounded = λ l. let n = length-append slf.scores ((id, score) ∷ []) in ground arith;
            },
          )
        ]

    place_inside :
        (p : ℕ)
        → p < length slf.scores
        → IsFront lt ord slf.asc slf.scores score p
        → IsBack lt ord slf.asc slf.scores score p
        → Keeps (place dec lt id old_score old_rank score p slf)
    unfolding place
    place_inside p l f b =
        let (slf', run, o) =
          trim_lem
            (record slf {
              scores = insert_at p (id, score) slf.scores;
              competitors = put_entry dec id score slf.competitors;
              events = slf.events ++ rank_change id old_rank (pos p) old_score score ∷ [];
            })
            (insert_at-IsSorted lt ord slf.asc slf.scores (id, score) p (omega arith) h.sorted f b)
            (λ q. let n = length-insert_at p (omega arith) in let m = h.bounded q in omega arith) in
        (
          slf',
          rw
              (
                ne→== p (length slf.scores) (λ q. omega arith),
                slice_of_le slf.scores 0 p (omega arith) (omega arith),
                slice_rest p (omega arith),
              )
              run,
          o,
        )

    search_and_place_lem :
        Keeps (search_and_place dec lt id old_score old_rank score 0 (length slf.scores) slf)
    unfolding search_and_place
    search_and_place_lem =
        let (p, run, l, f, b) = place_loop-place lt ord slf.asc slf.scores score h.sorted in
        go p run l f b
      where
        go :
            (p : ℕ)
            → place_loop lt (length slf.scores + 1) slf.asc slf.scores score 0 (length slf.scores)
              ≡ ret p
            → p ≤ length slf.scores
            → IsFront lt ord slf.asc slf.scores score p
            → IsBack lt ord slf.asc slf.scores score p
            → Keeps (search_and_place dec lt id old_score old_rank score 0 (length slf.scores) slf)
        go p run l f b = elim (ℕ_discrete p (length slf.scores)) [
          | yes e ↦
              let (slf', placed, o) =
                place_last (subst (λ p. IsFront lt ord slf.asc slf.scores score p) e f)
                  (subst (λ p. IsBack lt ord slf.asc slf.scores score p) e b) in
              (slf', rw (run, e) placed, o)
          | no n ↦
              let (slf', placed, o) = place_inside p (omega arith) f b in (slf', rw run placed, o)
        ]

  -- A competitor who is not in the list enters a list that is sorted and within its bound: the call
  -- returns, and the list is sorted and within its bound again.
  pub enter-IsOrdered :
      (zero_value : S) (id : K) (score : S) (slf : BinarySearch K S)
      → IsOrdered slf
      → (slf' : BinarySearch K S) × (enter dec lt zero_value id score slf ≡ ret slf')
        × IsOrdered slf'
  enter-IsOrdered zero_value id score slf h =
      elim (Bool-cases (full dec lt zero_value id score slf)) [
        | inr e ↦
            let (slf', run, o) = search_and_place_lem id zero_value (negsuc 0) score slf h in
            (slf', enter_room dec lt zero_value id score slf e ∙ run, o)
        | inl e ↦
            let (last, at) = get_elem?_of_lt slf.scores (length slf.scores - 1) (ground arith) in
            go e last (index_of_get_elem? slf.scores (length slf.scores - 1) last at)
      ]
    where
      go :
          full dec lt zero_value id score slf ≡ true
          → (last : K × S) → index slf.scores (length slf.scores - 1) ≡ ret last
          → Keeps (enter dec lt zero_value id score slf)
      go e last at = elim (cmp-cases lt ord slf.asc score last.1) [
        | inl (c, w) ↦ (slf, enter_less dec lt zero_value id score slf last e at c, h)
        | inr (inl (c, w)) ↦ (slf, enter_even dec lt zero_value id score slf last e at c, h)
        | inr (inr (c, w)) ↦
            let (slf', run, o) = search_and_place_lem id zero_value (negsuc 0) score slf h in
            (slf', enter_more dec lt zero_value id score slf last e at c ∙ run, o)
      ]
