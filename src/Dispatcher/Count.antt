-- ===== src/Dispatcher/Count.antt =====
-- server/internal/dispatcher/dispatcher.go: how the steps that count change the tally.
use minotaur.Base.{
  ℕ, ◌+◌, ◌^◌, ◌<◌, [], ◌∷◌, ◌++◌, Bool, true, false, ◌&&◌, if◌then◌else◌, length, ◌≡◌, refl, sym,
  ap, ap₂, ◌∙◌, arith, Bool-cases, inl, inr, ◌⊎◌, length-append,
}
use minotaur.Base.Int.{ℤ, pos, negsuc, pos_part, neg_part, sub_ℕ, ◌+ℤ◌, wrap64}
use minotaur.Dispatcher.{
  Dispatcher, leb_zero, call_done, add_counts, settle_count, incr_count, put_count, close_buffer,
  count_of,
}
use minotaur.Dispatcher.Steps.{handling, System}
use minotaur.Dispatcher.Account.{IsSame, IsSame-self, call_done-IsSame, wrap64_shift, sub_ℕ_parts}
use minotaur.Dispatcher.Tally.{in_hand, outstanding, IsTallied}

module _ {P M : Type 0} (dec : Discrete P) (get_producer : M → P) where
  -- The counts change by `a` less `b`, and the handler of a producer that is done may run.
  shifted :
      (x w a b : ℕ) (p : P) (i : ℤ) (d : Dispatcher P M)
      → i ≡ sub_ℕ a b
      → d.mc ≡ sub_ℕ x w
      → x + a < 2 ^ 62
      → w + b < 2 ^ 62
      → (add_counts dec p i d).mc ≡ sub_ℕ (x + a) (w + b)
  unfolding add_counts
  shifted x w a b p i d ei em h k = ap₂ (λ m i. wrap64 (m +ℤ i)) em ei ∙ wrap64_shift x w a b h k

  incremented-IsSame :
      (p : P) (i : ℤ) (d : Dispatcher P M) → IsSame (add_counts dec p i d) (incr_count dec p i d)
  unfolding incr_count
  incremented-IsSame p i d = elim (Bool-cases (leb_zero (add_counts dec p i d).mc)) [
    | inl e ↦ rw e (call_done-IsSame dec p _ _)
    | inr e ↦ rw e (IsSame-self _)
  ]

  -- The goroutine ends exactly where nothing is counted and the plan of eviction stands.
  abbrev pub Verdict : Dispatcher P M → Bool × Dispatcher P M → Type 0
  Verdict d' r =
      (leb_zero d'.mc ≡ true) × (d'.expel ≡ true) × (r ≡ (true, close_buffer d'))
      ⊎ (leb_zero d'.mc && d'.expel ≡ false) × (r ≡ (false, d'))

  judged :
      (d' : Dispatcher P M)
      → Verdict d' (if leb_zero d'.mc && d'.expel then (true, close_buffer d') else (false, d'))
  judged d' = elim (Bool-cases (leb_zero d'.mc)) [
    | inl e ↦ elim (Bool-cases d'.expel) [
      | inl f ↦ inl (e, f, rw (e, f) refl)
      | inr f ↦ inr (rw (e, f) (refl, refl))
    ]
    | inr e ↦ inr (rw e (refl, refl))
  ]

  -- The state in which the goroutine tests whether it ends.
  abbrev pub tested : P → Dispatcher P M → Dispatcher P M
  tested p d =
      let counted = add_counts dec p (negsuc 0) d in
      call_done dec p (count_of dec p counted) counted

  pub tested-IsSame :
      (p : P) (d : Dispatcher P M) → IsSame (add_counts dec p (negsuc 0) d) (tested p d)
  tested-IsSame p d = call_done-IsSame dec p _ _

  pub settle_count-Verdict :
      (p : P) (d : Dispatcher P M) → Verdict (tested p d) (settle_count dec p d)
  unfolding settle_count
  settle_count-Verdict p d = judged (tested p d)

  added :
      (n u w a b : ℕ) (p : P) (i : ℤ) (s : System P M)
      → IsTallied n u w s
      → i ≡ sub_ℕ a b
      → n + u + a < 2 ^ 62
      → w + b < 2 ^ 62
      → s.d.closed ≡ false
      → (add_counts dec p i s.d).mc ≡ sub_ℕ (outstanding s + u + a) (w + b)
  added n u w a b p i s h e small small' c =
      let f = h.few in shifted (outstanding s + u) w a b p i s.d e (h.tally c) (omega arith) small'

  pub counted_up :
      (n u w : ℕ) (m : M) (s : System P M)
      → IsTallied n u w s
      → n + u + 1 < 2 ^ 62
      → w < 2 ^ 62
      → IsTallied
          (n + 1)
          u
          w
          (record s { d = put_count dec (get_producer m) s.d; writing = s.writing ++ m ∷ [] })
  unfolding put_count add_counts
  counted_up n u w m s h small small' =
      let l = length-append s.writing (m ∷ []) in
      record {
        tally = λ c.
            added n u w 1 0 (get_producer m) (pos 1) s h refl small (omega arith) c
            ∙ ap₂ sub_ℕ (omega (arith, l)) (omega arith);
        shut = λ c. h.shut c;
        few = let f = h.few in omega (arith, l);
      }

  pub incremented :
      (n u w : ℕ) (p : P) (i : ℤ) (s : System P M)
      → IsTallied n u w s
      → n + (u + pos_part i) < 2 ^ 62
      → w + neg_part i < 2 ^ 62
      → IsTallied n (u + pos_part i) (w + neg_part i) (record s { d = incr_count dec p i s.d })
  unfolding add_counts
  incremented n u w p i s h small small' =
      let same = incremented-IsSame p i s.d in
      let lb : length (incr_count dec p i s.d).buf ≡ length s.d.buf = ap length same.buf in
      record {
        tally = λ c.
            same.mc
            ∙ added n u w (pos_part i) (neg_part i) p i s h (sym (sub_ℕ_parts i)) (omega arith)
                small' (sym same.closed ∙ c)
            ∙ ap (λ k. sub_ℕ k (w + neg_part i)) (omega (arith, lb));
        shut = λ c. h.shut (sym same.closed ∙ c);
        few = let f = h.few in omega (arith, lb);
      }

  -- Taking a message that is handled off the count.
  pub taken_off :
      (n u w : ℕ) (m : M) (s : System P M)
      → IsTallied n u w s
      → s.worker ≡ handling m
      → n + u < 2 ^ 62
      → w < 2 ^ 62
      → (s.d.closed ≡ false)
        × ((add_counts dec (get_producer m) (negsuc 0) s.d).mc
            ≡ sub_ℕ (length s.d.buf + length s.writing + u) w)
  unfolding ◌+ℤ◌ add_counts
  taken_off n u w m s h at small small' =
      let i : in_hand s.worker ≡ 1 = ap in_hand at in
      let f = h.few in
      let open_ = elim (Bool-cases s.d.closed) as (λ b. s.d.closed ≡ false) [
        | inl c ↦ (let q = h.shut c in absurd (cc))
        | inr c ↦ c
      ] in
      (
        open_,
        ap (λ k. wrap64 (k +ℤ negsuc 0)) (h.tally open_ ∙ ap (λ k. sub_ℕ k w) (omega (arith, i)))
            ∙ less (length s.d.buf + length s.writing + u) w (omega (arith, i)) small',
      )
    where
      less : (x w : ℕ) → x < 2 ^ 62 → w < 2 ^ 62 → wrap64 (sub_ℕ (x + 1) w +ℤ negsuc 0) ≡ sub_ℕ x w
      less x w h k =
          ap wrap64 (ground arith)
          ∙ wrap64_shift x w 0 0 (omega arith) (omega arith)
          ∙ ap₂ sub_ℕ (omega arith) (omega arith)
