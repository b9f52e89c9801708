-- ===== src/Lockstep/Cache.antt =====
-- server/lockstep/lockstep.go: what has been sent stands in the cache of frames.
use mathlib.Core.List.{lookup}
use minotaur.Base.{
  ℕ, zero, suc, List, [], ◌∷◌, ◌++◌, some, none, ◌≡◌, ◌≢◌, Option-cases, inl, inr, arith,
}
use minotaur.Base.Int.{ℤ, pos, ◌+ℤ◌}
use minotaur.SyncMap.{put_entry}
use minotaur.Lockstep.{dec_frame, cached}
use minotaur.Lockstep.Broadcast.{catch_up}

-- What has been sent stands in the cache.
abbrev pub AllCached : {W B : Type 0} → List (ℤ × B) → List (W × ℤ × B) → Type 0
AllCached cache [] = Unit {0}
AllCached cache ((client, i, bytes) ∷ sent) =
    (lookup dec_frame i cache ≡ some bytes) × AllCached cache sent

module _ {K V : Type 0} (dec : Discrete K) where
  lookup-put_entry_self :
      (k : K) (v : V) (m : List (K × V)) → lookup dec k (put_entry dec k v m) ≡ some v
  unfolding lookup put_entry
  lookup-put_entry_self k v [] = ground arith
  lookup-put_entry_self k v ((j, w) ∷ m) = ground (arith, lookup-put_entry_self k v m)

  lookup-put_entry_fresh :
      (k j : K) (v c : V) (m : List (K × V))
      → lookup dec k m ≡ none
      → lookup dec j m ≡ some c
      → lookup dec j (put_entry dec k v m) ≡ some c
  unfolding lookup put_entry
  lookup-put_entry_fresh k j v c [] h e = absurd (cc)
  lookup-put_entry_fresh k j v c ((i, w) ∷ m) h e = ground (arith, lookup-put_entry_fresh k j v c m)

module _ {K V : Type 0} (dec : Discrete K) where
  pub lookup-put_entry_other :
      (k j : K) (v : V) (m : List (K × V))
      → j ≢ k
      → lookup dec j (put_entry dec k v m) ≡ lookup dec j m
  unfolding lookup put_entry
  lookup-put_entry_other k j v [] h = ground arith
  lookup-put_entry_other k j v ((i, w) ∷ m) h = ground (arith, lookup-put_entry_other k j v m)

-- One cache knows what another does.
Extends : {B : Type 0} → List (ℤ × B) → List (ℤ × B) → Type 0
Extends {B = B} cache cache' =
    (j : ℤ) (c : B) → lookup dec_frame j cache ≡ some c → lookup dec_frame j cache' ≡ some c

module _ {C B : Type 0} (serialization : ℤ → List C → B) where
  cached-Extends :
      (i : ℤ) (commands : List C) (cache : List (ℤ × B))
      → Extends cache (cached serialization i commands cache).0
        × (lookup dec_frame i (cached serialization i commands cache).0
            ≡ some (cached serialization i commands cache).1)
  unfolding cached Extends
  cached-Extends i commands cache = elim (Option-cases (lookup dec_frame i cache)) [
    | inl e ↦
        rw (cached, e)
          (
            λ j c k. lookup-put_entry_fresh dec_frame i j (serialization i commands) c cache e k,
            lookup-put_entry_self dec_frame i (serialization i commands) cache,
          )
    | inr (b, e) ↦ rw (cached, e) (λ j c k. k, e)
  ]

module _ {W B : Type 0} where
  AllCached-Extends :
      (cache cache' : List (ℤ × B)) (sent : List (W × ℤ × B))
      → Extends cache cache'
      → AllCached cache sent
      → AllCached cache' sent
  unfolding Extends
  AllCached-Extends cache cache' [] ext h = tt
  AllCached-Extends cache cache' ((client, i, bytes) ∷ sent) ext (h, hs) =
      (ext i bytes h, AllCached-Extends cache cache' sent ext hs)

  AllCached-append :
      (cache : List (ℤ × B)) (sent : List (W × ℤ × B)) (client : W) (i : ℤ) (bytes : B)
      → AllCached cache sent
      → lookup dec_frame i cache ≡ some bytes
      → AllCached cache (sent ++ (client, i, bytes) ∷ [])
  AllCached-append cache [] client i bytes h e = (e, tt)
  AllCached-append cache ((w, j, b) ∷ sent) client i bytes (h, hs) e =
      (h, AllCached-append cache sent client i bytes hs e)

module _ {W C B : Type 0} (serialization : ℤ → List C → B) where
  pub catch_up-AllCached :
      (n : ℕ) (i : ℤ) (client : W) (commands : List C) (cache : List (ℤ × B))
      (sent : List (W × ℤ × B))
      → AllCached cache sent
      → AllCached
          (catch_up serialization n i client commands (cache, sent)).0
          (catch_up serialization n i client commands (cache, sent)).1
  unfolding catch_up Extends
  catch_up-AllCached zero i client commands cache sent h = h
  catch_up-AllCached (suc n) i client commands cache sent h =
      let (ext, known) = cached-Extends serialization i commands cache in
      let (cache', bytes) = cached serialization i commands cache in
      catch_up-AllCached n (i +ℤ pos 1) client commands _ _
        (AllCached-append _ sent client i _ (AllCached-Extends cache _ sent ext h) known)
