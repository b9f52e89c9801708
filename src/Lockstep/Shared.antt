-- ===== src/Lockstep/Shared.antt =====
-- server/lockstep/lockstep.go: what the clients are sent from a new `Lockstep` on.
use mathlib.Core.List.{lookup}
use minotaur.Base.{
  ℕ, zero, suc, ◌+◌, List, [], ◌∷◌, false, Option, some, none, if◌then◌else◌, ret, ◌≡◌, refl, sym,
  ap, ◌∙◌, subst, arith, get_elem?,
}
use minotaur.Base.Int.{ℤ, pos, negsuc}
use minotaur.Lockstep.{
  Lockstep, Setting, frame_limit_of, frame_rate_of, init_frame_of, dec_frame, is_positive,
  new_lockstep, default_lockstep, with_settings, with_setting, with_frame_limit,
}
use minotaur.Lockstep.Events.{Event, AllGoOn, all_happen}
use minotaur.Lockstep.Agree.{IsShared, After, all-After}
use minotaur.Lockstep.Cache.{AllCached}

module _ {K W C B : Type 0} where
  with_setting-IsShared :
      (dec : Discrete K) (get_id : W → K) (serialization : ℤ → List C → B) (o : Setting)
      (slf : Lockstep K W C B)
      → IsShared dec get_id serialization slf
      → IsShared dec get_id serialization (with_setting o slf)
  unfolding with_setting with_frame_limit
  with_setting-IsShared dec get_id serialization (frame_limit_of n) slf h = record {
    all_cached = h.all_cached;
    unlimited = capped n;
  }
    where
      capped : (n : ℤ) → is_positive (if is_positive n then pos 0 else n) ≡ false
      capped (pos n) = ground arith
      capped (negsuc n) = ground arith
  with_setting-IsShared dec get_id serialization (frame_rate_of n) slf h = record {
    all_cached = h.all_cached;
    unlimited = h.unlimited;
  }
  with_setting-IsShared dec get_id serialization (init_frame_of n) slf h = record {
    all_cached = h.all_cached;
    unlimited = h.unlimited;
  }

module _ {K W C B : Type 0} (dec : Discrete K) (get_id : W → K)
    (serialization : ℤ → List C → B) where
  with_settings-IsShared :
      (os : List Setting) (slf : Lockstep K W C B)
      → IsShared dec get_id serialization slf
      → IsShared dec get_id serialization (with_settings os slf)
  unfolding with_settings
  with_settings-IsShared [] slf h = h
  with_settings-IsShared (o ∷ os) slf h =
      with_settings-IsShared os (with_setting o slf)
        (with_setting-IsShared dec get_id serialization o slf h)

  new-IsShared : (os : List Setting) → IsShared dec get_id serialization (new_lockstep os)
  unfolding new_lockstep default_lockstep
  new-IsShared os =
      with_settings-IsShared os default_lockstep (record { all_cached = tt; unlimited = refl })

  abbrev MaybeCached : List (ℤ × B) → Option (W × ℤ × B) → Type 0
  MaybeCached cache none = Unit {0}
  MaybeCached cache (some (client, i, bytes)) = lookup dec_frame i cache ≡ some bytes

  cached_at :
      (cache : List (ℤ × B)) (sent : List (W × ℤ × B)) (n : ℕ)
      → AllCached cache sent
      → MaybeCached cache (get_elem? sent n)
  cached_at cache [] n h = tt
  cached_at cache ((w, j, b) ∷ sent) zero (h, hs) = h
  cached_at cache ((w, j, b) ∷ sent) (suc n) (h, hs) = cached_at cache sent n hs

  -- With any options, from a new `Lockstep` on, as long as the broadcast is not stopped and no frame
  -- is dropped from the cache: in every order of the steps of the goroutines, whatever two clients
  -- are sent for one frame is the same.
  pub frames_agree :
      (options : List Setting) (es : List (Event K W C)) (slf : Lockstep K W C B)
      → AllGoOn es
      → all_happen dec get_id serialization (new_lockstep options) es ≡ ret slf
      → (m n : ℕ) (i : ℤ) (client client' : W) (bytes bytes' : B)
      → get_elem? slf.sent m ≡ some (client, i, bytes)
      → get_elem? slf.sent n ≡ some (client', i, bytes')
      → bytes ≡ bytes'
  frames_agree options es slf go run m n i client client' bytes bytes' e e' =
      let h =
        subst (After dec get_id serialization) run (
          all-After dec get_id serialization es (new_lockstep options) go (new-IsShared options)) in
      let l =
        subst (MaybeCached slf.frame_cache) e (cached_at slf.frame_cache slf.sent m h.all_cached) in
      let r =
        subst (MaybeCached slf.frame_cache) e'
          (cached_at slf.frame_cache slf.sent n h.all_cached) in
      some_injective (sym l ∙ r)
    where
      some_injective : {A : Type 0} {x y : A} → some x ≡ some y → x ≡ y
      some_injective {x = x} e = ap (value x) e
        where
          value : {A : Type 0} → A → Option A → A
          value x (some y) = y
          value x none = x

module _ {C B : Type 0} (serialization : ℤ → List C → B) where
  -- The bytes of a frame: those of the cache, or new ones of the commands.
  abbrev pub bytes_or_new : ℕ → List C → Option B → B
  bytes_or_new k commands (some bytes) = bytes
  bytes_or_new k commands none = serialization (pos k) commands

module _ {W C B : Type 0} (serialization : ℤ → List C → B) where
  -- `n` frames from `k` on.
  abbrev pub stamped : ℕ → ℕ → W → List C → List (ℤ × B) → List (W × ℤ × B)
  stamped zero k client commands cache = []
  stamped (suc n) k client commands cache =
      (client, pos k, bytes_or_new serialization k commands (lookup dec_frame (pos k) cache))
      ∷ stamped n (k + 1) client commands cache
