-- ===== src/Gateway/Bound.antt =====
-- server/gateway/gateway.go: what a gateway hands out, and that it never closes.
use mathlib.Core.List.{lookup}
use minotaur.Base.{
  ℕ, List, [], ◌∷◌, Bool, true, false, Option, some, none, if◌then◌else◌, ◌≡◌, refl, ap, ◌∙◌,
  Bool-cases, Option-cases, inl, inr, ◌⊎◌,
}
use minotaur.Gateway.Routes.{
  Found, found, not_found, Gateway, Endpoint, new_gateway, shutdown, run_guards, scan, scan_one,
  available_of, select, chosen, get_endpoint, get_conn_endpoint, switch_endpoint,
}

abbrev Among : ℕ → List ℕ → Type 0
Among e [] = ⊥
Among e (x ∷ xs) = (e ≡ x) ⊎ Among e xs

-- A selector picks one of the endpoints that it is given.
abbrev pub Picks : (List ℕ → Option ℕ) → Type 0
Picks ess = (es : List ℕ) (e : ℕ) → ess es ≡ some e → Among e es

-- What is handed out is available.
abbrev pub IsAvailable : (ℕ → Bool) → Found → Type 0
IsAvailable available (found e) = available e ≡ true
IsAvailable available (not_found x) = Unit {0}

module _ (available : ℕ → Bool) where
  picked :
      (o : Option ℕ)
      → ((e : ℕ) → o ≡ some e → available e ≡ true)
      → IsAvailable available (chosen o)
  unfolding chosen
  picked none known = tt
  picked (some e) known = known e refl

  select-IsAvailable :
      (ess : List ℕ → Option ℕ) (es : List ℕ)
      → Picks ess
      → ((e : ℕ) → Among e es → available e ≡ true)
      → IsAvailable available (select ess es)
  unfolding select
  select-IsAvailable ess [] picks all = tt
  select-IsAvailable ess (x ∷ es) picks all =
      picked (ess (x ∷ es)) (λ e q. all e (picks (x ∷ es) e q))

  Among-available :
      {Text : Type 0} (es : List (Text × ℕ)) (e : ℕ)
      → Among e (available_of available es)
      → available e ≡ true
  unfolding available_of
  Among-available [] e h = absurd h
  Among-available ((address, x) ∷ es) e h = elim (Bool-cases (available x)) [
    | inl a ↦
        let k : Among e (x ∷ available_of available es) = (rw a at h) in
        elim k [ inl q ↦ ap available q ∙ a | inr q ↦ Among-available es e q ]
    | inr a ↦ Among-available es e (rw a at h)
  ]

module _ {Text : Type 0} (dec : Discrete Text) (available : ℕ → Bool) (ess : List ℕ → Option ℕ)
    (picks : Picks ess) where
  endpoint-IsAvailable :
      (name : Text) (slf : Gateway Text)
      → IsAvailable available (get_endpoint dec available ess name slf).1
  unfolding get_endpoint
  endpoint-IsAvailable name slf = elim (Option-cases (lookup dec name slf.es)) [
    | inl e ↦ rw (get_endpoint, e) tt
    | inr ([], e) ↦ rw (get_endpoint, e) tt
    | inr (x ∷ es, e) ↦
        rw (get_endpoint, e)
          (select-IsAvailable available ess (available_of available (x ∷ es)) picks
            (Among-available available (x ∷ es)))
  ]

  -- Whatever a connection is bound to, an endpoint that is handed out for it has a state above 0, if
  -- the selector picks one of those it is given.
  pub conn_endpoint-IsAvailable :
      (name conn : Text) (slf : Gateway Text)
      → IsAvailable available (get_conn_endpoint dec available ess name conn slf).1
  unfolding get_conn_endpoint
  conn_endpoint-IsAvailable name conn slf = elim (Option-cases (lookup dec conn slf.cce)) [
    | inl e ↦ rw (get_conn_endpoint, e) (endpoint-IsAvailable name slf)
    | inr (x, e) ↦ elim (Bool-cases (available x)) [
      | inl a ↦ rw (get_conn_endpoint, e, a) a
      | inr a ↦ rw (get_conn_endpoint, e, a) (endpoint-IsAvailable name slf)
    ]
  ]

-- The methods that change a gateway.
pub data Call (Text : Type 0) : Type 0 where
  running_at : Call Text
  scanning : List (Endpoint Text) → Call Text
  getting : Text → Call Text
  switching : Endpoint Text → Endpoint Text → Call Text
  closing : Call Text

module _ {Text : Type 0} where
  abbrev pub IsOpen : Gateway Text → Type 0
  IsOpen slf = (slf.closed ≡ false) × (slf.shut ≡ 0)

module _ {Text : Type 0} (dec : Discrete Text) (available : ℕ → Bool)
    (ess : List ℕ → Option ℕ) where
  unfoldable pub call : Gateway Text → Call Text → Gateway Text
  unfolding run_guards scan get_endpoint switch_endpoint shutdown
  call slf running_at = (run_guards slf).0
  call slf (scanning es) = scan dec es slf
  call slf (getting name) = (get_endpoint dec available ess name slf).0
  call slf (switching source dest) = switch_endpoint dec available source dest slf
  call slf closing = shutdown slf

  unfoldable pub calls : Gateway Text → List (Call Text) → Gateway Text
  unfolding call
  calls slf [] = slf
  calls slf (c ∷ cs) = calls (call slf c) cs

  scan-IsOpen :
      (es : List (Endpoint Text)) (slf : Gateway Text) → IsOpen slf → IsOpen (scan dec es slf)
  unfolding scan scan_one
  scan-IsOpen [] slf h = h
  scan-IsOpen (e ∷ es) slf h = scan-IsOpen es _ h

  either-IsOpen :
      (b : Bool) (x y : Gateway Text) → IsOpen x → IsOpen y → IsOpen (if b then x else y)
  either-IsOpen true x y h k = h
  either-IsOpen false x y h k = k

  call-IsOpen : (slf : Gateway Text) (c : Call Text) → IsOpen slf → IsOpen (call slf c)
  unfolding call run_guards get_endpoint switch_endpoint shutdown
  call-IsOpen slf running_at h = elim (Bool-cases slf.running) [
    | inl r ↦ rw (run_guards, h.0, r) (refl, h.1)
    | inr r ↦ rw (run_guards, h.0, r) (refl, h.1)
  ]
  call-IsOpen slf (scanning es) h = scan-IsOpen es slf h
  call-IsOpen slf (getting name) h = elim (Option-cases (lookup dec name slf.es)) [
    | inl e ↦ rw (call, get_endpoint, e) h
    | inr ([], e) ↦ rw (call, get_endpoint, e) h
    | inr (x ∷ es, e) ↦ rw (call, get_endpoint, e) h
  ]
  call-IsOpen slf (switching source dest) h = either-IsOpen _ _ _ h h
  call-IsOpen slf closing h = rw (call, shutdown, h.0) (refl, h.1)

  still-IsOpen : (cs : List (Call Text)) (slf : Gateway Text) → IsOpen slf → IsOpen (calls slf cs)
  unfolding calls
  still-IsOpen [] slf h = h
  still-IsOpen (c ∷ cs) slf h = still-IsOpen cs (call slf c) (call-IsOpen slf c h)

  -- Whatever of the modelled methods of the gateway is called, `Shutdown` included, a new gateway is
  -- never closed, and none of these calls shuts down the server below it.
  pub calls-IsOpen : (cs : List (Call Text)) → IsOpen (calls new_gateway cs)
  unfolding new_gateway
  calls-IsOpen cs = still-IsOpen cs new_gateway (refl, refl)
