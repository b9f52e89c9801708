-- ===== src/Gateway/Routes.antt =====
-- server/gateway/gateway.go: the endpoints of a gateway and which of them a connection is bound to.
-- An endpoint is known by its number, as the code compares pointers. `available` tells whether its
-- state is above 0, and the selector `ess` is an argument, which returns none for nil.
use mathlib.Core.List.{lookup}
use minotaur.Base.{
  ℕ, List, [], ◌∷◌, Bool, true, false, not, ◌&&◌, ◌||◌, Option, some, none, if◌then◌else◌, ◌==◌,
  same, suc,
}
use minotaur.SyncMap.{put_entry, without}

pub data GatewayError : Type 0 where
  err_endpoint_not_exists err_gateway_closed err_gateway_running : GatewayError

pub data Found : Type 0 where
  found : ℕ → Found
  not_found : GatewayError → Found

-- `Gateway`: the endpoints by name and address, and the endpoint of each connection. `shut` counts
-- the calls of `srv.Shutdown()`.
pub record Gateway (Text : Type 0) : Type 0 where
  pub es : List (Text × List (Text × ℕ))
  pub closed : Bool
  pub running : Bool
  pub cce : List (Text × ℕ)
  pub shut : ℕ

-- What `SwitchEndpoint` and the scan read of an endpoint.
pub record Endpoint (Text : Type 0) : Type 0 where
  pub pointer : ℕ
  pub name : Text
  pub address : Text

-- The loop of `GetEndpoint` over the endpoints of a name.
unfoldable pub available_of : {Text : Type 0} → (ℕ → Bool) → List (Text × ℕ) → List ℕ
available_of available [] = []
available_of available ((address, e) ∷ es) =
    let rest = available_of available es in if available e then e ∷ rest else rest

unfoldable pub chosen : Option ℕ → Found
chosen none = not_found err_endpoint_not_exists
chosen (some e) = found e

unfoldable pub select : (List ℕ → Option ℕ) → List ℕ → Found
unfolding chosen
select ess [] = not_found err_endpoint_not_exists
select ess (e ∷ es) = chosen (ess (e ∷ es))

module _ {Text : Type 0} where
  unfoldable pub new_gateway : Gateway Text
  new_gateway = record { es = []; closed = false; running = false; cce = []; shut = 0 }

  unfoldable pub shutdown : Gateway Text → Gateway Text
  shutdown slf = if not slf.closed then slf else record slf { closed = true; shut = suc slf.shut }

  -- The beginning of `Run`: the error, or the gateway with `running` set.
  unfoldable pub run_guards : Gateway Text → Gateway Text × Option GatewayError
  run_guards slf =
      if slf.closed
      then (slf, some err_gateway_closed)
      else if slf.running
      then (slf, some err_gateway_running)
      else (record slf { running = true }, none)

module _ {Text : Type 0} (dec : Discrete Text) where
  -- `es[endpoint.GetAddress()]`, set if it is not there.
  unfoldable pub keep_first : Text → ℕ → List (Text × ℕ) → List (Text × ℕ)
  unfolding lookup put_entry
  keep_first address e es = elim (lookup dec address es) [
    | some _ ↦ es
    | none ↦ put_entry dec address e es
  ]

  -- The endpoints of a name, none where it is not there.
  unfoldable pub endpoints_of : Text → List (Text × List (Text × ℕ)) → List (Text × ℕ)
  unfolding lookup
  endpoints_of name es = elim (lookup dec name es) [ some m ↦ m | none ↦ [] ]

  -- The scan of `Run` under the lock: one endpoint, and all.
  unfoldable pub scan_one : Endpoint Text → Gateway Text → Gateway Text
  unfolding put_entry keep_first endpoints_of
  scan_one e slf = record slf {
    es = put_entry dec e.name (keep_first e.address e.pointer (endpoints_of e.name slf.es)) slf.es;
  }

  unfoldable pub scan : List (Endpoint Text) → Gateway Text → Gateway Text
  unfolding scan_one
  scan [] slf = slf
  scan (e ∷ es) slf = scan es (scan_one e slf)

  unfoldable pub get_endpoint :
      (ℕ → Bool) → (List ℕ → Option ℕ) → Text → Gateway Text → Gateway Text × Found
  unfolding lookup without available_of select
  get_endpoint available ess name slf = elim (lookup dec name slf.es) [
    | none ↦ (record slf { es = without dec name slf.es }, not_found err_endpoint_not_exists)
    | some endpoints ↦ elim endpoints [
      | [] ↦ (record slf { es = without dec name slf.es }, not_found err_endpoint_not_exists)
      | e ∷ es ↦ (slf, select ess (available_of available (e ∷ es)))
    ]
  ]

  unfoldable pub get_conn_endpoint :
      (ℕ → Bool) → (List ℕ → Option ℕ) → Text → Text → Gateway Text → Gateway Text × Found
  unfolding lookup get_endpoint
  get_conn_endpoint available ess name conn slf = elim (lookup dec conn slf.cce) [
    | none ↦ get_endpoint available ess name slf
    | some e ↦ if available e then (slf, found e) else get_endpoint available ess name slf
  ]

  -- The loop of `SwitchEndpoint`.
  unfoldable pub switch_loop : ℕ → ℕ → List (Text × ℕ) → List (Text × ℕ)
  switch_loop source dest [] = []
  switch_loop source dest ((id, e) ∷ cce) =
      let rest = switch_loop source dest cce in
      if e == source then (id, dest) ∷ rest else (id, e) ∷ rest

  unfoldable pub switch_endpoint :
      (ℕ → Bool) → Endpoint Text → Endpoint Text → Gateway Text → Gateway Text
  unfolding switch_loop
  switch_endpoint available source dest slf =
      if (same dec source.name dest.name && same dec source.address dest.address)
        || (not (available source.pointer) || not (available dest.pointer))
      then slf
      else record slf { cce = switch_loop source.pointer dest.pointer slf.cce }
