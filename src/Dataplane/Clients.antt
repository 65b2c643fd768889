-- ===== src/Dataplane/Clients.antt =====
-- internal/dataplane/transport.go: the clients of the providers: how they dial, how their settings are reported, and
-- how they are replaced. Addresses, their tests and the resolver are those of net and netip.
pub mod Dialing
pub mod Replacement
use diffractllm.Base.{
  Bool, true, false, not, ◌||◌, String, Option, none, some, is_set, or_default, List, [], ◌∷◌, ℕ, ℤ,
  pos, ltb_ℤ, eqb_ℤ, Map, lookup, insert, string_eq, if◌then◌else◌, Result, ok, err, ◌==◌,
}
use diffractllm.Dataplane.Transport.{compare_config, is_on}

-- The tests of netip.Addr, and `Unmap`.
pub record Addresses (A : Type 0) : Type 0 where
  pub unmap : A → A
  pub is_loopback : A → Bool
  pub is_private : A → Bool
  pub is_link_local_unicast : A → Bool
  pub is_link_local_multicast : A → Bool
  pub is_interface_local_multicast : A → Bool
  pub is_multicast : A → Bool
  pub is_unspecified : A → Bool

pub data DialError : Type 0 where
  bad_address unresolved lookup_failed blocked dial_failed no_addresses : DialError

-- What was dialed: a name, or an address.
pub data Target (A : Type 0) : Type 0 where
  by_name : Target A
  to_address : A → Target A

module _ {A : Type 0} (net : Addresses A) where
  unfoldable pub is_blocked_ip : A → Bool
  is_blocked_ip a =
      let ip = net.unmap a in
      net.is_loopback ip
      || net.is_private ip
      || net.is_link_local_unicast ip
      || net.is_link_local_multicast ip
      || net.is_interface_local_multicast ip
      || net.is_multicast ip
      || net.is_unspecified ip

  -- The error of the hook before a connection is made. `split` is whether the host is there, `parsed` the
  -- address that it is.
  unfoldable pub guarded_control : Bool → Bool → Option A → Option DialError
  unfolding is_blocked_ip
  guarded_control true split parsed = none
  guarded_control false false parsed = some bad_address
  guarded_control false true none = some unresolved
  guarded_control false true (some ip) = if is_blocked_ip ip then some blocked else none

  -- The loop over the addresses, with the last error; `dials` is whether a connection comes about.
  unfoldable pub dial_addresses :
      (A → Bool) → List A → Option DialError → List (Target A) × Result DialError (Target A)
  unfolding is_blocked_ip
  dial_addresses dials [] last = ([], err (or_default last no_addresses))
  dial_addresses dials (ip ∷ ips) last =
      let skipped = dial_addresses dials ips (some blocked) in
      let (dialed, result) = dial_addresses dials ips (some dial_failed) in
      if is_blocked_ip ip
      then skipped
      else if dials ip
      then (to_address ip ∷ [], ok (to_address ip))
      else (to_address ip ∷ dialed, result)

  -- What is dialed, and the connection.
  unfoldable pub guarded_proxy_dial :
      Bool
      → Bool
      → Option (List A)
      → Bool
      → (A → Bool)
      → List (Target A) × Result DialError (Target A)
  unfolding dial_addresses
  guarded_proxy_dial true split resolved name_dials dials =
      (by_name ∷ [], if name_dials then ok by_name else err dial_failed)
  guarded_proxy_dial false false resolved name_dials dials = ([], err bad_address)
  guarded_proxy_dial false true none name_dials dials = ([], err lookup_failed)
  guarded_proxy_dial false true (some ips) name_dials dials = dial_addresses dials ips none

-- The settings of a provider's network that the transport reads.
pub record NetworkConfig : Type 0 where
  pub request_timeout : Option ℤ
  pub stream_idle_timeout : Option ℤ
  pub max_conns_per_host : Option ℤ
  pub max_response_bytes : ℤ
  pub max_retries : Option ℤ
  pub retry_backoff : Option ℤ
  pub retry_ambiguous_status : Option Bool

-- The defaults of the configuration.
pub record UpstreamConfig : Type 0 where
  pub request_timeout : ℤ
  pub stream_idle_timeout : ℤ
  pub max_conns_per_host : ℤ
  pub max_response_bytes : ℤ
  pub max_retries : ℤ
  pub retry_backoff : ℤ

unfoldable pub effective_network : UpstreamConfig → NetworkConfig → NetworkConfig
unfolding compare_config
effective_network defaults stored = record {
  request_timeout = some (compare_config defaults.request_timeout stored.request_timeout);
  stream_idle_timeout =
      some (compare_config defaults.stream_idle_timeout stored.stream_idle_timeout);
  max_conns_per_host = some (compare_config defaults.max_conns_per_host stored.max_conns_per_host);
  max_response_bytes =
      if eqb_ℤ stored.max_response_bytes (pos 0)
      then defaults.max_response_bytes
      else stored.max_response_bytes;
  max_retries = some (compare_config defaults.max_retries stored.max_retries);
  retry_backoff = some (compare_config defaults.retry_backoff stored.retry_backoff);
  retry_ambiguous_status = some (is_on stored.retry_ambiguous_status);
}

-- A client is known by its address; a build makes a new one, or fails.
abbrev pub Clients : Type 0
Clients = Map String ℕ

module _ {U : Type 0} (build : String → U → Option ℕ) where
  unfoldable pub build_providers : Map String U → Clients
  unfolding insert
  build_providers [] = []
  build_providers ((provider, upstream) ∷ upstreams) =
      let rest = build_providers upstreams in
      elim (build provider upstream) [ none ↦ rest | some client ↦ insert provider client rest ]

  abbrev pub old_client : Option Clients → String → Option ℕ
  old_client none provider = none
  old_client (some clients) provider = lookup provider clients

  -- The providers whose build failed, with the client before, if any.
  unfoldable pub keep_previous : Option Clients → Map String U → Clients → Clients × List String
  unfolding lookup insert
  keep_previous old [] next = (next, [])
  keep_previous old ((provider, upstream) ∷ upstreams) next =
      let passed = keep_previous old upstreams next in
      let kept : Clients = elim (old_client old provider) [
        | none ↦ next
        | some client ↦ insert provider client next
      ] in
      let (final, failed) = keep_previous old upstreams kept in
      if is_set (lookup provider next) then passed else (final, provider ∷ failed)

  -- The previous clients that are not in use any more.
  unfoldable pub close_dropped : Clients → Clients → List ℕ
  unfolding lookup
  close_dropped [] next = []
  close_dropped ((provider, client) ∷ old) next =
      let rest = close_dropped old next in
      elim (lookup provider next) [
        | none ↦ client ∷ rest
        | some used ↦ if used == client then rest else client ∷ rest
      ]

  -- The clients, the providers whose build failed, and the clients whose idle connections are closed.
  unfoldable pub replace : Option Clients → Map String U → Clients × List String × List ℕ
  unfolding build_providers keep_previous close_dropped
  replace old upstreams =
      let (next, failed) = keep_previous old upstreams (build_providers upstreams) in
      (next, failed, elim old [ none ↦ [] | some clients ↦ close_dropped clients next ])
