-- ===== src/Tests/Networks.antt =====
-- Clients that are replaced, addresses that are dialed, and settings that are reported.
use diffractllm.Core.VirtualKey.{has}
use diffractllm.Dataplane.Headers.{
  Names, reserved_header, request_headers, remove_hop_headers, delete_headers,
  request_headers-reserved,
}
use diffractllm.Base.{
  ◌==?◌, delete, ◌+◌, if◌then◌else◌, ◌≡◌, refl, true, false, ℕ, [], ◌∷◌, All, none, some, Option,
  pos, negsuc, ok, String, lookup, Map, string_eq, ◌==◌, ltb, ◌⊎◌,
}
use diffractllm.Dataplane.Clients.{
  Addresses, Target, guarded_proxy_dial, replace, NetworkConfig, UpstreamConfig, effective_network,
}
use diffractllm.Dataplane.Clients.Dialing.{IsOpen, IsOut, guarded_proxy_dial-IsOpen}
use diffractllm.Dataplane.Clients.Replacement.{lookup-replace}

-- Addresses below 10 are private.
abbrev numbers : Addresses ℕ
numbers = record {
  unmap = λ a. a;
  is_loopback = λ a. a == 127;
  is_private = λ a. ltb a 10;
  is_link_local_unicast = λ a. false;
  is_link_local_multicast = λ a. false;
  is_interface_local_multicast = λ a. false;
  is_multicast = λ a. false;
  is_unspecified = λ a. a == 0;
}

guarded_proxy_dial-IsOpen_example :
    All
      (IsOpen numbers)
      (guarded_proxy_dial numbers false true (some (127 ∷ 3 ∷ 20 ∷ [])) true (λ a. true)).0
    × (((ip : Target ℕ) × ((guarded_proxy_dial numbers false true
              (some (127 ∷ 3 ∷ 20 ∷ []))
              true
              (λ a. true)).1
            ≡ ok ip))
        ⊎ All (IsOut numbers (λ a. true)) (127 ∷ 3 ∷ 20 ∷ []))
guarded_proxy_dial-IsOpen_example =
    guarded_proxy_dial-IsOpen numbers (127 ∷ 3 ∷ 20 ∷ []) true (λ a. true)

-- The settings of azure cannot be built.
abbrev build : String → ℕ → Option ℕ
build provider setting = if setting == 0 then none else some (setting + 100)

abbrev settings : Map String ℕ
settings = ("openai", 7) ∷ ("azure", 0) ∷ []

lookup-replace_example :
    lookup "azure" (replace build (some (("azure", 5) ∷ ("openai", 6) ∷ [])) settings).0 ≡ some 5
unfolding lookup
lookup-replace_example =
    lookup-replace build (some (("azure", 5) ∷ ("openai", 6) ∷ [])) settings "azure"
      (refl, (refl, tt))

abbrev defaults : UpstreamConfig
defaults = record {
  request_timeout = pos 60;
  stream_idle_timeout = pos 30;
  max_conns_per_host = pos 8;
  max_response_bytes = pos 1_048_576;
  max_retries = pos 2;
  retry_backoff = pos 5;
}

abbrev stored_network : NetworkConfig
stored_network = record {
  request_timeout = none;
  stream_idle_timeout = some (pos 9);
  max_conns_per_host = none;
  max_response_bytes = pos 0;
  max_retries = some (pos 4);
  retry_backoff = some (negsuc 3);
  retry_ambiguous_status = none;
}

reported : (effective_network defaults stored_network).max_retries ≡ some (pos 4)
unfolding effective_network
reported = refl

abbrev plain_names : Names
plain_names = record { canonical = λ s. s; folded = λ s. s }

abbrev network_headers : Map String String
network_headers = ("authorization", "stolen") ∷ ("x-team", "7") ∷ []

abbrev adapter_headers : Map String String
adapter_headers = ("authorization", "key") ∷ ("accept", "json") ∷ []

hop_headers :
    remove_hop_headers plain_names
      (λ s. if s ==? "x-next" then "x-next" ∷ [] else [])
      (("Connection", "x-next" ∷ "later" ∷ [])
        ∷ ("x-next", "1" ∷ [])
        ∷ ("Te", [])
        ∷ ("x-id", "2" ∷ [])
        ∷ [])
    ≡ (("x-id", "2" ∷ []) ∷ [])
unfolding remove_hop_headers delete_headers delete lookup
hop_headers = refl

request_headers-reserved_example :
    lookup "authorization" (request_headers plain_names network_headers adapter_headers)
    ≡ lookup "authorization" (request_headers plain_names [] adapter_headers)
unfolding reserved_header has
request_headers-reserved_example =
    request_headers-reserved plain_names network_headers adapter_headers "authorization"
      (λ j k same. same) refl
