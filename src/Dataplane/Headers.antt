-- ===== src/Dataplane/Headers.antt =====
-- internal/dataplane/transport.go: the headers of a request to a provider, and of its answer. `canonical` is the
-- form under which net/http keeps a name, `folded` the trimmed name in lower case.
use diffractllm.Base.{
  ◌≡◌, refl, sym, ap, ◌∙◌, Bool, true, false, Bool-cases, inl, inr, String, Option, none, some,
  List, [], ◌∷◌, Map, lookup, insert, delete, lookup-insert, string_eq, ◌==?◌, if◌then◌else◌, arith,
}
use diffractllm.Core.VirtualKey.{has}

pub record Names : Type 0 where
  pub canonical : String → String
  pub folded : String → String

-- Names that net/http keeps under one form differ in case only.
abbrev pub FoldsCanonical : Names → Type 0
FoldsCanonical n = (j k : String) → n.canonical j ≡ n.canonical k → n.folded j ≡ n.folded k

abbrev reserved_names : List String
reserved_names =
    "authorization" ∷ "api-key" ∷ "x-api-key" ∷ "x-goog-api-key" ∷ "content-type" ∷ "content-length"
    ∷ "host" ∷ "connection" ∷ "proxy-connection" ∷ "keep-alive" ∷ "proxy-authenticate"
    ∷ "proxy-authorization" ∷ "te" ∷ "trailer" ∷ "transfer-encoding" ∷ "upgrade" ∷ []

abbrev hop_names : List String
hop_names =
    "Connection" ∷ "Proxy-Connection" ∷ "Keep-Alive" ∷ "Proxy-Authenticate" ∷ "Proxy-Authorization"
    ∷ "Te" ∷ "Trailer" ∷ "Transfer-Encoding" ∷ "Upgrade" ∷ []

module _ (n : Names) where
  unfoldable pub reserved_header : String → Bool
  unfolding has
  reserved_header name = has reserved_names (n.folded name)

  -- `httpReq.Header.Set` of each header that is given.
  unfoldable pub set_headers : Map String String → Map String String → Map String String
  unfolding insert
  set_headers [] headers = headers
  set_headers ((k, v) ∷ given) headers = set_headers given (insert (n.canonical k) v headers)

  -- The headers of the provider's network, without the reserved ones.
  unfoldable pub set_unreserved : Map String String → Map String String → Map String String
  unfolding reserved_header insert
  set_unreserved [] headers = headers
  set_unreserved ((k, v) ∷ network) headers =
      let skipped = set_unreserved network headers in
      let taken = set_unreserved network (insert (n.canonical k) v headers) in
      if reserved_header k then skipped else taken

  unfoldable pub request_headers : Map String String → Map String String → Map String String
  unfolding set_headers set_unreserved
  request_headers network given = set_headers given (set_unreserved network [])

  unfoldable pub delete_headers : List String → Map String (List String) → Map String (List String)
  unfolding delete
  delete_headers [] headers = headers
  delete_headers (k ∷ ks) headers = delete_headers ks (delete (n.canonical k) headers)

  unfoldable first_value : Option (List String) → String
  first_value none = ""
  first_value (some []) = ""
  first_value (some (v ∷ vs)) = v

  -- `fields` is the split of the header `Connection` at commas and spaces.
  unfoldable pub remove_hop_headers :
      (String → List String) → Map String (List String) → Map String (List String)
  unfolding delete_headers lookup first_value
  remove_hop_headers fields headers =
      let named = delete_headers (fields (first_value (lookup "Connection" headers))) headers in
      delete_headers hop_names
        (if first_value (lookup "Connection" headers) ==? "" then headers else named)

  lookup-set_headers :
      (given headers other : Map String String) (k : String)
      → lookup k headers ≡ lookup k other
      → lookup k (set_headers given headers) ≡ lookup k (set_headers given other)
  unfolding set_headers
  lookup-set_headers [] headers other k same = same
  lookup-set_headers ((j, v) ∷ given) headers other k same =
      lookup-set_headers given (insert (n.canonical j) v headers) (insert (n.canonical j) v other) k
        (ground (
          arith,
          lookup-insert (n.canonical j) k v headers,
          lookup-insert (n.canonical j) k v other,
          same,
        ))

  canonical_apart :
      FoldsCanonical n
      → (j k : String) → reserved_header j ≡ false
      → reserved_header k ≡ true
      → (n.canonical j ==? n.canonical k) ≡ false
  unfolding reserved_header
  canonical_apart folds j k free reserved = elim (Bool-cases (n.canonical j ==? n.canonical k)) [
    | inl same ↦
        let fold = folds j k ((string_eq.beq_iff (n.canonical j) (n.canonical k)).0 same) in
        let taken : has reserved_names (n.folded k) ≡ false =
          ap (has reserved_names) (sym fold) ∙ free in
        absurd (ground (arith, taken, reserved))
    | inr apart ↦ apart
  ]

  lookup-set_unreserved :
      FoldsCanonical n
      → (network headers : Map String String) (k : String) → reserved_header k ≡ true
      → lookup (n.canonical k) (set_unreserved network headers) ≡ lookup (n.canonical k) headers
  unfolding set_unreserved
  lookup-set_unreserved folds [] headers k reserved = refl
  lookup-set_unreserved folds ((j, v) ∷ network) headers k reserved =
      elim (Bool-cases (reserved_header j)) [
        | inl shut ↦ rw shut (lookup-set_unreserved folds network headers k reserved)
        | inr free ↦
            let apart : (n.canonical j ==? n.canonical k) ≡ false =
              canonical_apart folds j k free reserved in
            rw free (
              lookup-set_unreserved folds network (insert (n.canonical j) v headers) k reserved
              ∙ ground (arith, apart, lookup-insert (n.canonical j) (n.canonical k) v headers))
      ]

  -- A reserved header of a request to a provider is the one that the adapter gave, or missing: the headers that are
  -- configured for the provider's network, whatever the case of their names, change none of them.
  pub request_headers-reserved :
      (network given : Map String String) (k : String)
      → FoldsCanonical n
      → reserved_header k ≡ true
      → lookup (n.canonical k) (request_headers network given)
        ≡ lookup (n.canonical k) (request_headers [] given)
  unfolding request_headers set_unreserved
  request_headers-reserved network given k folds reserved =
      lookup-set_headers given (set_unreserved network []) [] (n.canonical k)
        (lookup-set_unreserved folds network [] k reserved)
