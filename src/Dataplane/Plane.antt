-- ===== src/Dataplane/Plane.antt =====
-- internal/providerplane/plane.go: the credentials by provider. A snapshot is replaced as a whole, under
-- the lock; `none` is a plane without one.
pub mod Laws
use text.Mathlib.Text.{◌==◌}
use diffractllm.Base.{
  ℕ, ◌+◌, Bool, true, false, not, ◌&&◌, String, Option, none, some, List, [], ◌∷◌, ◌++◌, ℤ, length,
  or_default, if◌then◌else◌, Result, ok, err, Map, lookup, insert, delete, string_eq,
}
use diffractllm.Base.{◌==◌ as nat_equal}
use diffractllm.Core.Models.{CatalogKey}
use diffractllm.Core.Credential.{
  Credential, CredentialError, check_model, check_validity, validate_credential,
}

abbrev pub Snapshot : Type 0
Snapshot = Map String (List Credential)

-- A missing key of the map is a nil slice.
abbrev pub bucket_of : String → Snapshot → List Credential
bucket_of provider snap = or_default (lookup provider snap) []

unfoldable pub add_credentials : List Credential → Snapshot → Snapshot
unfolding lookup insert
add_credentials [] snap = snap
add_credentials (cred ∷ creds) snap =
    add_credentials creds (insert cred.provider (bucket_of cred.provider snap ++ cred ∷ []) snap)

unfoldable pub build_cred_snapshot : List Credential → Snapshot
unfolding add_credentials
build_cred_snapshot credentials = add_credentials credentials []

unfoldable pub serving : ℤ → String → List Credential → List Credential
serving now model [] = []
serving now model (cred ∷ bucket) =
    let rest = serving now model bucket in
    if check_validity now cred && check_model cred model then cred ∷ rest else rest

unfoldable pub candidates : ℤ → Option Snapshot → CatalogKey → List Credential
unfolding serving lookup
candidates now none key = []
candidates now (some snap) key = serving now key.model_name (bucket_of key.provider snap)

unfoldable pub credentials : Option Snapshot → String → List Credential
unfolding lookup
credentials none provider = []
credentials (some snap) provider = bucket_of provider snap

abbrev pub clone : Option Snapshot → Snapshot
clone none = []
clone (some old) = old

-- The loop of `UpsertCredential`: the bucket with the credential in the place of the old one, and whether
-- there was one.
unfoldable pub replace_credential : Credential → List Credential → List Credential × Bool
replace_credential cred [] = ([], false)
replace_credential cred (existing ∷ bucket) =
    let (replaced, found) = replace_credential cred bucket in
    if existing.id == cred.id then (cred ∷ replaced, true) else (existing ∷ replaced, found)

unfoldable pub upsert_credential :
    Credential → Option Snapshot → Result CredentialError (Option Snapshot)
upsert_credential cred plane = elim (validate_credential cred) [
  | err e ↦ err e
  | ok done ↦
      let next = clone plane in
      let (replaced, found) = replace_credential cred (bucket_of cred.provider next) in
      ok (some (insert cred.provider (if found then replaced else replaced ++ cred ∷ []) next))
]

unfoldable pub without_id : String → List Credential → List Credential
without_id id [] = []
without_id id (existing ∷ bucket) =
    let kept = without_id id bucket in if existing.id == id then kept else existing ∷ kept

-- `none` is `ErrNoCredential`.
unfoldable pub remove_credential : String → String → Option Snapshot → Option (Option Snapshot)
remove_credential provider id plane =
    let next = clone plane in
    let bucket = bucket_of provider next in
    let kept = without_id id bucket in
    if nat_equal (length kept) (length bucket)
    then none
    else if nat_equal (length kept) 0
    then some (some (delete provider next))
    else some (some (insert provider kept next))

unfoldable pub replace_all : List Credential → Option Snapshot → Option Snapshot
unfolding build_cred_snapshot
replace_all credentials plane = some (build_cred_snapshot credentials)

unfoldable pub count_all : Snapshot → ℕ
count_all [] = 0
count_all ((provider, bucket) ∷ snap) = length bucket + count_all snap

unfoldable pub len : Option Snapshot → ℕ
unfolding count_all
len none = 0
len (some snap) = count_all snap

-- What the administration does to the plane; an operation that answers an error leaves it.
pub data PlaneOp : Type 0 where
  upserted : Credential → PlaneOp
  removed : String → String → PlaneOp
  replaced_all : List Credential → PlaneOp

unfoldable pub plane_step : Option Snapshot → PlaneOp → Option Snapshot
plane_step plane (upserted cred) = elim (upsert_credential cred plane) [
  | err e ↦ plane
  | ok plane' ↦ plane'
]
plane_step plane (removed provider id) = or_default (remove_credential provider id plane) plane
plane_step plane (replaced_all creds) = replace_all creds plane

unfoldable pub plane_run : Option Snapshot → List PlaneOp → Option Snapshot
unfolding plane_step
plane_run plane [] = plane
plane_run plane (op ∷ ops) = plane_run (plane_step plane op) ops
