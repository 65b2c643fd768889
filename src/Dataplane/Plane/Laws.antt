-- ===== src/Dataplane/Plane/Laws.antt =====
-- internal/providerplane/plane.go: what a credential that is offered for a model is known to be.
use text.Mathlib.Text.{◌==◌}
use text.Mathlib.TextEquality.{eq_iff}
use diffractllm.Base.{
  All-append, subst, ◌≡◌, refl, sym, Bool, true, false, ◌&&◌, String, Option, none, some, List, [],
  ◌∷◌, ◌++◌, ℤ, if◌then◌else◌, ok, lookup, insert, lookup-insert, lookup-delete, delete, string_eq,
  All, arith, Bool-cases, Option-cases, inl, inr, ◌==?◌, Result-cases,
}
use diffractllm.Base.{◌==◌ as nat_equal, length}
use diffractllm.Core.Models.{CatalogKey}
use diffractllm.Core.Credential.{Credential, check_model, check_validity}
use diffractllm.Dataplane.Plane.{
  upserted, removed, replaced_all, plane_step, plane_run, PlaneOp, Snapshot, bucket_of,
  add_credentials, build_cred_snapshot, serving, candidates, clone, replace_credential,
  upsert_credential, without_id, remove_credential, replace_all,
}

-- Every credential of a bucket is one of the bucket's provider.
abbrev pub IsBucketed : Snapshot → Type 0
IsBucketed snap = (provider : String) → All (λ c. c.provider ≡ provider) (bucket_of provider snap)

abbrev pub IsBucketedPlane : Option Snapshot → Type 0
IsBucketedPlane plane = IsBucketed (clone plane)

All-if :
    (P : Credential → Type 0) (b : Bool) (xs ys : List Credential)
    → (b ≡ true → All P xs)
    → (b ≡ false → All P ys)
    → All P (if b then xs else ys)
All-if P true xs ys h k = h refl
All-if P false xs ys h k = k refl

bucket_of-insert :
    (provider other : String) (bucket : List Credential) (snap : Snapshot)
    → bucket_of other (insert provider bucket snap)
      ≡ (if provider ==? other then bucket else bucket_of other snap)
bucket_of-insert provider other bucket snap =
    ground (arith, lookup-insert provider other bucket snap)

bucket_of-delete :
    (provider other : String) (snap : Snapshot)
    → bucket_of other (delete provider snap)
      ≡ (if provider ==? other then [] else bucket_of other snap)
bucket_of-delete provider other snap = ground (arith, lookup-delete provider other snap)

insert-IsBucketed :
    (provider : String) (bucket : List Credential) (snap : Snapshot)
    → IsBucketed snap
    → All (λ c. c.provider ≡ provider) bucket
    → IsBucketed (insert provider bucket snap)
insert-IsBucketed provider bucket snap h hb other =
    rw (bucket_of-insert provider other bucket snap) (
      All-if (λ c. c.provider ≡ other) (provider ==? other) bucket (bucket_of other snap)
        (λ same. subst (λ p. All (λ c. c.provider ≡ p) bucket) ((eq_iff provider other).0 same) hb)
        (λ apart. h other))

delete-IsBucketed :
    (provider : String) (snap : Snapshot) → IsBucketed snap → IsBucketed (delete provider snap)
delete-IsBucketed provider snap h other = rw (bucket_of-delete provider other snap) (
    All-if (λ c. c.provider ≡ other) (provider ==? other) [] (bucket_of other snap) (λ same. tt)
      (λ apart. h other))

add_credentials-IsBucketed :
    (creds : List Credential) (snap : Snapshot)
    → IsBucketed snap
    → IsBucketed (add_credentials creds snap)
unfolding add_credentials
add_credentials-IsBucketed [] snap h = h
add_credentials-IsBucketed (cred ∷ creds) snap h =
    add_credentials-IsBucketed creds
      (insert cred.provider (bucket_of cred.provider snap ++ cred ∷ []) snap)
      (insert-IsBucketed cred.provider (bucket_of cred.provider snap ++ cred ∷ []) snap h (
        All-append (λ c. c.provider ≡ cred.provider) (bucket_of cred.provider snap) (cred ∷ [])
          (h cred.provider) (refl, tt)))

replace_credential-All :
    (cred : Credential) (bucket : List Credential)
    → All (λ c. c.provider ≡ cred.provider) bucket
    → All (λ c. c.provider ≡ cred.provider) (replace_credential cred bucket).0
unfolding replace_credential
replace_credential-All cred [] h = tt
replace_credential-All cred (existing ∷ bucket) h = elim (Bool-cases (existing.id == cred.id)) [
  | inl same ↦ rw same (refl, replace_credential-All cred bucket h.1)
  | inr apart ↦ rw apart (h.0, replace_credential-All cred bucket h.1)
]

without_id-All :
    (P : Credential → Type 0) (id : String) (bucket : List Credential)
    → All P bucket
    → All P (without_id id bucket)
unfolding without_id
without_id-All P id [] h = tt
without_id-All P id (existing ∷ bucket) h =
    All-if P (existing.id == id) (without_id id bucket) (existing ∷ without_id id bucket)
      (λ same. without_id-All P id bucket h.1) (λ apart. (h.0, without_id-All P id bucket h.1))

-- A credential that may serve a model at an instant.
abbrev pub IsServing : ℤ → CatalogKey → Credential → Type 0
IsServing now key c =
    (c.provider ≡ key.provider)
    × (check_validity now c ≡ true)
    × (check_model c key.model_name ≡ true)

serving-IsServing :
    (now : ℤ) (key : CatalogKey) (bucket : List Credential)
    → All (λ c. c.provider ≡ key.provider) bucket
    → All (IsServing now key) (serving now key.model_name bucket)
unfolding serving
serving-IsServing now key [] h = tt
serving-IsServing now key (c ∷ bucket) h =
    let rest = serving-IsServing now key bucket h.1 in
    All-if (IsServing now key) (check_validity now c && check_model c key.model_name)
      (c ∷ serving now key.model_name bucket) (serving now key.model_name bucket)
      (λ may. ((h.0, ground arith, ground arith), rest)) (λ not_now. rest)

upsert_credential-IsBucketed :
    (cred : Credential) (plane plane' : Option Snapshot)
    → IsBucketedPlane plane
    → upsert_credential cred plane ≡ ok plane'
    → IsBucketedPlane plane'
unfolding upsert_credential
upsert_credential-IsBucketed cred plane plane' h e =
    let next = clone plane in
    let r = replace_credential cred (bucket_of cred.provider next) in
    let made : plane' ≡ some (insert cred.provider (if r.1 then r.0 else r.0 ++ cred ∷ []) next) =
      ground arith in
    let members =
      All-if (λ c. c.provider ≡ cred.provider) r.1 r.0 (r.0 ++ cred ∷ [])
        (λ found. replace_credential-All cred (bucket_of cred.provider next) (h cred.provider))
        (λ missing.
          All-append (λ c. c.provider ≡ cred.provider) r.0 (cred ∷ [])
            (replace_credential-All cred (bucket_of cred.provider next) (h cred.provider))
            (refl, tt)) in
    subst IsBucketedPlane (sym made)
      (insert-IsBucketed cred.provider (if r.1 then r.0 else r.0 ++ cred ∷ []) next h members)

remove_credential-IsBucketed :
    (provider id : String) (plane plane' : Option Snapshot)
    → IsBucketedPlane plane
    → remove_credential provider id plane ≡ some plane'
    → IsBucketedPlane plane'
unfolding remove_credential
remove_credential-IsBucketed provider id plane plane' h e =
    let next = clone plane in
    let kept = without_id id (bucket_of provider next) in
    let members =
      without_id-All (λ c. c.provider ≡ provider) id (bucket_of provider next) (h provider) in
    elim (Bool-cases (nat_equal (length kept) 0)) [
      | inl empty ↦
          let made : plane' ≡ some (delete provider next) = ground arith in
          subst IsBucketedPlane (sym made) (delete-IsBucketed provider next h)
      | inr some_left ↦
          let made : plane' ≡ some (insert provider kept next) = ground arith in
          subst IsBucketedPlane (sym made) (insert-IsBucketed provider kept next h members)
    ]

fresh-IsBucketed : (creds : List Credential) → IsBucketedPlane (some (build_cred_snapshot creds))
unfolding build_cred_snapshot lookup
fresh-IsBucketed creds = add_credentials-IsBucketed creds [] (λ provider. tt)

plane_step-IsBucketed :
    (plane : Option Snapshot) (op : PlaneOp)
    → IsBucketedPlane plane
    → IsBucketedPlane (plane_step plane op)
unfolding plane_step replace_all
plane_step-IsBucketed plane (upserted cred) h = elim (Result-cases (upsert_credential cred plane)) [
  | inl (e, failed) ↦
      let same : plane_step plane (upserted cred) ≡ plane = ground arith in
      subst IsBucketedPlane (sym same) h
  | inr (plane', done) ↦
      let moved : plane_step plane (upserted cred) ≡ plane' = ground arith in
      subst IsBucketedPlane (sym moved) (upsert_credential-IsBucketed cred plane plane' h done)
]
plane_step-IsBucketed plane (removed provider id) h =
    elim (Option-cases (remove_credential provider id plane)) [
      | inl failed ↦
          let same : plane_step plane (removed provider id) ≡ plane = ground arith in
          subst IsBucketedPlane (sym same) h
      | inr (plane', done) ↦
          let moved : plane_step plane (removed provider id) ≡ plane' = ground arith in
          subst IsBucketedPlane (sym moved)
            (remove_credential-IsBucketed provider id plane plane' h done)
    ]
plane_step-IsBucketed plane (replaced_all creds) h = fresh-IsBucketed creds

plane_run-IsBucketed :
    (plane : Option Snapshot) (ops : List PlaneOp)
    → IsBucketedPlane plane
    → IsBucketedPlane (plane_run plane ops)
unfolding plane_run
plane_run-IsBucketed plane [] h = h
plane_run-IsBucketed plane (op ∷ ops) h =
    plane_run-IsBucketed (plane_step plane op) ops (plane_step-IsBucketed plane op h)

candidates-clone :
    (now : ℤ) (plane : Option Snapshot) (key : CatalogKey)
    → IsBucketedPlane plane
    → All (IsServing now key) (candidates now plane key)
unfolding candidates
candidates-clone now none key h = tt
candidates-clone now (some snap) key h =
    serving-IsServing now key (bucket_of key.provider snap) (h key.provider)

-- Whatever the administration did since the plane was made, every credential that is offered for a model
-- belongs to the provider that was asked for, is enabled and not expired, and may serve the model.
pub candidates-IsServing :
    (creds : List Credential) (ops : List PlaneOp) (now : ℤ) (key : CatalogKey)
    → All
        (IsServing now key)
        (candidates now (plane_run (some (build_cred_snapshot creds)) ops) key)
candidates-IsServing creds ops now key =
    candidates-clone now (plane_run (some (build_cred_snapshot creds)) ops) key
      (plane_run-IsBucketed (some (build_cred_snapshot creds)) ops (fresh-IsBucketed creds))
