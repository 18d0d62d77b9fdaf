-- ===== src/Gateway/Resources/Mirror.antt =====
-- What a snapshot says of the API server's objects, independently of the code (manager.go, matches
-- and store).
use kube_secret_gateway.Base.{
  true, false, Text, [], ◌∷◌, some, none, ◌≡◌, ◌↔◌, ◌⊎◌, refl, arith, text_eq, null,
}
use kube_secret_gateway.Gateway.Exposure.{SecretRef}
use kube_secret_gateway.Gateway.Snapshot.{Secret}
use kube_secret_gateway.Gateway.Resources.State.{Object, matches, snapshot_of}

-- The object is the Secret that the reference names; its namespace may be left empty.
abbrev pub IsNamed : SecretRef → Object → Type 0
IsNamed ref obj = (obj.name ≡ ref.name) × ((obj.namespace ≡ []) ⊎ (obj.namespace ≡ ref.namespace))

-- The snapshot has the object's data, version and UID.
pub record IsCopy (obj : Object) (s : Secret) : Type 0 where
  pub is_present : s.present ≡ true
  pub is_synced : s.synced ≡ true
  pub same_content : s.content ≡ obj.content
  pub same_version : s.resource_version ≡ obj.resource_version
  pub same_uid : s.uid ≡ obj.uid

-- The snapshot says that there is no such Secret, and has nothing of an earlier one.
pub record IsAbsent (s : Secret) : Type 0 where
  pub not_present : s.present ≡ false
  pub is_synced : s.synced ≡ true
  pub no_content : s.content ≡ []
  pub no_version : s.resource_version ≡ []
  pub no_uid : s.uid ≡ []

-- The snapshot before the state is established.
pub record IsUnknown (s : Secret) : Type 0 where
  pub not_present : s.present ≡ false
  pub not_synced : s.synced ≡ false
  pub no_content : s.content ≡ []
  pub no_version : s.resource_version ≡ []

null_iff : (s : Text) → (null s ≡ true) ↔ (s ≡ [])
null_iff [] = ground arith
null_iff (c ∷ s) = ground arith

pub matches_iff : (ref : SecretRef) (obj : Object) → (matches ref obj ≡ true) ↔ IsNamed ref obj
unfolding matches
matches_iff ref obj = ground (
  arith,
  null_iff obj.namespace,
  text_eq.same_iff obj.name ref.name,
  text_eq.same_iff obj.namespace ref.namespace,
)

pub snapshot_of-IsCopy : (obj : Object) → IsCopy obj (snapshot_of (some obj))
unfolding snapshot_of
snapshot_of-IsCopy obj = record {
  is_present = refl;
  is_synced = refl;
  same_content = refl;
  same_version = refl;
  same_uid = refl;
}

pub snapshot_of-IsAbsent : IsAbsent (snapshot_of none)
unfolding snapshot_of
snapshot_of-IsAbsent = record {
  not_present = refl;
  is_synced = refl;
  no_content = refl;
  no_version = refl;
  no_uid = refl;
}
