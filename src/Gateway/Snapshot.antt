-- ===== src/Gateway/Snapshot.antt =====
-- The type Secret of gateway/internal/resources/manager.go: an immutable snapshot of one watched
-- Secret. Its zero value stands for a Secret that is not known.
use kube_secret_gateway.Base.{Bool, false, Text, List, []}

pub record Secret : Type 0 where
  pub present : Bool
  pub synced : Bool
  pub content : List (Text × Text)
  pub resource_version : Text
  pub uid : Text

abbrev pub zero_secret : Secret
zero_secret = record {
  present = false;
  synced = false;
  content = [];
  resource_version = [];
  uid = [];
}
