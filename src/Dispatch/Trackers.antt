-- ===== src/Dispatch/Trackers.antt =====
-- The resource trackers of apis/core.oam.dev/v1beta1/core_types.go, and what the dispatcher takes from
-- the API server.
use rudr_x.Base.{List, String, ℕ}
use rudr_x.Apply.{ObjectApi}
use rudr_x.Cluster.Calls.{Call}
use rudr_x.Cluster.References.{TypedReference}

-- The fields of a `ResourceTracker` that the code reads or writes; a nil slice is an empty list.
pub record ResourceTracker : Type 0 where
  pub name : String
  pub uid : String
  pub labels : List (String × String)
  pub tracked_resources : List TypedReference

-- `client.Client` on trackers and on the objects that they track. `retries` is one less than the
-- steps of client-go's `DefaultBackoff`.
pub record DispatchApi (W Patch : Type 0) : Type 0 where
  pub objects : ObjectApi W Patch
  pub delete_object : TypedReference → Call W (Unit {0})
  pub get_tracker : String → Call W ResourceTracker
  pub create_tracker : ResourceTracker → Call W ResourceTracker
  pub update_tracker_status : ResourceTracker → Call W ResourceTracker
  pub delete_tracker : ResourceTracker → Call W (Unit {0})
  pub retries : ℕ
