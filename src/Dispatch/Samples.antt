-- ===== src/Dispatch/Samples.antt =====
-- The library of the witnesses: texts are put together, nothing is quoted.
use rudr_x.Base.{none, true}
use rudr_x.Base.Text.{◌+++◌}
use rudr_x.Apply.{Library}
use rudr_x.Cluster.Calls.{ok}

abbrev pub library : Library (Unit {0})
library = record {
  marshal = λ m. ok (m.name +++ " " +++ m.content);
  is_registered = λ m. ok true;
  json_merge_patch = λ original modified current. ok tt;
  strategic_merge_patch = λ m original modified current. ok tt;
  get_controller_of = λ owners. none;
  quoted = λ s. s;
  quoted_list = λ ss. "";
  quoted_reference = λ r. r.name;
}
