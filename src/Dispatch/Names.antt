-- ===== src/Dispatch/Names.antt =====
-- name.go: the name of a resource tracker, and the names that are read from it.
use rudr_x.Base.{String, ◌≡◌}
use rudr_x.Base.Text.{◌+++◌}
use rudr_x.Cluster.Names.{
  IsPlain, but_last, but_last-append, join, join-split, split, split-append, trim_suffix,
  trim_suffix-append,
}

unfoldable pub construct_resource_tracker_name : String → String → String
construct_resource_tracker_name app_rev_name ns = app_rev_name +++ "-" +++ ns

unfoldable pub extract_app_name : String → String → String
extract_app_name resource_tracker_name ns =
    join (but_last (split (trim_suffix resource_tracker_name ("-" +++ ns))))

unfoldable pub extract_app_revision_name : String → String → String
extract_app_revision_name resource_tracker_name ns = trim_suffix resource_tracker_name ("-" +++ ns)

-- The names of the revision and of the application are read back from the name of the tracker of a
-- revision that is named by the application, a dash and a version without one, in any namespace.
pub extract-construct :
    (app version ns : String)
    → IsPlain version
    → (extract_app_revision_name (construct_resource_tracker_name (app +++ "-" +++ version) ns) ns
        ≡ app +++ "-" +++ version)
      × (extract_app_name (construct_resource_tracker_name (app +++ "-" +++ version) ns) ns ≡ app)
unfolding construct_resource_tracker_name extract_app_name extract_app_revision_name
extract-construct app version ns plain = (
  trim_suffix-append (app +++ "-" +++ version) ("-" +++ ns),
  rw (trim_suffix-append (app +++ "-" +++ version) ("-" +++ ns))
      (rw (split-append app version plain, but_last-append) (join-split app)),
)
