-- ===== src/Cluster.antt =====
-- What the controllers of pkg/controller/core.oam.dev/v1alpha2 and pkg/utils/apply share: the errors
-- and answers of the API server and calls that may fail (Calls), the objects and the references to
-- them (References), and names cut at their dashes (Names). `W` stands for all that is outside the
-- program: the cluster behind the API server.
pub mod Calls
pub mod References
pub mod Names
pub mod Posts
