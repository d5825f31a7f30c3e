-- ===== src/Discover/Names.antt =====
-- HostnameToResourceName and ServiceResourceName of internal/autodiscover/autodiscover.go.
pub mod Collisions
use pangolin_operator.Base.{List, ◌∷◌, ◌++◌, leb, length, take, if◌then◌else◌}
use pangolin_operator.Base.Text.{Text, replace_all}

-- A name longer than 253 bytes is cut.
unfoldable pub hostname_to_resource_name : Text → Text → Text
hostname_to_resource_name source_name hostname =
    let name = source_name ++ b'-' ∷ replace_all b'.' b'-' hostname in
    if leb (length name) 253 then name else take 253 name

unfoldable pub service_resource_name : Text → Text → Text → Text → Text
service_resource_name namespace name port proto =
    namespace ++ b'-' ∷ name ++ b'-' ∷ port ++ b'-' ∷ proto
