-- ===== src/Startup/Info.antt =====
-- internal/info/version.go: the version text. The two variables that the build sets are arguments.
use Prim.Native.String.{◌++◌ as str_append}
use node_readiness_controlle.Prelude.{String, List, [], ◌∷◌, ◌++◌, ◌!=◌, if◌then◌else◌}
use node_readiness_controlle.Prelude.Format.{join}

unfoldable pub get_version_parts : String → String → List String
get_version_parts version git_commit =
    version ∷ [] ++ (if git_commit != "" then str_append "commit: " git_commit ∷ [] else [])

unfoldable pub get_version_string : String → String → List String → String
get_version_string version git_commit more =
    join ", " (get_version_parts version git_commit ++ more)
