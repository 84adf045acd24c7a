-- ===== src/Quadlet.antt =====
-- internal/quadlet/quadlet.go: which files are quadlets, which unit each one makes, and the walk
-- that finds them.
pub mod Walk
mod Tests
use mathlib.Core.Option
use quadsyncd.Base.{Bool, List, [], ◌∷◌, ◌++◌, contains, text_eq}
use quadsyncd.Base.Text.{Text, str, trim_suffix}
use quadsyncd.Base.Dict.{Dict, lookup}
use quadsyncd.FilePath.{base, ext}

abbrev pub valid_extensions : List Text
valid_extensions =
    str ".container"
    ∷ str ".volume"
    ∷ str ".network"
    ∷ str ".kube"
    ∷ str ".image"
    ∷ str ".build"
    ∷ str ".pod"
    ∷ []

unfoldable pub is_quadlet_file : Text → Bool
is_quadlet_file path = contains valid_extensions (ext path)

abbrev pub unit_service_suffix : Dict Text Text
unit_service_suffix =
    (str ".volume", str "-volume")
    ∷ (str ".network", str "-network")
    ∷ (str ".image", str "-image")
    ∷ (str ".build", str "-build")
    ∷ []

-- A missing key of a Go map reads as the empty string.
unfoldable pub unit_name_from_quadlet : Text → Text
unit_name_from_quadlet path =
    let b = base path in
    let e = ext b in
    let name_without_ext = trim_suffix b e in
    name_without_ext ++ (Option.get_or (lookup e unit_service_suffix) [] ++ str ".service")
