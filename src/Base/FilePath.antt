-- ===== src/Base/FilePath.antt =====
-- Go's `path.Join` of two parts, with `path.Clean`.
use mathlib.Core.List.{reverse}
use service_binding_operator.Base.{String, ◌<>◌, Bool, ◌||◌, List, [], ◌∷◌, ◌==◌, if◌then◌else◌}
use service_binding_operator.Base.Text.{split, join, has_prefix}

-- `..` takes the last part off, and stays where there is none in a path that has no root.
step_up : Bool → List String → List String
step_up rooted [] = if rooted then [] else ".." ∷ []
step_up rooted (p ∷ ps) = if p == ".." then ".." ∷ (p ∷ ps) else ps

-- The parts so far, the last one first.
clean_step : Bool → List String → String → List String
unfolding step_up
clean_step rooted ps c =
    if c == "" || c == "." then ps else if c == ".." then step_up rooted ps else c ∷ ps

clean_parts : Bool → List String → List String → List String
unfolding clean_step
clean_parts rooted ps [] = reverse ps
clean_parts rooted ps (c ∷ cs) = clean_parts rooted (clean_step rooted ps c) cs

unfoldable pub clean : String → String
unfolding clean_parts split join has_prefix
clean s =
    let rooted = has_prefix s "/" in
    let parts = join "/" (clean_parts rooted [] (split "/" s)) in
    if rooted then "/" <> parts else if parts == "" then "." else parts

unfoldable pub path_join : String → String → String
unfolding clean
path_join a b = if a == "" then (if b == "" then "" else clean b) else clean (a <> ("/" <> b))
