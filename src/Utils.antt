-- ===== src/Utils.antt =====
-- `UniqueStrings` and `Filter` of internal/common/utils (strutil.go and filter.go). A nil slice and an
-- empty one are the same list.
pub mod Unique
pub mod Uid
use insightify_core.Prelude.{
  Bool, true, false, ◌||◌, Option, none, some, List, [], ◌∷◌, is_empty, if◌then◌else◌,
}
use insightify_core.Prelude.Text.{Text, trim_space}
use insightify_core.Prelude.Sorting.{has_text}

-- The loop of `UniqueStrings` over the values that are left.
unfoldable pub unique_from : List Text → List Text → List Text
unfolding has_text trim_space
unique_from seen [] = []
unique_from seen (v ∷ vs) =
    let t = trim_space v in
    let skipped = unique_from seen vs in
    let taken = unique_from (t ∷ seen) vs in
    if is_empty t then skipped else (if has_text t seen then skipped else t ∷ taken)

unfoldable pub unique_strings : List Text → List Text
unfolding unique_from
unique_strings values = unique_from [] values

unfoldable pub filter_loop : {T : Type 0} → (T → Bool) → List T → List T
filter_loop keep [] = []
filter_loop keep (v ∷ src) = let out = filter_loop keep src in if keep v then v ∷ out else out

unfoldable pub filter : {T : Type 0} → List T → Option (T → Bool) → List T
unfolding filter_loop
filter src none = src
filter src (some keep) = filter_loop keep src
