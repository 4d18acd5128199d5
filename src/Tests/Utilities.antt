-- ===== src/Tests/Utilities.antt =====
-- The utilities on a few lists.
use insightify_core.Prelude.{◌≡◌, refl, not, ◌&&◌, some, List, [], ◌∷◌, map, is_empty, ltb}
use insightify_core.Prelude.Text.{text_eq, Text, codes, trim_space}
use insightify_core.Prelude.Sorting.{has_text}
use insightify_core.Utils.{unique_strings, filter}
use insightify_core.Utils.Unique.{IsUnique, unique_strings_lem}

abbrev names : List Text
names = codes " b" ∷ codes "a" ∷ codes " " ∷ codes "b " ∷ []

program : Unit {0}
unfolding unique_strings filter text_eq
program = tt

keeps_first : unique_strings names ≡ codes "b" ∷ codes "a" ∷ []
unfolding program
keeps_first = refl

keeps_small : filter (1 ∷ 5 ∷ 2 ∷ []) (some (λ n. ltb n 3)) ≡ 1 ∷ 2 ∷ []
unfolding program
keeps_small = refl

unique_strings_example :
    ((t : Text)
      → has_text t (unique_strings names) ≡ (not (is_empty t) && has_text t (map trim_space names)))
    × IsUnique [] (unique_strings names)
    × (unique_strings (unique_strings names) ≡ unique_strings names)
unique_strings_example = unique_strings_lem names
