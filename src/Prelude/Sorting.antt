-- ===== src/Prelude/Sorting.antt =====
-- `sort.Strings`: the order of strings, which is that of their code points, and an insertion sort.
use mathlib.Core.Path.{◌≡◌, refl}
use mathlib.Core.Logic.{inl, inr}
use mathlib.Core.Bool.{Bool, true, false, ◌||◌}
use mathlib.Core.List.{List, [], ◌∷◌}
use native.Mathlib.Omega.{arith}
use insightify_core.Prelude.Tests.{ltb, ◌==◌, if◌then◌else◌, Bool-cases}
use insightify_core.Prelude.Text.{Text, text_eq, text_eq_iff}

unfoldable pub text_lt : Text → Text → Bool
text_lt [] [] = false
text_lt [] (d ∷ t) = true
text_lt (c ∷ s) [] = false
text_lt (c ∷ s) (d ∷ t) = if c == d then text_lt s t else ltb c d

unfoldable pub insert_text : Text → List Text → List Text
unfolding text_lt
insert_text t [] = t ∷ []
insert_text t (u ∷ us) = let rest = insert_text t us in if text_lt u t then u ∷ rest else t ∷ u ∷ us

unfoldable pub sort_strings : List Text → List Text
unfolding insert_text
sort_strings [] = []
sort_strings (t ∷ ts) = insert_text t (sort_strings ts)

unfoldable pub has_text : Text → List Text → Bool
has_text t [] = false
has_text t (u ∷ us) = text_eq t u || has_text t us

-- Each text is below the next.
abbrev pub IsAscending : List Text → Type 0
IsAscending [] = Unit
IsAscending (t ∷ []) = Unit
IsAscending (t ∷ u ∷ us) = (text_lt t u ≡ true) × IsAscending (u ∷ us)

-- No text twice.
abbrev pub AllDifferent : List Text → Type 0
AllDifferent [] = Unit
AllDifferent (t ∷ ts) = (has_text t ts ≡ false) × AllDifferent ts

pub text_lt-total : (s t : Text) → text_lt s t ≡ false → text_eq s t ≡ false → text_lt t s ≡ true
unfolding text_lt text_eq
text_lt-total [] [] h e = cc
text_lt-total [] (d ∷ t) h e = cc
text_lt-total (c ∷ s) [] h e = refl
text_lt-total (c ∷ s) (d ∷ t) h e = ground (arith, text_lt-total s t)

pub has_text-insert_text :
    (x t : Text) (us : List Text) → has_text x (insert_text t us) ≡ (text_eq x t || has_text x us)
unfolding has_text insert_text
has_text-insert_text x t [] = refl
has_text-insert_text x t (u ∷ us) = ground (arith, has_text-insert_text x t us)

pub has_text-sort_strings :
    (x : Text) (ts : List Text) → has_text x (sort_strings ts) ≡ has_text x ts
unfolding has_text sort_strings
has_text-sort_strings x [] = refl
has_text-sort_strings x (t ∷ ts) =
    ground (arith, has_text-insert_text x t (sort_strings ts), has_text-sort_strings x ts)

insert_text-IsAscending :
    (t : Text) (us : List Text)
    → has_text t us ≡ false
    → IsAscending us
    → IsAscending (insert_text t us)
unfolding has_text insert_text
insert_text-IsAscending t [] new a = tt
insert_text-IsAscending t (u ∷ []) new a = elim (Bool-cases (text_lt u t)) [
  | inl e ↦ rw e (e, tt)
  | inr e ↦ rw e (text_lt-total u t e (ground (arith, text_eq_iff u t, text_eq_iff t u)), tt)
]
insert_text-IsAscending t (u ∷ v ∷ us) new a =
    let below = insert_text-IsAscending t (v ∷ us) (ground arith) a.1 in
    ground (arith, text_lt-total u t, text_eq_iff u t, text_eq_iff t u)

pub sort_strings-IsAscending : (ts : List Text) → AllDifferent ts → IsAscending (sort_strings ts)
unfolding sort_strings
sort_strings-IsAscending [] d = tt
sort_strings-IsAscending (t ∷ ts) d =
    insert_text-IsAscending t (sort_strings ts) (ground (arith, has_text-sort_strings t ts))
      (sort_strings-IsAscending ts d.1)
