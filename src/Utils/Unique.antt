-- ===== src/Utils/Unique.antt =====
-- What `UniqueStrings` returns.
use insightify_core.Prelude.{
  ◌≡◌, refl, ap, true, false, not, ◌&&◌, List, [], ◌∷◌, map, is_empty, inl, inr, Bool-cases, arith,
}
use insightify_core.Prelude.Text.{Text, text_eq, text_eq_iff, trim_space, trim_space_idem}
use insightify_core.Prelude.Sorting.{has_text}
use insightify_core.Utils.{unique_from, unique_strings}

has_text_same : (t u : Text) (us : List Text) → text_eq t u ≡ true → has_text t us ≡ has_text u us
has_text_same t u us e = ap (λ i. has_text i us) ((text_eq_iff t u).0 e)

is_empty_same : (t u : Text) → text_eq t u ≡ true → is_empty t ≡ is_empty u
is_empty_same t u e = ap (λ i. is_empty i) ((text_eq_iff t u).0 e)

has_text-unique_from :
    (t : Text) (seen vs : List Text)
    → has_text t (unique_from seen vs)
      ≡ (not (is_empty t) && not (has_text t seen) && has_text t (map trim_space vs))
unfolding has_text unique_from
has_text-unique_from t seen [] = ground arith
has_text-unique_from t seen (v ∷ vs) = ground (
  arith,
  has_text-unique_from t seen vs,
  has_text-unique_from t (trim_space v ∷ seen) vs,
  has_text_same t (trim_space v) seen,
  is_empty_same t (trim_space v),
)

-- A list of trimmed texts, none of them blank, none twice, and none in `seen`.
pub IsUnique : List Text → List Text → Type 0
IsUnique seen [] = Unit
IsUnique seen (t ∷ ts) =
    (trim_space t ≡ t) × (is_empty t ≡ false) × (has_text t seen ≡ false) × IsUnique (t ∷ seen) ts

unique_from-IsUnique : (seen vs : List Text) → IsUnique seen (unique_from seen vs)
unfolding unique_from IsUnique
unique_from-IsUnique seen [] = tt
unique_from-IsUnique seen (v ∷ vs) = elim (Bool-cases (is_empty (trim_space v))) [
  | inl e ↦ rw e (unique_from-IsUnique seen vs)
  | inr e ↦ rw e (elim (Bool-cases (has_text (trim_space v) seen)) [
    | inl h ↦ rw h (unique_from-IsUnique seen vs)
    | inr h ↦ rw h (trim_space_idem v, e, h, unique_from-IsUnique (trim_space v ∷ seen) vs)
  ])
]

IsUnique-kept : (seen ts : List Text) → IsUnique seen ts → unique_from seen ts ≡ ts
unfolding unique_from IsUnique
IsUnique-kept seen [] u = refl
IsUnique-kept seen (t ∷ ts) u =
    rw (u.0, u.1, u.2) (ap (λ r. t ∷ r) (IsUnique-kept (t ∷ seen) ts u.3))

-- The result holds a text exactly if it is not blank and is one of the values, trimmed; it holds no text
-- twice and no text with spaces around it; and to make a result unique again changes nothing.
pub unique_strings_lem :
    (values : List Text)
    → ((t : Text)
        → has_text t (unique_strings values)
          ≡ (not (is_empty t) && has_text t (map trim_space values)))
      × IsUnique [] (unique_strings values)
      × (unique_strings (unique_strings values) ≡ unique_strings values)
unfolding unique_strings
unique_strings_lem values = (
  λ t. ground (arith, has_text-unique_from t [] values),
  unique_from-IsUnique [] values,
  IsUnique-kept [] (unique_from [] values) (unique_from-IsUnique [] values),
)
