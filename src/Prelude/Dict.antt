-- ===== src/Prelude/Dict.antt =====
-- A Go map with strings for keys, as a list in the order of first insertion.
use mathlib.Core.Path.{◌≡◌, refl}
use mathlib.Core.Bool.{true, false, not, ◌&&◌, ◌||◌}
use mathlib.Core.List.{List, [], ◌∷◌, map}
use mathlib.Core.Logic.{inl, inr}
use mathlib.Core.Option.{Option, none, some}
use native.Mathlib.Omega.{arith}
use insightify_core.Prelude.Tests.{if◌then◌else◌, Bool-cases}
use insightify_core.Prelude.Text.{Text, text_eq, text_eq_iff}
use insightify_core.Prelude.Sorting.{has_text, AllDifferent}

abbrev pub Dict {ℓ} : Type ℓ → Type ℓ
Dict V = List (Text × V)

module _ {ℓ} {V : Type ℓ} where
  unfoldable pub find : Text → Dict V → Option V
  find k [] = none
  find k ((j, v) ∷ d) = if text_eq k j then some v else find k d

  -- `d[k] = v`
  unfoldable pub put : Text → V → Dict V → Dict V
  put k v [] = (k, v) ∷ []
  put k v ((j, w) ∷ d) =
      let others = put k v d in if text_eq k j then (k, v) ∷ d else (j, w) ∷ others

  -- `delete(d, k)`
  unfoldable pub drop_key : Text → Dict V → Dict V
  drop_key k [] = []
  drop_key k ((j, w) ∷ d) =
      let others = drop_key k d in if text_eq k j then others else (j, w) ∷ others

  pub find-put :
      (k j : Text) (v : V) (d : Dict V)
      → find k (put j v d) ≡ (if text_eq k j then some v else find k d)
  unfolding find put
  find-put k j v [] = ground arith
  find-put k j v ((i, w) ∷ d) =
      ground (arith, find-put k j v d, text_eq_iff k j, text_eq_iff j i, text_eq_iff k i)

  pub find-drop_key :
      (k j : Text) (d : Dict V) → find k (drop_key j d) ≡ (if text_eq k j then none else find k d)
  unfolding find drop_key
  find-drop_key k j [] = ground arith
  find-drop_key k j ((i, w) ∷ d) =
      ground (arith, find-drop_key k j d, text_eq_iff k j, text_eq_iff j i, text_eq_iff k i)

  abbrev pub keys : Dict V → List Text
  keys = map (λ e. e.0)

  pub has_text-keys-put :
      (x k : Text) (v : V) (d : Dict V)
      → has_text x (keys (put k v d)) ≡ (text_eq x k || has_text x (keys d))
  unfolding has_text put
  has_text-keys-put x k v [] = refl
  has_text-keys-put x k v ((j, w) ∷ d) =
      ground (arith, has_text-keys-put x k v d, text_eq_iff k j, text_eq_iff x j, text_eq_iff x k)

  pub has_text-keys-drop_key :
      (x k : Text) (d : Dict V)
      → has_text x (keys (drop_key k d)) ≡ (has_text x (keys d) && not (text_eq x k))
  unfolding has_text drop_key
  has_text-keys-drop_key x k [] = refl
  has_text-keys-drop_key x k ((j, w) ∷ d) =
      ground
        (arith, has_text-keys-drop_key x k d, text_eq_iff k j, text_eq_iff x j, text_eq_iff x k)

  pub keys-put-AllDifferent :
      (k : Text) (v : V) (d : Dict V) → AllDifferent (keys d) → AllDifferent (keys (put k v d))
  unfolding has_text put
  keys-put-AllDifferent k v [] h = (refl, tt)
  keys-put-AllDifferent k v ((j, w) ∷ d) h =
      let rest = keys-put-AllDifferent k v d h.1 in
      ground (arith, has_text-keys-put j k v d, text_eq_iff k j, text_eq_iff j k)

  pub keys-drop_key-AllDifferent :
      (k : Text) (d : Dict V) → AllDifferent (keys d) → AllDifferent (keys (drop_key k d))
  unfolding has_text drop_key
  keys-drop_key-AllDifferent k [] h = tt
  keys-drop_key-AllDifferent k ((j, w) ∷ d) h =
      let rest = keys-drop_key-AllDifferent k d h.1 in ground (arith, has_text-keys-drop_key j k d)

  pub find-keys :
      (k : Text) (d : Dict V) → has_text k (keys d) ≡ true → (v : V) × (find k d ≡ some v)
  unfolding has_text find
  find-keys k [] h = cc
  find-keys k ((j, w) ∷ d) h = elim (Bool-cases (text_eq k j)) [
    | inl e ↦ (w, rw e refl)
    | inr e ↦ rw e (find-keys k d (ground arith))
  ]

  pub find_absent : (k : Text) (d : Dict V) → has_text k (keys d) ≡ false → find k d ≡ none
  unfolding has_text find
  find_absent k [] h = refl
  find_absent k ((j, w) ∷ d) h = ground (arith, find_absent k d)
