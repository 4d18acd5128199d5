-- ===== src/Interaction/Keys.antt =====
-- The keys of sessions.
use insightify_core.Prelude.{ℕ, ◌≡◌, refl, ap, ◌∙◌, Bool, true, not, ◌&&◌, [], ◌∷◌, ◌==◌, arith}
use insightify_core.Prelude.Text.{Text}
use insightify_core.Interaction.Service.{session_key}

-- A text without `|`, whose code is 124.
abbrev pub has_no_bar : Text → Bool
has_no_bar [] = true
has_no_bar (c ∷ t) = not (c == 124) && has_no_bar t

abbrev head_or : ℕ → Text → ℕ
head_or d [] = d
head_or d (c ∷ t) = c

abbrev tail : Text → Text
tail [] = []
tail (c ∷ t) = t

-- Two sessions with one key are the same, if no run's id holds a bar.
pub session_key-injective :
    (r q n m : Text)
    → has_no_bar r ≡ true
    → has_no_bar q ≡ true
    → session_key r n ≡ session_key q m
    → (r ≡ q) × (n ≡ m)
unfolding session_key
session_key-injective [] [] n m a b e = (refl, ap tail e)
session_key-injective [] (c ∷ q) n m a b e = absurd (ground (arith, ap (head_or 0) e))
session_key-injective (c ∷ r) [] n m a b e = absurd (ground (arith, ap (head_or 0) e))
session_key-injective (c ∷ r) (d ∷ q) n m a b e =
    let (same, rest) = session_key-injective r q n m (ground arith) (ground arith) (ap tail e) in
    let first : c ≡ d = ap (head_or 0) e in (ap (λ i. i ∷ r) first ∙ ap (λ l. d ∷ l) same, rest)
