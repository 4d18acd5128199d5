-- ===== src/Utils/Uid/Decimals.antt =====
-- The numbers that internal/common/utils/uid.go appends are told apart by their digits.
use insightify_core.Prelude.{
  ℕ, zero, suc, ◌+◌, ◌-◌, ◌*◌, ◌/◌, ◌%◌, ◌<◌, ◌≡◌, refl, sym, ap, ◌∙◌, [], ◌∷◌, ◌++◌, ltb,
  Bool-cases, inl, inr, arith,
}
use insightify_core.Prelude.Text.{Text}
use insightify_core.Utils.Uid.{decimal_digits, decimal, candidate}

-- The number that digits stand for, after others.
value : ℕ → Text → ℕ
value acc [] = acc
value acc (c ∷ s) = value (acc * 10 + (c - 48)) s

value-append :
    (acc : ℕ) (s : Text) (c : ℕ) → value acc (s ++ (c ∷ [])) ≡ value acc s * 10 + (c - 48)
unfolding value
value-append acc [] c = refl
value-append acc (d ∷ s) c = value-append (acc * 10 + (d - 48)) s c

value-decimal_digits : (fuel n : ℕ) → n < fuel → value 0 (decimal_digits fuel n) ≡ n
unfolding decimal_digits
value-decimal_digits zero n h = elim h [ ]
value-decimal_digits (suc fuel) n h = elim (Bool-cases (ltb n 10)) [
  | inl e ↦ rw e (unfold value in omega arith)
  | inr e ↦
      let rest = value-decimal_digits fuel (n / 10) (ground arith) in
      rw e (value-append 0 (decimal_digits fuel (n / 10)) (48 + n % 10) ∙ omega (arith, rest))
]

decimal-injective : (m n : ℕ) → decimal m ≡ decimal n → m ≡ n
unfolding decimal
decimal-injective m n h =
    sym (value-decimal_digits (suc m) m (omega arith))
    ∙ ap (value 0) h
    ∙ value-decimal_digits (suc n) n (omega arith)

append_cancel : (s t u : Text) → s ++ t ≡ s ++ u → t ≡ u
append_cancel [] t u h = h
append_cancel (c ∷ s) t u h = append_cancel s t u (cc h)

pub candidate-injective : (base : Text) (m n : ℕ) → candidate base m ≡ candidate base n → m ≡ n
unfolding candidate
candidate-injective base m n h =
    let same = append_cancel base (45 ∷ decimal m) (45 ∷ decimal n) h in
    decimal-injective m n (cc same)
