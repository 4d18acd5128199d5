-- ===== src/Utils/Uid/Unique.antt =====
-- The ids that `UIDGenerator` of internal/common/utils/uid.go gives are new.
use insightify_core.Prelude.{
  ℕ, zero, suc, ◌+◌, ◌<◌, ◌≤◌, ◌≡◌, refl, sym, ◌∙◌, true, false, not, ◌&&◌, ◌||◌, Option, none,
  some, List, [], ◌∷◌, length, is_empty, if◌then◌else◌, Bool-cases, Option-cases, inl, inr, arith,
}
use insightify_core.Prelude.Text.{Text, text_eq, text_eq_iff, text_eq_refl, trim_space}
use insightify_core.Prelude.Dict.{find, put, find-put}
use insightify_core.Prelude.Sorting.{has_text, AllDifferent}
use insightify_core.Utils.Uid.{
  Libraries, UidGenerator, base_uid_from_id, candidate, free_number, last_number, generate_from,
  generate, remember, generate_for_key,
}
use insightify_core.Utils.Uid.Decimals.{candidate-injective}

remove_text : Text → List Text → List Text
remove_text t [] = []
remove_text t (u ∷ us) = let rest = remove_text t us in if text_eq t u then rest else u ∷ rest

has_text-remove_text :
    (x t : Text) (us : List Text)
    → has_text x (remove_text t us) ≡ (has_text x us && not (text_eq x t))
unfolding has_text remove_text
has_text-remove_text x t [] = refl
has_text-remove_text x t (u ∷ us) =
    ground (arith, has_text-remove_text x t us, text_eq_iff t u, text_eq_iff x u, text_eq_iff x t)

length-remove_text :
    (t : Text) (us : List Text)
    → length (remove_text t us) + (if has_text t us then 1 else 0) ≤ length us
unfolding has_text remove_text
length-remove_text t [] = omega arith
length-remove_text t (u ∷ us) = ground (arith, length-remove_text t us)

candidate_other :
    (base : Text) (m n : ℕ) → n < m → text_eq (candidate base m) (candidate base n) ≡ false
candidate_other base m n lt = elim (Bool-cases (text_eq (candidate base m) (candidate base n))) [
  | inl e ↦ absurd (omega (arith, candidate-injective base m n ((text_eq_iff _ _).0 e)))
  | inr e ↦ e
]

-- Of the texts in use, `us` has all that are candidates from `n` on.
free_number_found :
    (fuel : ℕ) (base : Text) (used us : List Text) (n : ℕ)
    → length us < fuel
    → ((m : ℕ) → n ≤ m → has_text (candidate base m) used ≡ has_text (candidate base m) us)
    → (k : ℕ) × (free_number fuel base used n ≡ some k)
      × (n ≤ k)
      × (has_text (candidate base k) used ≡ false)
unfolding free_number
free_number_found zero base used us n short h = elim short [ ]
free_number_found (suc fuel) base used us n short h =
    elim (Bool-cases (has_text (candidate base n) used)) [
      | inr e ↦ (n, rw e refl, omega arith, e)
      | inl e ↦
          let c = candidate base n in
          let here : has_text c us ≡ true = sym (h n (omega arith)) ∙ e in
          let fewer : length (remove_text c us) < fuel = ground (arith, length-remove_text c us) in
          let (k, found, above, free) =
            free_number_found fuel base used (remove_text c us) (suc n) fewer (λ m le. ground (
              arith,
              h m (omega arith),
              has_text-remove_text (candidate base m) c us,
              candidate_other base m n le,
            )) in
          (k, rw e found, omega arith, free)
    ]

-- The id is new, and is in use from then on.
record IsFresh (g : UidGenerator) (uid : Text) (g' : UidGenerator) : Type 0 where
  free : has_text uid g.used ≡ false
  added : (x : Text) → has_text x g'.used ≡ (text_eq x uid || has_text x g.used)

generate-IsFresh :
    (lib : Libraries) (id : Text) (g : UidGenerator)
    → (uid : Text) × (g' : UidGenerator) × (generate lib id g ≡ some (uid, g')) × IsFresh g uid g'
unfolding generate generate_from
generate-IsFresh lib id g =
    let base = base_uid_from_id lib id in
    elim (Bool-cases (has_text base g.used)) [
      | inr e ↦ (
        base,
        record g { used = base ∷ g.used; counter = put base 1 g.counter },
        rw e refl,
        record { free = e; added = λ x. unfold has_text in refl },
      )
      | inl e ↦
          let n = last_number (find base g.counter) in
          let (k, found, above, free) =
            free_number_found (suc (length g.used)) base g.used g.used (suc n) (omega arith)
              (λ m le. refl) in
          (
            candidate base k,
            record g { used = candidate base k ∷ g.used; counter = put base k g.counter },
            rw e (rw (found, generate_from) refl),
            record { free = free; added = λ x. unfold has_text in refl },
          )
    ]

-- What is free after one id differs from it, and was free before.
fresh_before :
    (g g' : UidGenerator) (uid : Text) (uids : List Text)
    → IsFresh g uid g'
    → ((x : Text) → has_text x uids ≡ true → has_text x g'.used ≡ false)
    → (has_text uid uids ≡ false)
      × ((x : Text) → has_text x (uid ∷ uids) ≡ true → has_text x g.used ≡ false)
unfolding has_text
fresh_before g g' uid uids fresh free = (
  ground (arith, free uid, fresh.added uid, text_eq_refl uid),
  λ x h. ground (arith, h, free x, fresh.added x, fresh.free, text_eq_iff x uid),
)

-- Ids for one name after another.
unfoldable pub generate_all : Libraries → List Text → UidGenerator → Option (List Text)
generate_all lib [] g = some []
generate_all lib (id ∷ ids) g = elim (generate lib id g) [
  | none ↦ none
  | some r ↦ elim (generate_all lib ids (r.1)) [ none ↦ none | some uids ↦ some (r.0 ∷ uids) ]
]

-- The search for a free number always ends, and whatever the names are, equal ones included, the ids that are
-- given for them are different from one another and from all that were in use before.
pub generate_all-AllDifferent :
    (lib : Libraries) (ids : List Text) (g : UidGenerator)
    → (uids : List Text) × (generate_all lib ids g ≡ some uids)
      × AllDifferent uids
      × ((x : Text) → has_text x uids ≡ true → has_text x g.used ≡ false)
unfolding generate_all
generate_all-AllDifferent lib [] g = ([], refl, tt, λ x h. unfold has_text in cc)
generate_all-AllDifferent lib (id ∷ ids) g =
    let (uid, g', made, fresh) = generate-IsFresh lib id g in
    let (uids, rest, different, free) = generate_all-AllDifferent lib ids g' in
    let (apart, later) = fresh_before g g' uid uids fresh free in
    (uid ∷ uids, rw (made, generate_all) (rw (rest, generate_all) refl), (apart, different), later)

known_key :
    (lib : Libraries) (key id uid : Text) (g : UidGenerator)
    → is_empty (trim_space key) ≡ false
    → find (trim_space key) g.by_key ≡ some uid
    → generate_for_key lib key id g ≡ some (uid, g)
unfolding generate_for_key
known_key lib key id uid g nonblank e = rw (nonblank, e, generate_for_key) refl

new_key :
    (lib : Libraries) (key id uid : Text) (g g' : UidGenerator)
    → is_empty (trim_space key) ≡ false
    → find (trim_space key) g.by_key ≡ none
    → generate lib id g ≡ some (uid, g')
    → generate_for_key lib key id g
      ≡ some (uid, record g' { by_key = put (trim_space key) uid g'.by_key })
unfolding generate_for_key remember
new_key lib key id uid g g' nonblank e made =
    rw (nonblank, e, generate_for_key) (rw (made, generate_for_key) (rw nonblank refl))

-- `GenerateForKey` for a key that is not blank gives an id, and with the same key, whatever the name is, the
-- same one again, and changes nothing.
pub generate_for_key-generate_for_key :
    (lib : Libraries) (key id other : Text) (g : UidGenerator)
    → is_empty (trim_space key) ≡ false
    → (uid : Text) × (g' : UidGenerator) × (generate_for_key lib key id g ≡ some (uid, g'))
      × (generate_for_key lib key other g' ≡ some (uid, g'))
generate_for_key-generate_for_key lib key id other g nonblank =
    let k = trim_space key in
    elim (Option-cases (find k g.by_key)) [
      | inr (uid, e) ↦
          (uid, g, known_key lib key id uid g nonblank e, known_key lib key other uid g nonblank e)
      | inl e ↦
          let (uid, g1, made, fresh) = generate-IsFresh lib id g in
          let g2 : UidGenerator = record g1 { by_key = put k uid g1.by_key } in
          let stored : find k g2.by_key ≡ some uid =
            find-put k k uid g1.by_key ∙ rw (text_eq_refl k) refl in
          (
            uid,
            g2,
            new_key lib key id uid g g1 nonblank e made,
            known_key lib key other uid g2 nonblank stored,
          )
    ]
