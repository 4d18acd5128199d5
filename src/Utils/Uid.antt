-- ===== src/Utils/Uid.antt =====
-- `UIDGenerator` of internal/common/utils/uid.go. The packages `unicode` and `hash/fnv` are parameters. The loop that
-- looks for a free number runs on fuel.
pub mod Decimals
pub mod Unique
use insightify_core.Prelude.{
  ℕ, zero, suc, ◌+◌, ◌/◌, ◌%◌, Bool, true, false, ◌||◌, Option, none, some, List, [], ◌∷◌, ◌++◌,
  map, length, is_empty, ltb, ◌==◌, if◌then◌else◌,
}
use insightify_core.Prelude.Text.{Text, codes, text_eq, trim_space}
use insightify_core.Prelude.Dict.{Dict, find, put}
use insightify_core.Prelude.Sorting.{has_text}

-- `unicode.IsLetter`, `unicode.IsDigit`, `unicode.ToLower`, and the 64-bit FNV-1a hash of a string.
pub record Libraries : Type 0 where
  pub is_letter : ℕ → Bool
  pub is_digit : ℕ → Bool
  pub to_lower : ℕ → ℕ
  pub fnv_sum : Text → ℕ

pub record UidGenerator : Type 0 where
  pub used : List Text
  pub counter : Dict ℕ
  pub by_key : Dict Text

-- The loop of `NewUIDGenerator` over the reserved ids.
unfoldable pub reserve_all : List Text → List Text
unfolding trim_space has_text
reserve_all [] = []
reserve_all (uid ∷ uids) =
    let t = trim_space uid in
    let rest = reserve_all uids in if is_empty t || has_text t rest then rest else t ∷ rest

unfoldable pub new_uid_generator : List Text → UidGenerator
unfolding reserve_all
new_uid_generator existing = record { used = reserve_all existing; counter = []; by_key = [] }

-- A number in decimal digits, as `%d` prints it.
unfoldable pub decimal_digits : ℕ → ℕ → Text
decimal_digits zero n = []
decimal_digits (suc fuel) n =
    let more = decimal_digits fuel (n / 10) ++ ((48 + n % 10) ∷ []) in
    if ltb n 10 then (48 + n) ∷ [] else more

unfoldable pub decimal : ℕ → Text
unfolding decimal_digits
decimal n = decimal_digits (suc n) n

-- So many hexadecimal digits, as `%08x` prints 32 bits.
unfoldable pub hex_digits : ℕ → ℕ → Text
hex_digits zero n = []
hex_digits (suc k) n =
    let d = n % 16 in hex_digits k (n / 16) ++ ((if ltb d 10 then 48 + d else 87 + d) ∷ [])

unfoldable pub trim_dashes_left : Text → Text
trim_dashes_left [] = []
trim_dashes_left (c ∷ s) = let rest = trim_dashes_left s in if c == 45 then rest else c ∷ s

unfoldable pub trim_dashes_right : Text → Text
trim_dashes_right [] = []
trim_dashes_right (c ∷ s) =
    let rest = trim_dashes_right s in
    if c == 45 then (if is_empty rest then [] else c ∷ rest) else c ∷ rest

module _ (lib : Libraries) where
  open lib use {is_letter, is_digit, to_lower, fnv_sum}

  -- The loop of `slugifyASCII`, with `lastDash`.
  unfoldable pub slug_loop : Bool → Text → Text
  slug_loop last_dash [] = []
  slug_loop last_dash (r ∷ s) =
      let kept = r ∷ slug_loop false s in
      let dashed = (if last_dash then [] else 45 ∷ []) ++ slug_loop true s in
      if is_letter r || is_digit r then kept else dashed

  unfoldable pub slugify_ascii : Text → Text
  unfolding slug_loop trim_space trim_dashes_left trim_dashes_right
  slugify_ascii s =
      trim_dashes_right (trim_dashes_left (slug_loop false (map to_lower (trim_space s))))

  unfoldable pub short_hash_hex : Text → Text
  unfolding hex_digits
  short_hash_hex s = hex_digits 8 (fnv_sum s % 0x100000000)

  unfoldable pub base_uid_from_id : Text → Text
  unfolding slugify_ascii short_hash_hex trim_space
  base_uid_from_id id =
      let t = trim_space id in
      let slug = slugify_ascii t in
      (if is_empty slug then codes "node" else slug) ++ (45 ∷ short_hash_hex t)

unfoldable pub candidate : Text → ℕ → Text
unfolding decimal
candidate base n = base ++ (45 ∷ decimal n)

-- The loop of `Generate`, from a number on.
unfoldable pub free_number : ℕ → Text → List Text → ℕ → Option ℕ
unfolding candidate has_text
free_number zero base used n = none
free_number (suc fuel) base used n =
    let rest = free_number fuel base used (suc n) in
    if has_text (candidate base n) used then rest else some n

-- `g.counter[base]`, made at least 1.
unfoldable pub last_number : Option ℕ → ℕ
last_number none = 1
last_number (some n) = if n == 0 then 1 else n

-- `Generate` after the base is known; `none` if the fuel has run out.
unfoldable pub generate_from : Text → UidGenerator → Option (Text × UidGenerator)
unfolding has_text put find last_number free_number candidate
generate_from base g =
    if has_text base g.used
    then elim (free_number (suc (length g.used)) base g.used
        (suc (last_number (find base g.counter)))) [
          | none ↦ none
          | some n ↦ some (
            candidate base n,
            record g { used = candidate base n ∷ g.used; counter = put base n g.counter },
          )
        ]
    else some (base, record g { used = base ∷ g.used; counter = put base 1 g.counter })

unfoldable pub generate : Libraries → Text → UidGenerator → Option (Text × UidGenerator)
unfolding generate_from base_uid_from_id
generate lib id g = generate_from (base_uid_from_id lib id) g

unfoldable pub remember : Text → Text × UidGenerator → Text × UidGenerator
unfolding put
remember key (uid, g) =
    (uid, if is_empty key then g else record g { by_key = put key uid g.by_key })

unfoldable pub generate_for_key :
    Libraries → Text → Text → UidGenerator → Option (Text × UidGenerator)
unfolding generate remember find trim_space
generate_for_key lib key id g =
    let k = trim_space key in
    let known = if is_empty k then none else find k g.by_key in
    let fresh : Option (Text × UidGenerator) = elim (generate lib id g) [
      | none ↦ none
      | some r ↦ some (remember k r)
    ] in
    elim known [ some uid ↦ some (uid, g) | none ↦ fresh ]
