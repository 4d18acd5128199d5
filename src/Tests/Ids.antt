-- ===== src/Tests/Ids.antt =====
-- Generated ids, with a hash that counts the characters.
use insightify_core.Prelude.{
  ◌+◌, ◌≡◌, refl, true, false, ◌&&◌, some, List, [], ◌∷◌, length, leb, if◌then◌else◌,
}
use insightify_core.Prelude.Text.{Text, codes, text_eq, trim_space}
use insightify_core.Prelude.Sorting.{has_text, AllDifferent}
use insightify_core.Utils.Uid.{
  Libraries, UidGenerator, new_uid_generator, generate, generate_for_key,
}
use insightify_core.Utils.Uid.Unique.{
  generate_all, generate_all-AllDifferent, generate_for_key-generate_for_key,
}

abbrev ascii : Libraries
ascii = record {
  is_letter = λ c. leb 97 c && leb c 122;
  is_digit = λ c. leb 48 c && leb c 57;
  to_lower = λ c. if leb 65 c && leb c 90 then c + 32 else c;
  fnv_sum = λ t. length t;
}

abbrev reserved : UidGenerator
reserved = new_uid_generator (codes " my-file-00000008-2 " ∷ [])

abbrev names : List Text
names = codes "My  File" ∷ codes "??" ∷ codes "My__File" ∷ []

program : Unit {0}
unfolding generate generate_all new_uid_generator text_eq trim_space generate_for_key
program = tt

-- The second of two names with one slug and one hash has the number that is not reserved.
generates :
    generate_all ascii names reserved
    ≡ some (codes "my-file-00000008" ∷ codes "node-00000002" ∷ codes "my-file-00000008-3" ∷ [])
unfolding program
generates = refl

generate_all-AllDifferent_example :
    (uids : List Text) × (generate_all ascii names reserved ≡ some uids)
    × AllDifferent uids
    × ((x : Text) → has_text x uids ≡ true → has_text x reserved.used ≡ false)
generate_all-AllDifferent_example = generate_all-AllDifferent ascii names reserved

generate_for_key-generate_for_key_example :
    (uid : Text) × (g' : UidGenerator) × (generate_for_key ascii
        (codes "k")
        (codes "My File")
        reserved
      ≡ some (uid, g'))
    × (generate_for_key ascii (codes "k") (codes "Other") g' ≡ some (uid, g'))
unfolding program
generate_for_key-generate_for_key_example =
    generate_for_key-generate_for_key ascii (codes "k") (codes "My File") (codes "Other") reserved
      refl
