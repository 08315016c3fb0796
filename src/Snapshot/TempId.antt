-- ===== src/Snapshot/TempId.antt =====
-- `isTempId` of src/catalog/content-revisions/career-snapshot.types.ts: /^new-\d+$/.
use Prim.Native.Char.{code}
use Prim.Native.String.{String}
use pathway_backend.Prelude.{
  ℕ, Bool, true, false, ◌&&◌, List, [], ◌∷◌, leb, ◌==◌, nat_Eq, ◌≡◌, refl,
}

abbrev codes : String → List ℕ
codes String.[] = []
codes (String.◌∷◌ c s) = code c ∷ codes s

abbrev is_digit : ℕ → Bool
is_digit c = leb b'0' c && leb c b'9'

all_digits : List ℕ → Bool
all_digits [] = true
all_digits (c ∷ cs) = is_digit c && all_digits cs

some_digits : List ℕ → Bool
unfolding all_digits
some_digits [] = false
some_digits (c ∷ cs) = all_digits (c ∷ cs)

-- The rest of the text after the prefix must be one digit or more.
after_prefix : List ℕ → List ℕ → Bool
unfolding some_digits
after_prefix [] rest = some_digits rest
after_prefix (p ∷ ps) [] = false
after_prefix (p ∷ ps) (c ∷ cs) = p == c && after_prefix ps cs

unfoldable pub is_temp_id : String → Bool
unfolding after_prefix
is_temp_id id = after_prefix (codes "new-") (codes id)

is_temp_id_tests :
    (is_temp_id "new-12" ≡ true)
    × (is_temp_id "new-" ≡ false)
    × (is_temp_id "new-1x" ≡ false)
    × (is_temp_id "snew-1" ≡ false)
unfolding is_temp_id
is_temp_id_tests = (refl, refl, refl, refl)
