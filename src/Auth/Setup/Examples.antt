-- ===== src/Auth/Setup/Examples.antt =====
-- The result on setup codes at concrete inputs. The hash of a code is its length.
use cashcove.Base.{ℕ, [], ◌∷◌, length}
use cashcove.Base.Text.{Text}

abbrev hash_code : Text → ℕ
hash_code code = length code

abbrev fresh : Text
fresh = 97 ∷ 98 ∷ []

abbrev earlier : Text
earlier = 97 ∷ []
