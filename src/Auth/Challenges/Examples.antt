-- ===== src/Auth/Challenges/Examples.antt =====
-- The results on challenges at concrete inputs. The hash of a token is the token and 1 more.
use cashcove.Base.{ℕ, ◌+◌, ◌≡◌, some, [], ◌∷◌, arith}
use cashcove.Auth.Challenges.{two_factor, AuthChallenge, Challenges, nothing, claim}
use cashcove.Auth.Challenges.SingleUse.{claim-claim}

abbrev hash_token : ℕ → ℕ
hash_token token = token + 1

abbrev sign_in : AuthChallenge
sign_in = record {
  token_hash = 101;
  purpose = two_factor;
  user_id = some 7;
  content = 9;
  attempts = 0;
  created_at = 0;
  expires_at = 1_000;
}

abbrev db : Challenges
db = sign_in ∷ record sign_in { token_hash = 201; expires_at = 10 } ∷ []

claim-claim_example :
    (claim hash_token (claim hash_token db 100 two_factor 5).1 100 two_factor 6).0 ≡ nothing
claim-claim_example = claim-claim hash_token db 100 two_factor 5 6 (omega arith)
