-- ===== src/TrackerResponse/Parts.antt =====
-- The parts of a tracker's answer, as libcurl hands them to `parse_response`.
use btb.TrackerResponse.{response_data}
use btb.Base.{ℕ, ◌≡◌, refl, List, [], ◌∷◌, ◌++◌, Option, some}

-- Of an answer that arrives in several parts, whatever was there before, only the last part is
-- left as the data of the response.
pub response_data-append :
    (parts : List (List ℕ)) (last : List ℕ) (before : Option (List ℕ))
    → response_data (parts ++ last ∷ []) before ≡ some last
unfolding response_data
response_data-append [] last before = refl
response_data-append (part ∷ parts) last before = response_data-append parts last (some part)
