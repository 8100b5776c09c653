-- ===== src/Api/Tests.antt =====
-- The stream of the API client on a concrete text, with `JSON.parse` of the texts of digits alone.

use karna.Api.Session.{Session, Outcome, answer, api_fetch}
use karna.Api.Session.Calls.{call_delete_rule, request_of}
use karna.Api.Session.Expired.{status_of, api_fetch-outcome}
use karna.Common.{ℕ, false, ◌≡◌, Option, none, some, List, [], ◌∷◌}
use karna.Text.{Text, codes, split_on}
use karna.Value.{Value, num}
use karna.Api.Stream.{deliver, stream_ndjson}
use karna.Api.Stream.Chunks.{concat, stream_ndjson-concat}

abbrev parse_digit : Text → Option Value
parse_digit [] = none
parse_digit (c ∷ []) = some (num (c ∷ []))
parse_digit (c ∷ d ∷ s) = none

abbrev chunks : List Text
chunks = codes "1" ∷ (codes "\n\n2" ∷ (codes "\n3" ∷ (codes "4\n5" ∷ [])))

stream_ndjson-concat_example :
    stream_ndjson parse_digit [] chunks ≡ deliver parse_digit (split_on 10 (concat chunks))
stream_ndjson-concat_example = stream_ndjson-concat parse_digit chunks

abbrev no_json : Text → Option Value
no_json t = none

abbrev no_number : ℕ → Text
no_number n = []

abbrev signed_in : Session
signed_in = record {
  token = some (codes "t");
  stored = some (codes "t");
  email = some (codes "a@b.c");
}

abbrev same_part : Text → Text
same_part t = t

abbrev empty_print : Value → Text
empty_print v = []

abbrev expired_delete : Session × Outcome
expired_delete =
    api_fetch no_json no_number false
      (request_of same_part empty_print (call_delete_rule [] [] [] [])) (answer 401 []) signed_in

api_fetch-outcome_example :
    (status_of same_part empty_print expired_delete.1 ≡ some (some 401))
    × ((expired_delete.0.token ≡ none) × (expired_delete.0.email ≡ none))
api_fetch-outcome_example =
    api_fetch-outcome same_part empty_print no_json no_number false (call_delete_rule [] [] [] [])
      401 [] signed_in
