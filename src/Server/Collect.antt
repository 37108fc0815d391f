-- ===== src/Server/Collect.antt =====
-- What a sum-up read of ads_async/protocol.py is to answer, from the answers to its single reads.
use ads_async.Prelude.{
  zero, none, replicate, ℕ, suc, ◌≡◌, refl, ap, ◌∙◌, false, ◌==◌, arith, some, List, [], ◌∷◌, ◌++◌,
}
use ads_async.Prelude.Result.{Result, ok, err, index_error, attribute_error, ◌>>=◌}
use ads_async.Bytes.{Bytes, to_le}
use ads_async.Constants.AdsError
use ads_async.Structs.Item.{Item}
use ads_async.Structs.Request.{AdsReadRequest}
use ads_async.Server.Access.{Handled}
use ads_async.Server.Command.{Results, result_of, add_result, sumup_data, result_bytes}

-- The code and the data that a sum-up has of the answer to one read.
abbrev pub single_result : AdsReadRequest → Handled → Result (ℕ × Bytes)
single_result r none = ok (AdsError.device_error, replicate r.length 0)
single_result r (some []) = err index_error
single_result r (some (Item.read_response_item x ∷ _)) = ok (x.result, x.payload)
single_result r (some (_ ∷ _)) = err attribute_error

pub result_of-single_result : (r : AdsReadRequest) (h : Handled) → result_of r h ≡ single_result r h
unfolding result_of
result_of-single_result r none = refl
result_of-single_result r (some []) = refl
result_of-single_result r (some (Item.read_response_item x ∷ _)) = refl
result_of-single_result r (some (_ ∷ _)) = refl

unfoldable pub collect_step :
    AdsReadRequest → Handled → Result (List (ℕ × Bytes)) → Result (List (ℕ × Bytes))
collect_step r response results = do
  result ← single_result r response
  others ← results
  ok (result ∷ others)

-- The codes of the results, four bytes each, and their data, joined.
unfoldable pub codes_of : List (ℕ × Bytes) → Bytes
codes_of [] = []
codes_of ((code, bytes) ∷ rest) = to_le 4 code ++ codes_of rest

unfoldable pub joined_data : List (ℕ × Bytes) → Bytes
joined_data [] = []
joined_data ((code, bytes) ∷ rest) = bytes ++ joined_data rest

-- At the offset 0 the data alone.
abbrev pub joined_results : ℕ → List (ℕ × Bytes) → Bytes
joined_results zero results = joined_data results
joined_results (suc _) results = codes_of results ++ joined_data results

-- The lists of the loop.
abbrev pub as_results : List (ℕ × Bytes) → Results
as_results [] = ([], [])
as_results (x ∷ xs) = add_result x (as_results xs)

as_results-joined_data : (xs : List (ℕ × Bytes)) → (as_results xs).1 ≡ joined_data xs
unfolding joined_data add_result
as_results-joined_data [] = refl
as_results-joined_data ((code, bytes) ∷ xs) = ap (λ t. bytes ++ t) (as_results-joined_data xs)

as_results-codes_of : (xs : List (ℕ × Bytes)) → result_bytes (as_results xs).0 ≡ codes_of xs
unfolding codes_of add_result result_bytes
as_results-codes_of [] = refl
as_results-codes_of ((code, bytes) ∷ xs) = ap (λ t. to_le 4 code ++ t) (as_results-codes_of xs)

pub sumup_data-joined_results :
    (index_offset : ℕ) (xs : List (ℕ × Bytes))
    → sumup_data index_offset (as_results xs) ≡ joined_results index_offset xs
unfolding sumup_data
sumup_data-joined_results zero xs = as_results-joined_data xs
sumup_data-joined_results (suc n) xs =
    let nonzero : (suc n == 0) ≡ false = ground arith in
    rw nonzero (
      ap (λ c. c ++ (as_results xs).1) (as_results-codes_of xs)
      ∙ ap (λ t. codes_of xs ++ t) (as_results-joined_data xs))

-- The results of the loop, from those of `collect`.
abbrev pub results_from : Result (List (ℕ × Bytes)) → Result Results
results_from (err e) = err e
results_from (ok xs) = ok (as_results xs)

-- The answers to the reads of a sum-up, from the single reads: the first that raises ends them.
unfoldable pub collect :
    (AdsReadRequest → Result Handled) → List AdsReadRequest → Result (List (ℕ × Bytes))
unfolding collect_step
collect single [] = ok []
collect single (r ∷ rs) =
    let rest = collect single rs in (do response ← single r; collect_step r response rest)
