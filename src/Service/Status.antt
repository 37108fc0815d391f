-- ===== src/Service/Status.antt =====
-- The answers to a new route that ads_async/service.py accepts.

use ads_async.Prelude.{
  ◌≡◌, ◌≢◌, refl, ap, ◌⊎◌, inl, inr, [], ◌∷◌, length, true, false, take, drop, arith, drop-drop,
  ==→eq, ◌==◌, Bool-cases,
}
use ads_async.Prelude.Result.{Result, ok, err, bad_response, assertion_error}
use ads_async.Bytes.{Bytes}
use ads_async.Service.Defs.{
  same_bytes, ResponseResult, route_result, deserialize_add_route_response, route_answer,
}

-- What the three bytes of the status say.
abbrev StatusCases : Bytes → Result ResponseResult → Type 0
StatusCases s r =
    ((s ≡ 4 ∷ 0 ∷ 0 ∷ []) × (r ≡ ok (route_result true false)))
    ⊎ ((s ≡ 0 ∷ 4 ∷ 7 ∷ []) × (r ≡ ok (route_result false true)))
    ⊎ ((s ≢ 4 ∷ 0 ∷ 0 ∷ []) × (s ≢ 0 ∷ 4 ∷ 7 ∷ []) × (r ≡ err bad_response))

same_bytes-eq : (s t : Bytes) → same_bytes s t ≡ true → s ≡ t
unfolding same_bytes
same_bytes-eq [] [] h = refl
same_bytes-eq [] (b ∷ t) h = absurd (cc)
same_bytes-eq (a ∷ s) [] h = absurd (cc)
same_bytes-eq (a ∷ s) (b ∷ t) h = ground (arith, same_bytes-eq s t)

same_bytes_self : (s : Bytes) → same_bytes s s ≡ true
unfolding same_bytes
same_bytes_self [] = refl
same_bytes_self (a ∷ s) = ground (arith, same_bytes_self s)

same_bytes-ne : (s t : Bytes) → same_bytes s t ≡ false → s ≢ t
same_bytes-ne s t h e = cc (h, ap (λ u. same_bytes s u) e, same_bytes_self s)

route_answer_cases :
    (s : Bytes)
    → StatusCases s (route_answer (same_bytes s (4 ∷ 0 ∷ 0 ∷ [])) (same_bytes s (0 ∷ 4 ∷ 7 ∷ [])))
unfolding route_answer same_bytes
route_answer_cases s = elim (Bool-cases (same_bytes s (4 ∷ 0 ∷ 0 ∷ []))) [
  | inl accepted ↦ inl (same_bytes-eq _ _ accepted, rw (same_bytes-eq s _ accepted) refl)
  | inr refused ↦ elim (Bool-cases (same_bytes s (0 ∷ 4 ∷ 7 ∷ []))) [
    | inl failed ↦ inr (inl (same_bytes-eq _ _ failed, rw (refused, failed) refl))
    | inr neither ↦
        inr (inr (same_bytes-ne _ _ refused, same_bytes-ne _ _ neither, rw (refused, neither) refl))
  ]
]

-- The answer to a new route is one of two, and nothing else is taken for one: 32 bytes with 04 00 00
-- from byte 26 on, for a correct password, or with 00 04 07, for an error of authentication. Other
-- answers of 32 bytes raise `BadResponse`, and those of another length an assertion.
pub deserialize_add_route_response_cases :
    (bytes : Bytes)
    → ((length bytes ≢ 32) × (deserialize_add_route_response bytes ≡ err assertion_error))
      ⊎ ((length bytes ≡ 32)
          × StatusCases (take 3 (drop 26 bytes)) (deserialize_add_route_response bytes))
unfolding deserialize_add_route_response
deserialize_add_route_response_cases bytes = elim (Bool-cases (length bytes == 32)) [
  | inl whole ↦ inr (
    ==→eq _ _ whole,
    rw (whole, drop-drop 4 22 bytes) (route_answer_cases (take 3 (drop 26 bytes))),
  )
  | inr other ↦ inl (ground arith, rw (deserialize_add_route_response, other) refl)
]
