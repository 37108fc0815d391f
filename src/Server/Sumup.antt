-- ===== src/Server/Sumup.antt =====
-- The sum-up read of ads_async/protocol.py, against single reads.
use ads_async.Prelude.{
  inl, inr, ℕ, suc, ◌*◌, ◌/◌, ◌≡◌, refl, sym, ap, ◌∙◌, Bool, true, false, ◌==◌, if◌then◌else◌,
  arith, some, List, [], ◌∷◌, ◌++◌, length, length-append, drop, All,
}
use ads_async.Prelude.Result.{Result, ok, err, Result-cases, ◌>>=◌}
use ads_async.Bytes.{Bytes, length-pack, pack, to_le, size_of, Fits}
use ads_async.Constants
use ads_async.Constants.{value, to_command_id}
use ads_async.Constants.IndexGroup
use ads_async.Structs.Item.{Item, serialize}
use ads_async.Structs.Header.{AoEHeader, command_id}
use ads_async.Structs.Request.{
  AdsReadRequest, AdsReadWriteRequest, read_layout, read_of, read_fields,
}
use ads_async.Structs.Response.{read_response}
use ads_async.Structs.Base.{from_buffer, from_buffer-pack, drop-pack}
use ads_async.Structs.Text.{Codec}
use ads_async.Server.State.{ServerCircuit, Exec, continue, pure}
use ads_async.Server.Dispatch
use ads_async.Server.Dispatch.{Handler, get_handler, index_group}
use ads_async.Server.Routing.{handler_for-route, route, route_read}
use ads_async.Server.Access.{Handled}
use ads_async.Server.Handlers.{read_value, read_catchall}
use ads_async.Server.Command.{
  Dispatcher, Results, read_header, add_result, sumup_step, sumup_loop, sumup_payload, sumup_read,
  sumup_data, call, handle_command_within, handle_command,
}
use ads_async.Server.Collect.{
  single_result, result_of-single_result, collect_step, collect, joined_results,
  sumup_data-joined_results, results_from,
}
use ads_async.Server.Called.{handle_command_routed}
use ads_async.Server.Keeps.{IsReading}
use ads_async.Server.Atomic.{if-IsReading, read_value-IsReading, read_catchall-IsReading}

-- A read by group goes to the same method at every depth.
get_handler-read :
    (header : AoEHeader) (r : AdsReadRequest)
    → get_handler (read_header header) (Item.read_item r) ≡ ok (route_read r.index_group)
unfolding get_handler read_header command_id to_command_id value index_group route
get_handler-read header r = handler_for-route Constants.read (some r.index_group)

-- What a single read is answered.
abbrev pub answer_read : AdsReadRequest → Exec Handled
answer_read r =
    if r.index_group == IndexGroup.sym_valbyhnd
    then read_value (Item.read_item r)
    else read_catchall (Item.read_item r)

module _ (codec : Codec) (header : AoEHeader) where
  call-route_read :
      (dispatch : Dispatcher) (r : AdsReadRequest) (by_handle : Bool) (c : ServerCircuit)
      → call codec dispatch
          (read_header header)
          (Item.read_item r)
          (if by_handle then Dispatch.read_value else Dispatch.read_catchall)
          c
        ≡ (if by_handle then read_value (Item.read_item r) else read_catchall (Item.read_item r)) c
  unfolding call
  call-route_read dispatch r true c = refl
  call-route_read dispatch r false c = refl

  handle_command_within-read :
      (depth : ℕ) (r : AdsReadRequest) (c : ServerCircuit)
      → handle_command_within codec (suc depth) (read_header header) (Item.read_item r) c
        ≡ answer_read r c
  unfolding handle_command_within
  handle_command_within-read depth r c =
      rw (get_handler-read header r) (call-route_read (handle_command_within codec depth) r _ c)

-- A read, and a sum-up read, change nothing.
answer_read-IsReading : (r : AdsReadRequest) → IsReading (answer_read r)
answer_read-IsReading r = if-IsReading _ _ _ (read_value-IsReading _) (read_catchall-IsReading _)

module _ (codec : Codec) (header : AoEHeader) (depth : ℕ) where
  abbrev pub nested : Dispatcher
  nested = handle_command_within codec (suc depth)

  nested-IsReading :
      (r : AdsReadRequest) → IsReading (nested (read_header header) (Item.read_item r))
  nested-IsReading r c =
      ap (λ p. p.1) (handle_command_within-read codec header depth r c) ∙ answer_read-IsReading r c

unfoldable pub requests_bytes : List AdsReadRequest → Bytes
requests_bytes [] = []
requests_bytes (r ∷ rs) = serialize (Item.read_item r) ++ requests_bytes rs

module _ (codec : Codec) (header : AoEHeader) (depth : ℕ) where
  pub nested_answer :
      (r : AdsReadRequest) (c : ServerCircuit)
      → nested codec header depth (read_header header) (Item.read_item r) c
        ≡ ((answer_read r c).0, c)
  nested_answer r c =
      handle_command_within-read codec header depth r c
      ∙ ap (λ d. ((answer_read r c).0, d)) (answer_read-IsReading r c)

  collected :
      (x : ℕ × Bytes) (results : Result (List (ℕ × Bytes))) (c : ServerCircuit)
      → continue (results_from results) (λ rs. pure (add_result x rs)) c
        ≡ (results_from (do others ← results; ok (x ∷ others)), c)
  collected x (err e) c = refl
  collected x (ok rs) c = refl

  answered :
      (r : AdsReadRequest) (answer : Result Handled) (rest : Exec Results)
      (results : Result (List (ℕ × Bytes))) (c : ServerCircuit)
      → rest c ≡ (results_from results, c)
      → continue answer (λ response. sumup_step r response rest) c
        ≡ (results_from (do response ← answer; collect_step r response results), c)
  unfolding sumup_step collect_step
  answered r (err e) rest results c same = refl
  answered r (ok response) rest results c same =
      rw (result_of-single_result r response) (elim (Result-cases (single_result r response)) [
        | inl (e, failed) ↦ rw failed refl
        | inr (x, done) ↦ rw (done, same) (collected x results c)
      ])

  sumup_loop-collect :
      (rs : List AdsReadRequest) (c : ServerCircuit)
      → All (λ r. Fits read_layout (read_fields r)) rs
      → sumup_loop (nested codec header depth) header (length rs) (requests_bytes rs) c
        ≡ (results_from (collect (λ r. (answer_read r c).0) rs), c)
  unfolding sumup_loop collect requests_bytes pack serialize to_le size_of
  sumup_loop-collect [] c fit = refl
  sumup_loop-collect (r ∷ rs) c fit =
      let parsed : from_buffer read_layout read_of (requests_bytes (r ∷ rs)) ≡ ok r =
        from_buffer-pack read_layout read_of (read_fields r) (requests_bytes rs) fit.0 in
      let left : drop 12 (requests_bytes (r ∷ rs)) ≡ requests_bytes rs =
        drop-pack read_layout (read_fields r) (requests_bytes rs) in
      rw (parsed, left, nested_answer r c)
        (answered r (answer_read r c).0 _ _ c (sumup_loop-collect rs c fit.1))

collect_ext :
    (f g : AdsReadRequest → Result Handled) (rs : List AdsReadRequest)
    → ((r : AdsReadRequest) → f r ≡ g r)
    → collect f rs ≡ collect g rs
unfolding collect
collect_ext f g [] e = refl
collect_ext f g (r ∷ rs) e = rw (e r, collect_ext f g rs e) refl

length-requests_bytes : (rs : List AdsReadRequest) → length (requests_bytes rs) ≡ length rs * 12
unfolding requests_bytes serialize pack to_le size_of
length-requests_bytes [] = refl
length-requests_bytes (r ∷ rs) = omega (
  arith,
  length-append (pack read_layout (read_fields r)) (requests_bytes rs),
  length-pack read_layout (read_fields r),
  length-requests_bytes rs,
)

abbrev pub sumup_answer : ℕ → Result (List (ℕ × Bytes)) → Result Handled
sumup_answer index_offset (err e) = err e
sumup_answer index_offset (ok results) =
    ok (some (Item.read_response_item (read_response (joined_results index_offset results)) ∷ []))

sumup_payload-collect :
    (codec : Codec) (header : AoEHeader) (index_offset : ℕ) (reads : List AdsReadRequest)
    (c : ServerCircuit)
    → All (λ x. Fits read_layout (read_fields x)) reads
    → sumup_payload (nested codec header 0) header index_offset (some (requests_bytes reads)) c
      ≡ (sumup_answer index_offset (collect (λ x. (answer_read x c).0) reads), c)
unfolding sumup_payload
sumup_payload-collect codec header index_offset reads c fit =
    let count : length (requests_bytes reads) / 12 ≡ length reads =
      omega (arith, length-requests_bytes reads) in
    rw (count, sumup_loop-collect codec header 0 reads c fit)
      (answer (collect (λ x. (answer_read x c).0) reads))
  where
    answer :
        (results : Result (List (ℕ × Bytes)))
        → continue
            (results_from results)
            (λ results'. pure (
              some
                (Item.read_response_item (read_response (sumup_data index_offset results')) ∷ [])))
            c
          ≡ (sumup_answer index_offset results, c)
    answer (ok xs) =
        ap (λ bytes. (ok (some (Item.read_response_item (read_response bytes) ∷ [])), c))
          (sumup_data-joined_results index_offset xs)
    answer (err e) = refl

-- A sum-up of reads whose fields are in range answers, joined, the data that `handle_command` answers
-- to each of them alone, as many zeros as it asks for where that is no response; where the offset of
-- the sum-up is not 0 the codes come before them, four bytes each, a device error where there is no
-- response. A read that raises makes it raise, and so does one with another kind of response. It
-- changes nothing.
pub handle_command-sumup :
    (codec : Codec) (header : AoEHeader) (r : AdsReadWriteRequest) (reads : List AdsReadRequest)
    (c : ServerCircuit)
    → command_id header ≡ some Constants.read_write
    → r.index_group ≡ IndexGroup.sumup_read
    → r.payload ≡ some (requests_bytes reads)
    → All (λ x. Fits read_layout (read_fields x)) reads
    → handle_command codec header (Item.read_write_item r) c ≡ (
      sumup_answer r.index_offset
          (collect (λ x. (handle_command codec (read_header header) (Item.read_item x) c).0) reads),
      c,
    )
unfolding handle_command call sumup_read route
handle_command-sumup codec header r reads c h g p fit =
    handle_command_routed codec header (Item.read_write_item r) Constants.read_write
      Dispatch.read_write_sumup_read c h (rw g refl)
    ∙ ap (λ payload. sumup_payload (nested codec header 0) header r.index_offset payload c) p
    ∙ sumup_payload-collect codec header r.index_offset reads c fit
    ∙ ap (λ results. (sumup_answer r.index_offset results, c))
        (collect_ext _ _ reads
          (λ x. ap (λ y. y.0) (sym (handle_command_within-read codec header 1 x c))))
