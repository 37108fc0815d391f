-- ===== src/Server/Failure.antt =====
-- What `handle_command` of ads_async/protocol.py leaves behind when it raises.
use ads_async.Prelude.{ℕ, zero, suc, ◌/◌, ◌≡◌, refl, inl, inr, Option, none, some, drop, length}
use ads_async.Prelude.Result.{Exception, Result, ok, err, Result-cases}
use ads_async.Bytes.{Bytes}
use ads_async.Structs.Base.{from_buffer}
use ads_async.Structs.Item.{Item}
use ads_async.Structs.Header.{AoEHeader}
use ads_async.Structs.Request.{AdsReadRequest, read_layout, read_of}
use ads_async.Structs.Text.{Codec}
use ads_async.Server.State.{ServerCircuit, Exec, continue}
use ads_async.Server.Dispatch
use ads_async.Server.Dispatch.{Handler, get_handler}
use ads_async.Server.Access.{Handled}
use ads_async.Server.Command.{
  Results, result_of, sumup_step, sumup_loop, sumup_payload, sumup_read, call, handle_command,
}
use ads_async.Server.Keeps.{IsAtomic, IsReading, bind-IsReading}
use ads_async.Server.Atomic.{
  read_value-IsReading, read_catchall-IsReading, read_write_info-IsReading,
  read_write_handle-IsAtomic, write_value-IsAtomic, add_notification-IsAtomic,
  delete_notification-IsAtomic, write_release_handle-IsAtomic,
}
use ads_async.Server.Called.{handle_command_called, handle_command_unrouted}
use ads_async.Server.Sumup.{nested, nested_answer, answer_read}

step-IsReading :
    (r : AdsReadRequest) (answer : Result Handled) (rest : Exec Results) (c : ServerCircuit)
    → IsReading rest
    → (continue answer (λ response. sumup_step r response rest) c).1 ≡ c
unfolding sumup_step
step-IsReading r (err e) rest c h = refl
step-IsReading r (ok response) rest c h = elim (Result-cases (result_of r response)) [
  | inl (e, failed) ↦ rw failed refl
  | inr (x, done) ↦ rw done (bind-IsReading rest _ h (λ results d. refl) c)
]

module _ (codec : Codec) (header : AoEHeader) where
  sumup_loop-IsReading :
      (count : ℕ) (buf : Bytes) → IsReading (sumup_loop (nested codec header 0) header count buf)
  unfolding sumup_loop
  sumup_loop-IsReading zero buf c = refl
  sumup_loop-IsReading (suc count) buf c =
      elim (Result-cases (from_buffer read_layout read_of buf)) [
        | inl (e, short) ↦ rw short refl
        | inr (r, read) ↦
            rw (read, nested_answer codec header 0 r c)
              (step-IsReading r (answer_read r c).0 _ c (sumup_loop-IsReading count (drop 12 buf)))
      ]

  sumup_payload-IsReading :
      (index_offset : ℕ) (payload : Option Bytes)
      → IsReading (sumup_payload (nested codec header 0) header index_offset payload)
  unfolding sumup_payload
  sumup_payload-IsReading index_offset none = λ c. refl
  sumup_payload-IsReading index_offset (some bytes) =
      bind-IsReading _ _ (sumup_loop-IsReading (length bytes / 12) bytes) (λ results c. refl)

  pub sumup_read-IsReading :
      (item : Item) → IsReading (sumup_read (nested codec header 0) header item)
  unfolding sumup_read
  sumup_read-IsReading (Item.read_write_item r) = sumup_payload-IsReading r.index_offset r.payload
  sumup_read-IsReading _ = λ c. refl

  call-IsAtomic :
      (item : Item) (h : Handler) → IsAtomic (call codec (nested codec header 0) header item h)
  unfolding call
  call-IsAtomic item Dispatch.add_notification = add_notification-IsAtomic item
  call-IsAtomic item Dispatch.delete_notification = delete_notification-IsAtomic item
  call-IsAtomic item Dispatch.read_catchall = λ c e raised. read_catchall-IsReading item c
  call-IsAtomic item Dispatch.read_device_info_handler = λ c e raised. refl
  call-IsAtomic item Dispatch.read_state_handler = λ c e raised. refl
  call-IsAtomic item Dispatch.read_value = λ c e raised. read_value-IsReading item c
  call-IsAtomic item Dispatch.read_write_catchall = λ c e raised. refl
  call-IsAtomic item Dispatch.read_write_handle = read_write_handle-IsAtomic codec item
  call-IsAtomic item Dispatch.read_write_info = λ c e raised. read_write_info-IsReading codec item c
  call-IsAtomic item Dispatch.read_write_sumup_read = λ c e raised. sumup_read-IsReading item c
  call-IsAtomic item Dispatch.write_control_handler = λ c e raised. refl
  call-IsAtomic item Dispatch.write_release_handle = write_release_handle-IsAtomic item
  call-IsAtomic item Dispatch.write_value = write_value-IsAtomic codec item

-- A command that raises, whatever its header and its structure, leaves the handles, the
-- notifications, the counters and the database as they were.
pub handle_command_failed :
    (codec : Codec) (header : AoEHeader) (item : Item) (c : ServerCircuit) (e : Exception)
    → (handle_command codec header item c).0 ≡ err e
    → (handle_command codec header item c).1 ≡ c
handle_command_failed codec header item c e raised = elim (Result-cases (get_handler header item)) [
  | inl (x, unrouted) ↦ rw (handle_command_unrouted codec header item x c unrouted) refl
  | inr (h, found) ↦
      let called = handle_command_called codec header item h c found in
      rw called (call-IsAtomic codec header item h c e (rw called at raised))
]
