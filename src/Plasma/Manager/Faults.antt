-- ===== src/Plasma/Manager/Faults.antt =====
-- Two runs of the Plasma manager that the code does not mean: src/plasma/plasma_manager.cc.
use ray.Common.{
  ℕ, suc, ◌≡◌, refl, ap, ◌∙◌, true, false, some, List, ◌∷◌, ok, fatal, ◌>>=◌, arith, ◌==◌,
  if◌then◌else◌, remove,
}
use ray.Common.Maps.{lookup, erase, has_key, has_key-erase_lem}
use ray.Plasma.Manager.State.{
  WaitRequest, PlasmaRequestBuffer, data_reply, ClientConnection, write_chunk, send_data_reply,
  PlasmaManagerState, sent, wrote_part, Env, emit, time, set_connection,
}
use ray.Plasma.Manager.Waits.{return_from_wait, wait_timeout_handler}
use ray.Plasma.Manager.Transfers.{
  free_connection, Err, no_err, chunk_size, write_object_chunk, send_buffer, dequeue,
  send_queued_request,
}
use ray.Plasma.Manager.Server.{disconnect_client, process_message, wait_timer, handle}

return_freed :
    (env : Env) (w : ℕ) (wait_req : WaitRequest) (s : PlasmaManagerState)
    → lookup w s.wait_requests ≡ some wait_req
    → has_key wait_req.client_conn s.manager_connections ≡ false
    → return_from_wait env w s ≡ fatal
unfolding return_from_wait
return_freed env w wait_req s found gone = rw (found, return_from_wait, gone) refl

-- A client that disconnects while one of its wait requests has a timer aborts the manager when the
-- timer fires: the wait request still points to the client's struct.
pub wait_timer_disconnected :
    (env : Env) (w : ℕ) (wait_req : WaitRequest) (s : PlasmaManagerState)
    → lookup w s.wait_requests ≡ some wait_req
    → wait_req.timer ≡ true
    → (process_message env wait_req.client_conn disconnect_client s >>= handle env (wait_timer w))
      ≡ fatal
unfolding process_message handle wait_timeout_handler
wait_timer_disconnected env w wait_req s found timed =
    let gone : has_key wait_req.client_conn (erase wait_req.client_conn s.manager_connections)
        ≡ false =
      let e = has_key-erase_lem wait_req.client_conn wait_req.client_conn s.manager_connections in
      ground (arith, e) in
    rw (found, handle, timed)
      (return_freed env w wait_req (free_connection wait_req.client_conn s) found gone)

chunk_partly :
    (env : Env) (c : ℕ) (conn : ClientConnection) (buf : PlasmaRequestBuffer)
    (s : PlasmaManagerState)
    → env.writes (time s) (chunk_size conn buf) ≡ wrote_part
    → write_object_chunk env c conn buf s ≡ (no_err, conn, emit (write_chunk c) s)
unfolding write_object_chunk
chunk_partly env c conn buf s part = rw (part, write_object_chunk) refl

-- A connection without its first buffer and without the object among the pending transfers.
abbrev pub sent_with :
    PlasmaRequestBuffer → List PlasmaRequestBuffer → ClientConnection → ClientConnection
sent_with buf rest conn = record conn {
  transfer_queue = rest;
  pending_object_transfers = remove buf.object_id conn.pending_object_transfers;
}

dequeue_reply :
    (buf : PlasmaRequestBuffer) (rest : List PlasmaRequestBuffer) (conn : ClientConnection)
    → buf.type ≡ data_reply
    → dequeue buf rest conn ≡ sent_with buf rest conn
dequeue_reply buf rest conn reply = rw reply refl

-- When the first chunk of an object is written in part, the object leaves the queue and the pending
-- transfers of the connection as if it had been sent; it is not released.
pub send_queued_request_partly :
    (env : Env) (c : ℕ) (conn : ClientConnection) (buf : PlasmaRequestBuffer)
    (rest : List PlasmaRequestBuffer) (s : PlasmaManagerState)
    → lookup c s.manager_connections ≡ some conn
    → conn.transfer_queue ≡ buf ∷ rest
    → buf.type ≡ data_reply
    → conn.cursor ≡ 0
    → env.sends (time s) ≡ sent
    → env.writes (suc (time s)) (chunk_size conn buf) ≡ wrote_part
    → send_queued_request env c s
      ≡ ok (
          set_connection c
            (sent_with buf rest conn)
            (emit (write_chunk c) (emit (send_data_reply c buf.object_id) s)))
unfolding send_queued_request send_buffer
send_queued_request_partly env c conn buf rest s found queued reply start header part =
    let first : (conn.cursor == 0) ≡ true = ap (λ n. n == 0) start in
    let chunk = chunk_partly env c conn buf (emit (send_data_reply c buf.object_id) s) part in
    rw (found, ◌>>=◌, send_queued_request, queued, reply, send_buffer, first, header, chunk)
      (ap
          (λ (p : Err × ClientConnection × PlasmaManagerState).
            ok (set_connection c (if p.1.cursor == 0 then dequeue buf rest p.1 else p.1) p.2))
          chunk
        ∙ ap
            (λ b. ok (
              set_connection c (if b then dequeue buf rest conn else conn)
                (emit (write_chunk c) (emit (send_data_reply c buf.object_id) s))))
            first
        ∙ ap
            (λ sent_conn. ok (
              set_connection c sent_conn
                (emit (write_chunk c) (emit (send_data_reply c buf.object_id) s))))
            (dequeue_reply buf rest conn reply))
