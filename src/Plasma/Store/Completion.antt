-- ===== src/Plasma/Store/Completion.antt =====
-- When evictions and notifications do not abort the store.
use ray.Common.{
  ℕ, ◌≡◌, ◌≢◌, refl, Bool, true, false, Option, none, some, List, [], ◌∷◌, ◌++◌, inl, inr, ok,
  arith, remove, contains,
}
use ray.Common.Int.{ℤ, int_laws}
use ray.Common.Maps.{lookup, insert, erase, lookup-insert}
use ray.Plasma.Types.{ObjectInfo, ObjectTableEntry, sealed}
use ray.Plasma.Eviction.Choose.{choose_objects_to_evict-Chooses}
use ray.Plasma.Store.State.{
  Env, PlasmaStoreState, Client, sent_part, broken_pipe, unwritable, Sent, evict_reply, reply,
  is_empty,
}
use ray.Plasma.Store.Notify.{
  LoopEnd, finished, blocked, closed, send_loop, after_sending, send_notifications, push_to,
  push_loop, push_notification,
}
use ray.Plasma.Store.Objects.{delete_object, deletion, remove_objects}
use ray.Plasma.Store.Messages.{evict}
use ray.Plasma.Store.Invariant.{IsConsistent, is_idle}
use ray.Plasma.Store.Invariant.Notices.{SendOutcome-cases, WriteOutcome-cases}
use ray.Plasma.Store.Invariant.Objects.{delete_object-IsConsistent}
use ray.Plasma.Store.Evicting.{delete_object-lookup}
use ray.Plasma.Store.Invariant.Creation.{IsConsistent-IsKnown, given_up-IsConsistent}

-- No send to a subscriber stops half way or finds the pipe broken, and no reply fails but because the
-- client hung up.
pub record IsCalm (env : Env) : Type 0 where
  pub whole : (call : ℕ) → env.send call ≢ sent_part
  pub open_pipe : (call : ℕ) → env.send call ≢ broken_pipe
  pub writable : (call : ℕ) → env.write call ≢ unwritable

idle_entry :
    (o : Option ObjectTableEntry)
    → is_idle o ≡ true
    → (e : ObjectTableEntry) × (o ≡ some e) × (is_empty e.clients ≡ true)
idle_entry none h = cc
idle_entry (some e) h = (e, refl, h)

-- Every object that no client uses was sealed.
abbrev pub IdleSealed : PlasmaStoreState → Type 0
IdleSealed s =
    (j : ℕ) (e : ObjectTableEntry)
    → lookup j s.objects ≡ some e
    → is_empty e.clients ≡ true
    → e.state ≡ sealed

module _ (env : Env) (calm : IsCalm env) where
  send_loop_completes :
      (sock : ℕ) (queue : List ObjectInfo) (s : PlasmaStoreState)
      → (t : PlasmaStoreState) × (rest : List ObjectInfo) × (end : LoopEnd) × (send_loop env sock
            queue s
          ≡ ok (t, rest, end))
        × (end ≢ closed)
  unfolding send_loop
  send_loop_completes sock [] s = (s, [], finished, refl, λ e. cc)
  send_loop_completes sock (n ∷ ns) s = elim (SendOutcome-cases (env.send s.calls)) [
    | inl e ↦ rw (e, send_loop) (send_loop_completes sock ns _)
    | inr (inl e) ↦ absurd (calm.whole s.calls e)
    | inr (inr (inl e)) ↦ rw (e, send_loop) (_, n ∷ ns, blocked, refl, λ f. cc)
    | inr (inr (inr (inl e))) ↦ absurd (calm.open_pipe s.calls e)
    | inr (inr (inr (inr e))) ↦ rw (e, send_loop) (send_loop_completes sock ns _)
  ]

  after_sending_completes :
      (sock : ℕ) (s : PlasmaStoreState) (rest : List ObjectInfo) (end : LoopEnd)
      → end ≢ closed
      → (t : PlasmaStoreState) × (after_sending env sock (s, rest, end) ≡ ok t)
  unfolding after_sending
  after_sending_completes sock s rest finished h = (_, refl)
  after_sending_completes sock s rest blocked h = (_, refl)
  after_sending_completes sock s rest closed h = absurd (h refl)

  push_to_completes :
      (info : ObjectInfo) (sock : ℕ) (queue : List ObjectInfo) (s : PlasmaStoreState)
      → (t : PlasmaStoreState) × (push_to env info sock queue s ≡ ok t)
  unfolding push_to send_notifications
  push_to_completes info sock queue s =
      let s' : PlasmaStoreState = record s {
        pending_notifications = insert sock (queue ++ info ∷ []) s.pending_notifications;
      } in
      let there = lookup-insert sock sock (queue ++ info ∷ []) s.pending_notifications in
      let found : lookup sock (insert sock (queue ++ info ∷ []) s.pending_notifications)
          ≡ some (queue ++ info ∷ []) =
        ground (arith, there) in
      let (t, rest, end, sent, open_end) = send_loop_completes sock (queue ++ info ∷ []) s' in
      let (u, after) = after_sending_completes sock t rest end open_end in
      (u, rw (found, push_to, send_notifications) (rw (sent, after)))

  push_loop_completes :
      (info : ObjectInfo) (queues : List (ℕ × List ObjectInfo)) (s : PlasmaStoreState)
      → (t : PlasmaStoreState) × (push_loop env info queues s ≡ ok t)
  unfolding push_loop
  push_loop_completes info [] s = (s, refl)
  push_loop_completes info ((sock, queue) ∷ rest) s =
      let (t, pushed) = push_to_completes info sock queue s in
      let (u, others) = push_loop_completes info rest t in (u, rw pushed others)

  delete_object_completes :
      (k : ℕ) (s : PlasmaStoreState) (e : ObjectTableEntry)
      → lookup k s.objects ≡ some e
      → e.state ≡ sealed
      → is_empty e.clients ≡ true
      → (t : PlasmaStoreState) × (delete_object env k s ≡ ok t)
  unfolding delete_object push_notification
  delete_object_completes k s e found whole unused =
      let s' : PlasmaStoreState = record s {
        allocated = remove e.pointer s.allocated;
        objects = erase k s.objects;
      } in
      let (t, pushed) = push_loop_completes (deletion k) s.pending_notifications s' in
      (t, rw (found, delete_object, whole, unused) pushed)

  remove_objects_completes :
      (ids : List ℕ) (s : PlasmaStoreState)
      → IsConsistent ids s
      → IdleSealed s
      → (t : PlasmaStoreState) × (remove_objects env ids s ≡ ok t)
  unfolding remove_objects contains
  remove_objects_completes [] s c idle = (s, refl)
  remove_objects_completes (k ∷ ids) s c idle =
      let listed : is_idle (lookup k s.objects) ≡ true = ground (arith, c.idle k) in
      let (e, found, unused) = idle_entry (lookup k s.objects) listed in
      let (t, deleted) = delete_object_completes k s e found (idle k e found unused) unused in
      let kept = (rw deleted at (delete_object-IsConsistent env k ids s c)) in
      let lookups = (rw deleted at (delete_object-lookup env k s)) in
      let (u, others) =
        remove_objects_completes ids t kept (λ j f there. idle j f (ground (arith, lookups j))) in
      (u, rw deleted others)

  pub reply_completes :
      (m : Sent) (s : PlasmaStoreState)
      → (t : PlasmaStoreState) × (delivered : Bool) × (reply env m s ≡ ok (t, delivered))
  unfolding reply
  reply_completes m s = elim (WriteOutcome-cases (env.write s.calls)) [
    | inl e ↦ rw (e, reply) (_, true, refl)
    | inr (inl e) ↦ rw (e, reply) (_, false, refl)
    | inr (inr e) ↦ absurd (calm.writable s.calls e)
  ]

  -- In a calm environment an eviction does not abort a consistent store whose unused objects are all
  -- sealed.
  pub evict_completes :
      (client : Client) (num_bytes : ℤ) (s : PlasmaStoreState)
      → IsConsistent [] s
      → IdleSealed s
      → (t : PlasmaStoreState) × (evict env client num_bytes s ≡ ok t)
  unfolding evict
  evict_completes client num_bytes s c idle =
      let (ev, freed, chosen, ran, res) =
        choose_objects_to_evict-Chooses s.objects num_bytes s.eviction_state c.queue
          (IsConsistent-IsKnown s c) in
      let s' : PlasmaStoreState = record s { eviction_state = ev } in
      let ready : IsConsistent chosen s' =
        given_up-IsConsistent s ev chosen c res.well_formed res.split
          (rw res.accounted (omega (int_laws, c.within))) in
      let (t, removed) = remove_objects_completes chosen s' ready idle in
      let (u, delivered, replied) = reply_completes (evict_reply client.sock freed) t in
      (u, rw (ran, removed, replied))
