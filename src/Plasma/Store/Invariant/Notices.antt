-- ===== src/Plasma/Store/Invariant/Notices.antt =====
-- Notifications and replies leave the objects, the eviction policy and the requests alone.
use ray.Common.{ℕ, ◌≡◌, ap, List, [], ◌∷◌, Ensures, Ensures->>=, Option-cases, inl, inr, ◌⊎◌, arith}
use ray.Common.Maps.{lookup}
use ray.Plasma.Types.{ObjectInfo}
use ray.Plasma.Store.State.{
  Env, PlasmaStoreState, Sent, SendOutcome, WriteOutcome, sent_all, sent_part, would_block,
  broken_pipe, failed, reply, written, hung_up, unwritable,
}
use ray.Plasma.Store.Notify.{
  LoopEnd, finished, blocked, closed, send_loop, after_sending, send_notifications, push_to,
  push_loop, push_notification,
}
use ray.Plasma.Store.Invariant.{IsConsistent, Core, Keeps}

pub Keeps-IsConsistent :
    {chosen : List ℕ} {s t : PlasmaStoreState}
    → Keeps s t
    → IsConsistent chosen s
    → IsConsistent chosen t
Keeps-IsConsistent {s} {t} h c =
    let eviction : t.eviction_state ≡ s.eviction_state = ap (λ (c : Core). c.eviction_state) h in
    let objects : t.objects ≡ s.objects = ap (λ (c : Core). c.objects) h in
    let capacity : t.memory_capacity ≡ s.memory_capacity = ap (λ (c : Core). c.memory_capacity) h in
    record {
      queue = rw eviction c.queue;
      distinct = rw eviction c.distinct;
      idle = λ k. rw (eviction, objects) (c.idle k);
      named = λ k e found. c.named k e (rw objects at found);
      within = rw (eviction, capacity) c.within;
    }

pub SendOutcome-cases :
    (o : SendOutcome)
    → (o ≡ sent_all) ⊎ (o ≡ sent_part) ⊎ (o ≡ would_block) ⊎ (o ≡ broken_pipe) ⊎ (o ≡ failed)
SendOutcome-cases o = ground arith

pub WriteOutcome-cases : (o : WriteOutcome) → (o ≡ written) ⊎ (o ≡ hung_up) ⊎ (o ≡ unwritable)
WriteOutcome-cases o = ground arith

module _ (env : Env) where
  send_loop-Keeps :
      (sock : ℕ) (queue : List ObjectInfo) (s₀ s : PlasmaStoreState)
      → Keeps s₀ s
      → Ensures (λ r. Keeps s₀ r.0) (send_loop env sock queue s)
  unfolding send_loop
  send_loop-Keeps sock [] s₀ s k = k
  send_loop-Keeps sock (n ∷ ns) s₀ s k = elim (SendOutcome-cases (env.send s.calls)) [
    | inl e ↦ rw (e, send_loop) (send_loop-Keeps sock ns s₀ _ k)
    | inr (inl e) ↦ rw (e, send_loop) tt
    | inr (inr (inl e)) ↦ rw (e, send_loop) k
    | inr (inr (inr (inl e))) ↦ rw (e, send_loop) k
    | inr (inr (inr (inr e))) ↦ rw (e, send_loop) (send_loop-Keeps sock ns s₀ _ k)
  ]

  after_sending-Keeps :
      (sock : ℕ) (s₀ : PlasmaStoreState) (r : PlasmaStoreState × List ObjectInfo × LoopEnd)
      → Keeps s₀ r.0
      → Ensures (Keeps s₀) (after_sending env sock r)
  unfolding after_sending
  after_sending-Keeps sock s₀ (s, rest, closed) k = tt
  after_sending-Keeps sock s₀ (s, [], finished) k = k
  after_sending-Keeps sock s₀ (s, [], blocked) k = k
  after_sending-Keeps sock s₀ (s, n ∷ rest, finished) k = k
  after_sending-Keeps sock s₀ (s, n ∷ rest, blocked) k = k

  pub send_notifications-Keeps :
      (sock : ℕ) (s₀ s : PlasmaStoreState)
      → Keeps s₀ s
      → Ensures (Keeps s₀) (send_notifications env sock s)
  unfolding send_notifications
  send_notifications-Keeps sock s₀ s k = elim (Option-cases (lookup sock s.pending_notifications)) [
    | inl e ↦ rw (e, send_notifications) tt
    | inr (queue, e) ↦
        rw (e, send_notifications)
          (Ensures->>= (λ r. Keeps s₀ r.0) (Keeps s₀) (send_loop env sock queue s)
            (after_sending env sock) (send_loop-Keeps sock queue s₀ s k)
            (after_sending-Keeps sock s₀))
  ]

  push_loop-Keeps :
      (info : ObjectInfo) (queues : List (ℕ × List ObjectInfo)) (s₀ s : PlasmaStoreState)
      → Keeps s₀ s
      → Ensures (Keeps s₀) (push_loop env info queues s)
  unfolding push_loop push_to
  push_loop-Keeps info [] s₀ s k = k
  push_loop-Keeps info ((sock, queue) ∷ rest) s₀ s k =
      Ensures->>= (Keeps s₀) (Keeps s₀) (push_to env info sock queue s) (push_loop env info rest)
        (send_notifications-Keeps sock s₀ _ k) (push_loop-Keeps info rest s₀)

  pub push_notification-Keeps :
      (info : ObjectInfo) (s₀ s : PlasmaStoreState)
      → Keeps s₀ s
      → Ensures (Keeps s₀) (push_notification env info s)
  unfolding push_notification
  push_notification-Keeps info s₀ s k = push_loop-Keeps info s.pending_notifications s₀ s k

  pub reply-Keeps :
      (m : Sent) (s₀ s : PlasmaStoreState)
      → Keeps s₀ s
      → Ensures (λ r. Keeps s₀ r.0) (reply env m s)
  unfolding reply
  reply-Keeps m s₀ s k = elim (WriteOutcome-cases (env.write s.calls)) [
    | inl e ↦ rw (e, reply) k
    | inr (inl e) ↦ rw (e, reply) k
    | inr (inr e) ↦ rw (e, reply) tt
  ]
