-- ===== src/Channel/Delivery.antt =====
-- What the channel delivers, and who is woken.
use sop.Prelude.{
  ℕ, ◌-◌, ◌<◌, ◌≡◌, ◌≢◌, ◌⊎◌, ap, refl, sym, ◌∙◌, inl, List, [], ◌∷◌, ◌++◌, arith, true, false,
  length, take, length-append, take-length, take-append, append-nil, drop,
}
use sop.Channel.Calls.{
  uninitialized, empty, occupied, depleted, Channel, done, produce, consume, deplete, memcpy,
}
use sop.Channel.System.{
  System, ProducerStep, ConsumerStep, put, put_woken, finish, get, get_woken, give_up,
  give_up_woken, after_produce, after_consume, broadcast_consumers, Step, producer, consumer, Reach,
  begin, next, start, Consumers, none_ran, ran,
}

-- The block in the channel that no consumer has taken.
abbrev pub pending : Channel → List (List ℕ)
pending c = elim c.status [ occupied ↦ take c.len c.buf ∷ [] | _ ↦ [] ]

pub record Inv (s : System) : Type 0 where
  pub opened : s.ch.status ≢ uninitialized
  pub ledger : s.ended ≡ false → s.sent ≡ s.received ++ pending s.ch
  pub over : s.ch.status ≡ depleted → s.ended ≡ true
  pub wake_consumer : s.ch.status ≡ occupied → (s.c_wait ≡ 0) ⊎ (0 < s.c_woken)
  pub wake_producer : s.ch.status ≡ empty → (s.p_wait ≡ 0) ⊎ (0 < s.p_woken)
  pub drained : s.ch.status ≡ depleted → s.c_wait ≡ 0

take-memcpy : (dst src : List ℕ) → take (length src) (memcpy dst src (length src)) ≡ src
unfolding memcpy
take-memcpy dst src = rw (take-length src, take-append src (drop (length src) dst))

produce-pending :
    (c : Channel) (src : List ℕ) (c' : Channel)
    → produce c src (length src) ≡ done (0, c')
    → (c'.status ≡ occupied) × (pending c' ≡ src ∷ [])
unfolding produce
produce-pending c src c' h = ground (arith, take-memcpy c.buf src)

produce-not_occupied :
    (c : Channel) (src : List ℕ) (c' : Channel)
    → produce c src (length src) ≡ done (0, c')
    → c.status ≢ occupied
unfolding produce
produce-not_occupied c src c' h = ground arith

consume-pending :
    (c : Channel) (block : List ℕ) (c' : Channel)
    → c.status ≢ uninitialized
    → consume c ≡ done (0, block, c')
    → (c.status ≡ occupied) × (c'.status ≡ empty) × (pending c ≡ block ∷ [])
unfolding consume
consume-pending c block c' o h = ground arith

consume_depleted : (c : Channel) → consume c ≡ done (1, [], c) → c.status ≡ depleted
unfolding consume
consume_depleted c h = ground arith

-- The parts of the invariant after a block went in, from the facts about the call.
put-Inv :
    (s : System) (src : List ℕ) (c : Channel)
    → produce s.ch src (length src) ≡ done (0, c)
    → (q : ℕ) → Inv s
    → Inv (after_produce (record s { p_woken = q }) c src)
put-Inv s src c h q v = record {
  opened = λ e. ground (arith, produce-pending s.ch src c h);
  ledger = λ e. ground (
    arith,
    produce-pending s.ch src c h,
    produce-not_occupied s.ch src c h,
    append-nil s.received,
  );
  over = λ e. ground (arith, produce-pending s.ch src c h);
  wake_consumer = λ _. omega arith;
  wake_producer = λ e. ground (arith, produce-pending s.ch src c h);
  drained = λ e. ground (arith, produce-pending s.ch src c h);
}

get-Inv :
    (s : System) (block : List ℕ) (c : Channel)
    → consume s.ch ≡ done (0, block, c)
    → (q : ℕ) → Inv s
    → Inv (after_consume (record s { c_woken = q }) c block)
get-Inv s block c h q v = record {
  opened = λ e. ground (arith, consume-pending s.ch block c v.opened h);
  ledger = λ e.
      ground
        (arith, consume-pending s.ch block c v.opened h, append-nil (s.received ++ block ∷ []));
  over = λ e. ground (arith, consume-pending s.ch block c v.opened h);
  wake_consumer = λ e. ground (arith, consume-pending s.ch block c v.opened h);
  wake_producer = λ _. omega arith;
  drained = λ e. ground (arith, consume-pending s.ch block c v.opened h);
}

ProducerStep-Inv : {s t : System} → ProducerStep s t → Inv s → Inv t
unfolding deplete
ProducerStep-Inv (ProducerStep.wait h) v = ground arith
ProducerStep-Inv (ProducerStep.wait_again w h) v = ground arith
ProducerStep-Inv {s} (put src c h) v = put-Inv s src c h s.p_woken v
ProducerStep-Inv {s} (put_woken src c w h) v = put-Inv s src c h (s.p_woken - 1) v
ProducerStep-Inv finish v = ground arith
ProducerStep-Inv (ProducerStep.spurious w) v = ground arith

ConsumerStep-Inv : {s t : System} → ConsumerStep s t → Inv s → Inv t
ConsumerStep-Inv (ConsumerStep.wait h) v = ground arith
ConsumerStep-Inv (ConsumerStep.wait_again w h) v = ground arith
ConsumerStep-Inv {s} (get block c h) v = get-Inv s block c h s.c_woken v
ConsumerStep-Inv {s} (get_woken block c w h) v = get-Inv s block c h (s.c_woken - 1) v
ConsumerStep-Inv (give_up h) v = v
ConsumerStep-Inv {s} (give_up_woken w h) v = ground (arith, consume_depleted s.ch h)
ConsumerStep-Inv (ConsumerStep.spurious w) v = ground arith

Step-Inv : {s t : System} → Step s t → Inv s → Inv t
Step-Inv (producer p) v = ProducerStep-Inv p v
Step-Inv (consumer c) v = ConsumerStep-Inv c v

start-Inv : Inv start
start-Inv = record {
  opened = λ e. cc;
  ledger = λ _. refl;
  over = λ e. cc;
  wake_consumer = λ e. cc;
  wake_producer = λ _. inl refl;
  drained = λ e. cc;
}

pub Reach-Inv : {s : System} → Reach s → Inv s
Reach-Inv begin = start-Inv
Reach-Inv (next r st) = Step-Inv st (Reach-Inv r)

-- As long as no producer has set CHANNEL_DEPLETED, the blocks that the calls of `channel_produce`
-- have put in are, in order, those that consumers have copied out, followed by the block that is
-- in the channel, if it is CHANNEL_OCCUPIED: no block is lost, repeated or overtaken.
pub sent-eq-received :
    {s : System} → Reach s → s.ended ≡ false → s.sent ≡ s.received ++ pending s.ch
sent-eq-received r e = (Reach-Inv r).ledger e

-- No wake-up is lost. In every reachable state: if the channel is occupied, no consumer waits or
-- a woken one is about to test the status; if it is empty, no producer waits or a woken one is
-- about to test it; and once it is depleted no consumer waits.
pub no_lost_wakeup :
    {s : System}
    → Reach s
    → (s.ch.status ≡ occupied → (s.c_wait ≡ 0) ⊎ (0 < s.c_woken))
      × (s.ch.status ≡ empty → (s.p_wait ≡ 0) ⊎ (0 < s.p_woken))
      × (s.ch.status ≡ depleted → s.c_wait ≡ 0)
no_lost_wakeup r = let v = Reach-Inv r in (v.wake_consumer, v.wake_producer, v.drained)

ConsumerStep-depleted :
    {s t : System}
    → ConsumerStep s t
    → s.ch.status ≡ depleted
    → (t.ch.status ≡ depleted) × (t.received ≡ s.received) × (t.sent ≡ s.sent)
unfolding consume
ConsumerStep-depleted (ConsumerStep.wait h) e = ground arith
ConsumerStep-depleted (ConsumerStep.wait_again w h) e = ground arith
ConsumerStep-depleted (get block c h) e = ground arith
ConsumerStep-depleted (get_woken block c w h) e = ground arith
ConsumerStep-depleted (give_up h) e = ground arith
ConsumerStep-depleted (give_up_woken w h) e = ground arith
ConsumerStep-depleted (ConsumerStep.spurious w) e = ground arith

Consumers-depleted :
    {s t : System}
    → Consumers s t
    → s.ch.status ≡ depleted
    → (t.ch.status ≡ depleted) × (t.received ≡ s.received) × (t.sent ≡ s.sent)
Consumers-depleted none_ran e = (e, refl, refl)
Consumers-depleted {s} (ran {t = m} before st) e =
    let was = Consumers-depleted before e in
    let now = ConsumerStep-depleted st was.0 in (now.0, now.1 ∙ was.1, now.2 ∙ was.2)

snoc-ne : (xs : List (List ℕ)) (x : List ℕ) → xs ++ x ∷ [] ≢ xs
snoc-ne xs x e = absurd (omega (arith, ap length e, length-append xs (x ∷ [])))

-- The step that ends ops-double-processor.c does not wait for the channel to be emptied. If it is
-- taken in a reachable state, before any other such step, while a block is in the channel, then
-- whatever consumers do from there on, that block is not delivered: what they have received is
-- what had been received before, and it differs from what was sent.
pub finish_loses_block :
    {s t : System}
    → Reach s
    → s.ended ≡ false
    → s.ch.status ≡ occupied
    → Consumers (broadcast_consumers (record s { ch = deplete s.ch; ended = true })) t
    → (t.received ≡ s.received) × (t.sent ≡ s.sent) × (t.sent ≢ t.received)
unfolding deplete
finish_loses_block {s} {t} r e o run = (gone.1, gone.2, λ q. snoc-ne s.received _ (kept ∙ q'' q))
  where
    gone : (t.ch.status ≡ depleted) × (t.received ≡ s.received) × (t.sent ≡ s.sent)
    gone = Consumers-depleted run refl

    kept : s.received ++ take s.ch.len s.ch.buf ∷ [] ≡ s.sent
    kept = ground (arith, sent-eq-received r e)

    q'' : t.sent ≡ t.received → s.sent ≡ s.received
    q'' q = sym gone.2 ∙ q ∙ gone.1
