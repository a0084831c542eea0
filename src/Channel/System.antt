-- ===== src/Channel/System.antt =====
-- Processes that call `channel_produce` and `channel_consume` on one channel, in any order.
-- A process that waits on a condition variable is counted in `p_wait` or `c_wait`; one that was
-- woken and has not tested the status again, in `p_woken` or `c_woken`.
use sop.Prelude.{ℕ, ◌+◌, ◌-◌, ◌<◌, ◌≡◌, ◌++◌, List, [], ◌∷◌, Bool, true, false, length, replicate}
use sop.Channel.Calls.{empty, occupied, Channel, channel_size, done, produce, consume, deplete}

pub record System : Type 0 where
  pub ch : Channel
  pub p_wait : ℕ
  pub p_woken : ℕ
  pub c_wait : ℕ
  pub c_woken : ℕ
  pub sent : List (List ℕ)  -- the blocks of the calls of `channel_produce` that returned, in order
  pub received : List (List ℕ)  -- the blocks that `channel_consume` copied out, in order
  pub ended : Bool  -- a producer has set CHANNEL_DEPLETED

-- `pthread_cond_signal` wakes one waiting process, if there is one.
abbrev pub signal_consumer : System → System
signal_consumer s = record s {
  c_wait = s.c_wait - 1;
  c_woken = s.c_woken + (s.c_wait - (s.c_wait - 1));
}

abbrev pub signal_producer : System → System
signal_producer s = record s {
  p_wait = s.p_wait - 1;
  p_woken = s.p_woken + (s.p_wait - (s.p_wait - 1));
}

-- `pthread_cond_broadcast`
abbrev pub broadcast_consumers : System → System
broadcast_consumers s = record s { c_wait = 0; c_woken = s.c_woken + s.c_wait }

abbrev pub after_produce : System → Channel → List ℕ → System
after_produce s c src = signal_consumer (record s { ch = c; sent = s.sent ++ src ∷ [] })

abbrev pub after_consume : System → Channel → List ℕ → System
after_consume s c block = signal_producer (record s { ch = c; received = s.received ++ block ∷ [] })

-- What a producer does while it holds the mutex, on entry or once it has been woken.
pub data ProducerStep (s : System) : System → Type 0 where
  wait : s.ch.status ≡ occupied → ProducerStep s (record s { p_wait = s.p_wait + 1 })
  wait_again :
      0 < s.p_woken
      → s.ch.status ≡ occupied
      → ProducerStep s (record s { p_woken = s.p_woken - 1; p_wait = s.p_wait + 1 })
  put :
      (src : List ℕ) (c : Channel)
      → produce s.ch src (length src) ≡ done (0, c)
      → ProducerStep s (after_produce s c src)
  put_woken :
      (src : List ℕ) (c : Channel)
      → 0 < s.p_woken
      → produce s.ch src (length src) ≡ done (0, c)
      → ProducerStep s (after_produce (record s { p_woken = s.p_woken - 1 }) c src)
  finish : ProducerStep s (broadcast_consumers (record s { ch = deplete s.ch; ended = true }))
  spurious :
      0 < s.p_wait → ProducerStep s (record s { p_wait = s.p_wait - 1; p_woken = s.p_woken + 1 })

-- What a consumer does while it holds the mutex.
pub data ConsumerStep (s : System) : System → Type 0 where
  wait : s.ch.status ≡ empty → ConsumerStep s (record s { c_wait = s.c_wait + 1 })
  wait_again :
      0 < s.c_woken
      → s.ch.status ≡ empty
      → ConsumerStep s (record s { c_woken = s.c_woken - 1; c_wait = s.c_wait + 1 })
  get :
      (block : List ℕ) (c : Channel)
      → consume s.ch ≡ done (0, block, c)
      → ConsumerStep s (after_consume s c block)
  get_woken :
      (block : List ℕ) (c : Channel)
      → 0 < s.c_woken
      → consume s.ch ≡ done (0, block, c)
      → ConsumerStep s (after_consume (record s { c_woken = s.c_woken - 1 }) c block)
  give_up : consume s.ch ≡ done (1, [], s.ch) → ConsumerStep s s
  give_up_woken :
      0 < s.c_woken
      → consume s.ch ≡ done (1, [], s.ch)
      → ConsumerStep s (record s { c_woken = s.c_woken - 1 })
  spurious :
      0 < s.c_wait → ConsumerStep s (record s { c_wait = s.c_wait - 1; c_woken = s.c_woken + 1 })

pub data Step (s t : System) : Type 0 where
  producer : ProducerStep s t → Step s t
  consumer : ConsumerStep s t → Step s t

-- The system once the first process has opened the channel. New shared memory is zeroed.
abbrev pub start : System
start = record {
  ch = record { status = empty; buf = replicate channel_size 0; len = 0 };
  p_wait = 0;
  p_woken = 0;
  c_wait = 0;
  c_woken = 0;
  sent = [];
  received = [];
  ended = false;
}

pub data Reach : System → Type 0 where
  begin : Reach start
  next : {s t : System} → Reach s → Step s t → Reach t

-- Only consumers run.
pub data Consumers (s : System) : System → Type 0 where
  none_ran : Consumers s s
  ran : {t u : System} → Consumers s t → ConsumerStep t u → Consumers s u
