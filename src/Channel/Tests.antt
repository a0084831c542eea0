-- ===== src/Channel/Tests.antt =====
-- A producer that sends one block and ends before it is consumed.
use sop.Prelude.{◌≡◌, ◌≢◌, ◌⊎◌, ◌<◌, refl, [], ◌∷◌, ◌++◌, true, replicate}
use sop.Channel.Calls.{
  empty, occupied, depleted, Channel, channel_size, done, blocked, memcpy, open_channel, produce,
  consume, deplete,
}
use sop.Channel.System.{
  System, start, Reach, begin, next, producer, put, give_up, after_produce, broadcast_consumers,
  Consumers, none_ran, ran,
}
use sop.Channel.Delivery.{pending, sent-eq-received, no_lost_wakeup, finish_loses_block}

abbrev loaded : Channel
loaded = record { status = occupied; buf = memcpy (replicate channel_size 0) (7 ∷ []) 1; len = 1 }

abbrev one_sent : System
one_sent = after_produce start loaded (7 ∷ [])

one_sent_reached : Reach one_sent
unfolding produce
one_sent_reached = next begin (producer (put (7 ∷ []) loaded refl))

sent-eq-received_example : one_sent.sent ≡ one_sent.received ++ pending one_sent.ch
sent-eq-received_example = sent-eq-received one_sent_reached refl

no_lost_wakeup_example :
    (one_sent.ch.status ≡ occupied → (one_sent.c_wait ≡ 0) ⊎ (0 < one_sent.c_woken))
    × (one_sent.ch.status ≡ empty → (one_sent.p_wait ≡ 0) ⊎ (0 < one_sent.p_woken))
    × (one_sent.ch.status ≡ depleted → one_sent.c_wait ≡ 0)
no_lost_wakeup_example = no_lost_wakeup one_sent_reached

abbrev finished : System
finished = broadcast_consumers (record one_sent { ch = deplete one_sent.ch; ended = true })

Consumers-give_up : Consumers finished finished
unfolding consume deplete
Consumers-give_up = ran none_ran (give_up refl)

finish_loses_block_example :
    (finished.received ≡ one_sent.received)
    × (finished.sent ≡ one_sent.sent)
    × (finished.sent ≢ finished.received)
finish_loses_block_example = finish_loses_block one_sent_reached refl refl Consumers-give_up

-- A call in the wrong state waits; a depleted channel ends the consumer.
produce_blocked : produce loaded (1 ∷ []) 1 ≡ blocked
unfolding produce
produce_blocked = refl

consume_blocked : consume start.ch ≡ blocked
unfolding consume
consume_blocked = refl

consume-loaded : consume loaded ≡ done (0, 7 ∷ [], record loaded { status = empty })
unfolding consume memcpy
consume-loaded = refl

-- Initialised once: a channel in use stays as it is.
open_twice : open_channel loaded ≡ loaded
unfolding open_channel
open_twice = refl
