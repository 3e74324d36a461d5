-- ===== src/Protocol/Events/Acknowledge.antt =====
-- Acknowledgements of scripts/protocol-contract.mjs.
use aigent_place.Base.{ℕ, ◌≤◌, ◌<◌, String, ◌≡◌, refl, true, Option, [], ◌∷◌, arith, ltb, ltb→lt}
use aigent_place.Base.Keys.{string_key}
use aigent_place.Base.Lists.{All, All-imp, filter, filter-All}
use aigent_place.Protocol.State.{State}
use aigent_place.Protocol.Output.{events_acknowledged}
use aigent_place.Protocol.Events.{acknowledge_event}

acknowledged :
    (s : State) (stream_epoch : String) (sequence : ℕ) (message_id : Option ℕ)
    → (acknowledge_event s stream_epoch sequence message_id).1 ≡ events_acknowledged sequence ∷ []
    → ((acknowledge_event s stream_epoch sequence message_id).0.event_stream
        ≡ record (s.event_stream) {
          last_ack = sequence;
          journal = filter (λ event. ltb sequence event) s.event_stream.journal;
        })
      × (s.event_stream.last_ack < sequence)
      × (sequence ≤ s.event_stream.highest_sent_sequence)
unfolding acknowledge_event
acknowledged s stream_epoch sequence message_id h = ground arith

-- An acknowledgement moves the cursor forward to a sequence number that was sent, and drops the
-- events up to it from the journal, keeping exactly the later ones.
pub acknowledge_event_lem :
    (s : State) (stream_epoch : String) (sequence : ℕ) (message_id : Option ℕ)
    → (acknowledge_event s stream_epoch sequence message_id).1 ≡ events_acknowledged sequence ∷ []
    → let after = (acknowledge_event s stream_epoch sequence message_id).0.event_stream in
      (s.event_stream.last_ack < after.last_ack)
      × (after.last_ack ≡ sequence)
      × (after.last_ack ≤ after.highest_sent_sequence)
      × (after.journal ≡ filter (λ event. ltb sequence event) s.event_stream.journal)
      × All (λ event. after.last_ack < event) after.journal
acknowledge_event_lem s stream_epoch sequence message_id h =
    let (after, forward, sent) = acknowledged s stream_epoch sequence message_id h in
    rw after (
      forward,
      refl,
      sent,
      refl,
      All-imp (λ event. ltb sequence event ≡ true) (λ event. sequence < event)
          (λ event. ltb→lt sequence event) _
          (filter-All (λ event. ltb sequence event) s.event_stream.journal),
    )

-- Any acknowledgement keeps the cursor at or below the highest sequence number sent.
pub acknowledge_event_within :
    (s : State) (stream_epoch : String) (sequence : ℕ) (message_id : Option ℕ)
    → s.event_stream.last_ack ≤ s.event_stream.highest_sent_sequence
    → let after = (acknowledge_event s stream_epoch sequence message_id).0.event_stream in
      after.last_ack ≤ after.highest_sent_sequence
unfolding acknowledge_event
acknowledge_event_within s stream_epoch sequence message_id h = ground arith
