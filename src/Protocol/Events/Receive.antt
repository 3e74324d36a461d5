-- ===== src/Protocol/Events/Receive.antt =====
-- Events as a client receives them in scripts/protocol-contract.mjs.
use aigent_place.Base.{
  ℕ, ◌+◌, String, ◌≡◌, refl, true, false, List, [], ◌∷◌, ◌++◌, arith, map, ◌⊎◌, inl, inr, ◌∙◌, ap,
}
use mathlib.Core.List.{append-nil, append_assoc}
use aigent_place.Base.Lists.{length}
use aigent_place.Base.Outcome.{ok}
use aigent_place.Protocol.State.{State}
use aigent_place.Protocol.Output.{Output, event_received}
use aigent_place.Protocol.Events.{receive_event, is_contiguous}
use aigent_place.Protocol.Transition.{Step, transition, dispatch, run}

-- An event that arrives: its stream epoch and its sequence number.
abbrev pub Arrival : Type 0
Arrival = String × ℕ

abbrev pub arrive : Arrival → Step
arrive (epoch, sequence) = Step.receive_event epoch sequence

-- The sequence numbers that a trace reports as received.
pub received : List Output → List ℕ
received [] = []
received (event_received sequence ∷ outputs) = sequence ∷ received outputs
received (o ∷ outputs) = received outputs

-- One arrival is received in turn, and moves the expected sequence number on, or it moves nothing.
receive_event_step :
    (s : State) (epoch : String) (sequence : ℕ)
    → let (after, outputs) = receive_event s epoch sequence in
      (after.closed ≡ s.closed)
      × (((received outputs ≡ s.event_stream.expected_sequence ∷ [])
            × (after.event_stream.expected_sequence ≡ s.event_stream.expected_sequence + 1))
          ⊎ ((received outputs ≡ [])
              × (after.event_stream.expected_sequence ≡ s.event_stream.expected_sequence)))
unfolding receive_event received
receive_event_step s epoch sequence = ground arith

received-append : (xs ys : List Output) → received (xs ++ ys) ≡ received xs ++ received ys
unfolding received
received-append [] ys = refl
received-append (event_received n ∷ xs) ys = ap (◌∷◌ n) (received-append xs ys)
received-append (_ ∷ xs) ys = received-append xs ys

-- What a run of arrivals has done by its end.
pub record InOrder (s : State) (trace : List Output) (arrivals : List Arrival) : Type 0 where
  pub after : State
  pub outputs : List Output
  pub ends : run s trace (map arrive arrivals) ≡ ok (after, trace ++ outputs)
  pub contiguous : is_contiguous s.event_stream.expected_sequence (received outputs) ≡ true
  pub counted :
      after.event_stream.expected_sequence
      ≡ s.event_stream.expected_sequence + length (received outputs)

step_runs :
    (s : State) (trace : List Output) (epoch : String) (sequence : ℕ) (steps : List Step)
    → s.closed ≡ false
    → let (after, outputs) = receive_event s epoch sequence in
      run s trace (Step.receive_event epoch sequence ∷ steps) ≡ run after (trace ++ outputs) steps
unfolding run transition dispatch
step_runs s trace epoch sequence steps open_ = rw open_

-- The first arrival's outputs before those of the rest.
joined :
    (before : ℕ) (after : ℕ) (first rest : List ℕ)
    → ((first ≡ before ∷ []) × (after ≡ before + 1)) ⊎ ((first ≡ []) × (after ≡ before))
    → is_contiguous after rest ≡ true
    → (is_contiguous before (first ++ rest) ≡ true)
      × (after + length rest ≡ before + length (first ++ rest))
unfolding is_contiguous
joined before after first rest (inl (e, next)) h = rw e (ground (arith, h, next), omega arith)
joined before after first rest (inr (e, same)) h = rw e (ground (arith, h, same), omega arith)

-- Whatever arrives at an open connection, duplicated, reordered, lost or of another epoch, the run
-- succeeds, and the events that it receives are consecutive from the expected one on, each once.
pub receive-InOrder :
    (arrivals : List Arrival) (s : State) (trace : List Output)
    → s.closed ≡ false
    → InOrder s trace arrivals
unfolding run received is_contiguous
receive-InOrder [] s trace open_ = record {
  after = s;
  outputs = [];
  ends = rw append-nil;
  contiguous = refl;
  counted = omega arith;
}
receive-InOrder ((epoch, sequence) ∷ arrivals) s trace open_ =
    let (after, outputs) = receive_event s epoch sequence in
    let (same, moved) = receive_event_step s epoch sequence in
    let ih = receive-InOrder arrivals after (trace ++ outputs) (same ∙ open_) in
    let (contiguous, counted) =
      joined s.event_stream.expected_sequence after.event_stream.expected_sequence
        (received outputs) (received ih.outputs) moved ih.contiguous in
    record {
      after = ih.after;
      outputs = outputs ++ ih.outputs;
      ends =
          step_runs s trace epoch sequence (map arrive arrivals) open_
          ∙ ih.ends
          ∙ ap (λ t. ok (ih.after, t)) (append_assoc trace outputs ih.outputs);
      contiguous = rw received-append contiguous;
      counted = rw received-append (ih.counted ∙ counted);
    }
