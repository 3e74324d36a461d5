-- ===== src/Protocol/Handshake/Outcomes.antt =====
-- What an accepted handshake of scripts/protocol-contract.mjs settles.
use aigent_place.Base.{
  ℕ, ◌≤◌, ◌≡◌, refl, sym, ◌⊎◌, inl, inr, true, false, none, some, List, [], ◌∷◌, arith,
  Option-cases,
}
use aigent_place.Base.Keys.{string_key}
use aigent_place.Base.Lists.{All}
use aigent_place.Base.Outcome.{ok}
use aigent_place.Protocol.State.{
  State, command_capable, spectate_only, aigent, CompatibilityRecord, new_session,
}
use aigent_place.Protocol.Output.{Output, Acceptance, handshake_accepted}
use mathlib.Core.Path.{subst}
use mathlib.Core.List.{Mem}
use aigent_place.Protocol.Compatibility.{serves_commands, serves_spectators, highest_major}
use aigent_place.Protocol.Features.{sorted_unique_positive_integers}
use aigent_place.Protocol.Handshake.{
  HandshakeStep, accept, Negotiated, handshake, negotiate, acceptance, accept_handshake, role_of,
  handshake_mode, choose_command_major, choose_retired_major, displaced,
}
use aigent_place.Protocol.Handshake.Selection.{highest_major_lem, highest_major-none}

-- An acceptance comes from a negotiation that went through.
accepted_by :
    (s : State) (h : HandshakeStep) {s' : State} {a : Acceptance} {rest : List Output}
    → handshake s h ≡ ok (s', handshake_accepted a ∷ rest)
    → (n : Negotiated) × (negotiate s h ≡ accept n)
      × (a ≡ acceptance n)
      × (s' ≡ (accept_handshake s h n).0)
      × (rest ≡ displaced n.mode s.session.active_epoch)
unfolding handshake accept_handshake
accepted_by s h e = ground arith

record Settled (s : State) (h : HandshakeStep) (n : Negotiated) : Type 0 where
  offered : List ℕ
  offers : sorted_unique_positive_integers h.offered_majors ≡ some offered
  role : role_of h.role ≡ some n.role
  command : n.command_major ≡ choose_command_major s offered h
  major :
      (n.command_major ≡ some n.selected)
      ⊎ ((n.command_major ≡ none) × (choose_retired_major s offered h ≡ some n.selected))
  mode : n.mode ≡ handshake_mode n.command_major n.role

settled :
    (s : State) (h : HandshakeStep) {n : Negotiated} → negotiate s h ≡ accept n → Settled s h n
unfolding negotiate
settled s h {n} e = elim (Option-cases (sorted_unique_positive_integers h.offered_majors)) [
  | inl bad ↦ absurd (ground (arith, bad))
  | inr (offered, good) ↦ record {
    offered = offered;
    offers = good;
    role = ground (arith, good);
    command = ground (arith, good);
    major = ground (arith, good);
    mode = ground (arith, good);
  }
]

-- What an acceptance with a protocol major and the upgrade notice says of the registry: the major is
-- the highest offered one that serves commands, or, with the notice, none serves commands and it is
-- the highest offered one that is retired to spectators.
abbrev pub IsBestMajor : State → HandshakeStep → List ℕ → Acceptance → Type 0
IsBestMajor s h offered a =
    (r : CompatibilityRecord) × Mem r s.compatibility
    × (a.protocol_major ≡ r.major)
    × (((a.upgrade_required ≡ false)
          × (serves_commands offered h.evaluation_time_unix_ms r ≡ true)
          × All
              (λ q. serves_commands offered h.evaluation_time_unix_ms q ≡ true → q.major ≤ r.major)
              s.compatibility)
        ⊎ ((a.upgrade_required ≡ true)
            × All (λ q. serves_commands offered h.evaluation_time_unix_ms q ≡ true → ⊥)
                s.compatibility
            × (serves_spectators offered h.evaluation_time_unix_ms r ≡ true)
            × All
                (λ q.
                  serves_spectators offered h.evaluation_time_unix_ms q ≡ true → q.major ≤ r.major)
                s.compatibility))

best_major :
    (s : State) (h : HandshakeStep) (n : Negotiated) (k : Settled s h n)
    → IsBestMajor s h k.offered (acceptance n)
unfolding choose_command_major choose_retired_major acceptance
best_major s h n k = elim k.major [
  | inl command ↦
      let chosen : highest_major (serves_commands k.offered h.evaluation_time_unix_ms)
            s.compatibility
          ≡ some n.selected =
        ground (arith, command, k.command) in
      let (listed, fits, best) = highest_major_lem _ s.compatibility chosen in
      (_, listed, refl, inl (ground (arith, command), fits, best))
  | inr (no_command, retired) ↦
      let nothing : highest_major (serves_commands k.offered h.evaluation_time_unix_ms)
            s.compatibility
          ≡ none =
        ground (arith, no_command, k.command) in
      let (listed, fits, best) = highest_major_lem _ s.compatibility retired in
      (
        _,
        listed,
        refl,
        inr (ground (arith, no_command), highest_major-none _ s.compatibility nothing, fits, best),
      )
]

module _ (s : State) (h : HandshakeStep) {s' : State} {a : Acceptance} {rest : List Output}
    (e : handshake s h ≡ ok (s', handshake_accepted a ∷ rest)) where
  -- An accepted handshake has chosen the major of a record of the registry that the client offered: the
  -- highest such one that serves commands, or where none does, with the upgrade notice, the highest
  -- retired one.
  pub handshake_major :
      (offered : List ℕ) × (sorted_unique_positive_integers h.offered_majors ≡ some offered)
      × IsBestMajor s h offered a
  handshake_major =
      let (n, negotiated, accepted, _, _) = accepted_by s h e in
      let k = settled s h negotiated in
      (k.offered, k.offers, subst (IsBestMajor s h k.offered) (sym accepted) (best_major s h n k))

  -- An accepted handshake opens a new command session, which only an aigent gets, or it leaves the
  -- session alone and displaces nobody.
  pub handshake_session :
      ((a.mode ≡ command_capable)
        × (role_of h.role ≡ some aigent)
        × (s'.session ≡ new_session a.session_epoch))
      ⊎ ((a.mode ≡ spectate_only) × (s'.session ≡ s.session) × (rest ≡ []))
  unfolding accept_handshake acceptance handshake_mode displaced
  handshake_session =
      let (n, negotiated, accepted, state, outputs) = accepted_by s h e in
      let k = settled s h negotiated in ground (arith, accepted, state, outputs, k.role, k.mode)

-- A handshake that does not end in an acceptance changes nothing.
pub handshake_refused :
    (s : State) (h : HandshakeStep) {s' : State} {outputs : List Output}
    → handshake s h ≡ ok (s', outputs)
    → (s' ≡ s) ⊎ ((a : Acceptance) × (rest : List Output) × (outputs ≡ handshake_accepted a ∷ rest))
unfolding handshake accept_handshake
handshake_refused s h e = ground arith
