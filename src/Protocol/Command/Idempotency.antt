-- ===== src/Protocol/Command/Idempotency.antt =====
-- The idempotency records of scripts/protocol-contract.mjs: a dictionary by aigent, major and key,
-- in which nothing is overwritten.
use aigent_place.Base.{
  Bool-cases, Option-cases, inl, inr, ℕ, String, ◌≡◌, refl, true, ◌&&◌, Option, none, some, arith,
  ◌==◌, ==_iff, if◌then◌else◌,
}
use aigent_place.Base.Keys.{string_key, nat_key}
use aigent_place.Base.Map.{lookup, insert, lookup-insert}
use aigent_place.Protocol.State.{State, IdempotencyRecord, IdempotencyTable, CommandResult}
use aigent_place.Protocol.Command.{
  checked_command, valid_command, property_key, idempotency_record, set_idempotency_record,
  or_empty, CommandStep, ValidCommand, command, dispatch_command, execute_once, first_execution,
  replay_sequence, record_sequence, record_exact_rejection,
}

-- Setting the record of one aigent, major and key changes that record and no other.
pub idempotency_record-set :
    (table : IdempotencyTable) (a b : Option String) (m n : ℕ) (k j : String)
    (r : IdempotencyRecord)
    → idempotency_record (set_idempotency_record table a m k r) b n j ≡ (
        if property_key a == property_key b && (m == n && k == j)
        then some r
        else idempotency_record table b n j)
unfolding idempotency_record set_idempotency_record lookup
idempotency_record-set table a b m n k j r =
    let majors = or_empty (lookup (property_key a) table) in
    let keys = or_empty (lookup m majors) in
    ground (
      arith,
      lookup-insert (property_key a) (property_key b) (insert m (insert k r keys) majors) table,
      lookup-insert m n (insert k r keys) majors,
      lookup-insert k j r keys,
      ==_iff (property_key a) (property_key b),
      ==_iff m n,
      ==_iff k j,
    )

-- The same aigent, major and key have the same record.
idempotency_record_congr :
    (table : IdempotencyTable) (a b : Option String) (m n : ℕ) (k j : String)
    → (property_key a == property_key b && (m == n && k == j)) ≡ true
    → idempotency_record table a m k ≡ idempotency_record table b n j
unfolding idempotency_record
idempotency_record_congr table a b m n k j h =
    ground (arith, ==_iff (property_key a) (property_key b), ==_iff m n, ==_iff k j)

-- Setting a record where there is none leaves the records that are there.
pub set-keeps :
    (table : IdempotencyTable) (a b : Option String) (m n : ℕ) (k j : String)
    (r : IdempotencyRecord) {old : IdempotencyRecord}
    → idempotency_record table a m k ≡ none
    → idempotency_record table b n j ≡ some old
    → idempotency_record (set_idempotency_record table a m k r) b n j ≡ some old
set-keeps table a b m n k j r fresh h =
    elim (Bool-cases (property_key a == property_key b && (m == n && k == j))) [
      | inl same ↦ cc (fresh, h, idempotency_record_congr table a b m n k j same)
      | inr other ↦ rw (idempotency_record-set table a b m n k j r) (rw other h)
    ]

module _ (s : State) (c : CommandStep) (a : Option String) (m : ℕ) (k : String)
    {r : IdempotencyRecord} (h : idempotency_record s.idempotency a m k ≡ some r) where
  first_execution_keeps :
      (v : ValidCommand) (result : Option CommandResult)
      → idempotency_record s.idempotency v.connection.aigent_id v.connection.protocol_major
          v.idempotency_key
        ≡ none
      → idempotency_record (first_execution s c v result).0.idempotency a m k ≡ some r
  unfolding first_execution record_sequence
  first_execution_keeps v none fresh = h
  first_execution_keeps v (some result) fresh = ground (
    arith,
    set-keeps s.idempotency v.connection.aigent_id a v.connection.protocol_major m v.idempotency_key
        k (record { content_digest = c.content_digest; result = result }) fresh h,
  )

  execute_once_keeps :
      (v : ValidCommand) (prior : Option IdempotencyRecord)
      → idempotency_record s.idempotency v.connection.aigent_id v.connection.protocol_major
          v.idempotency_key
        ≡ prior
      → idempotency_record (execute_once s c v prior).0.idempotency a m k ≡ some r
  unfolding execute_once record_exact_rejection record_sequence
  execute_once_keeps v none found = first_execution_keeps v c.result found
  execute_once_keeps v (some p) found = ground arith

  dispatch_command_keeps :
      (v : ValidCommand) → idempotency_record (dispatch_command s c v).0.idempotency a m k ≡ some r
  unfolding dispatch_command replay_sequence record_exact_rejection record_sequence
  dispatch_command_keeps v = ground (arith, execute_once_keeps v _ refl)

  -- A command leaves every idempotency record that is there as it is.
  pub command_keeps_idempotency : idempotency_record (command s c).0.idempotency a m k ≡ some r
  unfolding command
  command_keeps_idempotency = elim (Option-cases (valid_command s.connection c)) [
    | inl bad ↦ rw (bad, checked_command) h
    | inr (v, good) ↦ rw (good, checked_command) (dispatch_command_keeps v)
  ]
