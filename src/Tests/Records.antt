-- ===== src/Tests/Records.antt =====
-- The theorems on the ledger and the inbox at concrete tables.
use coffee_traceability_back.Prelude.{
  ℕ, ◌+◌, ◌≡◌, ◌≢◌, refl, true, false, none, Bool, [], ◌∷◌, map, update_where, arith,
}
use coffee_traceability_back.Schema.{
  Text, LedgerEvent, LedgerStatus, batch_created, processing_completed, Payload, Notification,
  account_status, suspended,
}
use coffee_traceability_back.Texts.{codes, join}
use coffee_traceability_back.World.{Env, World}
use coffee_traceability_back.Ledger.{
  record_event, events_of, verify_chain, compute_block_hash, block_input, check_from,
}
use coffee_traceability_back.Ledger.Settling.{IsIntact, record_event-IsIntact}
use coffee_traceability_back.Ledger.Tampering.{
  IsDigest, contents, contents-verify_chain, verify_chain-payload, has_bar,
}
use coffee_traceability_back.Notifications.Privacy.{
  list, count, read_all, read, remove, answer_inbox, inbox_of, answer_inbox-Theirs,
}
use coffee_traceability_back.Samples.{env, admin, stocked}

-- A digest without collisions: every code point is moved out of the range of the others.
abbrev shifted : Text → Text
shifted t = map (λ c. c + 1_000) t

shifted-injective : (s t : Text) → shifted s ≡ shifted t → s ≡ t
shifted-injective [] [] e = refl
shifted-injective [] (b ∷ t) e = absurd (cc e)
shifted-injective (a ∷ s) [] e = absurd (cc e)
shifted-injective (a ∷ s) (b ∷ t) e =
    let heads : a + 1_000 ≡ b + 1_000 = (cc e) in
    let tails : shifted s ≡ shifted t = (cc e) in
    let same : a ≡ b = omega arith in
    let rest : s ≡ t = shifted-injective s t tails in cc (same, rest)

shifted-plain : (t : Text) → has_bar (shifted t) ≡ false
shifted-plain [] = refl
shifted-plain (c ∷ t) = ground (arith, shifted-plain t)

shifted-not_genesis : (t : Text) → shifted t ≢ codes "genesis"
shifted-not_genesis [] e = absurd (cc e)
shifted-not_genesis (c ∷ t) e = let heads : c + 1_000 ≡ b'g' = (cc e) in absurd (omega arith)

shifted-IsDigest : IsDigest shifted
shifted-IsDigest = record {
  injective = shifted-injective;
  plain = shifted-plain;
  not_genesis = shifted-not_genesis;
}

abbrev hashing : Env
hashing = record env { sha256 = shifted }

abbrev block : ℕ → LedgerStatus → LedgerEvent
block id status = record {
  id = id;
  batch_id = 1;
  event_type = batch_created;
  tx_hash = none;
  payload_hash = codes "p";
  previous_hash = none;
  block_hash = compute_block_hash hashing none (codes "p") batch_created 1 40;
  payload = Payload.stored 4 500;
  status = status;
  submitted_at = 40;
  confirmed_at = none;
}

-- A second block behind that of the creation.
abbrev created_once : World
created_once = record stocked {
  db = record stocked.db { ledger = block 9 LedgerStatus.pending ∷ [] };
}

record_event-IsIntact_example :
    IsIntact hashing 1
      (record_event hashing 1 processing_completed (Payload.stored 4 900) created_once).1.db
unfolding verify_chain check_from events_of compute_block_hash block_input join
record_event-IsIntact_example =
    record_event-IsIntact hashing 1 1 processing_completed (Payload.stored 4 900) created_once
      ((omega arith, tt), (tt, tt)) refl

contents-verify_chain_example :
    map (contents hashing 1) (events_of hashing.tie_of_all 1 (block 9 LedgerStatus.pending ∷ []))
    ≡ map (contents hashing 1) (events_of hashing.tie_of_all 1 (block 8 LedgerStatus.failed ∷ []))
unfolding verify_chain check_from compute_block_hash events_of block_input join
contents-verify_chain_example =
    contents-verify_chain hashing 1 shifted-IsDigest (block 9 LedgerStatus.pending ∷ [])
      (block 8 LedgerStatus.failed ∷ []) refl refl refl

-- A payload of 500 is written over by one of 900.
verify_chain-payload_example :
    verify_chain hashing 1 (
      update_where
        (λ e. true)
        (λ e. record e { payload = Payload.stored 4 900 })
        (block 9 LedgerStatus.pending ∷ []))
    ≡ verify_chain hashing 1 (block 9 LedgerStatus.pending ∷ [])
verify_chain-payload_example =
    verify_chain-payload hashing 1 (λ e. true) (λ e. Payload.stored 4 900)
      (block 9 LedgerStatus.pending ∷ [])

abbrev letter : ℕ → ℕ → Bool → Notification
letter id user_id is_read = record {
  id = id;
  user_id = user_id;
  notice = account_status suspended;
  is_read = is_read;
  read_at = none;
  created_at = 60;
}

-- Notifications of the administrator, whose number is 9, and of another user.
abbrev written : World
written = record stocked {
  db = record stocked.db { inbox = letter 1 9 false ∷ letter 2 8 false ∷ letter 3 9 true ∷ [] };
}

answer_inbox-Theirs_example :
    inbox_of 8
      (answer_inbox env admin
        (read 2 ∷ remove 2 ∷ read_all ∷ list none 5 ∷ count ∷ [])
        written).db.inbox
    ≡ letter 2 8 false ∷ []
answer_inbox-Theirs_example =
    answer_inbox-Theirs env admin 9 8 (_, refl, refl) (λ e. absurd (omega arith))
      (read 2 ∷ remove 2 ∷ read_all ∷ list none 5 ∷ count ∷ []) written
