-- ===== src/Ledger/Chain.antt =====
-- The chain of a batch with one more block: the order of its events, and their links.
use coffee_traceability_back.Prelude.{
  ℕ, ◌≡◌, ◌≢◌, ◌<◌, ◌∙◌, ap, ◌==◌, sym, refl, subst, true, false, Bool, Option, none, some, List,
  [], ◌∷◌, ◌++◌, All, select, Bool-cases, inl, inr, arith,
}
use coffee_traceability_back.Schema.{Text, LedgerEvent}
use coffee_traceability_back.Texts.{
  same_text, same_text_option, same_text_refl, same_text_option_refl,
}
use coffee_traceability_back.World.{Env}
use coffee_traceability_back.Ledger.{
  stands_before, insert_by_time, order_by_time, last_hash, events_of, compute_block_hash, intact,
  check_from, verify_chain,
}

abbrev pub of_batch : ℕ → LedgerEvent → Bool
of_batch batch_id e = e.batch_id == batch_id

-- The event is before the time.
abbrev pub IsBefore : ℕ → LedgerEvent → Type 0
IsBefore now e = e.submitted_at < now

abbrev IsOff : LedgerEvent → LedgerEvent → Type 0
IsOff x e = e.submitted_at ≢ x.submitted_at

-- No two of the events are of one time.
abbrev pub IsApart : List LedgerEvent → Type 0
IsApart [] = Unit
IsApart (x ∷ xs) = All (IsOff x) xs × IsApart xs

All-insert :
    (P : LedgerEvent → Type 0) (tie : ℕ → ℕ → Bool) (x : LedgerEvent) (ys : List LedgerEvent)
    → P x
    → All P ys
    → All P (insert_by_time tie x ys)
All-insert P tie x [] hx h = (hx, tt)
All-insert P tie x (y ∷ ys) hx h = elim (Bool-cases (stands_before tie y x)) [
  | inl e ↦ rw e (h.0, All-insert P tie x ys hx h.1)
  | inr e ↦ rw e (hx, h)
]

All-order :
    (P : LedgerEvent → Type 0) (tie : ℕ → ℕ → Bool) (xs : List LedgerEvent)
    → All P xs
    → All P (order_by_time tie xs)
All-order P tie [] h = tt
All-order P tie (x ∷ xs) h = All-insert P tie x (order_by_time tie xs) h.0 (All-order P tie xs h.1)

-- An event that is later than all others goes to the end.
insert-last :
    (tie : ℕ → ℕ → Bool) (x : LedgerEvent) (ys : List LedgerEvent)
    → All (IsBefore x.submitted_at) ys
    → insert_by_time tie x ys ≡ ys ++ x ∷ []
insert-last tie x [] h = refl
insert-last tie x (y ∷ ys) h = ground (arith, h.0, insert-last tie x ys h.1)

insert-tie :
    (tie tie' : ℕ → ℕ → Bool) (x : LedgerEvent) (ys : List LedgerEvent)
    → All (IsOff x) ys
    → insert_by_time tie x ys ≡ insert_by_time tie' x ys
insert-tie tie tie' x [] h = refl
insert-tie tie tie' x (y ∷ ys) h = ground (arith, h.0, insert-tie tie tie' x ys h.1)

-- Where no two events are of one time, every query has them in one order.
order-tie :
    (tie tie' : ℕ → ℕ → Bool) (xs : List LedgerEvent)
    → IsApart xs
    → order_by_time tie xs ≡ order_by_time tie' xs
order-tie tie tie' [] h = refl
order-tie tie tie' (x ∷ xs) h =
    ap (insert_by_time tie x) (order-tie tie tie' xs h.1)
    ∙ insert-tie tie tie' x (order_by_time tie' xs) (All-order (IsOff x) tie' xs h.0)

module _ (env : Env) (batch_id : ℕ) where
  abbrev pub IsBlock : LedgerEvent → Type 0
  IsBlock e =
      compute_block_hash env e.previous_hash e.payload_hash e.event_type batch_id e.submitted_at
      ≡ e.block_hash

  linked :
      (h : Option Text) (x : LedgerEvent)
      → x.previous_hash ≡ h
      → same_text_option x.previous_hash h ≡ true
  linked h x e = rw e (same_text_option_refl h)

  hashed :
      (x : LedgerEvent)
      → IsBlock x
      → same_text
          (compute_block_hash env x.previous_hash x.payload_hash x.event_type batch_id
            x.submitted_at)
          x.block_hash
        ≡ true
  hashed x e = rw e (same_text_refl x.block_hash)

  check_from-append :
      (h : Option Text) (es : List LedgerEvent) (x : LedgerEvent)
      → check_from env batch_id h es ≡ intact
      → x.previous_hash ≡ last_hash h es
      → IsBlock x
      → check_from env batch_id h (es ++ x ∷ []) ≡ intact
  unfolding check_from
  check_from-append h [] x before link block = rw (linked h x link, hashed x block) refl
  check_from-append h (e ∷ es) x before link block =
      elim (Bool-cases (same_text_option e.previous_hash h)) [
        | inr other ↦ absurd (cc (rw other at before))
        | inl same ↦
            (elim (Bool-cases (
              same_text
                (compute_block_hash env e.previous_hash e.payload_hash e.event_type batch_id
                  e.submitted_at)
                e.block_hash)) [
                  | inr forged ↦ absurd (cc (rw (same, forged) at before))
                  | inl genuine ↦
                      rw (same, genuine)
                        (check_from-append (some e.block_hash) es x (rw (same, genuine) at before)
                          link block)
                ])
      ]

  -- All events of the batch are before the time, and no two of them are of one time.
  abbrev pub Recorded : ℕ → List LedgerEvent → Type 0
  Recorded now rows =
      All (IsBefore now) (select (of_batch batch_id) rows)
      × IsApart (select (of_batch batch_id) rows)

  -- A genuine block behind the newest event of its batch.
  pub grown :
      (rows : List LedgerEvent) (x : LedgerEvent)
      → x.batch_id ≡ batch_id
      → x.previous_hash ≡ last_hash none (events_of env.tie_of_newest batch_id rows)
      → IsBlock x
      → Recorded x.submitted_at rows
      → verify_chain env batch_id rows ≡ intact
      → verify_chain env batch_id (x ∷ rows) ≡ intact
  unfolding verify_chain events_of
  grown rows x here link block (earlier, apart) before =
      let mine : of_batch batch_id x ≡ true = ground (arith, here) in
      let own = select (of_batch batch_id) rows in
      let ties = order-tie env.tie_of_newest env.tie_of_all own apart in
      rw mine (
        subst (λ es. check_from env batch_id none es ≡ intact)
          (sym (
            insert-last env.tie_of_all x (order_by_time env.tie_of_all own)
              (All-order (IsBefore x.submitted_at) env.tie_of_all own earlier)))
          (check_from-append none (order_by_time env.tie_of_all own) x before
            (link ∙ ap (last_hash none) ties) block))

  -- A block of another batch.
  pub beside :
      (rows : List LedgerEvent) (x : LedgerEvent)
      → of_batch batch_id x ≡ false
      → verify_chain env batch_id (x ∷ rows) ≡ verify_chain env batch_id rows
  unfolding verify_chain events_of
  beside rows x other = rw other refl
