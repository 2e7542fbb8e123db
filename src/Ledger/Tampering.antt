-- ===== src/Ledger/Tampering.antt =====
-- What `verifyChain` detects: two chains of a batch that both verify and end in the same block hash were
-- made from the same blocks. The payload itself is in no block, only its hash.
use coffee_traceability_back.Prelude.{
  ℕ, ◌≡◌, ◌≢◌, ◌==◌, refl, sym, ap, ◌∙◌, subst, Bool, false, Option, none, some, List, [], ◌∷◌,
  ◌++◌, map, any, update_where, Bool-cases, inl, inr, ◌⊎◌, arith, or_else,
}
use coffee_traceability_back.Schema.{Text, LedgerEvent, Payload}
use coffee_traceability_back.Texts.{
  codes, join, same_text, same_text_option, eq_of_same_text, eq_of_same_text_option,
}
use coffee_traceability_back.World.{Env}
use coffee_traceability_back.Ledger.{
  last_hash, events_of, block_input, compute_block_hash, intact, check_from, verify_chain,
}
use coffee_traceability_back.Ledger.Chain.{IsBlock}
use coffee_traceability_back.Ledger.Rewriting.{KeepsBlock, verify_chain-rewrite}

abbrev pub has_bar : Text → Bool
has_bar t = any (λ c. c == b'|') t

-- What is relied on of SHA-256: no collision, and a digest that has no bar and is not the word that
-- stands for a missing predecessor.
pub record IsDigest (sha256 : Text → Text) : Type 0 where
  pub injective : (s t : Text) → sha256 s ≡ sha256 t → s ≡ t
  pub plain : (t : Text) → has_bar (sha256 t) ≡ false
  pub not_genesis : (t : Text) → sha256 t ≢ codes "genesis"

-- The text up to the first bar.
before_bar :
    (s t u v : Text) → has_bar s ≡ false → has_bar t ≡ false → s ++ b'|' ∷ u ≡ t ++ b'|' ∷ v → s ≡ t
before_bar [] [] u v p q e = refl
before_bar [] (b ∷ t) u v p q e = absurd (ground (arith, e, q))
before_bar (a ∷ s) [] u v p q e = absurd (ground (arith, e, p))
before_bar (a ∷ s) (b ∷ t) u v p q e =
    let heads : a ≡ b = (cc e) in
    let tails : s ++ b'|' ∷ u ≡ t ++ b'|' ∷ v = (cc e) in
    rw heads (ap (λ x. b ∷ x) (before_bar s t u v (ground (arith, p)) (ground (arith, q)) tails))

-- The elements of a list, turned round, in front of those that are done.
abbrev onto {ℓ} : {A : Type ℓ} → List A → List A → List A
onto [] done = done
onto (x ∷ xs) done = onto xs (x ∷ done)

map-onto {ℓ κ} :
    {A : Type ℓ} {B : Type κ} (f : A → B) (xs done : List A)
    → map f (onto xs done) ≡ onto (map f xs) (map f done)
map-onto f [] done = refl
map-onto f (x ∷ xs) done = map-onto f xs (x ∷ done)

onto-onto {ℓ} : {A : Type ℓ} (xs done : List A) → onto (onto xs done) [] ≡ onto done xs
onto-onto [] done = refl
onto-onto (x ∷ xs) done = onto-onto xs (x ∷ done)

module _ (env : Env) (batch_id : ℕ) where
  -- The text that an event's block hash is to be the hash of.
  abbrev pub contents : LedgerEvent → Text
  contents e = block_input env e.previous_hash e.payload_hash e.event_type batch_id e.submitted_at

  -- A chain, newest block first, that ends in the hash.
  abbrev Links : Option Text → List LedgerEvent → Type 0
  Links h [] = h ≡ none
  Links h (e ∷ es) = (h ≡ some e.block_hash) × IsBlock env batch_id e × Links e.previous_hash es

  -- A chain that verifies, read from its end.
  Links-onto :
      (h : Option Text) (es done : List LedgerEvent)
      → check_from env batch_id h es ≡ intact
      → Links h done
      → Links (last_hash h es) (onto es done)
  unfolding check_from
  Links-onto h [] done ok links = links
  Links-onto h (e ∷ es) done ok links = elim (Bool-cases (same_text_option e.previous_hash h)) [
    | inr other ↦ absurd (cc (rw other at ok))
    | inl same ↦
        (elim (Bool-cases (
          same_text
            (compute_block_hash env e.previous_hash e.payload_hash e.event_type batch_id
              e.submitted_at)
            e.block_hash)) [
              | inr forged ↦ absurd (cc (rw (same, forged) at ok))
              | inl genuine ↦
                  Links-onto (some e.block_hash) es (e ∷ done) (rw (same, genuine) at ok) (
                    refl,
                    eq_of_same_text _ _ genuine,
                    subst (λ k. Links k done) (sym (eq_of_same_text_option e.previous_hash h same))
                        links,
                  )
            ])
  ]

  digest_of :
      (h : Option Text) (es : List LedgerEvent)
      → Links h es
      → (h ≡ none) ⊎ ((t : Text) × (h ≡ some (env.sha256 t)))
  unfolding compute_block_hash
  digest_of h [] links = inl links
  digest_of h (e ∷ es) links = inr (contents e, links.0 ∙ ap some (sym links.1))

  module _ (digest : IsDigest env.sha256) where
    -- A predecessor is known from the text that stands for it.
    plain_predecessor :
        (h : Option Text) (es : List LedgerEvent)
        → Links h es
        → has_bar (or_else h (codes "genesis")) ≡ false
    plain_predecessor h es links = elim (digest_of h es links) [
      | inl missing ↦ rw missing refl
      | inr (t, known) ↦ rw known (digest.plain t)
    ]

    same_predecessor :
        (h h' : Option Text) (es es' : List LedgerEvent)
        → Links h es
        → Links h' es'
        → or_else h (codes "genesis") ≡ or_else h' (codes "genesis")
        → h ≡ h'
    same_predecessor h h' es es' links links' same = elim (digest_of h es links) [
      | inl missing ↦ elim (digest_of h' es' links') [
        | inl missing' ↦ missing ∙ sym missing'
        | inr (t, known) ↦ absurd (digest.not_genesis t (sym (rw (missing, known) at same)))
      ]
      | inr (t, known) ↦ elim (digest_of h' es' links') [
        | inl missing' ↦ absurd (digest.not_genesis t (rw (known, missing') at same))
        | inr (t', known') ↦ known ∙ ap some (rw (known, known') at same) ∙ sym known'
      ]
    ]

    previous-contents :
        (e e' : LedgerEvent) (es es' : List LedgerEvent)
        → Links e.previous_hash es
        → Links e'.previous_hash es'
        → contents e ≡ contents e'
        → e.previous_hash ≡ e'.previous_hash
    unfolding block_input join
    previous-contents e e' es es' links links' same =
        same_predecessor e.previous_hash e'.previous_hash es es' links links' (
          before_bar _ _ _ _ (plain_predecessor e.previous_hash es links)
            (plain_predecessor e'.previous_hash es' links') same)

    contents-Links :
        (h : Option Text) (es es' : List LedgerEvent)
        → Links h es
        → Links h es'
        → map contents es ≡ map contents es'
    unfolding compute_block_hash
    contents-Links h [] [] links links' = refl
    contents-Links h [] (e' ∷ es') links links' = absurd (cc (sym links ∙ links'.0))
    contents-Links h (e ∷ es) [] links links' = absurd (cc (sym links.0 ∙ links'))
    contents-Links h (e ∷ es) (e' ∷ es') links links' =
        let hashes : e.block_hash ≡ e'.block_hash = (cc (sym links.0 ∙ links'.0)) in
        let same : contents e ≡ contents e' =
          digest.injective _ _ (links.1 ∙ hashes ∙ sym links'.1) in
        let before : e'.previous_hash ≡ e.previous_hash =
          sym (previous-contents e e' es es' links.2 links'.2 same) in
        let rest : map contents es ≡ map contents es' =
          contents-Links e.previous_hash es es' links.2
            (subst (λ k. Links k es') before links'.2) in
        cc (same, rest)

    -- Two tables in which the batch's chain verifies, and ends in the same block hash, hold the same
    -- blocks of the batch, in the same order: the texts that were hashed, of the predecessor's hash, the
    -- payload's hash, the kind of the event, the batch and the time, are the same. This is on the
    -- condition that SHA-256 has no collision, and that no digest has a bar or is the word genesis.
    pub contents-verify_chain :
        (rows rows' : List LedgerEvent)
        → verify_chain env batch_id rows ≡ intact
        → verify_chain env batch_id rows' ≡ intact
        → last_hash none (events_of env.tie_of_all batch_id rows)
          ≡ last_hash none (events_of env.tie_of_all batch_id rows')
        → map contents (events_of env.tie_of_all batch_id rows)
          ≡ map contents (events_of env.tie_of_all batch_id rows')
    unfolding verify_chain
    contents-verify_chain rows rows' ok ok' ends =
        let es = events_of env.tie_of_all batch_id rows in
        let es' = events_of env.tie_of_all batch_id rows' in
        let turned : onto (map contents es) [] ≡ onto (map contents es') [] =
          sym (map-onto contents es [])
          ∙ contents-Links (last_hash none es) (onto es []) (onto es' [])
              (Links-onto none es [] ok refl)
              (subst (λ k. Links k (onto es' [])) (sym ends) (Links-onto none es' [] ok' refl))
          ∙ map-onto contents es' [] in
        sym (onto-onto (map contents es) [])
        ∙ ap (λ ts. onto ts []) turned
        ∙ onto-onto (map contents es') []

forged-KeepsBlock :
    (payload : LedgerEvent → Payload) → KeepsBlock (λ e. record e { payload = payload e })
forged-KeepsBlock payload = record {
  number = λ e. refl;
  batch = λ e. refl;
  time = λ e. refl;
  kind = λ e. refl;
  previous = λ e. refl;
  payload = λ e. refl;
  hash = λ e. refl;
}

-- Whatever payloads are written over, in whatever rows, the verdict on a chain stays what it was: the
-- check compares no payload with its hash.
pub verify_chain-payload :
    (env : Env) (k : ℕ) (hit : LedgerEvent → Bool) (payload : LedgerEvent → Payload)
    (rows : List LedgerEvent)
    → verify_chain env k (update_where hit (λ e. record e { payload = payload e }) rows)
      ≡ verify_chain env k rows
verify_chain-payload env k hit payload rows =
    verify_chain-rewrite hit _ (forged-KeepsBlock payload) env k rows
