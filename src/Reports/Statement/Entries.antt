-- ===== src/Reports/Statement/Entries.antt =====
-- The map of the farmers' statement: after the loop each farmer with deliveries has one entry, whose
-- figures are those of the farmer's deliveries.
use coffee_traceability_back.Prelude.{
  ℕ, ◌+◌, ◌≡◌, ◌==◌, refl, Bool, true, false, List, [], ◌∷◌, sum_by, any, arith, not, ◌&&◌,
  Bool-cases, inl, inr, if◌then◌else◌, All,
}
use coffee_traceability_back.Schema.{Delivery, Farmer}
use coffee_traceability_back.Reports.Statement.{Entry, enter, by_farmer, fresh_entry, add_delivery}

abbrev pub has_entry : ℕ → List (ℕ × Entry) → Bool
has_entry id entries = any (λ p. p.0 == id) entries

has_entry-enter :
    (id : ℕ) (d : Delivery) (f : Farmer) (entries : List (ℕ × Entry))
    → has_entry id (enter d f entries) ≡ (if d.farmer_id == id then true else has_entry id entries)
has_entry-enter id d f [] = refl
has_entry-enter id d f (p ∷ entries) = ground (arith, has_entry-enter id d f entries)

-- The amounts of the farmer's deliveries.
abbrev pub tally : (Delivery → ℕ) → ℕ → List (Delivery × Farmer) → ℕ
tally amount id found = sum_by (λ p. if p.0.farmer_id == id then amount p.0 else 0) found

-- A figure of an entry that a delivery raises by its own amount, from nothing.
module _ (figure : Entry → ℕ) (amount : Delivery → ℕ)
    (none_yet : (f : Farmer) → figure (fresh_entry f) ≡ 0)
    (raised : (d : Delivery) (e : Entry) → figure (add_delivery d e) ≡ figure e + amount d) where
  -- The entries while `rest` is still to come of `found`: one for each farmer, and short of the farmer's
  -- tally by what is to come; a farmer without one has all of theirs to come.
  abbrev IsOpen : List (Delivery × Farmer) → List (Delivery × Farmer) → List (ℕ × Entry) → Type 0
  IsOpen found rest [] = Unit
  IsOpen found rest (p ∷ entries) =
      (figure p.1 + tally amount p.0 rest ≡ tally amount p.0 found)
      × (has_entry p.0 entries ≡ false)
      × IsOpen found rest entries

  IsOpen-skip :
      (found rest : List (Delivery × Farmer)) (d : Delivery) (f : Farmer)
      (entries : List (ℕ × Entry))
      → has_entry d.farmer_id entries ≡ false
      → IsOpen found ((d, f) ∷ rest) entries
      → IsOpen found rest entries
  IsOpen-skip found rest d f [] absent due = tt
  IsOpen-skip found rest d f (p ∷ entries) absent due = (
    ground (arith, due.0, absent),
    due.1,
    IsOpen-skip found rest d f entries (ground (arith, absent)) due.2,
  )

  enter-IsOpen :
      (found rest : List (Delivery × Farmer)) (d : Delivery) (f : Farmer)
      (entries : List (ℕ × Entry))
      → (has_entry d.farmer_id entries ≡ false
          → tally amount d.farmer_id ((d, f) ∷ rest) ≡ tally amount d.farmer_id found)
      → IsOpen found ((d, f) ∷ rest) entries
      → IsOpen found rest (enter d f entries)
  enter-IsOpen found rest d f [] absent due =
      (ground (arith, absent refl, raised d (fresh_entry f), none_yet f), refl, tt)
  enter-IsOpen found rest d f (p ∷ entries) absent due = elim (Bool-cases (p.0 == d.farmer_id)) [
    | inl same ↦ rw same (
      ground (arith, due.0, raised d p.1, same),
      due.1,
      IsOpen-skip found rest d f entries (ground (arith, same, due.1)) due.2,
    )
    | inr other ↦ rw other (
      ground (arith, due.0, other),
      ground (arith, has_entry-enter p.0 d f entries, other, due.1),
      enter-IsOpen found rest d f entries (λ no. absent (ground (arith, no, other))) due.2,
    )
  ]

  by_farmer-IsOpen :
      (found rest : List (Delivery × Farmer)) (entries : List (ℕ × Entry))
      → ((id : ℕ) → has_entry id entries ≡ false → tally amount id rest ≡ tally amount id found)
      → IsOpen found rest entries
      → IsOpen found [] (by_farmer rest entries)
  by_farmer-IsOpen found [] entries absent due = due
  by_farmer-IsOpen found ((d, f) ∷ rest) entries absent due =
      by_farmer-IsOpen found rest (enter d f entries)
        (λ id no. ground (arith, has_entry-enter id d f entries, no, absent id))
        (enter-IsOpen found rest d f entries (absent d.farmer_id) due)

  settled :
      (found : List (Delivery × Farmer)) (entries : List (ℕ × Entry))
      → IsOpen found [] entries
      → All (λ p. figure p.1 ≡ tally amount p.0 found) entries
  settled found [] due = tt
  settled found (p ∷ entries) due = (omega arith, settled found entries due.2)

  pub by_farmer-tally :
      (found : List (Delivery × Farmer))
      → All (λ p. figure p.1 ≡ tally amount p.0 found) (by_farmer found [])
  by_farmer-tally found =
      settled found (by_farmer found []) (by_farmer-IsOpen found found [] (λ id no. refl) tt)

-- The entries of one farmer: one if there are deliveries of theirs, else none.
abbrev pub entries_of : ℕ → List (ℕ × Entry) → ℕ
entries_of id entries = sum_by (λ p. if p.0 == id then 1 else 0) entries

entries_of-enter :
    (id : ℕ) (d : Delivery) (f : Farmer) (entries : List (ℕ × Entry))
    → entries_of id (enter d f entries)
      ≡ entries_of id entries + (if d.farmer_id == id && not (has_entry id entries) then 1 else 0)
entries_of-enter id d f [] = ground arith
entries_of-enter id d f (p ∷ entries) = ground (arith, entries_of-enter id d f entries)

pub entries_of-by_farmer :
    (id : ℕ) (found : List (Delivery × Farmer)) (entries : List (ℕ × Entry))
    → entries_of id (by_farmer found entries)
      ≡ entries_of id entries
        + (if not (has_entry id entries) && any (λ p. p.0.farmer_id == id) found then 1 else 0)
entries_of-by_farmer id [] entries = ground arith
entries_of-by_farmer id ((d, f) ∷ found) entries = ground (
  arith,
  entries_of-enter id d f entries,
  entries_of-by_farmer id found (enter d f entries),
  has_entry-enter id d f entries,
)
