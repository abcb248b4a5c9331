-- ===== src/Handshake/Limits/Evict.antt =====
-- `evictOldest` of internal/protocol/handshake.go removes a least recently used bucket.
use quantumcat.Base.{
  ℕ, ◌+◌, ◌≤◌, ◌≡◌, ◌≢◌, refl, Bytes, bytes_eq_self, sym, subst, replicate, true, ◌==◌, ◌||◌, ltb,
  [], ◌∷◌, length, All, arith, Bool-cases, ◌⊎◌, inl, inr,
}
use quantumcat.Base.Assoc.{member, erase, length-erase-member, bytes_key}
use quantumcat.Handshake.Limits.{Bucket, Table, oldest_entry, evict_oldest}

abbrev pub IsStarted : Bytes × Bucket → Type 0
IsStarted (k, b) = b.start ≢ 0

-- `r` is no younger than any entry, nor than the one found before them.
abbrev Least : Table → ℕ → Bytes × ℕ → Type 0
Least table oldest r = All (λ e. r.1 ≤ e.1.start) table × ((oldest ≢ 0) → r.1 ≤ oldest)

oldest_entry_cases :
    (k key : Bytes) (b : Bucket) (rest : Table) (oldest : ℕ)
    → ((oldest_entry ((k, b) ∷ rest) key oldest ≡ oldest_entry rest k b.start)
        × ((oldest ≢ 0) → b.start ≤ oldest))
      ⊎ ((oldest_entry ((k, b) ∷ rest) key oldest ≡ oldest_entry rest key oldest)
          × (oldest ≢ 0)
          × (oldest ≤ b.start))
unfolding oldest_entry
oldest_entry_cases k key b rest oldest = elim (Bool-cases (oldest == 0 || ltb b.start oldest)) [
  | inl e ↦ inl (rw e, λ n. ground arith)
  | inr e ↦ inr (rw e, ground arith, ground arith)
]

oldest_entry-Least :
    (table : Table) (key : Bytes) (oldest : ℕ)
    → All IsStarted table
    → Least table oldest (oldest_entry table key oldest)
oldest_entry-Least [] key oldest h = (tt, λ _. unfold oldest_entry in omega arith)
oldest_entry-Least ((k, b) ∷ rest) key oldest h = elim (oldest_entry_cases k key b rest oldest) [
  | inl (e, le) ↦
      let ih = oldest_entry-Least rest k b.start h.1 in
      subst (Least ((k, b) ∷ rest) oldest) (sym e)
        ((ih.1 h.0, ih.0), λ n. omega (arith, ih.1 h.0, le n))
  | inr (e, n, le) ↦
      let ih = oldest_entry-Least rest key oldest h.1 in
      subst (Least ((k, b) ∷ rest) oldest) (sym e) ((omega (arith, ih.1 n), ih.0), λ m. ih.1 m)
]

oldest_entry_nonzero :
    (table : Table) (key : Bytes) (oldest : ℕ)
    → All IsStarted table
    → ((oldest ≢ 0) ⊎ (table ≢ []))
    → (oldest_entry table key oldest).1 ≢ 0
unfolding oldest_entry
oldest_entry_nonzero [] key oldest h (inl n) = n
oldest_entry_nonzero [] key oldest h (inr n) = absurd (n refl)
oldest_entry_nonzero ((k, b) ∷ rest) key oldest h n =
    ground
      (arith, oldest_entry_nonzero rest k b.start h.1, oldest_entry_nonzero rest key oldest h.1)

-- The table has an entry of this key and start.
abbrev pub HasEntry : Table → Bytes → ℕ → Type 0
HasEntry [] key oldest = ⊥
HasEntry ((k, b) ∷ rest) key oldest = ((k ≡ key) × (b.start ≡ oldest)) ⊎ HasEntry rest key oldest

oldest_entry_from :
    (table : Table) (key : Bytes) (oldest : ℕ)
    → let (k, o) = oldest_entry table key oldest in ((k ≡ key) × (o ≡ oldest)) ⊎ HasEntry table k o
unfolding oldest_entry
oldest_entry_from [] key oldest = inl (refl, refl)
oldest_entry_from ((k, b) ∷ rest) key oldest =
    elim (Bool-cases (oldest == 0 || ltb b.start oldest)) [
      | inl e ↦ rw e (elim (oldest_entry_from rest k b.start) [
        | inl (p, q) ↦ inr (inl (sym p, sym q))
        | inr m ↦ inr (inr m)
      ])
      | inr e ↦ rw e (elim (oldest_entry_from rest key oldest) [
        | inl (p, q) ↦ inl (p, q)
        | inr m ↦ inr (inr m)
      ])
    ]

HasEntry-member :
    (table : Table) (key : Bytes) (oldest : ℕ) → HasEntry table key oldest → member key table ≡ true
unfolding member
HasEntry-member [] key oldest h = absurd h
HasEntry-member ((k, b) ∷ rest) key oldest (inl (p, q)) = rw (p, bytes_eq_self key)
HasEntry-member ((k, b) ∷ rest) key oldest (inr m) =
    ground (arith, HasEntry-member rest key oldest m)

-- What eviction does to a table of running buckets that is not empty.
pub record Evicts (table : Table) : Type 0 where
  pub key : Bytes
  pub oldest : ℕ
  pub present : HasEntry table key oldest
  pub least : All (λ e. oldest ≤ e.1.start) table
  pub erased : evict_oldest table ≡ erase key table

-- One entry goes, and it is one that no other entry of the table is older than.
pub evict_oldest-Evicts : (table : Table) → All IsStarted table → table ≢ [] → Evicts table
evict_oldest-Evicts table h n = record {
  key = found.0;
  oldest = found.1;
  present = elim (oldest_entry_from table (replicate 32 0) 0) [
    | inl (p, q) ↦ absurd (nonzero q)
    | inr m ↦ m
  ];
  least = (oldest_entry-Least table (replicate 32 0) 0 h).0;
  erased = unfold evict_oldest in ground (arith, nonzero);
}
  where
    found : Bytes × ℕ
    found = oldest_entry table (replicate 32 0) 0

    nonzero : found.1 ≢ 0
    nonzero = oldest_entry_nonzero table (replicate 32 0) 0 h (inr n)

pub length-evict_oldest :
    (table : Table)
    → All IsStarted table
    → table ≢ []
    → length (evict_oldest table) + 1 ≤ length table
length-evict_oldest table h n =
    let e = evict_oldest-Evicts table h n in
    rw e.erased (length-erase-member e.key table (HasEntry-member table e.key e.oldest e.present))
