-- ===== src/LogStream/Positions.antt =====
-- Positions of crates/logstream/src/memory.rs: one entry for every position from 1 to the tail.
use spica.Base.{
  ℕ, zero, suc, ◌+◌, ◌^◌, ◌<◌, ◌≡◌, refl, ap, ◌∙◌, some, List, [], ◌∷◌, ◌++◌, arith, length,
  get_elem?, drop, length-append, ℤ, pos, negsuc, succ_i64, succ_i64-pos,
}
use spica.LogStream.{Entry, LogStream, stamp, advance, append, read}

-- The entries' positions count up from `n`.
abbrev pub Numbered : {P : Type 0} → ℕ → List (Entry P) → Type 0
Numbered n [] = Unit
Numbered n (e ∷ es) = (e.entry_id ≡ pos n) × Numbered (n + 1) es

-- The log's own invariant: positions 1, 2, 3, … with no gap, and the counter one past the last.
abbrev pub IsContiguous : {P : Type 0} → LogStream P → Type 0
IsContiguous l = Numbered 1 l.entries × (l.next_entry_id ≡ pos (1 + length l.entries))

module _ {P : Type 0} where
  pub Numbered-at : {n m : ℕ} → n ≡ m → (es : List (Entry P)) → Numbered n es → Numbered m es
  Numbered-at e es h = rw (← e) h

  stamp-Numbered :
      (n : ℕ) (es : List (Entry P)) → n + length es < 2 ^ 63 → Numbered n (stamp (pos n) es)
  unfolding stamp
  stamp-Numbered n [] h = tt
  stamp-Numbered n (e ∷ es) h =
      (refl, rw (succ_i64-pos n (omega (arith, h))) (stamp-Numbered (n + 1) es (omega (arith, h))))

  pub Numbered-append :
      (n : ℕ) (xs ys : List (Entry P))
      → Numbered n xs
      → Numbered (n + length xs) ys
      → Numbered n (xs ++ ys)
  Numbered-append n [] ys h k = Numbered-at (omega arith) ys k
  Numbered-append n (x ∷ xs) ys (p, h) k =
      (p, Numbered-append (n + 1) xs ys h (Numbered-at (omega arith) ys k))

  pub Numbered-drop : (n m : ℕ) (es : List (Entry P)) → Numbered n es → Numbered (n + m) (drop m es)
  Numbered-drop n zero es h = Numbered-at (omega arith) es h
  Numbered-drop n (suc m) [] h = tt
  Numbered-drop n (suc m) (e ∷ es) (p, h) =
      Numbered-at (omega arith) (drop m es) (Numbered-drop (n + 1) m es h)

  advance-length :
      (n : ℕ) (es : List (Entry P))
      → n + length es < 2 ^ 63
      → advance (pos n) es ≡ pos (n + length es)
  unfolding advance
  advance-length n [] h = ap pos (omega arith)
  advance-length n (e ∷ es) h =
      ap (λ k. advance k es) (succ_i64-pos n (omega (arith, h)))
      ∙ advance-length (n + 1) es (omega (arith, h))
      ∙ ap pos (omega arith)

  length-stamp : (id : ℤ) (es : List (Entry P)) → length (stamp id es) ≡ length es
  unfolding stamp
  length-stamp id [] = refl
  length-stamp id (e ∷ es) = omega (arith, length-stamp (succ_i64 id) es)

  get_elem?-Numbered :
      (n i : ℕ) (es : List (Entry P)) (e : Entry P)
      → Numbered n es
      → get_elem? es i ≡ some e
      → e.entry_id ≡ pos (n + i)
  get_elem?-Numbered n i [] e h g = ground arith
  get_elem?-Numbered n zero (x ∷ es) e (p, h) g = grind arith
  get_elem?-Numbered n (suc i) (x ∷ es) e (p, h) g =
      get_elem?-Numbered (n + 1) i es e h g ∙ ap pos (omega arith)

  -- Appending a batch to a log without gaps, while the positions fit an `i64`, leaves a log without
  -- gaps whose counter is one past the last entry, and reports the position of the last entry.
  pub append-IsContiguous :
      (batch : List (Entry P)) (l : LogStream P)
      → IsContiguous l
      → 1 + length l.entries + length batch < 2 ^ 63
      → IsContiguous (append batch l).1
        × ((append batch l).0 ≡ pos (length (append batch l).1.entries))
  unfolding append
  append-IsContiguous batch l (h, k) fits =
      let q : advance l.next_entry_id batch ≡ pos (suc (length l.entries + length batch)) =
        ap (λ n. advance n batch) k
        ∙ advance-length (1 + length l.entries) batch fits
        ∙ ap pos (omega arith) in
      let r : length (l.entries ++ stamp l.next_entry_id batch) ≡ length l.entries + length batch =
        omega (
          arith,
          length-append l.entries (stamp l.next_entry_id batch),
          length-stamp l.next_entry_id batch,
        ) in
      let t : Numbered (1 + length l.entries) (stamp l.next_entry_id batch) =
        rw k (stamp-Numbered (1 + length l.entries) batch fits) in
      (
        (
          Numbered-append 1 l.entries (stamp l.next_entry_id batch) h t,
          rw (q, r) (ap pos (omega arith)),
        ),
        rw (q, r) refl,
      )

  -- In a log without gaps, an entry that is read at a position carries that position.
  pub read-entry_id :
      (l : LogStream P) (id : ℤ) (e : Entry P)
      → IsContiguous l
      → read id l ≡ some e
      → e.entry_id ≡ id
  unfolding read
  read-entry_id l (pos zero) e h g = ground arith
  read-entry_id l (pos (suc i)) e (h, k) g =
      get_elem?-Numbered 1 i l.entries e h g ∙ ap pos (omega arith)
  read-entry_id l (negsuc n) e h g = ground arith
