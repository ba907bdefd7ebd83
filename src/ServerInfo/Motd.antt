-- ===== src/ServerInfo/Motd.antt =====
-- Reading the message of the day.
use ya_ircd.Prelude.{
  ℕ, zero, suc, ◌+◌, ◌*◌, ◌≤◌, ◌<◌, ◌≡◌, refl, sym, subst, ap, ◌∙◌, inl, inr, arith, true, false,
  List, [], ◌∷◌, ◌++◌, map, Option, some, ltb, leb, length, length-append, append_assoc, append-nil,
  Bool-cases, none,
}
use ya_ircd.Memory.{Heap, malloc, malloc_lem, free, Grants, Grants-malloc, Grants-pred}
use ya_ircd.ServerInfo.{
  fgets, trimmed, drop_end, drop_last, read_entries, read_motd_file, max_motd_line_length,
}
use ya_ircd.ServerInfo.Chunks.{chunks, length-fgets, file_lines, AreShort, chunks-file_lines}

-- The loop ends inside the array, with the first of the entries that it was to write, and a block
-- for each.
pub record Entered (n : ℕ) (file : List ℕ) (motd : List (List ℕ)) (h : Heap)
    (out : Option (List (List ℕ) × Heap)) : Type 0 where
  pub entries : List (List ℕ)
  pub missing : List (List ℕ)
  pub heap : Heap
  pub done : out ≡ some (entries, heap)
  pub first : motd ++ chunks n file ≡ entries ++ missing
  pub blocks : heap.allocs + h.frees + length motd ≡ h.allocs + heap.frees + length entries

drop_last_lem :
    (l : List ℕ) (ls : List (List ℕ))
    → ((x : List ℕ) × (l ∷ ls ≡ drop_last (l ∷ ls) ++ (x ∷ [])))
      × (length (drop_last (l ∷ ls)) ≡ length ls)
unfolding drop_last
drop_last_lem l [] = ((l, refl), refl)
drop_last_lem l (m ∷ ls) =
    let ((x, e), size) = drop_last_lem m ls in ((x, ap (λ t. l ∷ t) e), ap suc size)

dropped :
    (motd more : List (List ℕ))
    → 0 < length motd
    → ((missing : List (List ℕ)) × (motd ++ more ≡ drop_last motd ++ missing))
      × (length (drop_last motd) + 1 ≡ length motd)
dropped [] more h = absurd (omega arith)
dropped (l ∷ ls) more h =
    let ((x, e), size) = drop_last_lem l ls in
    (
      (x ∷ more, ap (λ t. t ++ more) e ∙ append_assoc (drop_last (l ∷ ls)) (x ∷ []) more),
      omega (arith, size),
    )

-- Where the loop stands, `m` entries in an array of `p` places.
record Room (m p : ℕ) : Type 0 where
  inside : ltb m p ≡ true
  inside_twice : ltb m (2 * p) ≡ true
  after_twice : m + 1 < 2 * p
  twice : 2 ≤ 2 * p

room_lem : (m p : ℕ) → m < p → 2 ≤ p → Room m p
room_lem m p room two = record {
  inside = ground (arith, room);
  inside_twice = ground (arith, room);
  after_twice = omega (arith, room, two);
  twice = omega (arith, two);
}

room_after : (m p : ℕ) → leb p (m + 1) ≡ false → m + 1 < p
room_after m p spare = ground (arith, spare)

some_entry : (m p : ℕ) → leb p (m + 1) ≡ true → 2 ≤ p → 0 < m
some_entry m p full two = ground (arith, full, two)

shorter_by : (a b n : ℕ) → a ≤ b → suc b < suc n → a < n
shorter_by a b n h k = omega (arith, h, k)

-- The rest of a file behind one buffer, and the entries with the one that is read.
abbrev rest_of : ℕ → List ℕ → List ℕ
rest_of c file = (fgets max_motd_line_length (c ∷ file)).1

abbrev entry_of : ℕ → List ℕ → List ℕ
entry_of c file = trimmed (fgets max_motd_line_length (c ∷ file)).0

abbrev longer : ℕ → List ℕ → List (List ℕ) → List (List ℕ)
longer c file motd = motd ++ (entry_of c file ∷ [])

longer_in :
    (c : ℕ) (file : List ℕ) (motd : List (List ℕ)) (places : ℕ)
    → length motd + 1 < places
    → length (longer c file motd) < places
longer_in c file motd places room = omega (arith, length-append motd (entry_of c file ∷ []), room)

module _ (n c : ℕ) (file : List ℕ) (motd : List (List ℕ)) (h : Heap)
    (out : Option (List (List ℕ) × Heap)) where
  -- One more entry is written.
  next_Entered :
      (h2 : Heap) (out' : Option (List (List ℕ) × Heap))
      → (malloc h2).0 ≡ true
      → h2.allocs + h.frees ≡ h.allocs + h2.frees
      → out ≡ out'
      → Entered n (rest_of c file) (longer c file motd) (malloc h2).1 out'
      → Entered (suc n) (c ∷ file) motd h out
  next_Entered h2 out' got even e ih = record {
    entries = ih.entries;
    missing = ih.missing;
    heap = ih.heap;
    done = e ∙ ih.done;
    first = sym (append_assoc motd (entry_of c file ∷ []) (chunks n (rest_of c file))) ∙ ih.first;
    blocks =
        ground
          (arith, ih.blocks, malloc_lem h2, got, even, length-append motd (entry_of c file ∷ []));
  }

  -- There is no memory for an entry.
  stopped_Entered :
      (h2 : Heap)
      → (malloc h2).0 ≡ false
      → h2.allocs + h.frees ≡ h.allocs + h2.frees
      → out ≡ some (motd, (malloc h2).1)
      → Entered (suc n) (c ∷ file) motd h out
  stopped_Entered h2 failed even e = record {
    entries = motd;
    missing = chunks (suc n) (c ∷ file);
    heap = (malloc h2).1;
    done = e;
    first = refl;
    blocks = ground (arith, malloc_lem h2, failed, even);
  }

  -- There is no memory for a larger array.
  dropped_Entered :
      0 < length motd
      → (malloc h).0 ≡ false
      → out ≡ some (drop_last motd, free (malloc h).1)
      → Entered (suc n) (c ∷ file) motd h out
  dropped_Entered some_there failed e =
      let ((missing, first), size) = dropped motd (chunks (suc n) (c ∷ file)) some_there in
      record {
        entries = drop_last motd;
        missing = missing;
        heap = free (malloc h).1;
        done = e;
        first = first;
        blocks = ground (arith, malloc_lem h, failed, size);
      }

moved_blocks :
    (h : Heap)
    → (malloc h).0 ≡ true
    → let h2 = free (malloc h).1 in h2.allocs + h.frees ≡ h.allocs + h2.frees
moved_blocks h got = ground (arith, malloc_lem h, got)

pub read_entries-Entered :
    (n : ℕ) (file : List ℕ) (motd : List (List ℕ)) (places : ℕ) (h : Heap)
    → length file < n
    → length motd < places
    → 2 ≤ places
    → Entered n file motd h (read_entries n file motd places h)
unfolding read_entries
read_entries-Entered zero file motd places h short room two = absurd (omega arith)
read_entries-Entered (suc n) [] motd places h short room two = record {
  entries = motd;
  missing = [];
  heap = h;
  done = rw (read_entries, (room_lem (length motd) places room two).inside) refl;
  first = refl;
  blocks = refl;
}
read_entries-Entered (suc n) (c ∷ file) motd places h short room two =
    let rest = rest_of c file in
    let more = longer c file motd in
    let r = room_lem (length motd) places room two in
    let out = read_entries (suc n) (c ∷ file) motd places h in
    let shorter = shorter_by (length rest) (length file) n (length-fgets 79 c file) short in
    let h2 = free (malloc h).1 in
    elim (Bool-cases (leb places (length motd + 1))) [
      | inr spare ↦ elim (Bool-cases (malloc h).0) [
        | inl got ↦
            next_Entered n c file motd h out h (read_entries n rest more places (malloc h).1) got
              refl (rw (read_entries, spare, r.inside, got) refl)
              (read_entries-Entered n rest more places (malloc h).1 shorter
                (longer_in c file motd places (room_after (length motd) places spare)) two)
        | inr failed ↦
            stopped_Entered n c file motd h out h failed refl
              (rw (read_entries, spare, r.inside, failed) refl)
      ]
      | inl full ↦ elim (Bool-cases (malloc h).0) [
        | inr failed ↦
            dropped_Entered n c file motd h out (some_entry (length motd) places full two) failed
              (rw (read_entries, full, failed) refl)
        | inl moved ↦ elim (Bool-cases (malloc h2).0) [
          | inl got ↦
              next_Entered n c file motd h out h2
                (read_entries n rest more (2 * places) (malloc h2).1) got (moved_blocks h moved)
                (rw (read_entries, full, moved, r.inside_twice, got) refl)
                (read_entries-Entered n rest more (2 * places) (malloc h2).1 shorter
                  (longer_in c file motd (2 * places) r.after_twice) r.twice)
          | inr failed ↦
              stopped_Entered n c file motd h out h2 failed (moved_blocks h moved)
                (rw (read_entries, full, moved, r.inside_twice, failed) refl)
        ]
      ]
    ]

abbrev pub twice : ℕ → ℕ
twice zero = zero
twice (suc n) = suc (suc (twice n))

read_entries-all :
    (n : ℕ) (file : List ℕ) (motd : List (List ℕ)) (places : ℕ) (h : Heap)
    → length file < n
    → length motd < places
    → 2 ≤ places
    → Grants (twice n) h.answers
    → (h' : Heap) × (read_entries n file motd places h ≡ some (motd ++ chunks n file, h'))
unfolding read_entries
read_entries-all zero file motd places h short room two g = absurd (omega arith)
read_entries-all (suc n) [] motd places h short room two g = (
  h,
  rw (read_entries, (room_lem (length motd) places room two).inside)
      (ap (λ t. some (t, h)) (sym (append-nil motd))),
)
read_entries-all (suc n) (c ∷ file) motd places h short room two g =
    let rest = rest_of c file in
    let more = longer c file motd in
    let r = room_lem (length motd) places room two in
    let shorter = shorter_by (length rest) (length file) n (length-fgets 79 c file) short in
    let h2 = free (malloc h).1 in
    let (got, g1) = Grants-malloc (suc (twice n)) h g in
    let (got2, g2) = Grants-malloc (twice n) h2 g1 in
    let whole = append_assoc motd (entry_of c file ∷ []) (chunks n rest) in
    elim (Bool-cases (leb places (length motd + 1))) [
      | inr spare ↦
          let (h', e) =
            read_entries-all n rest more places (malloc h).1 shorter
              (longer_in c file motd places (room_after (length motd) places spare)) two
              (Grants-pred (twice n) (malloc h).1.answers g1) in
          (h', rw (read_entries, spare, r.inside, got) (e ∙ ap (λ t. some (t, h')) whole))
      | inl full ↦
          let (h', e) =
            read_entries-all n rest more (2 * places) (malloc h2).1 shorter
              (longer_in c file motd (2 * places) r.after_twice) r.twice g2 in
          (
            h',
            rw (read_entries, full, got, r.inside_twice, got2) (e ∙ ap (λ t. some (t, h')) whole),
          )
    ]

nothing_more : (xs ys : List (List ℕ)) → xs ≡ xs ++ ys → ys ≡ []
nothing_more xs [] e = refl
nothing_more xs (y ∷ ys) e =
    let size = ap length e in absurd (omega (arith, length-append xs (y ∷ ys), size))

-- With memory, no entry is missing.
module _ (n : ℕ) (file : List ℕ) (places : ℕ) (h : Heap) (short : length file < n)
    (room : 0 < places) (two : 2 ≤ places) where
  complete :
      (out : Entered n file [] h (read_entries n file [] places h))
      → Grants (twice n) h.answers
      → out.missing ≡ []
  complete out g =
      let (h', e) = read_entries-all n file [] places h short room two g in
      let same : some (chunks n file, h') ≡ some (out.entries, out.heap) = sym e ∙ out.done in
      let entries : chunks n file ≡ out.entries =
        ap (λ o. elim o [ none ↦ [] | some p ↦ p.0 ]) same in
      nothing_more (chunks n file) out.missing
        (out.first ∙ ap (λ l. l ++ out.missing) (sym entries))

after_array :
    (file : List ℕ) (h : Heap)
    → Grants (suc (twice (suc (length file)))) h.answers
    → Grants (twice (length file + 1)) (malloc h).1.answers
after_array file h g =
    let fuel : suc (length file) ≡ length file + 1 = omega arith in
    subst (λ n. Grants (twice n) (malloc h).1.answers) fuel
      (Grants-malloc (twice (suc (length file))) h g).1

-- Reading a message of the day that can be opened, with memory for its array: every write is inside
-- the array, which grows as needed, and the loop ends. The entries are the first of those that the
-- buffers of the file give, and each has a block, beside that of the array. If two allocations for
-- each character of the file, and three more, succeed, they are all of those entries.
pub read_motd_file-Entered :
    (file : List ℕ) (h : Heap)
    → (malloc h).0 ≡ true
    → (entries missing : List (List ℕ)) × (h' : Heap) × (read_motd_file (some file) h
        ≡ some (some entries, h'))
      × (chunks (length file + 1) file ≡ entries ++ missing)
      × (h'.allocs + h.frees ≡ h.allocs + h'.frees + length entries + 1)
      × (Grants (suc (twice (suc (length file)))) h.answers → missing ≡ [])
unfolding read_motd_file
read_motd_file-Entered file h got =
    let ends =
      read_entries-Entered (length file + 1) file [] 64 (malloc h).1 (omega arith) (omega arith)
        (omega arith) in
    (
      ends.entries,
      ends.missing,
      ends.heap,
      rw (read_motd_file, got, ends.done) refl,
      ends.first,
      ground (arith, ends.blocks, malloc_lem h, got),
      λ g.
          complete (length file + 1) file 64 (malloc h).1 (omega arith) (omega arith) (omega arith)
            ends (after_array file h g),
    )

-- If no line of the file has a `'\0'` and each is shorter than 80 characters, and every allocation
-- succeeds, then the message of the day is the lines of the file, the last one also if it has no
-- newline, each without the `'\r'` at its end.
pub read_motd_file-file_lines :
    (file : List ℕ) (h : Heap)
    → AreShort (file_lines file)
    → Grants (suc (twice (suc (length file)))) h.answers
    → (h' : Heap) × (read_motd_file (some file) h
        ≡ some (some (map (drop_end b'\r') (file_lines file)), h'))
unfolding read_motd_file
read_motd_file-file_lines file h v g =
    let (got, g1) = Grants-malloc (twice (suc (length file))) h g in
    let fuel : length file + 1 ≡ suc (length file) = omega arith in
    let (h', e) =
      read_entries-all (suc (length file)) file [] 64 (malloc h).1 (omega arith) (omega arith)
        (omega arith) g1 in
    let whole = chunks-file_lines (suc (length file)) file (omega arith) v in
    (h', rw (read_motd_file, got, fuel, e) (ap (λ t. some (some t, h')) whole))
