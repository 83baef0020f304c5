-- ===== src/Index/Gathering.antt =====
-- The loop of `mergeIndex` (p4/main.cpp) on `indexs`: it copies what the files have for a word, and
-- reads their next entries.
use multithread.Base.{
  ℕ, suc, ◌<◌, ◌≡◌, refl, ◌∙◌, sym, ap, subst, true, false, inl, inr, Option, none, some, List, [],
  ◌∷◌, ◌++◌, length, ◌==◌, arith, append_assoc, length-append, Bool-cases, ne→==,
}
use multithread.Messages.Bytes.{store32}
use multithread.Index.Files.{
  read64, write_all, read_docids, save_index_file, AreEntries, read64-write64, read64-nil,
  read32-store32, read_array-write_all,
}
use multithread.Index.Create.{Dict}
use multithread.Index.Merge.{Cursor, open_file, advance, advance_at, gather}
use multithread.Index.Cursors.{Shows, ShowAll, first_docs, later, pick, leave, places}

pub read_docids-write_all :
    (docids rest : List ℕ) (dict : Dict) (w : ℕ)
    → AreEntries ((w, docids) ∷ dict)
    → read_docids (store32 (length docids) ++ (write_all docids ++ rest)) ≡ some (docids, rest)
unfolding read_docids
read_docids-write_all docids rest dict w (word, few, words, h) =
    rw
      (
        read32-store32 (length docids) (write_all docids ++ rest) (omega arith),
        read_array-write_all docids rest few words,
      )
      refl

-- The entry behind one that is read.
entry :
    (w : ℕ) (docids : List ℕ) (dict : Dict)
    → AreEntries ((w, docids) ∷ dict)
    → (read64 (save_index_file ((w, docids) ∷ dict))
        ≡ some (w, store32 (length docids) ++ (write_all docids ++ save_index_file dict)))
unfolding save_index_file
entry w docids dict h =
    read64-write64 w (store32 (length docids) ++ (write_all docids ++ save_index_file dict)) h.0

pub open_file-Shows :
    (max_wordid w : ℕ) (docids : List ℕ) (dict : Dict)
    → AreEntries ((w, docids) ∷ dict)
    → (c : Cursor) × (open_file (save_index_file ((w, docids) ∷ dict)) ≡ some c)
      × Shows max_wordid c ((w, docids) ∷ dict)
unfolding open_file
open_file-Shows max_wordid w docids dict h = (
  record { wordid = w; docids = docids; rest = save_index_file dict },
  rw (entry w docids dict h, read_docids-write_all docids (save_index_file dict) dict w h) refl,
  (refl, refl, refl, h.3),
)

advance-end :
    (max_wordid : ℕ) (c : Cursor)
    → read64 c.rest ≡ none
    → advance max_wordid c ≡ some (record c { wordid = max_wordid; docids = [] })
unfolding advance
advance-end max_wordid c e = rw (advance, e) refl

advance-next :
    (max_wordid w : ℕ) (docids more rest : List ℕ) (c : Cursor)
    → read64 c.rest ≡ some (w, more)
    → read_docids more ≡ some (docids, rest)
    → advance max_wordid c ≡ some (record { wordid = w; docids = docids; rest = rest })
unfolding advance
advance-next max_wordid w docids more rest c e i = rw (advance, e, i) refl

advance-Shows :
    (max_wordid w : ℕ) (docids : List ℕ) (dict : Dict) (c : Cursor)
    → Shows max_wordid c ((w, docids) ∷ dict)
    → (c' : Cursor) × (advance max_wordid c ≡ some c') × Shows max_wordid c' dict
unfolding save_index_file
advance-Shows max_wordid w docids [] c (same_w, same_docids, same_rest, h) = (
  record c { wordid = max_wordid; docids = [] },
  advance-end max_wordid c (ap read64 same_rest ∙ read64-nil),
  refl,
)
advance-Shows max_wordid w docids ((v, ds) ∷ dict) c (same_w, same_docids, same_rest, h) = (
  record { wordid = v; docids = ds; rest = save_index_file dict },
  advance-next max_wordid v ds (store32 (length ds) ++ (write_all ds ++ save_index_file dict))
      (save_index_file dict) c (ap read64 same_rest ∙ entry v ds dict h)
      (read_docids-write_all ds (save_index_file dict) dict v h),
  (refl, refl, refl, h.3),
)

advance_at-length :
    (max_wordid : ℕ) (before : List Cursor) (c c' : Cursor) (cursors : List Cursor)
    → advance max_wordid c ≡ some c'
    → advance_at max_wordid (length before) (before ++ c ∷ cursors)
      ≡ some (c.docids, before ++ c' ∷ cursors)
unfolding advance_at
advance_at-length max_wordid [] c c' cursors e = rw e refl
advance_at-length max_wordid (b ∷ before) c c' cursors e =
    rw (advance_at-length max_wordid before c c' cursors e) refl

-- What the loop leaves.
abbrev Gathers : ℕ → ℕ → List Dict → List Cursor → Option (List ℕ × List Cursor) → Type 0
Gathers max_wordid m dicts before res =
    (cursors' : List Cursor) × (res ≡ some (pick m dicts, before ++ cursors'))
    × ShowAll max_wordid cursors' (leave m dicts)

length-snoc : (before : List Cursor) (c : Cursor) → length (before ++ c ∷ []) ≡ suc (length before)
length-snoc before c = omega (arith, length-append before (c ∷ []))

module _ (max_wordid m : ℕ) (before cursors : List Cursor) (dicts : List Dict) (c : Cursor) where
  -- The files behind a place.
  abbrev Behind : Type 0
  Behind =
      (b : Cursor)
      → Gathers max_wordid m dicts (before ++ b ∷ []) (
          gather max_wordid (places m (length (before ++ b ∷ [])) cursors)
            ((before ++ b ∷ []) ++ cursors))

  behind :
      Behind
      → (b : Cursor)
      → Gathers max_wordid m dicts
          (before ++ b ∷ [])
          (gather max_wordid (places m (suc (length before)) cursors) (before ++ b ∷ cursors))
  behind next b =
      subst
        (λ k.
          Gathers max_wordid m dicts (before ++ b ∷ [])
            (gather max_wordid (places m k cursors) (before ++ b ∷ cursors)))
        (length-snoc before b)
        (subst
          (λ l.
            Gathers max_wordid m dicts (before ++ b ∷ [])
              (gather max_wordid (places m (length (before ++ b ∷ [])) cursors) l))
          (append_assoc before (b ∷ []) cursors) (next b))

  gather-cons :
      (i : ℕ) (indexs : List ℕ) (at_first then_those at_last : List Cursor) (docids more : List ℕ)
      → advance_at max_wordid i at_first ≡ some (docids, then_those)
      → gather max_wordid indexs then_those ≡ some (more, at_last)
      → gather max_wordid (i ∷ indexs) at_first ≡ some (docids ++ more, at_last)
  unfolding gather
  gather-cons i indexs at_first then_those at_last docids more e g = rw (e, g) refl

  passed_by :
      (dict : Dict)
      → Shows max_wordid c dict
      → (c.wordid == m) ≡ false
      → first_docs m dict ≡ []
      → later m dict ≡ dict
      → Behind
      → Gathers max_wordid m
          (dict ∷ dicts)
          before
          (gather max_wordid (places m (length before) (c ∷ cursors)) (before ++ c ∷ cursors))
  passed_by dict s other none_here stays next =
      let (cursors', runs, h) = behind next c in
      (
        c ∷ cursors',
        rw other (
            runs
            ∙ ap some (
                ap (λ l. (pick m dicts, l)) (append_assoc before (c ∷ []) cursors')
                ∙ ap (λ l. (l ++ pick m dicts, before ++ c ∷ cursors')) (sym none_here))),
        (subst (Shows max_wordid c) (sym stays) s, h),
      )

  read_on :
      (w : ℕ) (docids : List ℕ) (dict : Dict)
      → Shows max_wordid c ((w, docids) ∷ dict)
      → (w == m) ≡ true
      → Behind
      → Gathers max_wordid m
          (((w, docids) ∷ dict) ∷ dicts)
          before
          (gather max_wordid (places m (length before) (c ∷ cursors)) (before ++ c ∷ cursors))
  unfolding gather
  read_on w docids dict s here next =
      let (c', advanced, s') = advance-Shows max_wordid w docids dict c s in
      let (cursors', runs, h) = behind next c' in
      (
        c' ∷ cursors',
        rw (here, ap (λ k. k == m) s.0 ∙ here)
            (gather-cons (length before) (places m (suc (length before)) cursors)
                (before ++ c ∷ cursors) (before ++ c' ∷ cursors) ((before ++ c' ∷ []) ++ cursors')
                c.docids (pick m dicts) (advance_at-length max_wordid before c c' cursors advanced)
                runs
              ∙ ap some (
                  ap (λ l. (c.docids ++ pick m dicts, l)) (append_assoc before (c' ∷ []) cursors')
                  ∙ ap (λ l. (l ++ pick m dicts, before ++ c' ∷ cursors')) s.1)),
        rw here (s', h),
      )

pub gather_lem :
    (max_wordid m : ℕ) (before cursors : List Cursor) (dicts : List Dict)
    → m < max_wordid
    → ShowAll max_wordid cursors dicts
    → Gathers max_wordid m dicts before
        (gather max_wordid (places m (length before) cursors) (before ++ cursors))
unfolding gather
gather_lem max_wordid m before [] [] lt h = ([], refl, tt)
gather_lem max_wordid m before [] (dict ∷ dicts) lt h = absurd h
gather_lem max_wordid m before (c ∷ cursors) [] lt h = absurd h
gather_lem max_wordid m before (c ∷ cursors) ([] ∷ dicts) lt (s, h) =
    passed_by max_wordid m before cursors dicts c [] s
      (ne→== c.wordid m (λ e. omega (arith, e, s, lt))) refl refl
      (λ b. gather_lem max_wordid m (before ++ b ∷ []) cursors dicts lt h)
gather_lem max_wordid m before (c ∷ cursors) (((w, docids) ∷ dict) ∷ dicts) lt (s, h) =
    elim (Bool-cases (w == m)) [
      | inl here ↦
          read_on max_wordid m before cursors dicts c w docids dict s here
            (λ b. gather_lem max_wordid m (before ++ b ∷ []) cursors dicts lt h)
      | inr other ↦
          passed_by max_wordid m before cursors dicts c ((w, docids) ∷ dict) s
            (ap (λ k. k == m) s.0 ∙ other) (rw other refl) (rw other refl)
            (λ b. gather_lem max_wordid m (before ++ b ∷ []) cursors dicts lt h)
    ]
