-- ===== src/Index/Merging.antt =====
-- The `while` loop of `mergeIndex` (p4/main.cpp): the new file holds the union of the maps.
use multithread.Base.{
  ℕ, zero, suc, ◌+◌, ◌*◌, ◌%◌, ◌^◌, ◌≤◌, ◌<◌, ◌≡◌, refl, ◌∙◌, sym, ap, subst, true, false, inl, inr,
  Option, some, List, [], ◌∷◌, ◌++◌, length, ◌==◌, le→leb, arith, append_assoc, append-nil,
  length-append, Bool-cases, ==→eq, ==→ne, ne→==,
}
use multithread.Messages.Bytes.{store32}
use multithread.Messages.Message.{◌>>=◌}
use multithread.Messages.Dictionary.{lookup, assign}
use multithread.Index.Files.{write_all}
use multithread.Index.Create.{Dict}
use multithread.Index.Postings.{mem, docs_of, found}
use multithread.Index.Merge.{Cursor, find_min, gather_all, sort, merge_loop}
use multithread.Index.Cursors.{ShowAll, least, pick, leave, places, find_min-least, find_min-places}
use multithread.Index.Gathering.{gather_lem}
use multithread.Index.Least.{
  Fine, AllFine, AllFrom, keys, any_key, entries, total, least-le, least-AllFrom, least-from,
  least-key, leave-AllFine, leave-le, leave-entries, docs_of-cons,
}
use multithread.Index.Pick.{mem-pick, AreWords-pick, length-pick, leave-other}
use multithread.Index.Sorting.{
  SortedFrom, mem-sort, length-sort, sort-AreWords, sort-SortedFrom, KeysBelow, KeysBelow-from,
  KeysBelow-append, assign_last,
}

-- The bytes of a word in the new file, and of all words.
abbrev pub block : List ℕ → List ℕ
block docids = store32 (length docids) ++ write_all docids

abbrev pub blocks : Dict → List ℕ
blocks [] = []
blocks ((w, docids) ∷ dict) = block docids ++ blocks dict

-- Where the words' bytes stand, from a place on.
abbrev pub offsets_of : ℕ → Dict → List (ℕ × ℕ)
offsets_of at [] = []
offsets_of at ((w, docids) ∷ dict) = (w, at) ∷ offsets_of (at + length (block docids)) dict

-- The numbers of each word are in ascending order.
abbrev pub AllSorted : Dict → Type 0
AllSorted [] = Unit
AllSorted ((w, docids) ∷ dict) = SortedFrom 0 docids × AllSorted dict

-- What the loop adds to the new file and the map of offsets.
pub record Merged (max_wordid b : ℕ) (dicts : List Dict) (out : List ℕ) (offsets : List (ℕ × ℕ))
    (res : Option (List ℕ × List (ℕ × ℕ))) : Type 0 where
  pub union : Dict
  pub runs : res ≡ some (out ++ blocks union, offsets ++ offsets_of (length out) union)
  pub fine : Fine max_wordid b union
  pub sorted : AllSorted union
  pub holds : (w x : ℕ) → mem x (docs_of w union) ≡ found w x dicts
  pub words : (w : ℕ) → mem w (keys union) ≡ any_key w dicts

gather_all_lem :
    (max_wordid m : ℕ) (cursors : List Cursor) (dicts : List Dict)
    → m < max_wordid
    → total dicts < 2 ^ 29
    → ShowAll max_wordid cursors dicts
    → (cursors' : List Cursor) × (gather_all max_wordid (places m 0 cursors) cursors
        ≡ some (pick m dicts, cursors'))
      × ShowAll max_wordid cursors' (leave m dicts)
unfolding gather_all
gather_all_lem max_wordid m cursors dicts lt small h =
    let (cursors', runs, h') = gather_lem max_wordid m [] cursors dicts lt h in
    (
      cursors',
      rw
          (
            runs,
            le→leb (8 * length (pick m dicts)) (8 * (length (pick m dicts) % 2 ^ 32) % 2 ^ 32)
                (omega (arith, length-pick m dicts)),
          )
          refl,
      h',
    )

-- The places that the first loop finds.
found_places :
    (max_wordid : ℕ) (cursors : List Cursor) (dicts : List Dict)
    → ShowAll max_wordid cursors dicts
    → least max_wordid max_wordid dicts < max_wordid
    → find_min 0 cursors max_wordid []
      ≡ (least max_wordid max_wordid dicts, places (least max_wordid max_wordid dicts) 0 cursors)
found_places max_wordid cursors dicts h lt =
    let f = find_min 0 cursors max_wordid [] in
    let m = least max_wordid max_wordid dicts in
    let same : f.0 ≡ m = find_min-least max_wordid 0 max_wordid cursors dicts [] h in
    let other : (f.0 == max_wordid) ≡ false =
      ne→== f.0 max_wordid (λ e. omega (arith, e, same, lt)) in
    let at : f.1 ≡ places m 0 cursors =
      find_min-places 0 max_wordid cursors [] ∙ rw other (ap (λ k. places k 0 cursors) same) in
    ap (λ k. (k, f.1)) same ∙ ap (λ l. (m, l)) at

merge_loop-stop :
    (fuel max_wordid : ℕ) (cursors : List Cursor) (out : List ℕ) (offsets : List (ℕ × ℕ))
    → ((find_min 0 cursors max_wordid []).0 == max_wordid) ≡ true
    → merge_loop (suc fuel) max_wordid cursors out offsets ≡ some (out, offsets)
unfolding merge_loop
merge_loop-stop fuel max_wordid cursors out offsets e = rw (merge_loop, e) refl

merge_loop-next :
    (fuel max_wordid m : ℕ) (cursors cursors' : List Cursor) (indexs docids out : List ℕ)
    (offsets : List (ℕ × ℕ))
    → find_min 0 cursors max_wordid [] ≡ (m, indexs)
    → (m == max_wordid) ≡ false
    → gather_all max_wordid indexs cursors ≡ some (docids, cursors')
    → merge_loop (suc fuel) max_wordid cursors out offsets
      ≡ merge_loop fuel max_wordid cursors'
          (out ++ (store32 (length docids) ++ write_all (sort docids)))
          (assign m (length out) offsets)
unfolding merge_loop
merge_loop-next fuel max_wordid m cursors cursors' indexs docids out offsets f e g =
    go (find_min 0 cursors max_wordid []) f
  where
    step : ℕ × List ℕ → Option (List ℕ × List (ℕ × ℕ))
    step least = elim (least.0 == max_wordid) [
      | true ↦ some (out, offsets)
      | false ↦ do
        (all_docids, left) ← gather_all max_wordid least.1 cursors
        merge_loop fuel max_wordid left
            (out ++ (store32 (length all_docids) ++ write_all (sort all_docids)))
            (assign least.0 (length out) offsets)
    ]

    go :
        (least : ℕ × List ℕ)
        → least ≡ (m, indexs)
        → step least
          ≡ merge_loop fuel max_wordid cursors'
              (out ++ (store32 (length docids) ++ write_all (sort docids)))
              (assign m (length out) offsets)
    go least f = ap step f ∙ rw (e, g) refl

-- Nothing is left where no file stands at a word.
all_merged :
    (max_wordid b w : ℕ) (dicts : List Dict)
    → AllFine max_wordid b dicts
    → AllFrom max_wordid max_wordid dicts
    → ((x : ℕ) → found w x dicts ≡ false) × (any_key w dicts ≡ false)
unfolding lookup
all_merged max_wordid b w [] h from = (λ x. refl, refl)
all_merged max_wordid b w ([] ∷ dicts) (f, h) (le, from) = all_merged max_wordid b w dicts h from
all_merged max_wordid b w (((k, docids) ∷ dict) ∷ dicts) (f, h) (le, from) =
    absurd (omega (arith, le, f.1))

module _ (max_wordid b : ℕ) (dicts : List Dict) (h : AllFine max_wordid b dicts)
    (few : total dicts < 2 ^ 29) (out : List ℕ) (offsets : List (ℕ × ℕ)) where
  Merged-all :
      least max_wordid max_wordid dicts ≡ max_wordid
      → Merged max_wordid b dicts out offsets (some (out, offsets))
  unfolding lookup
  Merged-all e =
      let none_left = λ (w : ℕ).
        all_merged max_wordid b w dicts h
          (subst (λ m. AllFrom max_wordid m dicts) e (least-AllFrom max_wordid max_wordid dicts)) in
      record {
        union = [];
        runs = ap some (
            ap (λ l. (l, offsets)) (sym (append-nil out))
            ∙ ap (λ l. (out ++ [], l)) (sym (append-nil offsets)));
        fine = tt;
        sorted = tt;
        holds = λ w x. sym ((none_left w).0 x);
        words = λ w. sym (none_left w).1;
      }

  -- One word is merged, and then the rest.
  Merged-next :
      (m : ℕ) (res : Option (List ℕ × List (ℕ × ℕ)))
      → b ≤ m
      → m < max_wordid
      → AllFrom max_wordid m dicts
      → any_key m dicts ≡ true
      → Merged max_wordid
          (suc m)
          (leave m dicts)
          (out ++ block (sort (pick m dicts)))
          (offsets ++ (m, length out) ∷ [])
          res
      → Merged max_wordid b dicts out offsets res
  Merged-next m res le lt from here t =
      let docids = sort (pick m dicts) in
      record {
        union = (m, docids) ∷ t.union;
        runs =
            t.runs
            ∙ ap some (
                ap
                  (λ l. (
                    l,
                    (offsets ++ (m, length out) ∷ [])
                        ++ offsets_of (length (out ++ block docids)) t.union,
                  ))
                  (append_assoc out (block docids) (blocks t.union))
                ∙ ap (λ l. (out ++ (block docids ++ blocks t.union), l))
                    (append_assoc offsets ((m, length out) ∷ [])
                        (offsets_of (length (out ++ block docids)) t.union)
                      ∙ ap (λ k. offsets ++ (m, length out) ∷ offsets_of k t.union)
                          (length-append out (block docids))));
        fine = (
          le,
          lt,
          omega (arith, length-sort (pick m dicts), length-pick m dicts),
          sort-AreWords (pick m dicts) (AreWords-pick max_wordid m b dicts h),
          t.fine,
        );
        sorted = (sort-SortedFrom (pick m dicts), t.sorted);
        holds = λ w x. ap (mem x) (docs_of-cons w m docids t.union) ∙ elim (Bool-cases (m == w)) [
          | inl e ↦ rw e (
              mem-sort x (pick m dicts)
              ∙ mem-pick max_wordid m b x dicts h from
              ∙ ap (λ k. found k x dicts) (==→eq m w e))
          | inr e ↦ rw e (t.holds w x ∙ (leave-other m w dicts e).0 x)
        ];
        words = λ w. elim (Bool-cases (m == w)) [
          | inl e ↦ rw e (sym (ap (λ k. any_key k dicts) (sym (==→eq m w e)) ∙ here))
          | inr e ↦ rw e (t.words w ∙ (leave-other m w dicts e).1)
        ];
      }

-- Enough fuel is as many rounds as there are entries, and one more.
pub merge_loop_lem :
    (fuel max_wordid b : ℕ) (cursors : List Cursor) (dicts : List Dict) (out : List ℕ)
    (offsets : List (ℕ × ℕ))
    → b ≤ max_wordid
    → AllFine max_wordid b dicts
    → total dicts < 2 ^ 29
    → ShowAll max_wordid cursors dicts
    → KeysBelow b offsets
    → entries dicts < fuel
    → Merged max_wordid b dicts out offsets (merge_loop fuel max_wordid cursors out offsets)
merge_loop_lem zero max_wordid b cursors dicts out offsets le h few shows below more =
    absurd (omega arith)
merge_loop_lem (suc fuel) max_wordid b cursors dicts out offsets le h few shows below more =
    let m = least max_wordid max_wordid dicts in
    let from = least-AllFrom max_wordid max_wordid dicts in
    elim (Bool-cases (m == max_wordid)) [
      | inl e ↦
          subst (Merged max_wordid b dicts out offsets)
            (sym (
              merge_loop-stop fuel max_wordid cursors out offsets (
                ap (λ k. k == max_wordid)
                  (find_min-least max_wordid 0 max_wordid cursors dicts [] shows)
                ∙ e)))
            (Merged-all max_wordid b dicts h few out offsets (==→eq m max_wordid e))
      | inr e ↦
          let lt : m < max_wordid =
            omega (arith, ==→ne m max_wordid e, least-le max_wordid max_wordid dicts) in
          let from_b : b ≤ m = least-from max_wordid b max_wordid dicts le le h in
          let here : any_key m dicts ≡ true =
            elim (least-key max_wordid max_wordid dicts (omega arith)) [
              | inl same ↦ absurd (omega (arith, same, lt))
              | inr there ↦ there
            ] in
          let (cursors', gathered, shows') =
            gather_all_lem max_wordid m cursors dicts lt few shows in
          let next =
            merge_loop_lem fuel max_wordid (suc m) cursors' (leave m dicts)
              (out ++ block (sort (pick m dicts))) (offsets ++ (m, length out) ∷ []) (omega arith)
              (leave-AllFine max_wordid m b dicts h from)
              (omega (arith, (leave-le max_wordid m dicts).1)) shows'
              (KeysBelow-append (suc m) m (length out) offsets (omega arith)
                (KeysBelow-from b (suc m) offsets (omega (arith, from_b)) below))
              (omega (arith, leave-entries max_wordid m b dicts h from here)) in
          subst (Merged max_wordid b dicts out offsets)
            (sym (
              merge_loop-next fuel max_wordid m cursors cursors' (places m 0 cursors) (pick m dicts)
                out offsets (found_places max_wordid cursors dicts shows lt) e gathered
              ∙ ap
                  (λ k.
                    merge_loop fuel max_wordid cursors'
                      (out ++ (store32 k ++ write_all (sort (pick m dicts))))
                      (assign m (length out) offsets))
                  (sym (length-sort (pick m dicts)))
              ∙ ap (merge_loop fuel max_wordid cursors' (out ++ block (sort (pick m dicts))))
                  (assign_last m (length out) offsets (KeysBelow-from b m offsets from_b below))))
            (Merged-next max_wordid b dicts h few out offsets m _ from_b lt from here next)
    ]
