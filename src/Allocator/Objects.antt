-- ===== src/Allocator/Objects.antt =====
-- Block objects by their address: `find` stands at the object that the list holds there.
use multithread.Base.{
  ℕ, ◌≡◌, refl, ◌∙◌, inl, inr, List, [], ◌∷◌, ◌==◌, if◌then◌else◌, rewind, arith, Bool-cases, none,
  some, Option, ap, if-true,
}
use multithread.Allocator.Blocks.{MemoryBlock, Iterator}
use multithread.Allocator.Ops.{find, find_from}
use multithread.Allocator.Layout.{count}

-- The object at address `k`.
abbrev pub object : ℕ → List MemoryBlock → Option MemoryBlock
object k [] = none
object k (b ∷ r) = if b.block == k then some b else object k r

pub object-rewind :
    (k : ℕ) (bs xs ys : List MemoryBlock)
    → object k xs ≡ object k ys
    → object k (rewind bs xs) ≡ object k (rewind bs ys)
object-rewind k [] xs ys e = e
object-rewind k (b ∷ bs) xs ys e = object-rewind k bs (b ∷ xs) (b ∷ ys) (rw e)

pub object-rewind_absent :
    (k : ℕ) (bs xs : List MemoryBlock) → count k bs ≡ 0 → object k (rewind bs xs) ≡ object k xs
object-rewind_absent k [] xs z = refl
object-rewind_absent k (b ∷ bs) xs z = ground (arith, object-rewind_absent k bs (b ∷ xs))

-- `find` of the object's address stands at it.
pub record FoundAt (t : MemoryBlock) (it : Iterator) (l : List MemoryBlock) : Type 0 where
  pub bs : List MemoryBlock
  pub r : List MemoryBlock
  pub stands : it ≡ record { before = bs; from = t ∷ r }
  pub splits : l ≡ rewind bs (t ∷ r)

find_from_object :
    (k : ℕ) (t : MemoryBlock) (before l : List MemoryBlock)
    → object k l ≡ some t
    → FoundAt t (find_from k before l) (rewind before l)
unfolding find_from
find_from_object k t before [] h = cc
find_from_object k t before (b ∷ r) h = elim (Bool-cases (b.block == k)) [
  | inl e ↦
      let same : b ≡ t = ground arith in
      record {
        bs = before;
        r = r;
        stands =
            if-true (b.block == k) _ _ e ∙ ap (λ x. record { before = before; from = x ∷ r }) same;
        splits = ap (λ x. rewind before (x ∷ r)) same;
      }
  | inr e ↦ rw e (find_from_object k t (b ∷ before) r (ground arith))
]

pub find_object :
    (k : ℕ) (t : MemoryBlock) (l : List MemoryBlock) → object k l ≡ some t → FoundAt t (find k l) l
unfolding find
find_object k t l h = find_from_object k t [] l h
