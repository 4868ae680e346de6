-- ===== src/Workers/Jobs/Five.antt =====
-- app/workers/jobs.py: the five best classes as they are stored.
use dropsort.Prelude.{
  ℕ, zero, suc, ◌≤◌, String, ◌≡◌, ◌↔◌, refl, true, List, [], ◌∷◌, map, take, length, arith, All,
  ◌&&◌, Bool-cases, inl, inr, length-take-le,
}
use dropsort.Prelude.Float.{Float, float_ge, scaled}
use dropsort.Domain.{TopKItem}
use dropsort.Exec.{external, Result, ok, err}
use dropsort.Workers.Jobs.{
  RawEntry, pair, dict, other, top_k_item, items, normalise_top5, as_pair, text_or, float_or,
}

-- Between 0 and 1; NaN is not.
abbrev pub IsScore : Float → Type 0
IsScore x = (float_ge x (Float.units 0) ≡ true) × (float_ge (scaled 1 0) x ≡ true)

-- At most a number of classes, each with a score between 0 and 1, or the exception of pydantic.
abbrev pub Bounded : ℕ → Result (List TopKItem) → Type 0
Bounded n (ok found) = (length found ≤ n) × All (λ (t : TopKItem). IsScore t.score) found
Bounded n (err e) = e ≡ external "ValidationError"

-- A class with its score.
abbrev pub top_item : String × Float → TopKItem
top_item (label, score) = record { label = label; score = score }

top_k_item-Bounded :
    (label : String) (score : Float) (n : ℕ) (r : Result (List TopKItem))
    → Bounded n r
    → Bounded (suc n) (top_k_item label score r)
top_k_item-Bounded label score n (err e) h = h
top_k_item-Bounded label score n (ok found) h =
    elim (Bool-cases (float_ge score (Float.units 0) && float_ge (scaled 1 0) score)) [
      | inl t ↦ rw t (omega (arith, h.0), ((ground arith, ground arith), h.1))
      | inr f ↦ rw f refl
    ]

Bounded-suc : (n : ℕ) (r : Result (List TopKItem)) → Bounded n r → Bounded (suc n) r
Bounded-suc n (err e) h = h
Bounded-suc n (ok found) h = (omega (arith, h.0), h.1)

items-Bounded : (n : ℕ) (es : List RawEntry) → length es ≤ n → Bounded n (items es)
items-Bounded n [] h = (omega arith, tt)
items-Bounded zero (e ∷ es) h = absurd (omega arith)
items-Bounded (suc n) (pair label score ∷ es) h =
    top_k_item-Bounded label score n (items es) (items-Bounded n es (omega arith))
items-Bounded (suc n) (dict label confidence score ∷ es) h =
    top_k_item-Bounded (text_or "" label) (float_or (float_or (Float.units 0) score) confidence) n
      (items es) (items-Bounded n es (omega arith))
items-Bounded (suc n) (other ∷ es) h = Bounded-suc n (items es) (items-Bounded n es (omega arith))

top_k_item_iff :
    (label : String) (score : Float) (r : Result (List TopKItem)) (found : List TopKItem)
    → (top_k_item label score r ≡ ok (record { label = label; score = score } ∷ found))
      ↔ (IsScore score × (r ≡ ok found))
top_k_item_iff label score (err e) found = ((λ h. cc), (λ h. cc (h.1)))
top_k_item_iff label score (ok rest) found =
    elim (Bool-cases (float_ge score (Float.units 0) && float_ge (scaled 1 0) score)) [
      | inl t ↦ rw t ((λ h. ((ground arith, ground arith), cc)), (λ h. cc (h.1)))
      | inr f ↦ rw f ((λ h. cc), (λ h. absurd (ground (arith, h.0.0, h.0.1))))
    ]

top_k_item-eq-ok :
    (label : String) (score : Float) (r : Result (List TopKItem)) (found : List TopKItem)
    → top_k_item label score r ≡ ok found
    → (rest : List TopKItem) × (r ≡ ok rest) × IsScore score
top_k_item-eq-ok label score (err e) found h = cc
top_k_item-eq-ok label score (ok rest) found h =
    elim (Bool-cases (float_ge score (Float.units 0) && float_ge (scaled 1 0) score)) [
      | inl t ↦ (rest, refl, (ground arith, ground arith))
      | inr f ↦ absurd (ground arith)
    ]

items-pairs_iff :
    (n : ℕ) (xs : List (String × Float))
    → (items (take n (map as_pair xs)) ≡ ok (map top_item (take n xs)))
      ↔ All (λ (x : String × Float). IsScore x.1) (take n xs)
items-pairs_iff zero xs = ((λ h. tt), (λ h. refl))
items-pairs_iff (suc n) [] = ((λ h. tt), (λ h. refl))
items-pairs_iff (suc n) ((label, score) ∷ xs) =
    let (to, from) =
      top_k_item_iff label score (items (take n (map as_pair xs))) (map top_item (take n xs)) in
    let (rest_to, rest_from) = items-pairs_iff n xs in
    ((λ h. let (s, r) = to h in (s, rest_to r)), (λ h. from (h.0, rest_from h.1)))

-- What is kept of pairs, if nothing is refused.
items-pairs :
    (n : ℕ) (xs : List (String × Float)) (found : List TopKItem)
    → items (take n (map as_pair xs)) ≡ ok found
    → items (take n (map as_pair xs)) ≡ ok (map top_item (take n xs))
items-pairs zero xs found h = refl
items-pairs (suc n) [] found h = refl
items-pairs (suc n) ((label, score) ∷ xs) found h =
    let (rest, r, scored) =
      top_k_item-eq-ok label score (items (take n (map as_pair xs))) found h in
    (top_k_item_iff label score _ _).1 (scored, items-pairs n xs rest r)

pub normalise_top5-ok :
    (xs : List (String × Float)) (found : List TopKItem)
    → normalise_top5 (map as_pair xs) ≡ ok found
    → All (λ (x : String × Float). IsScore x.1) (take 5 xs) × (found ≡ map top_item (take 5 xs))
unfolding normalise_top5
normalise_top5-ok xs found h =
    let all_found = items-pairs 5 xs found h in ((items-pairs_iff 5 xs).0 all_found, cc)

-- Whatever the classifier hands over, at most five classes with scores between 0 and 1 are kept, or
-- the entries are refused as invalid; of a list of pairs, the first five are kept in their order with
-- their scores exactly where all these scores are between 0 and 1.
pub normalise_top5_bounds :
    (raw : List RawEntry) (xs : List (String × Float))
    → Bounded 5 (normalise_top5 raw)
      × ((normalise_top5 (map as_pair xs) ≡ ok (map top_item (take 5 xs)))
          ↔ All (λ (x : String × Float). IsScore x.1) (take 5 xs))
unfolding normalise_top5
normalise_top5_bounds raw xs =
    (items-Bounded 5 (take 5 raw) (length-take-le 5 raw), items-pairs_iff 5 xs)
