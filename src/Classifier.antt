-- ===== src/Classifier.antt =====
-- app/classifier/classify.py: what the code does around the network of PyTorch.
pub mod Top
pub mod Golden
use dropsort.Prelude.{
  ⊤, ℕ, zero, suc, ◌<◌, String, ◌≡◌, refl, Bool, true, false, Option, none, some, List, [], ◌∷◌,
  map, length, get_elem?, if◌then◌else◌, ◌==◌,
}
use dropsort.Prelude.Float.{Float}
use dropsort.Exec.{Exc, external, Result, ok, err}
use dropsort.Service.{Bytes}

-- `_CLASS_NAMES`
abbrev pub class_names : List String
class_names =
    "letter" ∷ "form" ∷ "email" ∷ "handwritten" ∷ "advertisement" ∷ "scientific_report"
    ∷ "scientific_publication" ∷ "specification" ∷ "file_folder" ∷ "news_article" ∷ "budget"
    ∷ "invoice" ∷ "presentation" ∷ "questionnaire" ∷ "resume" ∷ "memo" ∷ []

-- `Prediction`
pub record Classified : Type 0 where
  pub label : String
  pub top1_confidence : Float
  pub top5 : List (String × Float)
  pub scores : List (String × Float)

-- Pillow and PyTorch: opening an image, the probabilities of the network, `torch.topk` with k = 5
-- as values with their indices, and the PNG of the overlay.
pub record Network : Type 0 where
  pub opens : Bytes → Bool
  pub probabilities : Bytes → List Float
  pub topk : List Float → List (Float × ℕ)
  pub png : Bytes → String → Float → Bytes

-- The rest of a computation that may raise.
abbrev pub after : {A B : Type 0} → Result A → (A → Result B) → Result B
after (err e) f = err e
after (ok a) f = f a

-- An index into a list; Python raises `IndexError` past the end.
abbrev pub indexed : {A : Type 0} → Option A → Result A
indexed none = err (external "IndexError")
indexed (some a) = ok a

-- `{name: float(probs[i]) for i, name in enumerate(_CLASS_NAMES)}`
abbrev pub scores_from : List Float → ℕ → List String → Result (List (String × Float))
scores_from probs i [] = ok []
scores_from probs i (name ∷ names) =
    after (indexed (get_elem? probs i))
      λ v. after (scores_from probs (suc i) names) λ scores. ok ((name, v) ∷ scores)

-- `[(_CLASS_NAMES[int(i)], float(v)) for i, v in zip(top5_indices, top5_vals)]`
abbrev pub named : List (Float × ℕ) → Result (List (String × Float))
named [] = ok []
named ((v, i) ∷ rest) =
    after (indexed (get_elem? class_names i))
      λ name. after (named rest) λ entries. ok ((name, v) ∷ entries)

-- The label and the confidence are looked up at the first index, the top five are the values given.
abbrev pub prediction_of : List Float → List (Float × ℕ) → Result Classified
prediction_of probs [] = err (external "IndexError")
prediction_of probs ((v, i) ∷ rest) = after (scores_from probs 0 class_names) λ scores.
    after (named ((v, i) ∷ rest)) λ top5. after (indexed (get_elem? class_names i)) λ label.
      after (indexed (get_elem? probs i)) λ confidence.
        ok (record { label = label; top1_confidence = confidence; top5 = top5; scores = scores })

-- `_open_image` raises `ValueError` on no bytes and on what Pillow does not open.
abbrev pub open_image : Network → Bytes → Result Bytes
open_image net [] = err (external "ValueError")
open_image net (b ∷ bytes) =
    if net.opens (b ∷ bytes) then ok (b ∷ bytes) else err (external "ValueError")

abbrev pub infer : Network → Result Bytes → Result Classified
infer net (err e) = err e
infer net (ok bytes) = let probs = net.probabilities bytes in prediction_of probs (net.topk probs)

unfoldable pub classify : Network → Bytes → Result Classified
classify net bytes = infer net (open_image net bytes)

abbrev drawn : Network → Classified → Result Bytes → Result Bytes
drawn net p (err e) = err e
drawn net p (ok bytes) = ok (net.png bytes p.label p.top1_confidence)

unfoldable pub make_overlay : Network → Bytes → Classified → Result Bytes
make_overlay net bytes p = drawn net p (open_image net bytes)
