-- ===== src/Classifier/Top.antt =====
-- classifier/classify.py: the label, the confidence and the top five.
use dropsort.Prelude.{
  ℕ, String, ◌≡◌, refl, ap, ◌∙◌, sym, true, some, none, List, [], ◌∷◌, get_elem?, Option, All,
  arith,
}
use dropsort.Prelude.Float.{Float, float_ge}
use dropsort.Exec.{Result, ok, err}
use dropsort.Service.{Bytes}
use dropsort.Classifier.{
  Classified, Network, class_names, after, indexed, scores_from, named, prediction_of, classify,
}

-- No probability is NaN.
abbrev pub IsNumeric : List Float → Type 0
IsNumeric probs = All (λ u. float_ge u u ≡ true) probs

-- `torch.topk` as documented: each value is the one at its index, and among numbers the first is a
-- greatest one.
pub record IsTopk (net : Network) : Type 0 where
  pub at :
      (probs : List Float)
      → All (λ (e : Float × ℕ). get_elem? probs e.1 ≡ some e.0) (net.topk probs)
  pub greatest :
      (probs : List Float) (v : Float) (i : ℕ) (rest : List (Float × ℕ))
      → IsNumeric probs
      → net.topk probs ≡ (v, i) ∷ rest
      → (j : ℕ) (u : Float) → get_elem? probs j ≡ some u
      → float_ge v u ≡ true

-- The entry is a class with the probability at the index of that class.
abbrev pub IsScored : List Float → String × Float → Type 0
IsScored probs (name, v) =
    (i : ℕ) × (get_elem? class_names i ≡ some name) × (get_elem? probs i ≡ some v)

-- The label is a class of the greatest probability, which is the confidence; both stand first in the
-- top five, and every class there has its own probability.
pub record IsTop (probs : List Float) (p : Classified) : Type 0 where
  pub index : ℕ
  pub name : get_elem? class_names index ≡ some p.label
  pub value : get_elem? probs index ≡ some p.top1_confidence
  pub greatest :
      (j : ℕ) (u : Float) → get_elem? probs j ≡ some u → float_ge p.top1_confidence u ≡ true
  pub first : (rest : List (String × Float)) × (p.top5 ≡ (p.label, p.top1_confidence) ∷ rest)
  pub entries : All (IsScored probs) p.top5

after-eq-ok :
    {A B : Type 0} (r : Result A) (f : A → Result B) (b : B)
    → after r f ≡ ok b
    → (a : A) × (r ≡ ok a) × (f a ≡ ok b)
after-eq-ok (err e) f b h = cc
after-eq-ok (ok a) f b h = (a, refl, h)

indexed-eq-ok : {A : Type 0} (o : Option A) (a : A) → indexed o ≡ ok a → o ≡ some a
indexed-eq-ok none a h = cc
indexed-eq-ok (some b) a h = cc

named-IsScored :
    (probs : List Float) (found : List (Float × ℕ)) (entries : List (String × Float))
    → All (λ (e : Float × ℕ). get_elem? probs e.1 ≡ some e.0) found
    → named found ≡ ok entries
    → All (IsScored probs) entries
named-IsScored probs [] [] all h = tt
named-IsScored probs [] (e ∷ es) all h = cc
named-IsScored probs ((v, i) ∷ rest) [] all h =
    let (name, n, k) = after-eq-ok (indexed (get_elem? class_names i)) _ [] h in
    let (es, m, l) = after-eq-ok (named rest) _ [] k in cc
named-IsScored probs ((v, i) ∷ rest) ((name', v') ∷ es') all h =
    let (name, n, k) = after-eq-ok (indexed (get_elem? class_names i)) _ ((name', v') ∷ es') h in
    let (es, m, l) = after-eq-ok (named rest) _ ((name', v') ∷ es') k in
    let same_name : name ≡ name' = cc in
    let same_value : v ≡ v' = cc in
    let same_rest : es ≡ es' = cc in
    (
      (
        i,
        indexed-eq-ok (get_elem? class_names i) name n ∙ ap some same_name,
        all.0 ∙ ap some same_value,
      ),
      named-IsScored probs rest es' all.1 (m ∙ ap ok same_rest),
    )

module _ (net : Network) (law : IsTopk net) (probs : List Float) (numeric : IsNumeric probs)
    (p : Classified) where
  prediction_of-IsTop :
      (found : List (Float × ℕ))
      → net.topk probs ≡ found
      → All (λ (e : Float × ℕ). get_elem? probs e.1 ≡ some e.0) found
      → prediction_of probs found ≡ ok p
      → IsTop probs p
  prediction_of-IsTop [] t all h = cc
  prediction_of-IsTop ((v, i) ∷ rest) t all h =
      let (scores, s, h1) = after-eq-ok (scores_from probs 0 class_names) _ p h in
      let (top5, n, h2) = after-eq-ok (named ((v, i) ∷ rest)) _ p h1 in
      let (label, l, h3) = after-eq-ok (indexed (get_elem? class_names i)) _ p h2 in
      let (confidence, c, h4) = after-eq-ok (indexed (get_elem? probs i)) _ p h3 in
      let (name, l', n1) = after-eq-ok (indexed (get_elem? class_names i)) _ top5 n in
      let (es, m, n2) = after-eq-ok (named rest) _ top5 n1 in
      let at : get_elem? probs i ≡ some confidence =
        indexed-eq-ok (get_elem? probs i) confidence c in
      let is_label : label ≡ p.label = cc in
      let is_confidence : confidence ≡ p.top1_confidence = cc in
      let is_top5 : top5 ≡ p.top5 = cc in
      let is_value : v ≡ p.top1_confidence = cc (all.0, at, is_confidence) in
      let is_name : name ≡ p.label = cc (l, l', is_label) in
      record {
        index = i;
        name = indexed-eq-ok (get_elem? class_names i) label l ∙ ap some is_label;
        value = at ∙ ap some is_confidence;
        greatest = λ j u k. rw (sym is_value) (law.greatest probs v i rest numeric t j u k);
        first = (es, cc (n2, is_top5, is_name, is_value));
        entries = named-IsScored probs ((v, i) ∷ rest) p.top5 all (n ∙ ap ok is_top5);
      }

-- Where `torch.topk` behaves as documented and no probability is NaN, a classified image has a class
-- of the greatest probability as its label and that probability as its confidence, both stand first
-- in its top five, and every class of the top five has its own probability there.
pub classify-IsTop :
    (net : Network) (bytes : Bytes) (p : Classified)
    → IsTopk net
    → IsNumeric (net.probabilities bytes)
    → classify net bytes ≡ ok p
    → IsTop (net.probabilities bytes) p
unfolding classify
classify-IsTop net [] p law numeric h = cc
classify-IsTop net (b ∷ bytes) p law numeric h =
    let probs = net.probabilities (b ∷ bytes) in
    prediction_of-IsTop net law probs numeric p (net.topk probs) refl (law.at probs) (ground arith)
