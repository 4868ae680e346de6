-- ===== src/Classifier/Golden.antt =====
-- classifier/eval/golden.py: the replay of the golden set.
use dropsort.Prelude.{
  String, ◌≡◌, ◌↔◌, refl, ap, ◌∙◌, Bool, false, Option, none, some, List, [], ◌∷◌, ◌++◌, str_eq,
  eq_iff, if◌then◌else◌, Bool-cases, inl, inr, arith, All,
}
use dropsort.Prelude.Float.{Float, scaled, float_lt}
use dropsort.Prelude.Rounding.{float_distance}
use dropsort.Exec.{Result, ok, err}
use dropsort.Service.{Bytes}
use dropsort.Classifier.{Network, Classified, classify}

-- An entry of golden_expected.json.
pub record Expected : Type 0 where
  pub filename : String
  pub pred_label : String
  pub top1_confidence : Float

-- A line of the report, without its wording.
pub data Failure : Type 0 where
  missing : String → Failure
  label_mismatch : String → String → String → Failure
  confidence_drift : String → Float → Float → Failure

-- `_TOP1_TOLERANCE`, the double nearest to 1e-6
abbrev pub tolerance : Float
tolerance = scaled 4722366482869645 72

-- How far two confidences are apart, `abs(a - b)`.
abbrev pub drifted : Classified → Expected → Bool
drifted p e = float_lt tolerance (float_distance p.top1_confidence e.top1_confidence)

abbrev compared : Expected → Classified → List Failure
compared e p =
    (if str_eq p.label e.pred_label
      then []
      else label_mismatch e.filename e.pred_label p.label ∷ [])
    ++ (if drifted p e
        then confidence_drift e.filename e.top1_confidence p.top1_confidence ∷ []
        else [])

abbrev followed : List Failure → Result (List Failure) → Result (List Failure)
followed found (ok rest) = ok (found ++ rest)
followed found (err x) = err x

module _ (net : Network) (images : String → Option Bytes) where
  abbrev checked : Expected → Result Classified → Result (List Failure)
  checked e (ok p) = ok (compared e p)
  checked e (err x) = err x

  abbrev checked_file : Expected → Option Bytes → Result (List Failure)
  checked_file e none = ok (missing e.filename ∷ [])
  checked_file e (some image) = checked e (classify net image)

  -- An exception of `classify` ends the replay.
  abbrev combine : Result (List Failure) → Result (List Failure) → Result (List Failure)
  combine (ok found) rest = followed found rest
  combine (err x) rest = err x

  -- `run_golden_checks` up to its report: the failures of all entries, in their order
  unfoldable pub golden_failures : List Expected → Result (List Failure)
  golden_failures [] = ok []
  golden_failures (e ∷ es) = combine (checked_file e (images e.filename)) (golden_failures es)

-- The image is there, and is classified as the entry says: with its label, and with a confidence that
-- is not further away than the double nearest to 1e-6.
abbrev pub IsReplayed : Network → (String → Option Bytes) → Expected → Type 0
IsReplayed net images e =
    (image : Bytes) × (p : Classified) × (images e.filename ≡ some image)
    × (classify net image ≡ ok p)
    × (p.label ≡ e.pred_label)
    × (float_lt (scaled 4722366482869645 72) (float_distance p.top1_confidence e.top1_confidence)
        ≡ false)

compared_iff :
    (e : Expected) (p : Classified)
    → (compared e p ≡ []) ↔ ((p.label ≡ e.pred_label) × (drifted p e ≡ false))
compared_iff e p = elim (Bool-cases (str_eq p.label e.pred_label)) [
  | inl t ↦ elim (Bool-cases (drifted p e)) [
    | inl d ↦ rw (t, d) ((λ h. cc), (λ h. cc (h.1)))
    | inr n ↦ rw (t, n) ((λ h. ((eq_iff _ _).0 t, refl)), (λ h. refl))
  ]
  | inr f ↦ rw f ((λ h. cc), (λ h. ground (arith, h.0, eq_iff p.label e.pred_label)))
]

module _ (net : Network) (images : String → Option Bytes) where
  checked_iff :
      (e : Expected) (r : Result Classified)
      → (checked net images e r ≡ ok [])
        ↔ ((p : Classified) × (r ≡ ok p) × (p.label ≡ e.pred_label) × (drifted p e ≡ false))
  checked_iff e (ok p) =
      let (to, from) = compared_iff e p in
      (
        (λ h.
            let quiet : compared e p ≡ [] = cc in
            let (label, close) = to quiet in (p, refl, label, close)),
        (λ (q, same, label, close).
            let one : p ≡ q = cc in
            let agree : (p.label ≡ e.pred_label) × (drifted p e ≡ false) = (
              ap (λ (x : Classified). x.label) one ∙ label,
              ap (λ (x : Classified). drifted x e) one ∙ close,
            ) in
            ap ok (from agree)),
      )
  checked_iff e (err x) = ((λ h. cc), (λ h. cc (h.1)))

  file_iff :
      (e : Expected) (o : Option Bytes)
      → images e.filename ≡ o
      → (checked_file net images e o ≡ ok []) ↔ IsReplayed net images e
  file_iff e none m = ((λ h. cc), (λ h. cc (h.2)))
  file_iff e (some image) m =
      let (to, from) = checked_iff e (classify net image) in
      (
        (λ h. let (p, same, label, close) = to h in (image, p, m, same, label, close)),
        (λ (other, p, here, same, label, close).
            let one : image ≡ other = cc (m) in
            from (p, ap (classify net) one ∙ same, label, close)),
      )

  combine_iff :
      (a b : Result (List Failure)) → (combine net images a b ≡ ok []) ↔ ((a ≡ ok []) × (b ≡ ok []))
  combine_iff (ok []) (ok []) = (λ h. (refl, refl), λ h. refl)
  combine_iff (ok []) (ok (g ∷ rest)) = ((λ h. (refl, h)), (λ h. h.1))
  combine_iff (ok (f ∷ found)) (ok rest) = ((λ h. cc), (λ h. cc (h.0)))
  combine_iff (ok []) (err x) = ((λ h. cc), (λ h. cc (h.1)))
  combine_iff (ok (f ∷ found)) (err x) = ((λ h. cc), (λ h. cc (h.1)))
  combine_iff (err x) b = ((λ h. cc), (λ h. cc (h.0)))

  -- The replay reports no failure and raises nothing exactly where each image is there and the
  -- classifier gives it the expected label and, within the tolerance of 1e-6, the expected
  -- confidence.
  pub golden_failures_iff :
      (es : List Expected)
      → (golden_failures net images es ≡ ok []) ↔ All (IsReplayed net images) es
  unfolding golden_failures
  golden_failures_iff [] = ((λ _. tt), (λ _. refl))
  golden_failures_iff (e ∷ es) =
      let (to, from) = golden_failures_iff es in
      let (first_to, first_from) = file_iff e (images e.filename) refl in
      let (both_to, both_from) =
        combine_iff (checked_file net images e (images e.filename))
          (golden_failures net images es) in
      (
        (λ h. let (a, b) = both_to h in (first_to a, to b)),
        (λ h. both_from (first_from h.0, from h.1)),
      )
