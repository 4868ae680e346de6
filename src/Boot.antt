-- ===== src/Boot.antt =====
-- app/main.py (lifespan), app/core/boot_checks.py, app/core/vault.py and the boot of
-- app/workers/inference_worker.py: what must hold before a process starts.
use dropsort.Prelude.{
  ℕ, String, ◌≡◌, ◌≢◌, ◌↔◌, Bool, true, false, not, Option, none, some, str_eq, if◌then◌else◌, ◌==◌,
  is_some, arith, Option-cases, inl, inr, eq_iff,
}
use dropsort.Prelude.Float.{Float, float_lt}
use dropsort.Service.{Bytes}
use dropsort.Pipeline.{Content}

-- `model_card.json`, as far as it is read.
pub record ModelCard : Type 0 where
  pub weights_sha256 : String
  pub test_top1 : Float

-- What the process finds: whether the settings are valid, whether Vault authenticates the token and
-- gives the five secrets, whether the clients of PostgreSQL and Redis can be made and
-- `FastAPILimiter.init` reaches Redis, whether PostgreSQL answers the two reads of the policy, the rows
-- of the policy, the weights and the model card on the disk.
pub record Machine : Type 0 where
  pub configured : Bool
  pub authenticated : Bool
  pub readable : Bool
  pub limiter_ready : Bool
  pub database_answers : Bool
  pub policy_rows : ℕ
  pub weights : Option Bytes
  pub card : Option ModelCard

pub data BootError : Type 0 where
  settings_invalid : BootError
  vault_unreachable : BootError
  redis_unreachable : BootError
  database_unreachable : BootError
  policy_empty : BootError
  weights_missing : BootError
  card_missing : BootError
  sha_mismatch : BootError
  top1_too_low : BootError

-- The first refusal of two.
abbrev orelse : Option BootError → Option BootError → Option BootError
orelse none y = y
orelse (some e) y = some e

-- `resolve_secrets`
abbrev pub resolve_secrets : Machine → Option BootError
resolve_secrets m =
    if not m.authenticated
    then some vault_unreachable
    else (if m.readable then none else some vault_unreachable)

-- `get_settings`
abbrev get_settings : Machine → Option BootError
get_settings m = if m.configured then none else some settings_invalid

-- The clients and the limiter
abbrev connect : Machine → Option BootError
connect m = if m.limiter_ready then none else some redis_unreachable

-- BOOT-02 in the lifespan: the count of the rows and the load of the policy raise where PostgreSQL
-- does not answer.
abbrev pub check_policy : Machine → Option BootError
check_policy m =
    if not m.database_answers
    then some database_unreachable
    else (if m.policy_rows == 0 then some policy_empty else none)

abbrev pub verify_classifier_present : Machine → Option BootError
verify_classifier_present m = if is_some m.weights then none else some weights_missing

abbrev compare_sha : Content → Option Bytes → ModelCard → Option BootError
compare_sha content none card = some weights_missing
compare_sha content (some bytes) card =
    if str_eq (content.sha256 bytes) card.weights_sha256 then none else some sha_mismatch

abbrev sha_of_card : Content → Option Bytes → Option ModelCard → Option BootError
sha_of_card content weights none = some card_missing
sha_of_card content weights (some card) = compare_sha content weights card

abbrev pub verify_classifier_sha : Content → Machine → Option BootError
verify_classifier_sha content m = sha_of_card content m.weights m.card

abbrev top1_of_card : Float → Option ModelCard → Option BootError
top1_of_card min_top1 none = some card_missing
top1_of_card min_top1 (some card) =
    if float_lt card.test_top1 min_top1 then some top1_too_low else none

abbrev pub verify_classifier_top1_above_threshold : Float → Machine → Option BootError
verify_classifier_top1_above_threshold min_top1 m = top1_of_card min_top1 m.card

-- `run_boot_checks` of the inference worker
unfoldable pub run_boot_checks : Content → Float → Machine → Option BootError
run_boot_checks content min_top1 m =
    orelse (verify_classifier_present m)
      (orelse (verify_classifier_sha content m) (verify_classifier_top1_above_threshold min_top1 m))

-- `lifespan` of the API: the first refusal, in the order of the code
unfoldable pub lifespan : Content → Float → Machine → Option BootError
lifespan content min_top1 m = orelse (get_settings m) (
    orelse (resolve_secrets m) (
      orelse (connect m) (
        orelse (check_policy m) (
          orelse (verify_classifier_present m) (
            orelse (verify_classifier_sha content m)
              (verify_classifier_top1_above_threshold min_top1 m))))))

-- The weights are there, they are those of the card, and the card's accuracy is not too low.
pub record HasClassifier (content : Content) (min_top1 : Float) (m : Machine) : Type 0 where
  pub bytes : Bytes
  pub model_card : ModelCard
  pub weights_lem : m.weights ≡ some bytes
  pub card_lem : m.card ≡ some model_card
  pub same : content.sha256 bytes ≡ model_card.weights_sha256
  pub enough : float_lt model_card.test_top1 min_top1 ≡ false

module _ (content : Content) (min_top1 : Float) (m : Machine) where
  worker_of : run_boot_checks content min_top1 m ≡ none → HasClassifier content min_top1 m
  unfolding run_boot_checks
  worker_of h = elim (Option-cases m.weights) [
    | inl n ↦ (let absurd : ⊥ = ground arith in elim absurd [ ])
    | inr (bytes, n) ↦ elim (Option-cases m.card) [
      | inl k ↦ (let absurd : ⊥ = ground arith in elim absurd [ ])
      | inr (card, k) ↦ record {
        bytes = bytes;
        model_card = card;
        weights_lem = n;
        card_lem = k;
        same = ground (arith, eq_iff (content.sha256 bytes) card.weights_sha256);
        enough = ground (arith, eq_iff (content.sha256 bytes) card.weights_sha256);
      }
    ]
  ]

  of_worker : HasClassifier content min_top1 m → run_boot_checks content min_top1 m ≡ none
  unfolding run_boot_checks
  of_worker h = ground (
    arith,
    h.weights_lem,
    h.card_lem,
    h.enough,
    h.same,
    eq_iff (content.sha256 h.bytes) h.model_card.weights_sha256,
  )

  -- The API starts exactly where its settings are valid, Vault answers, Redis and PostgreSQL answer,
  -- the policy has a row, and the classifier is the one of its card and accurate enough.
  pub lifespan_iff : (lifespan content min_top1 m ≡ none) ↔ (
      (m.configured ≡ true)
      × (m.authenticated ≡ true)
      × (m.readable ≡ true)
      × (m.limiter_ready ≡ true)
      × (m.database_answers ≡ true)
      × (m.policy_rows ≢ 0)
      × HasClassifier content min_top1 m)
  unfolding lifespan run_boot_checks
  lifespan_iff = (
    λ h. (
      ground arith,
      ground arith,
      ground arith,
      ground arith,
      ground arith,
      ground arith,
      worker_of (ground arith),
    ),
    λ h. let (s, a, r, l, d, p, k) = h in ground (arith, of_worker k),
  )
