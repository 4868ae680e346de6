-- ===== src/Api/Health.antt =====
-- api/health.py, and `health_check` of core/vault.py: six dependencies are asked one after the other.
pub mod Healthy
use dropsort.Prelude.{
  ⊤, ℕ, String, ◌≡◌, ◌↔◌, ◌≢◌, refl, Bool, true, false, not, ◌&&◌, Option, none, some, List, [],
  ◌∷◌, all, str_eq, format, prefix, length, arith, if◌then◌else◌,
}
use dropsort.Db.{CasbinRule}

-- What a call of a dependency comes to: a value, or the text of an exception.
pub data Attempt {ℓ} (A : Type ℓ) : Type ℓ where
  answered : A → Attempt A
  raised : String → Attempt A

-- The dependencies at the time of the request: what each call gives, and the milliseconds it takes.
pub record Probes : Type 0 where
  pub postgres : Attempt ⊤
  pub ping : Attempt Bool
  pub vault_initialized : Attempt Bool
  pub vault_sealed : Attempt Bool
  pub policy : Attempt (List CasbinRule)
  pub bucket_name : String
  pub bucket_exists : Attempt Bool
  pub weights_present : Attempt Bool
  pub elapsed : String → ℕ

-- The dictionary that a check returns.
pub record Report : Type 0 where
  pub status : String
  pub latency_ms : ℕ
  pub error : Option String
  pub policy_count : Option ℕ

abbrev pub status_of : Bool → String
status_of test = if test then "ok" else "fail"

abbrev pub report : Bool → ℕ → Option String → Option ℕ → Report
report test latency error policy_count = record {
  status = status_of test;
  latency_ms = latency;
  error = error;
  policy_count = policy_count;
}

-- `except Exception as exc`
abbrev pub failed : ℕ → String → Report
failed latency exc = report false latency (some (prefix 200 exc)) none

abbrev pub tested : ℕ → Option String → Attempt Bool → Report
tested latency error (answered b) = report b latency (if b then none else error) none
tested latency error (raised exc) = failed latency exc

abbrev pub connected : ℕ → Attempt ⊤ → Report
connected latency (answered u) = report true latency none none
connected latency (raised exc) = failed latency exc

-- The truth value of a list.
abbrev pub is_nonempty : List CasbinRule → Bool
is_nonempty [] = false
is_nonempty (r ∷ rs) = true

abbrev pub counted : ℕ → Attempt (List CasbinRule) → Report
counted latency (answered policies) =
    report (is_nonempty policies) latency none (some (length policies))
counted latency (raised exc) = failed latency exc

-- `client.sys.is_initialized() and not client.sys.is_sealed()`
abbrev pub unsealed : Attempt Bool → Attempt Bool → Attempt Bool
unsealed (raised exc) sealed = raised exc
unsealed (answered false) sealed = answered false
unsealed (answered true) (raised exc) = raised exc
unsealed (answered true) (answered b) = answered (not b)

module _ (p : Probes) where
  unfoldable pub check_postgres : Report
  check_postgres = connected (p.elapsed "postgres") p.postgres

  unfoldable pub check_redis : Report
  check_redis = tested (p.elapsed "redis") none p.ping

  -- `health_check` of core/vault.py
  unfoldable pub check_vault : Report
  check_vault = tested (p.elapsed "vault") none (unsealed p.vault_initialized p.vault_sealed)

  unfoldable pub check_casbin : Report
  check_casbin = counted (p.elapsed "casbin_policy") p.policy

  unfoldable pub check_minio : Report
  check_minio =
      tested (p.elapsed "minio") (some (format ("bucket '" ∷ p.bucket_name ∷ "' missing" ∷ [])))
        p.bucket_exists

  unfoldable pub check_classifier : Report
  check_classifier =
      tested (p.elapsed "classifier") (some "classifier.pt missing") p.weights_present

pub record Health : Type 0 where
  pub status_code : ℕ
  pub ok : Bool
  pub request_id : Option String
  pub deps : List (String × Report)

abbrev pub is_ok : String × Report → Bool
is_ok (name, r) = str_eq r.status "ok"

unfoldable pub health : Option String → Probes → Health
health request_id p =
    let deps : List (String × Report) =
      ("postgres", check_postgres p)
      ∷ ("redis", check_redis p)
      ∷ ("vault", check_vault p)
      ∷ ("casbin_policy", check_casbin p)
      ∷ ("minio", check_minio p)
      ∷ ("classifier", check_classifier p)
      ∷ [] in
    let all_ok = all is_ok deps in
    record {
      status_code = if all_ok then 200 else 503;
      ok = all_ok;
      request_id = request_id;
      deps = deps;
    }
