-- ===== src/Api/Health/Healthy.antt =====
-- api/health.py: when each check reports `ok`, and the endpoint 200.
use dropsort.Prelude.{
  ⊤, ℕ, String, ◌≡◌, ◌↔◌, ◌≢◌, refl, Bool, true, false, ◌&&◌, Option, none, some, List, [], ◌∷◌,
  str_eq, format, arith, if◌then◌else◌,
}
use dropsort.Db.{CasbinRule}
use dropsort.Api.Health.{
  Attempt, answered, raised, Probes, tested, connected, counted, unsealed, check_postgres,
  check_redis, check_vault, check_casbin, check_minio, check_classifier, is_ok, health,
}

-- All six dependencies answer as they should.
pub record IsHealthy (p : Probes) : Type 0 where
  pub postgres : p.postgres ≡ answered tt
  pub redis : p.ping ≡ answered true
  pub initialized : p.vault_initialized ≡ answered true
  pub unsealed : p.vault_sealed ≡ answered false
  pub policies :
      (first : CasbinRule) × (rest : List CasbinRule) × (p.policy ≡ answered (first ∷ rest))
  pub bucket : p.bucket_exists ≡ answered true
  pub weights : p.weights_present ≡ answered true

-- When a check reports `ok`.
tested_iff :
    (latency : ℕ) (error : Option String) (a : Attempt Bool)
    → (str_eq (tested latency error a).status "ok" ≡ true) ↔ (a ≡ answered true)
tested_iff latency error (answered true) = (λ _. refl, λ _. refl)
tested_iff latency error (answered false) = ((λ e. cc), (λ e. cc))
tested_iff latency error (raised exc) = ((λ e. cc), (λ e. cc))

connected_iff :
    (latency : ℕ) (a : Attempt ⊤)
    → (str_eq (connected latency a).status "ok" ≡ true) ↔ (a ≡ answered tt)
connected_iff latency (answered u) = (λ _. refl, λ _. refl)
connected_iff latency (raised exc) = ((λ e. cc), (λ e. cc))

abbrev HasRows : Attempt (List CasbinRule) → Type 0
HasRows a = (first : CasbinRule) × (rest : List CasbinRule) × (a ≡ answered (first ∷ rest))

counted_iff :
    (latency : ℕ) (a : Attempt (List CasbinRule))
    → (str_eq (counted latency a).status "ok" ≡ true) ↔ HasRows a
counted_iff latency (answered []) = ((λ e. cc), (λ e. cc (e.2)))
counted_iff latency (answered (r ∷ rs)) = (λ _. (r, rs, refl), λ _. refl)
counted_iff latency (raised exc) = ((λ e. cc), (λ e. cc (e.2)))

unsealed_iff :
    (initialized sealed : Attempt Bool)
    → (unsealed initialized sealed ≡ answered true)
      ↔ ((initialized ≡ answered true) × (sealed ≡ answered false))
unsealed_iff initialized sealed = (λ e. ground arith, λ e. ground arith)

all_six :
    (a b c d e f : Bool)
    → ((a && (b && (c && (d && (e && (f && true))))) ≡ true))
      ↔ ((a ≡ true) × (b ≡ true) × (c ≡ true) × (d ≡ true) × (e ≡ true) × (f ≡ true))
all_six a b c d e f = (λ h. ground arith, λ h. ground arith)

health_ok_iff : (p : Probes) → ((health none p).ok ≡ true) ↔ IsHealthy p
unfolding health check_postgres check_redis check_vault check_casbin check_minio check_classifier
health_ok_iff p =
    let postgres = connected_iff (p.elapsed "postgres") p.postgres in
    let redis = tested_iff (p.elapsed "redis") none p.ping in
    let vault = tested_iff (p.elapsed "vault") none (unsealed p.vault_initialized p.vault_sealed) in
    let open_vault = unsealed_iff p.vault_initialized p.vault_sealed in
    let policy = counted_iff (p.elapsed "casbin_policy") p.policy in
    let bucket =
      tested_iff (p.elapsed "minio") (some (format ("bucket '" ∷ p.bucket_name ∷ "' missing" ∷ [])))
        p.bucket_exists in
    let weights =
      tested_iff (p.elapsed "classifier") (some "classifier.pt missing") p.weights_present in
    let six =
      all_six (is_ok ("postgres", check_postgres p)) (is_ok ("redis", check_redis p))
        (is_ok ("vault", check_vault p)) (is_ok ("casbin_policy", check_casbin p))
        (is_ok ("minio", check_minio p)) (is_ok ("classifier", check_classifier p)) in
    (
      λ e.
          let h = six.0 e in
          let v = open_vault.0 (vault.0 h.2) in
          record {
            postgres = postgres.0 h.0;
            redis = redis.0 h.1;
            initialized = v.0;
            unsealed = v.1;
            policies = policy.0 h.3;
            bucket = bucket.0 h.4;
            weights = weights.0 h.5;
          },
      λ h. six.1 (
        postgres.1 h.postgres,
        redis.1 h.redis,
        vault.1 (open_vault.1 (h.initialized, h.unsealed)),
        policy.1 h.policies,
        bucket.1 h.bucket,
        weights.1 h.weights,
      ),
    )

status_iff : (b : Bool) → (◌≡◌ {A = ℕ} (if b then 200 else 503) 200) ↔ (b ≡ true)
status_iff true = (λ _. refl, λ _. refl)
status_iff false = (λ e. absurd (omega arith), λ e. cc)

refusal_iff : (b : Bool) → (◌≡◌ {A = ℕ} (if b then 200 else 503) 503) ↔ (b ≡ false)
refusal_iff true = (λ e. absurd (omega arith), λ e. cc)
refusal_iff false = (λ _. refl, λ _. refl)

not_true : (b : Bool) → b ≢ true → b ≡ false
not_true true h = absurd (h refl)
not_true false h = refl

-- The service answers 200 exactly where all six dependencies are as they should be, 503 otherwise,
-- and says so in `ok`.
pub health_iff :
    (request_id : Option String) (p : Probes)
    → let h = health request_id p in
      ((h.status_code ≡ 200) ↔ IsHealthy p)
      × ((h.status_code ≡ 503) ↔ (¬ IsHealthy p))
      × ((h.ok ≡ true) ↔ IsHealthy p)
unfolding health
health_iff request_id p =
    let (to, from) = health_ok_iff p in
    let b = (health none p).ok in
    let (code_to, code_from) = status_iff b in
    let (other_to, other_from) = refusal_iff b in
    (
      (λ e. to (code_to e), λ h. code_from (from h)),
      (λ e h. cc (other_to e, from h), λ h. other_from (not_true b (λ e. h (to e)))),
      (to, from),
    )
