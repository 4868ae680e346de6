-- ===== src/Service/Thins.antt =====
-- Actions that store no answer under a key of the response cache: after them the key has the answer
-- that it had, or none. One rule for each way to build an action.
use text.Mathlib.Text.{starts_with}
use dropsort.Prelude.{
  ⊤, ◌≡◌, ◌⊎◌, inl, inr, refl, ap, ◌∙◌, String, Bool, true, false, Option, none, [], ◌∷◌, format,
  if◌then◌else◌,
}
use dropsort.Exec.{Exc, Result, ok, err, pure, raise, raise_if, continue, ◌>>=◌}
use dropsort.Session.{Session, Tx}
use dropsort.Service.{
  World, Action, Cache, Clear, Response, begin, settle, session, clear_cache, load_policy, spin,
}

-- `FastAPICache.clear` as documented: the keys that go on after the namespace and a colon.
abbrev pub IsClear : Clear → Type 0
IsClear clear =
    (namespace : String) (cache : Cache) (key : String)
    → clear namespace cache key
      ≡ (if starts_with key (format (namespace ∷ ":" ∷ [])) then none else cache key)

abbrev pub Thinner : String → World → World → Type 0
Thinner key w w' = (w'.cache key ≡ none) ⊎ (w'.cache key ≡ w.cache key)

pub Thinner-trans :
    (key : String) (u v w : World) → Thinner key u v → Thinner key v w → Thinner key u w
Thinner-trans key u v w a (inl gone) = inl gone
Thinner-trans key u v w (inl gone) (inr same) = inl (same ∙ gone)
Thinner-trans key u v w (inr before) (inr same) = inr (same ∙ before)

pub record Thins {ℓ} {A : Type ℓ} (key : String) (m : Action A) : Type ℓ where
  pub at : (w : World) → Thinner key w (m w).1

pub settle-cache {ℓ} :
    {A : Type ℓ} (x : Result A × Session) (w : World) → (settle x w).1.cache ≡ w.cache
settle-cache (ok a, s) w = refl
settle-cache (err e, s) w = refl

-- A transaction that raises leaves the answers and the tables.
abbrev pub Spared {ℓ} : {A : Type ℓ} → Result A → World → World → Type 0
Spared (ok a) w w' = ⊤
Spared (err e) w w' = (w'.cache ≡ w.cache) × (w'.db ≡ w.db)

settle-Spared {ℓ} :
    {A : Type ℓ} (x : Result A × Session) (w : World) → let (r, w') = settle x w in Spared r w w'
settle-Spared (ok a, s) w = tt
settle-Spared (err e, s) w = (refl, refl)

pub begin-Spared {ℓ} :
    {A : Type ℓ} (m : Tx A) (w : World) → let (r, w') = begin m w in Spared r w w'
unfolding begin
begin-Spared m w = settle-Spared (m (session w)) w

if_cleared :
    (b : Bool) (o : Option Response)
    → ((if b then none else o) ≡ none) ⊎ ((if b then none else o) ≡ o)
if_cleared true o = inl refl
if_cleared false o = inr refl

module _ {ℓ} {A : Type ℓ} (key : String) where
  pub Thins-pure : (a : A) → Thins key (pure a)
  Thins-pure a = record { at = λ w. inr refl }

  pub Thins-raise : (e : Exc) → Thins key (raise {A = A} e)
  Thins-raise e = record { at = λ w. inr refl }

  pub Thins-begin : (m : Tx A) → Thins key (begin m)
  unfolding begin
  Thins-begin m = record {
    at = λ w. inr (ap (λ (c : Cache). c key) (settle-cache (m (session w)) w));
  }

module _ (key : String) where
  pub Thins-spin : Thins key spin
  Thins-spin = record { at = λ w. inr refl }

  pub Thins-raise_if : (b : Bool) (e : Exc) → Thins key (raise_if b e)
  Thins-raise_if b e = record { at = λ w. inr refl }

  pub Thins-load_policy : Thins key load_policy
  Thins-load_policy = record { at = λ w. inr refl }

  pub Thins-clear :
      (clear : Clear)
      → IsClear clear
      → (namespace : String) → Thins key (clear_cache clear namespace)
  Thins-clear clear h namespace = record {
    at = λ w.
        rw (h namespace w.cache key)
          (if_cleared (starts_with key (format (namespace ∷ ":" ∷ []))) (w.cache key));
  }

module _ {ℓ κ} {A : Type ℓ} {B : Type κ} (key : String) where
  continue-Thins :
      (r : Result A) (f : A → Action B) (u v : World)
      → Thinner key u v
      → ((a : A) → Thins key (f a))
      → Thinner key u (continue r f v).1
  continue-Thins (ok a) f u v h k = Thinner-trans key u v (f a v).1 h ((k a).at v)
  continue-Thins (err e) f u v h k = h

  pub Thins-bind :
      (m : Action A) (f : A → Action B)
      → Thins key m
      → ((a : A) → Thins key (f a))
      → Thins key (m >>= f)
  Thins-bind m f km kf = record {
    at = λ w. let (r, v) = m w in continue-Thins r f w v (km.at w) kf;
  }
