-- ===== src/Db/Invariant/Log.antt =====
-- The rows that refer to users, when accounts or the audit log change.
use dropsort.Prelude.{
  ◌≡◌, ◌∙◌, true, false, not, ◌||◌, Option, none, some, List, [], ◌∷◌, ◌++◌, arith, all-append_one,
  all_mono,
}
use dropsort.Domain.{Uuid}
use dropsort.Db.{User, AuditLog, Batch, Prediction}
use dropsort.Db.Tables.{has, has-replace, has-append, replace, append-IsKeyed}
use dropsort.Db.Invariant.{
  AuditValid, PredictionsValid, user_id, audit_id, by_known, relabelled_by_known, known_actor,
}

-- Every account of `users` is one of `users'`.
abbrev pub Keeps : List User → List User → Type 0
Keeps users users' = (k : Uuid) → has user_id k users ≡ true → has user_id k users' ≡ true

pub replace-Keeps : (u : User) (users : List User) → Keeps users (replace user_id u users)
replace-Keeps u users k h = has-replace user_id k u users ∙ h

pub append-Keeps : (u : User) (users : List User) → Keeps users (users ++ u ∷ [])
append-Keeps u users k h = has-append user_id k u users h

module _ (users users' : List User) (keep : Keeps users users') where
  pub AuditValid-Keeps : (log : List AuditLog) → AuditValid users log → AuditValid users' log
  AuditValid-Keeps log h = record {
    keyed = h.keyed;
    actors = all_mono (by_known users) (by_known users') (λ a. keep a.actor_id) log h.actors;
  }

  known_actor-Keeps : (a : Option Uuid) → known_actor users a ≡ true → known_actor users' a ≡ true
  known_actor-Keeps none h = h
  known_actor-Keeps (some a) h = keep a h

  pub PredictionsValid-Keeps :
      (batches : List Batch) (ps : List Prediction)
      → PredictionsValid users batches ps
      → PredictionsValid users' batches ps
  PredictionsValid-Keeps batches ps h = record {
    keyed = h.keyed;
    hashes = h.hashes;
    in_batches = h.in_batches;
    actors =
        all_mono (relabelled_by_known users) (relabelled_by_known users')
          (λ p. known_actor-Keeps p.relabel_actor_id) ps h.actors;
  }

pub append-AuditValid :
    (users : List User) (a : AuditLog) (log : List AuditLog)
    → AuditValid users log
    → (has audit_id a.id log || not (has user_id a.actor_id users)) ≡ false
    → AuditValid users (log ++ a ∷ [])
append-AuditValid users a log h new = record {
  keyed = append-IsKeyed audit_id a log h.keyed (ground arith);
  actors = all-append_one (by_known users) log a h.actors (ground arith);
}
