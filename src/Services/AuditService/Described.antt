-- ===== src/Services/AuditService/Described.antt =====
-- services/audit_service.py: the four queries of a page give each row what its own lookups would.
use mathlib.Core.Option
use dropsort.Prelude.{
  ℕ, String, ◌≡◌, ◌≢◌, ◌<◌, ◌^◌, refl, ap, ◌∙◌, sym, true, false, Option, none, some, List, [], ◌∷◌,
  map, str_eq, arith, ==_refl, uuid_str, Memᴰ, Bool-cases, inl, inr, ◌⊎◌, eq_iff, format,
}
use dropsort.Prelude.Uuids.{parse_uuid}
use dropsort.Prelude.Uuids.Printed.{parse_uuid-uuid_str}
use dropsort.Service.{World, query, session}
use dropsort.Db.Order.{newest_first, page}
use dropsort.Repositories.Audit.{audit_out}
use dropsort.Domain.{Uuid, AuditEntryOut}
use dropsort.Db.{Db, AuditLog, User, Batch, Prediction}
use dropsort.Db.Tables.{row}
use dropsort.Exec.{ok}
use dropsort.Session.{Session}
use dropsort.Repositories.Labels.{
  labels, get, is_in, get-labels, user_label, batch_label, map_user_display_labels,
  map_id_to_filename, map_id_to_display_label,
}
use dropsort.Repositories.Audit
use dropsort.Services.AuditService.{
  labelled, target_label, target_ids, enrich, list_paginated, look, joined, truthy, or_else,
  meta_text, short,
}

-- The label of an identifier, by its own row.
abbrev pub user_of : Db → Uuid → Option String
user_of db id = Option.map user_label (row (λ (u : User). u.id) id db.users)

abbrev pub filename_of : Db → Uuid → Option String
filename_of db id =
    Option.map (λ (p : Prediction). p.filename) (row (λ (p : Prediction). p.id) id db.predictions)

abbrev pub batch_of : Db → Uuid → Option String
batch_of db id = Option.map batch_label (row (λ (b : Batch). b.id) id db.batches)

-- A row described by one lookup for its actor and one for its target.
abbrev pub described : Db → AuditEntryOut → AuditEntryOut
described db = labelled (user_of db) (user_of db) (filename_of db) (batch_of db)

is_in-actor :
    (r : AuditEntryOut) (rows : List AuditEntryOut)
    → Memᴰ r rows
    → is_in (map (λ (a : AuditEntryOut). a.actor_id) rows) r.actor_id ≡ true
is_in-actor r [] m = elim m [ ]
is_in-actor r (a ∷ rows) (Memᴰ.head e) = rw (sym e) (ground (arith, ==_refl r.actor_id))
is_in-actor r (a ∷ rows) (Memᴰ.tail m) = ground (arith, is_in-actor r rows m)

is_in-target :
    (t : String) (r : AuditEntryOut) (rows : List AuditEntryOut) (tid : Uuid)
    → Memᴰ r rows
    → str_eq r.target_type t ≡ true
    → parse_uuid r.target_id ≡ some tid
    → is_in (target_ids t rows) tid ≡ true
unfolding target_ids
is_in-target t r [] tid m e h = elim m [ ]
is_in-target t r (a ∷ rows) tid (Memᴰ.head same) e h =
    rw (sym same) (rw (h, e) (ground (arith, ==_refl tid)))
is_in-target t r (a ∷ rows) tid (Memᴰ.tail m) e h = ground (arith, is_in-target t r rows tid m e h)

look-cong :
    (f g : Uuid → Option String) (tid : Option Uuid)
    → ((t : Uuid) → tid ≡ some t → f t ≡ g t)
    → look f tid ≡ look g tid
look-cong f g none h = refl
look-cong f g (some t) h = h t refl

-- Two ways to look targets up that agree on the identifier of a row of their type.
module _ (f g : Uuid → Option String) (r : AuditEntryOut) where
  abbrev Agree : String → Type 0
  Agree t =
      (tid : Uuid)
      → str_eq r.target_type t ≡ true
      → parse_uuid r.target_id ≡ some tid
      → f tid ≡ g tid

  looked :
      (t : String)
      → Agree t
      → str_eq r.target_type t ≡ true
      → look f (parse_uuid r.target_id) ≡ look g (parse_uuid r.target_id)
  looked t h e = look-cong f g (parse_uuid r.target_id) (λ tid. h tid e)

module _ (users users' predictions predictions' batches batches' : Uuid → Option String)
    (r : AuditEntryOut) where
  target_label-cong :
      Agree users users' r "user"
      → Agree predictions predictions' r "prediction"
      → Agree batches batches' r "batch"
      → target_label users predictions batches (parse_uuid r.target_id) r
        ≡ target_label users' predictions' batches' (parse_uuid r.target_id) r
  target_label-cong hu hp hb = elim (Bool-cases (str_eq r.target_type "user")) [
    | inl u ↦ rw u (
        ap (λ (x : Option String). or_else x (meta_text "email" r.metadata_jsonb))
          (looked users users' r "user" hu u))
    | inr u ↦ elim (Bool-cases (str_eq r.target_type "prediction")) [
      | inl p ↦ rw (u, p) (ap truthy (looked predictions predictions' r "prediction" hp p))
      | inr p ↦ elim (Bool-cases (str_eq r.target_type "batch")) [
        | inl b ↦
            rw (u, p, b)
              (ap (λ (x : Option String). joined x (meta_text "filename" r.metadata_jsonb))
                (looked batches batches' r "batch" hb b))
        | inr b ↦ rw (u, p, b) refl
      ]
    ]
  ]

-- Mapping two functions that agree on the items.
map-agree :
    {A B : Type 0} (f g : A → B) (xs : List A)
    → ((a : A) → Memᴰ a xs → f a ≡ g a)
    → map f xs ≡ map g xs
map-agree f g [] h = refl
map-agree {B} f g (x ∷ xs) h =
    ap (λ (y : B). y ∷ map f xs) (h x (Memᴰ.head refl))
    ∙ ap (λ (ys : List B). g x ∷ ys) (map-agree f g xs (λ a m. h a (Memᴰ.tail m)))

abbrev with_labels : AuditEntryOut → Option String → Option String → AuditEntryOut
with_labels r actor target = record r {
  actor_email = actor;
  target_label = or_else target (some (short r.target_id));
}

module _ (db : Db) (rows : List AuditEntryOut) where
  abbrev by_page : AuditEntryOut → AuditEntryOut
  by_page =
      labelled
        (λ id. get id (
          labels (λ (u : User). u.id) user_label (map (λ (r : AuditEntryOut). r.actor_id) rows)
            db.users))
        (λ id. get id (labels (λ (u : User). u.id) user_label (target_ids "user" rows) db.users))
        (λ id. get id (
          labels (λ (p : Prediction). p.id) (λ (p : Prediction). p.filename)
            (target_ids "prediction" rows) db.predictions))
        (λ id.
          get id (labels (λ (b : Batch). b.id) batch_label (target_ids "batch" rows) db.batches))

  abbrev page_target : AuditEntryOut → Option String
  page_target r =
      target_label
        (λ id. get id (labels (λ (u : User). u.id) user_label (target_ids "user" rows) db.users))
        (λ id. get id (
          labels (λ (p : Prediction). p.id) (λ (p : Prediction). p.filename)
            (target_ids "prediction" rows) db.predictions))
        (λ id.
          get id (labels (λ (b : Batch). b.id) batch_label (target_ids "batch" rows) db.batches))
        (parse_uuid r.target_id) r

  by_page-described : (r : AuditEntryOut) → Memᴰ r rows → by_page r ≡ described db r
  by_page-described r m =
      let actor =
        get-labels (λ (u : User). u.id) user_label r.actor_id
          (map (λ (a : AuditEntryOut). a.actor_id) rows) db.users (is_in-actor r rows m) in
      let target =
        target_label-cong _ (user_of db) _ (filename_of db) _ (batch_of db) r
          (λ tid e h.
            get-labels (λ (u : User). u.id) user_label tid (target_ids "user" rows) db.users
              (is_in-target "user" r rows tid m e h))
          (λ tid e h.
            get-labels (λ (p : Prediction). p.id) (λ (p : Prediction). p.filename) tid
              (target_ids "prediction" rows) db.predictions
              (is_in-target "prediction" r rows tid m e h))
          (λ tid e h.
            get-labels (λ (b : Batch). b.id) batch_label tid (target_ids "batch" rows) db.batches
              (is_in-target "batch" r rows tid m e h)) in
      ap (λ (a : Option String). with_labels r a (page_target r)) actor
      ∙ ap (λ (t : Option String). with_labels r (user_of db r.actor_id) t) target

enrich-described :
    (rows : List AuditEntryOut) (s : Session) → enrich rows s ≡ (ok (map (described s.db) rows), s)
unfolding enrich map_user_display_labels map_id_to_filename map_id_to_display_label
enrich-described rows s =
    ap (λ (out : List AuditEntryOut). (ok out, s))
      (map-agree (by_page s.db rows) (described s.db) rows (by_page-described s.db rows))

-- The rows of a page, the newest first.
abbrev pub page_rows : ℕ → ℕ → Db → List AuditEntryOut
page_rows offset limit db =
    map audit_out (page offset limit (newest_first (λ (a : AuditLog). a.created_at) db.audit_log))

-- A page of the audit log is its rows, the newest first, each described by the lookups of its own
-- actor and target, though the code makes four queries for the whole page; the tables stay.
pub list_paginated-described :
    (offset limit : ℕ) (w : World)
    → let (r, w') = list_paginated offset limit w in
      (r ≡ ok (map (described w.db) (page_rows offset limit w.db))) × (w'.db ≡ w.db)
unfolding list_paginated query Audit.list_paginated
list_paginated-described offset limit w =
    let e = enrich-described (page_rows offset limit w.db) (session w) in rw e (refl, refl)

-- The name of a target that is in the tables: an account's address or that it is removed, the file
-- of a prediction, and the external name of a batch behind the file that the entry names.
abbrev pub Names : Db → Uuid → AuditEntryOut → String → Type 0
Names db k r name =
    ((u : User) × (r.target_type ≡ "user")
      × (row (λ (v : User). v.id) k db.users ≡ some u)
      × (name ≡ user_label u))
    ⊎ (((p : Prediction) × (r.target_type ≡ "prediction")
          × (row (λ (q : Prediction). q.id) k db.predictions ≡ some p)
          × (p.filename ≢ "")
          × (name ≡ p.filename))
        ⊎ ((b : Batch) × (external filename : String) × (r.target_type ≡ "batch")
            × (row (λ (c : Batch). c.id) k db.batches ≡ some b)
            × (b.external_id ≡ some external)
            × (external ≢ "")
            × (meta_text "filename" r.metadata_jsonb ≡ some filename)
            × (name ≡ format (filename ∷ " · " ∷ external ∷ []))))

different : (s t : String) → s ≢ t → str_eq s t ≡ false
different s t h = elim (Bool-cases (str_eq s t)) [
  | inl e ↦ absurd (h ((eq_iff s t).0 e))
  | inr e ↦ e
]

pub described-target :
    (db : Db) (k : Uuid) (r : AuditEntryOut) (name : String)
    → k < 2 ^ 128
    → r.target_id ≡ uuid_str k
    → Names db k r name
    → (described db r).target_label ≡ some name
described-target db k r name h e (inl (u, t, found, n)) =
    let tid : parse_uuid r.target_id ≡ some k = ap parse_uuid e ∙ parse_uuid-uuid_str k h in
    rw (t, tid, found, n) refl
described-target db k r name h e (inr (inl (p, t, found, file, n))) =
    let tid : parse_uuid r.target_id ≡ some k = ap parse_uuid e ∙ parse_uuid-uuid_str k h in
    rw (t, tid, found, n, different p.filename "" file) refl
described-target db k r name h e
      (inr (inr (b, external, filename, t, found, ext, some_name, m, n))) =
    let tid : parse_uuid r.target_id ≡ some k = ap parse_uuid e ∙ parse_uuid-uuid_str k h in
    let fresh = different external "" some_name in rw (t, tid, found, ext, fresh, m, fresh, n) refl
