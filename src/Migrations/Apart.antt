-- ===== src/Migrations/Apart.antt =====
-- A catalog that has nothing of this program: what the revisions leave of it.
use dropsort.Prelude.{
  Bool-cases, inl, inr, eq_iff, String, ◌≡◌, refl, Bool, true, false, not, ◌&&◌, List, [], ◌∷◌, map,
  any, all, select, arith, str_eq,
}
use dropsort.Migrations.Catalog.{
  Column, Table, Index, Catalog, is_named, is_index, refers_to, with_column, without_column,
}

abbrev own_tables : List String
own_tables = "users" ∷ "casbin_rule" ∷ "batches" ∷ "predictions" ∷ "audit_log" ∷ []

abbrev own_indexes : List String
own_indexes =
    "ix_users_email" ∷ "ix_predictions_batch_id" ∷ "ix_predictions_content_sha256"
    ∷ "ix_audit_actor_created" ∷ "ix_audit_target" ∷ []

-- Neither a table of the program nor one that refers to it.
abbrev pub is_other_table : Table → Bool
is_other_table t =
    not (any (str_eq t.name) own_tables) && not (any (λ name. refers_to name t) own_tables)

abbrev pub is_other_index : Index → Bool
is_other_index i = not (any (str_eq i.name) own_indexes) && not (any (str_eq i.table) own_tables)

pub record IsApart (c : Catalog) : Type 0 where
  pub tables : all is_other_table c.tables ≡ true
  pub indexes : all is_other_index c.indexes ≡ true
  pub no_rules : c.casbin_rules ≡ []
  pub no_users : c.users ≡ []

module _ {A : Type 0} (p : A → Bool) where
  pub any_excluded :
      (q : A → Bool) (xs : List A)
      → all p xs ≡ true
      → ((x : A) → p x ≡ true → q x ≡ false)
      → any q xs ≡ false
  any_excluded q [] h f = refl
  any_excluded q (x ∷ xs) h f = ground (arith, f x, any_excluded q xs)

  pub select_kept :
      (q : A → Bool) (xs : List A)
      → all p xs ≡ true
      → ((x : A) → p x ≡ true → q x ≡ true)
      → select q xs ≡ xs
  select_kept q [] h f = refl
  select_kept q (x ∷ xs) h f = ground (arith, f x, select_kept q xs)

  pub map_kept :
      (g : A → A) (xs : List A) → all p xs ≡ true → ((x : A) → p x ≡ true → g x ≡ x) → map g xs ≡ xs
  map_kept g [] h f = refl
  map_kept g (x ∷ xs) h f = ground (arith, f x, map_kept g xs)

excluded :
    (names : List String) (p : String → Bool) (n : String)
    → any (str_eq n) names ≡ true
    → any p names ≡ false
    → p n ≡ false
excluded [] p n h k = cc
excluded (m ∷ names) p n h k = elim (Bool-cases (str_eq n m)) [
  | inl t ↦ let same : n ≡ m = (eq_iff n m).0 t in rw same (ground arith)
  | inr f ↦ ground (arith, excluded names p n)
]

-- A name of one of the tables of the program.
abbrev pub IsOwn : String → Type 0
IsOwn n = any (str_eq n) own_tables ≡ true

other-named : (t : Table) (n : String) → IsOwn n → is_other_table t ≡ true → is_named n t ≡ false
other-named t n own h = excluded own_tables (str_eq t.name) n own (ground arith)

other-refers : (t : Table) (n : String) → IsOwn n → is_other_table t ≡ true → refers_to n t ≡ false
other-refers t n own h = excluded own_tables (λ name. refers_to name t) n own (ground arith)

module _ (c : Catalog) (h : IsApart c) where
  module _ (n : String) (own : IsOwn n) where
    pub no_table : any (is_named n) c.tables ≡ false
    no_table = any_excluded is_other_table (is_named n) c.tables h.tables (λ t. other-named t n own)

    pub no_reference : any (refers_to n) c.tables ≡ false
    no_reference =
        any_excluded is_other_table (refers_to n) c.tables h.tables (λ t. other-refers t n own)

    pub tables_left : select (λ (t : Table). not (is_named n t)) c.tables ≡ c.tables
    tables_left =
        select_kept is_other_table (λ (t : Table). not (is_named n t)) c.tables h.tables
          (λ t o. rw (other-named t n own o) refl)

    pub with_column_left : (k : Column) → map (with_column n k) c.tables ≡ c.tables
    with_column_left k =
        map_kept is_other_table (with_column n k) c.tables h.tables
          (λ t o. rw (other-named t n own o) refl)

    pub without_column_left : (k : String) → map (without_column n k) c.tables ≡ c.tables
    without_column_left k =
        map_kept is_other_table (without_column n k) c.tables h.tables
          (λ t o. rw (other-named t n own o) refl)

    pub indexes_of_left : select (λ (i : Index). not (str_eq i.table n)) c.indexes ≡ c.indexes
    indexes_of_left =
        select_kept is_other_index (λ (i : Index). not (str_eq i.table n)) c.indexes h.indexes
          (λ i o. rw (excluded own_tables (str_eq i.table) n own (ground arith)) refl)

  module _ (n : String) (own : any (str_eq n) own_indexes ≡ true) where
    pub no_index : any (is_index n) c.indexes ≡ false
    no_index =
        any_excluded is_other_index (is_index n) c.indexes h.indexes
          (λ i o. excluded own_indexes (str_eq i.name) n own (ground arith))

    pub indexes_left : select (λ (i : Index). not (is_index n i)) c.indexes ≡ c.indexes
    indexes_left =
        select_kept is_other_index (λ (i : Index). not (is_index n i)) c.indexes h.indexes
          (λ i o. rw (excluded own_indexes (str_eq i.name) n own (ground arith)) refl)

  pub no_column :
      (k : String)
      → any
          (λ (t : Table). is_named "users" t && any (λ (x : Column). str_eq x.name k) t.columns)
          c.tables
        ≡ false
  no_column k =
      any_excluded is_other_table
        (λ (t : Table). is_named "users" t && any (λ (x : Column). str_eq x.name k) t.columns)
        c.tables h.tables (λ t o. rw (other-named t "users" refl o) refl)
