-- ===== src/Services/AuditService.antt =====
-- services/audit_service.py: a page of the audit log with the labels that its readers see.
pub mod Described
use Prim.Native.Char.{code}
use Prim.Native.String.{String, ◌++◌ as append, count}
use dropsort.Prelude.{
  ℕ, ◌+◌, Bool, true, false, ◌&&◌, ◌||◌, not, Option, none, some, List, [], ◌∷◌, map, select, any,
  find?, str_eq, format, prefix, if◌then◌else◌, ◌==◌, leb,
}
use dropsort.Prelude.Uuids.{parse_uuid, is_blank}
use dropsort.Domain.{Uuid, AuditEntryOut, Metadata, MetaValue, text, number, flag}
use dropsort.Exec.{pure, ◌>>=◌, ◌>>◌}
use dropsort.Session.{Tx}
use dropsort.Service.{Action, query}
use dropsort.Repositories.Audit
use dropsort.Repositories.Labels.{
  Labels, get, map_user_display_labels, map_id_to_filename, map_id_to_display_label,
}

-- `value.strip()`
abbrev drop_blanks : String → String
drop_blanks String.[] = ""
drop_blanks (String.◌∷◌ c s) =
    let rest = drop_blanks s in if is_blank (code c) then rest else String.◌∷◌ c s

abbrev trim_end : String → String
trim_end String.[] = ""
trim_end (String.◌∷◌ c s) =
    let rest = trim_end s in if is_blank (code c) && str_eq rest "" then "" else String.◌∷◌ c rest

abbrev clipped : String → String
clipped t = if leb (count t) 13 then t else append (prefix 12 t) "…"

-- `_short`, with its default of 12 characters
unfoldable pub short : String → String
short value = clipped (trim_end (drop_blanks value))

-- `meta.get(key)` where it is a text
abbrev text_of : MetaValue → Option String
text_of (text s) = some s
text_of (number x) = none
text_of (flag b) = none

abbrev text_at : String → Metadata → Option String
text_at key [] = none
text_at key ((k, v) ∷ rest) = if str_eq k key then text_of v else text_at key rest

abbrev pub meta_text : String → Option Metadata → Option String
meta_text key none = none
meta_text key (some meta) = text_at key meta

-- The targets of one type whose identifier is a UUID.
abbrev targets_of : Option Uuid → Bool → List Uuid → List Uuid
targets_of (some tid) true rest = tid ∷ rest
targets_of _ _ rest = rest

unfoldable pub target_ids : String → List AuditEntryOut → List Uuid
target_ids target_type [] = []
target_ids target_type (r ∷ rows) =
    targets_of (parse_uuid r.target_id) (str_eq r.target_type target_type)
      (target_ids target_type rows)

-- `a or b`, `a if a is not None else b`
abbrev pub or_else : Option String → Option String → Option String
or_else (some s) other = some s
or_else none other = other

-- The value of a lookup if it is a text that is not empty.
abbrev pub truthy : Option String → Option String
truthy none = none
truthy (some s) = if str_eq s "" then none else some s

abbrev pub joined : Option String → Option String → Option String
joined (some base) (some filename) =
    if str_eq base "" then some base else some (format (filename ∷ " · " ∷ base ∷ []))
joined base none = base
joined none filename = none

abbrev pub look : (Uuid → Option String) → Option Uuid → Option String
look f none = none
look f (some tid) = f tid

-- The branches for the label of a target: what is found for users, predictions and batches.
abbrev pub target_label :
    (Uuid → Option String)
    → (Uuid → Option String)
    → (Uuid → Option String)
    → Option Uuid
    → AuditEntryOut
    → Option String
target_label users predictions batches tid r =
    if str_eq r.target_type "user"
    then or_else (look users tid) (meta_text "email" r.metadata_jsonb)
    else if str_eq r.target_type "prediction"
    then truthy (look predictions tid)
    else if str_eq r.target_type "batch"
    then joined (look batches tid) (meta_text "filename" r.metadata_jsonb)
    else none

-- The row with its labels; what has none gets the short form of its identifier.
abbrev pub labelled :
    (Uuid → Option String)
    → (Uuid → Option String)
    → (Uuid → Option String)
    → (Uuid → Option String)
    → AuditEntryOut
    → AuditEntryOut
labelled actors users predictions batches r = record r {
  actor_email = actors r.actor_id;
  target_label =
      or_else (target_label users predictions batches (parse_uuid r.target_id) r)
        (some (short r.target_id));
}

-- `_enrich`: four queries for the page, then one pass over its rows.
unfoldable pub enrich : List AuditEntryOut → Tx (List AuditEntryOut)
enrich rows = do
  actor_labels ← map_user_display_labels (map (λ (r : AuditEntryOut). r.actor_id) rows)
  user_target_labels ← map_user_display_labels (target_ids "user" rows)
  pred_filenames ← map_id_to_filename (target_ids "prediction" rows)
  batch_labels ← map_id_to_display_label (target_ids "batch" rows)
  pure (
      map
        (labelled (λ id. get id actor_labels) (λ id. get id user_target_labels)
          (λ id. get id pred_filenames) (λ id. get id batch_labels))
        rows)

abbrev pub audit_page : ℕ → ℕ → Tx (List AuditEntryOut)
audit_page offset limit = do rows ← Audit.list_paginated offset limit; enrich rows

unfoldable pub list_paginated : ℕ → ℕ → Action (List AuditEntryOut)
list_paginated offset limit = query (audit_page offset limit)
