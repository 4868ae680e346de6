-- ===== src/Infra/Live.antt =====
-- The objects that MinIO gives back: of the objects put under a key, the newest.
use dropsort.Prelude.{
  String, ◌≡◌, ◌≢◌, refl, sym, ap, ◌∙◌, Bool, true, false, Option, none, some, List, [], ◌∷◌, ◌++◌,
  find?, all, str_eq, eq_iff, eq_refl, all_mono, all-append_one, find?-Mem, Memᴰ, Bool-cases,
  Option-cases, inl, inr, arith,
}
use dropsort.Service.{StoredObject, Job}
use dropsort.Pipeline.{Content}

abbrev pub object_under : String → List StoredObject → Option StoredObject
object_under key objects = find? (λ (o : StoredObject). str_eq o.key key) objects

-- No object has the key.
abbrev pub IsUnused : String → List StoredObject → Type 0
IsUnused key objects = (o : StoredObject) → Memᴰ o objects → o.key ≢ key

-- The object under the key of the job has the content of its hash.
abbrev pub is_of : Content → Job → Option StoredObject → Bool
is_of content j none = false
is_of content j (some o) = str_eq (content.sha256 o.content) j.content_sha256

abbrev pub is_ready : Content → List StoredObject → Job → Bool
is_ready content objects j = is_of content j (object_under j.object_key objects)

abbrev pub AllReady : Content → List StoredObject → List Job → Type 0
AllReady content objects jobs = all (is_ready content objects) jobs ≡ true

-- An object that is put under an unused key hides none.
pub object_under-store :
    (key : String) (o found : StoredObject) (objects : List StoredObject)
    → IsUnused o.key objects
    → object_under key objects ≡ some found
    → object_under key (o ∷ objects) ≡ some found
object_under-store key o found objects unused h =
    let (m, t) = find?-Mem (λ (x : StoredObject). str_eq x.key key) found objects h in
    elim (Bool-cases (str_eq o.key key)) [
      | inl b ↦ absurd (unused found m ((eq_iff found.key key).0 t ∙ sym ((eq_iff o.key key).0 b)))
      | inr b ↦ rw b h
    ]

pub object_under-head :
    (o : StoredObject) (objects : List StoredObject) → object_under o.key (o ∷ objects) ≡ some o
object_under-head o objects = rw (eq_refl o.key) refl

module _ (content : Content) where
  pub AllReady-store :
      (o : StoredObject) (objects : List StoredObject) (jobs : List Job)
      → IsUnused o.key objects
      → AllReady content objects jobs
      → AllReady content (o ∷ objects) jobs
  AllReady-store o objects jobs unused h =
      all_mono (is_ready content objects) (is_ready content (o ∷ objects))
        (λ j k. elim (Option-cases (object_under j.object_key objects)) [
          | inl e ↦ absurd (ground (arith, e))
          | inr (found, e) ↦
              ap (is_of content j) (object_under-store j.object_key o found objects unused e)
              ∙ sym (ap (is_of content j) e)
              ∙ k
        ])
        jobs h

  pub AllReady-push :
      (j : Job) (objects : List StoredObject) (jobs : List Job)
      → AllReady content objects jobs
      → is_ready content objects j ≡ true
      → AllReady content objects (jobs ++ j ∷ [])
  AllReady-push j objects jobs h k = all-append_one (is_ready content objects) jobs j h k
