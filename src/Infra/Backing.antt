-- ===== src/Infra/Backing.antt =====
-- The objects that were put into the bucket for the jobs of the queue, at some time.
use dropsort.Prelude.{
  String, ◌≡◌, Bool, true, ◌&&◌, List, [], ◌∷◌, ◌++◌, arith, any, all, str_eq, all_mono,
  all-append_one, eq_refl,
}
use dropsort.Service.{StoredObject, Job, Bytes}
use dropsort.Pipeline.{Content}

abbrev pub holds : Content → String → String → StoredObject → Bool
holds content key sha o = str_eq o.key key && str_eq (content.sha256 o.content) sha

abbrev pub is_backed : Content → List StoredObject → Job → Bool
is_backed content objects j = any (holds content j.object_key j.content_sha256) objects

abbrev pub Backed : Content → List StoredObject → List Job → Type 0
Backed content objects jobs = all (is_backed content objects) jobs ≡ true

module _ (content : Content) where
  pub Backed-store :
      (o : StoredObject) (objects : List StoredObject) (jobs : List Job)
      → Backed content objects jobs
      → Backed content (o ∷ objects) jobs
  Backed-store o objects jobs h =
      all_mono (is_backed content objects) (is_backed content (o ∷ objects)) (λ j k. ground arith)
        jobs h

  pub holds_stored :
      (key content_type : String) (bytes : Bytes) (objects : List StoredObject)
      → any
          (holds content key (content.sha256 bytes))
          (record { key = key; content = bytes; content_type = content_type } ∷ objects)
        ≡ true
  holds_stored key content_type bytes objects =
      ground (arith, eq_refl key, eq_refl (content.sha256 bytes))

  pub Backed-push :
      (j : Job) (objects : List StoredObject) (jobs : List Job)
      → Backed content objects jobs
      → is_backed content objects j ≡ true
      → Backed content objects (jobs ++ j ∷ [])
  Backed-push j objects jobs h k = all-append_one (is_backed content objects) jobs j h k
