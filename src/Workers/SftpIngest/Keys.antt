-- ===== src/Workers/SftpIngest/Keys.antt =====
-- workers/sftp_ingest.py: the keys of the bucket, by the batch identifiers that they hold.
use text.Mathlib.TextLemmas.{append_cancel_left}
use Prim.Native.String.{◌++◌ as append}
use dropsort.Prelude.{
  ℕ, ◌<◌, ◌≤◌, ◌^◌, suc, String, ◌≡◌, ◌≢◌, refl, sym, ap, ◌∙◌, List, [], ◌∷◌, ◌++◌, length, codes,
  uuid_str, arith,
}
use dropsort.Prelude.Uuids.Digits.{codes-append}
use dropsort.Prelude.Uuids.Printed.{length-uuid_str, codes-uuid_str-inj}
use dropsort.Domain.{Uuid}
use dropsort.Session.{Env}
use dropsort.Services.BatchUploadService.{incoming_key}
use dropsort.Workers.SftpIngest.{failed_key}

-- The first identifiers of `uuid4` are UUIDs, and no two of them are the same.
abbrev pub IsUuid4 : Env → ℕ → Type 0
IsUuid4 env limit =
    (m n : ℕ)
    → m < limit
    → n < limit
    → (env.uuid4 m < 2 ^ 128) × (env.uuid4 m ≡ env.uuid4 n → m ≡ n)

prefix-cancel : (xs ys us vs : List ℕ) → length xs ≡ length ys → xs ++ us ≡ ys ++ vs → xs ≡ ys
prefix-cancel [] [] us vs l e = refl
prefix-cancel [] (y ∷ ys) us vs l e = absurd (omega arith)
prefix-cancel (x ∷ xs) [] us vs l e = absurd (omega arith)
prefix-cancel (x ∷ xs) (y ∷ ys) us vs l e =
    let same : x ≡ y = cc in let rest : xs ≡ ys = prefix-cancel xs ys us vs (omega arith) cc in cc

-- Two texts that begin with a UUID.
begins-uuid :
    (u v : Uuid) (s t : String)
    → u < 2 ^ 128
    → v < 2 ^ 128
    → append (uuid_str u) s ≡ append (uuid_str v) t
    → u ≡ v
begins-uuid u v s t hu hv e = codes-uuid_str-inj u v hu hv (
    prefix-cancel (codes (uuid_str u)) (codes (uuid_str v)) (codes s) (codes t)
      (length-uuid_str u ∙ sym (length-uuid_str v))
      (sym (codes-append (uuid_str u) s) ∙ ap codes e ∙ codes-append (uuid_str v) t))

-- The keys of two identifiers.
module _ (u v : Uuid) (small_u : u < 2 ^ 128) (small_v : v < 2 ^ 128) (name name' : String) where
  incoming_key-inj : incoming_key (uuid_str u) name ≡ incoming_key (uuid_str v) name' → u ≡ v
  incoming_key-inj e = begins-uuid u v _ _ small_u small_v (append_cancel_left "incoming/" _ _ e)

  failed_key-inj : failed_key (uuid_str u) name ≡ failed_key (uuid_str v) name' → u ≡ v
  failed_key-inj e = begins-uuid u v _ _ small_u small_v (append_cancel_left "failed/" _ _ e)

abbrev first_code : List ℕ → ℕ
first_code [] = 0
first_code (c ∷ cs) = c

pub incoming_key-failed_key : (a b name name' : String) → incoming_key a name ≢ failed_key b name'
incoming_key-failed_key a b name name' e =
    let same = sym (codes-append "incoming/" _) ∙ ap codes e ∙ codes-append "failed/" _ in
    let letters : ◌≡◌ {A = ℕ} 105 102 = ap first_code same in absurd (omega arith)

-- A key that no identifier from some on gives.
abbrev pub IsApart : Env → ℕ → ℕ → String → Type 0
IsApart env from limit key =
    (n : ℕ)
    → from ≤ n
    → n < limit
    → (name : String)
    → (key ≢ incoming_key (uuid_str (env.uuid4 n)) name)
      × (key ≢ failed_key (uuid_str (env.uuid4 n)) name)

module _ (env : Env) (limit : ℕ) (law : IsUuid4 env limit) (m : ℕ) (below : m < limit)
    (filename : String) where
  pub incoming_key-IsApart :
      IsApart env (suc m) limit (incoming_key (uuid_str (env.uuid4 m)) filename)
  incoming_key-IsApart n from h name = (
    (λ e.
        let same : m ≡ n = (law m n below h).1 (
          incoming_key-inj (env.uuid4 m) (env.uuid4 n) (law m m below below).0 (law n n h h).0
            filename name e) in
        absurd (omega arith)),
    incoming_key-failed_key (uuid_str (env.uuid4 m)) (uuid_str (env.uuid4 n)) filename name,
  )

  pub failed_key-IsApart : IsApart env (suc m) limit (failed_key (uuid_str (env.uuid4 m)) filename)
  failed_key-IsApart n from h name = (
    (λ e.
        incoming_key-failed_key (uuid_str (env.uuid4 n)) (uuid_str (env.uuid4 m)) name filename
          (sym e)),
    (λ e.
        let same : m ≡ n = (law m n below h).1 (
          failed_key-inj (env.uuid4 m) (env.uuid4 n) (law m m below below).0 (law n n h h).0
            filename name e) in
        absurd (omega arith)),
  )
