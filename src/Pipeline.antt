-- ===== src/Pipeline.antt =====
-- app/pipeline/tiff_ingest.py: the validation that the browser upload and the SFTP ingest share.
use dropsort.Prelude.{
  ℕ, ◌*◌, String, ◌≡◌, ◌≢◌, ◌↔◌, ◌≤◌, refl, Bool, true, not, ◌||◌, Option, none, some, length,
  str_eq, if◌then◌else◌, ltb, ◌==◌, arith, ◌⊎◌, inl, inr, ◌<◌, Bool-cases, eq_iff,
}
use dropsort.Prelude.Paths.{path_suffix, lower}
use dropsort.Service.{Bytes}

-- What Pillow says of some bytes: `Image.open` and `verify` return, raise `UnidentifiedImageError`,
-- or raise something else.
pub data ImageCheck : Type 0 where
  verified unidentified broken : ImageCheck

-- What is not under src/: the hexadecimal SHA-256 of hashlib and the check of Pillow.
pub record Content : Type 0 where
  pub sha256 : Bytes → String
  pub image : Bytes → ImageCheck

abbrev image_reason : ImageCheck → Option String
image_reason verified = none
image_reason unidentified = some "not_an_image"
image_reason broken = some "image_validation_failed"

abbrev pub is_tiff_name : String → Bool
is_tiff_name filename =
    let extension = lower (path_suffix filename) in
    str_eq extension ".tif" || str_eq extension ".tiff"

-- `validate_tiff`: the reason of a refusal. `max_mb` is the setting `pipeline_max_file_size_mb`.
unfoldable pub validate_tiff : Content → ℕ → String → Bytes → Option String
unfolding lower
validate_tiff content max_mb filename bytes =
    if length bytes == 0
    then some "zero_byte_file"
    else (if ltb (max_mb * 1024 * 1024) (length bytes)
        then some "file_too_large"
        else (if not (is_tiff_name filename)
            then some "unsupported_extension"
            else image_reason (content.image bytes)))

-- The suffix of the name, in lower case, is one of the two.
abbrev pub IsTiffName : String → Type 0
unfolding lower
IsTiffName filename =
    (lower (path_suffix filename) ≡ ".tif") ⊎ (lower (path_suffix filename) ≡ ".tiff")

abbrev pub IsAccepted : Content → ℕ → String → Bytes → Type 0
IsAccepted content max_mb filename bytes =
    (length bytes ≢ 0)
    × (length bytes ≤ max_mb * 1024 * 1024)
    × IsTiffName filename
    × (content.image bytes ≡ verified)

image_reason-verified : (c : ImageCheck) → image_reason c ≡ none → c ≡ verified
image_reason-verified verified h = refl
image_reason-verified unidentified h = cc
image_reason-verified broken h = cc

is_tiff_name_iff : (filename : String) → (is_tiff_name filename ≡ true) ↔ IsTiffName filename
unfolding lower
is_tiff_name_iff filename =
    let extension = lower (path_suffix filename) in
    (
      (λ h. elim (Bool-cases (str_eq extension ".tif")) [
        | inl t ↦ inl ((eq_iff extension ".tif").0 t)
        | inr f ↦ inr ((eq_iff extension ".tiff").0 (ground arith))
      ]),
      (λ h. elim h [
        | inl e ↦ (let t = (eq_iff extension ".tif").1 e in ground arith)
        | inr e ↦ (let t = (eq_iff extension ".tiff").1 e in ground arith)
      ]),
    )

pub validate_tiff_iff :
    (content : Content) (max_mb : ℕ) (filename : String) (bytes : Bytes)
    → (validate_tiff content max_mb filename bytes ≡ none)
      ↔ IsAccepted content max_mb filename bytes
unfolding validate_tiff
validate_tiff_iff content max_mb filename bytes =
    let (to, from) = is_tiff_name_iff filename in
    (
      (λ h. (
        ground arith,
        ground arith,
        to (ground arith),
        ground (arith, image_reason-verified (content.image bytes)),
      )),
      (λ (some_bytes, small, name, image). let named = from name in ground arith),
    )

-- What a reason says of the file.
abbrev pub Explains : Content → ℕ → String → Bytes → String → Type 0
Explains content max_mb filename bytes reason =
    let limit = max_mb * 1024 * 1024 in
    ((reason ≡ "zero_byte_file") × (length bytes ≡ 0))
    ⊎ (((reason ≡ "file_too_large") × (limit < length bytes))
        ⊎ (((reason ≡ "unsupported_extension")
              × (length bytes ≢ 0)
              × (length bytes ≤ limit)
              × (¬ IsTiffName filename))
            ⊎ (((reason ≡ "not_an_image")
                  × IsTiffName filename
                  × (content.image bytes ≡ unidentified))
                ⊎ ((reason ≡ "image_validation_failed")
                    × IsTiffName filename
                    × (content.image bytes ≡ broken)))))

module _ (content : Content) (max_mb : ℕ) (filename : String) (bytes : Bytes) where
  image-Explains :
      (c : ImageCheck) (reason : String)
      → content.image bytes ≡ c
      → IsTiffName filename
      → image_reason c ≡ some reason
      → Explains content max_mb filename bytes reason
  image-Explains verified reason e name h = cc
  image-Explains unidentified reason e name h = inr (inr (inr (inl (cc, name, e))))
  image-Explains broken reason e name h = inr (inr (inr (inr (cc, name, e))))

  refused-Explains :
      (reason : String)
      → validate_tiff content max_mb filename bytes ≡ some reason
      → Explains content max_mb filename bytes reason
  unfolding validate_tiff
  refused-Explains reason h =
      let (to, from) = is_tiff_name_iff filename in
      elim (Bool-cases (length bytes == 0)) [
        | inl t ↦ inl (ground arith, ground arith)
        | inr full ↦ elim (Bool-cases (ltb (max_mb * 1024 * 1024) (length bytes))) [
          | inl t ↦ inr (inl (ground arith, ground arith))
          | inr small ↦ elim (Bool-cases (is_tiff_name filename)) [
            | inl t ↦ image-Explains (content.image bytes) reason refl (to t) (ground arith)
            | inr f ↦
                inr
                  (inr (inl (ground arith, ground arith, ground arith, λ name. cc (from name, f))))
          ]
        ]
      ]

  -- The answer is no reason or a reason that holds.
  abbrev pub Judged : Option String → Type 0
  Judged none = IsAccepted content max_mb filename bytes
  Judged (some reason) = Explains content max_mb filename bytes reason

  judged : (o : Option String) → validate_tiff content max_mb filename bytes ≡ o → Judged o
  judged none h = (validate_tiff_iff content max_mb filename bytes).0 h
  judged (some reason) h = refused-Explains reason h

  -- A file is accepted exactly when it has some bytes, at most the limit, the suffix of its name is
  -- `.tif` or `.tiff` in any case, and Pillow verifies the bytes; a refusal gives the reason that
  -- holds of it: the size before the name, and the name before the image.
  pub validate_tiff-Judged :
      let answer = validate_tiff content max_mb filename bytes in
      ((answer ≡ none) ↔ IsAccepted content max_mb filename bytes) × Judged answer
  validate_tiff-Judged = (
    validate_tiff_iff content max_mb filename bytes,
    judged (validate_tiff content max_mb filename bytes) refl,
  )
