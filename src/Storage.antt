-- ===== src/Storage.antt =====
-- apps/api/app/services/storage.py and the asset rows of apps/api/app/repositories/asset.py.
-- What object storage holds under a key is an argument of the operations that ask it.
pub mod Names
pub mod Uploads
use Prim.Native.Char.{Char, code}
use Prim.Native.String.{◌++◌ as join}
use zolexai.Prelude.{
  ℕ, ◌*◌, String, Bool, true, false, not, ◌&&◌, ◌||◌, Option, none, some, List, [], ◌∷◌, ◌++◌, ◌==◌,
  ◌≈◌, ltb, leb, if◌then◌else◌, any, or_text, or_default,
}
use zolexai.Text.{codes, strip, lower, take_text, ends_with, same_codes}
use zolexai.Job.{
  AssetKind, video, image, audio, AssetSource, upload, generated, AssetStatus, pending, ready,
  failed, Asset, ErrorCode, unsupported_media_type, file_too_large, asset_not_ready, not_found,
}

unfoldable pub allowed_content_types : AssetKind → List String
allowed_content_types video = "video/mp4" ∷ "video/quicktime" ∷ "video/webm" ∷ []
allowed_content_types image = "image/jpeg" ∷ "image/png" ∷ "image/webp" ∷ []
allowed_content_types audio =
    "audio/mpeg" ∷ "audio/mp3" ∷ "audio/wav" ∷ "audio/x-wav" ∷ "audio/mp4" ∷ "audio/ogg" ∷ []

unfoldable pub max_size_bytes : AssetKind → ℕ
max_size_bytes video = 1024 * 1024 * 1024
max_size_bytes image = 50 * 1024 * 1024
max_size_bytes audio = 200 * 1024 * 1024

abbrev extensions : List (String × String)
extensions =
    ("video/mp4", ".mp4")
    ∷ ("video/quicktime", ".mov")
    ∷ ("video/webm", ".webm")
    ∷ ("image/jpeg", ".jpg")
    ∷ ("image/png", ".png")
    ∷ ("image/webp", ".webp")
    ∷ ("audio/mpeg", ".mp3")
    ∷ ("audio/mp3", ".mp3")
    ∷ ("audio/wav", ".wav")
    ∷ ("audio/x-wav", ".wav")
    ∷ ("audio/mp4", ".m4a")
    ∷ ("audio/ogg", ".ogg")
    ∷ []

lookup_text : String → List (String × String) → Option String
lookup_text k [] = none
lookup_text k ((j, v) ∷ m) = if j ≈ k then some v else lookup_text k m

unfoldable pub extension_for : String → Option String
unfolding lookup_text
extension_for content_type = lookup_text content_type extensions

unfoldable pub is_safe : ℕ → Bool
is_safe c =
    (leb b'A' c && leb c b'Z')
    || (leb b'a' c && leb c b'z')
    || (leb b'0' c && leb c b'9')
    || (c == b'.')
    || (c == b'_')
    || (c == b'-')

abbrev pub underscore : Char
underscore = "_"

-- `replace("..", "_")`
pub replace_dots : String → String
replace_dots String.[] = ""
replace_dots (String.◌∷◌ c String.[]) = String.◌∷◌ c ""
replace_dots (String.◌∷◌ c (String.◌∷◌ d s)) =
    let kept = String.◌∷◌ c (replace_dots (String.◌∷◌ d s)) in
    let replaced = String.◌∷◌ underscore (replace_dots s) in
    if (code c == b'.') && (code d == b'.') then replaced else kept

-- `_UNSAFE.sub("_", …)`: a run of other characters becomes one underscore. The first argument
-- tells whether the character before was in a run.
pub collapse : Bool → String → String
unfolding is_safe
collapse in_run String.[] = ""
collapse in_run (String.◌∷◌ c s) =
    let rest = collapse (not (is_safe (code c))) s in
    if is_safe (code c)
    then String.◌∷◌ c rest
    else if in_run
    then rest
    else String.◌∷◌ underscore rest

is_mark : ℕ → Bool
is_mark c = (c == b'.') || (c == b'_') || (c == b'-')

pub lstrip_marks : String → String
unfolding is_mark
lstrip_marks String.[] = ""
lstrip_marks (String.◌∷◌ c s) = if is_mark (code c) then lstrip_marks s else String.◌∷◌ c s

pub rstrip_marks : String → String
unfolding is_mark
rstrip_marks String.[] = ""
rstrip_marks (String.◌∷◌ c s) =
    let rest = rstrip_marks s in if is_mark (code c) && (rest ≈ "") then "" else String.◌∷◌ c rest

unfoldable pub sanitize_filename : String → String
unfolding replace_dots collapse lstrip_marks rstrip_marks
sanitize_filename name =
    take_text 120
      (or_text (rstrip_marks (lstrip_marks (collapse false (replace_dots (strip name))))) "file")

-- `content_type.split(";")[0]`
before_semicolon : String → String
before_semicolon String.[] = ""
before_semicolon (String.◌∷◌ c s) =
    let rest = before_semicolon s in if code c == b';' then "" else String.◌∷◌ c rest

-- Whether the type, without its parameters and in lower case, is one of the list.
unfoldable pub type_allowed : String → List String → Bool
unfolding before_semicolon
type_allowed content_type allowed =
    any (λ t. same_codes (codes t) (lower (strip (before_semicolon content_type)))) allowed

unfoldable pub validate_upload : AssetKind → String → ℕ → Option ErrorCode
unfolding type_allowed max_size_bytes allowed_content_types
validate_upload kind content_type size_bytes =
    if not (type_allowed content_type (allowed_content_types kind))
    then some unsupported_media_type
    else if ltb (max_size_bytes kind) size_bytes
    then some file_too_large
    else none

infixr 65 ◌◁◌
abbrev ◌◁◌ : String → String → String
s ◁ t = join s t

unfoldable pub upload_key : String → String → String → String
unfolding sanitize_filename
upload_key user asset filename =
    "users/" ◁ user ◁ "/uploads/" ◁ asset ◁ "/" ◁ sanitize_filename filename

unfoldable pub output_key : String → String → String → String
unfolding extension_for
output_key user job content_type =
    "users/"
    ◁ user
    ◁ "/generated/"
    ◁ job
    ◁ "/output"
    ◁ or_default (extension_for content_type) ".bin"

unfoldable pub with_extension : String → String → String
unfolding extension_for
with_extension name content_type = elim (extension_for content_type) [
  | none ↦ name
  | some extension ↦ if ends_with (codes extension) (lower name) then name else name ◁ extension
]

unfoldable pub find_asset : ℕ → List Asset → Option Asset
find_asset id [] = none
find_asset id (a ∷ rest) = if a.id == id then some a else find_asset id rest

unfoldable pub find_asset_for_user : ℕ → ℕ → List Asset → Option Asset
find_asset_for_user id user [] = none
find_asset_for_user id user (a ∷ rest) =
    if (a.id == id) && (a.user_id == user) then some a else find_asset_for_user id user rest

unfoldable pub put_asset : Asset → List Asset → List Asset
put_asset row [] = []
put_asset row (a ∷ rest) = if a.id == row.id then row ∷ rest else a ∷ put_asset row rest

-- `AssetRepository.create`; `none` where the primary key or the storage location is taken, which
-- the database refuses.
unfoldable pub insert_asset : Asset → List Asset → Option (List Asset)
insert_asset row assets =
    if any (λ a. (a.id == row.id) || (a.storage_key ≈ row.storage_key)) assets
    then none
    else some (assets ++ row ∷ [])

pub data Uploaded {ℓ} (A : Type ℓ) : Type ℓ where
  done : A → List Asset → Uploaded A
  invalid : ErrorCode → List Asset → Uploaded A
  taken : Uploaded A

-- A pending row for a declared upload. The id is fresh; `text_of` writes ids.
unfoldable pub create_upload :
    (ℕ → String) → List Asset → ℕ → ℕ → ℕ → String → String → AssetKind → ℕ → Uploaded Asset
unfolding validate_upload upload_key insert_asset
create_upload text_of assets now id user filename content_type kind size_bytes =
    let row : Asset = record {
      id = id;
      user_id = user;
      kind = kind;
      source = upload;
      status = pending;
      storage_key = upload_key (text_of user) (text_of id) filename;
      content_type = content_type;
      size_bytes = some size_bytes;
      original_filename = take_text 255 filename;
      duration_seconds = none;
      width = none;
      height = none;
      created_at = now;
    } in
    elim (validate_upload kind content_type size_bytes) [
      | some code ↦ invalid code assets
      | none ↦ elim (insert_asset row assets) [ none ↦ taken | some rows ↦ done row rows ]
    ]

abbrev pub is_ready : AssetStatus → Bool
is_ready ready = true
is_ready _ = false

-- The fields that a confirmation gives, where it gives them.
abbrev or_kept : Option ℕ → Option ℕ → Option ℕ
or_kept none kept = kept
or_kept (some a) kept = some a

-- `stat` is the size of what storage holds under the key, if it holds anything. The rows after an
-- oversized upload are in the answer too: they are flushed before the error is raised, and
-- committed only if the caller commits.
unfoldable pub confirm_upload :
    Option ℕ → List Asset → Asset → Option ℕ → Option ℕ → Option ℕ → Uploaded Asset
unfolding max_size_bytes put_asset
confirm_upload stat assets asset duration width height =
    if is_ready asset.status then done asset assets else elim stat [
      | none ↦ invalid asset_not_ready assets
      | some size ↦
          let oversized : Asset = record asset { status = failed } in
          let row : Asset = record asset {
            size_bytes = some size;
            status = ready;
            duration_seconds = or_kept duration asset.duration_seconds;
            width = or_kept width asset.width;
            height = or_kept height asset.height;
          } in
          if ltb (max_size_bytes asset.kind) size
          then invalid file_too_large (put_asset oversized assets)
          else done row (put_asset row assets)
    ]

-- A worker's output: already in storage, so it starts ready.
unfoldable pub generated_row :
    ℕ
    → ℕ
    → ℕ
    → AssetKind
    → String
    → String
    → String
    → Option ℕ
    → Option ℕ
    → Option ℕ
    → Option ℕ
    → Asset
unfolding with_extension
generated_row now id user kind storage_key content_type name size_bytes duration width height =
    record {
      id = id;
      user_id = user;
      kind = kind;
      source = generated;
      status = ready;
      storage_key = storage_key;
      content_type = content_type;
      size_bytes = size_bytes;
      original_filename = take_text 255 (with_extension name content_type);
      duration_seconds = duration;
      width = width;
      height = height;
      created_at = now;
    }

-- What the endpoint commits: the rows of a confirmation, and those before it if it raises.
committed : List Asset → Uploaded Asset → Uploaded Asset × List Asset
committed assets (done asset rows) = (done asset rows, rows)
committed assets (invalid code rows) = (invalid code rows, assets)
committed assets taken = (taken, assets)

confirm_found :
    (String → Option ℕ)
    → List Asset
    → Option Asset
    → Option ℕ
    → Option ℕ
    → Option ℕ
    → Uploaded Asset × List Asset
unfolding committed
confirm_found stat assets none duration width height = (invalid not_found assets, assets)
confirm_found stat assets (some asset) duration width height =
    committed assets (confirm_upload (stat asset.storage_key) assets asset duration width height)

-- apps/api/app/api/v1/assets.py: `stat` is what storage holds under a key.
unfoldable pub confirm :
    (String → Option ℕ)
    → List Asset
    → ℕ
    → ℕ
    → Option ℕ
    → Option ℕ
    → Option ℕ
    → Uploaded Asset × List Asset
unfolding confirm_found
confirm stat assets id user duration width height =
    confirm_found stat assets (find_asset_for_user id user assets) duration width height
