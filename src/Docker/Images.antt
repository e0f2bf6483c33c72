-- ===== src/Docker/Images.antt =====
-- ImageStatus, ListImages and ImageFsInfo of pkg/driver/docker/docker.go: what is told of the
-- runtime's images. A size is a 64-bit number with a sign.
use nanokube.Prelude.{
  ℕ, zero, suc, ◌+◌, ◌-◌, ◌*◌, ◌%◌, Bool, false, ◌&&◌, ◌||◌, not, Option, none, some, List, [], ◌∷◌,
  map, leb, ◌==◌, if◌then◌else◌, Str, str, same, Result, ok, fail,
}
use nanokube.Tags.Decimal.{ℤ, pos, negsuc}

pub record ImageInspect : Type 0 where
  pub id : Str
  pub repo_tags : List Str
  pub repo_digests : List Str
  pub size : ℤ
  -- the user of the image's config; `none` where it has no config
  pub user : Option Str
  pub architecture : Str
  pub os : Str

pub record Image : Type 0 where
  pub id : Str
  pub repo_tags : List Str
  pub repo_digests : List Str
  pub size : ℕ
  pub uid : Option ℤ
  pub username : Str

pub data ImageError : Type 0 where
  image_not_found : ImageError
  image_error : Str → ImageError

-- `uint64(_)`.
abbrev pub to_uint64 : ℤ → ℕ
to_uint64 (pos n) = n % 18446744073709551616
to_uint64 (negsuc n) = 18446744073709551615 - n % 18446744073709551616

-- `strings.Contains` of one character.
abbrev pub has_char : ℕ → Str → Bool
has_char x [] = false
has_char x (c ∷ cs) = c == x || has_char x cs

abbrev pub is_tag : Str → Bool
is_tag t = not (same t (str "<none>:<none>")) && not (has_char b'@' t)

unfoldable pub named_tags : List Str → List Str
named_tags [] = []
named_tags (t ∷ ts) = let rest = named_tags ts in if is_tag t then t ∷ rest else rest

-- What stands in front of the first colon.
unfoldable pub before_colon : Str → Str
before_colon [] = []
before_colon (c ∷ cs) = let rest = before_colon cs in if c == b':' then [] else c ∷ rest

-- `strconv.ParseInt(_, 10, 64)`: `none` on a syntax error and out of range.
unfoldable pub digits_from : ℕ → Str → Option ℕ
digits_from n [] = some n
digits_from n (c ∷ cs) =
    let rest = digits_from (n * 10 + (c - 48)) cs in if leb 48 c && leb c 57 then rest else none

abbrev pub unsigned : Str → Option ℕ
unsigned [] = none
unsigned (c ∷ cs) = digits_from 0 (c ∷ cs)

abbrev pub max_int64 : ℕ
max_int64 = 9223372036854775807

abbrev pub positive : Option ℕ → Option ℤ
positive none = none
positive (some n) = if leb n max_int64 then some (pos n) else none

abbrev pub negative : Option ℕ → Option ℤ
negative none = none
negative (some zero) = some (pos 0)
negative (some (suc n)) = if leb n max_int64 then some (negsuc n) else none

unfoldable pub parse_int : Str → Option ℤ
unfolding digits_from
parse_int [] = none
parse_int (c ∷ cs) =
    if c == b'-'
    then negative (unsigned cs)
    else if c == b'+'
    then positive (unsigned cs)
    else positive (unsigned (c ∷ cs))

-- The user id, or the name where it is no number.
abbrev pub id_or_name : Str → Option ℤ → Option ℤ × Str
id_or_name user none = (none, user)
id_or_name user (some uid) = (some uid, [])

unfoldable pub image_user : Option Str → Option ℤ × Str
image_user none = (none, [])
image_user (some []) = (none, [])
image_user (some (c ∷ user)) =
    id_or_name (before_colon (c ∷ user)) (parse_int (before_colon (c ∷ user)))

abbrev pub image_of : ImageInspect → Image
image_of i = record {
  id = i.id;
  repo_tags = named_tags i.repo_tags;
  repo_digests = i.repo_digests;
  size = to_uint64 i.size;
  uid = (image_user i.user).0;
  username = (image_user i.user).1;
}

abbrev pub image_found : Result ImageError ImageInspect → Result Str (Option Image)
image_found (fail image_not_found) = ok none
image_found (fail (image_error e)) = fail e
image_found (ok i) = ok (some (image_of i))

-- `ImageStatus`, with the runtime's answer to ImageInspect; without what `verbose` adds.
unfoldable pub image_status :
    (Str → Result ImageError ImageInspect) → Str → Result Str (Option Image)
image_status inspect [] = ok none
image_status inspect (c ∷ ref) = image_found (inspect (c ∷ ref))

-- A listed image.
pub record ImageSummary : Type 0 where
  pub id : Str
  pub repo_tags : List Str
  pub repo_digests : List Str
  pub size : ℤ

abbrev pub listed_image : ImageSummary → Image
listed_image s = record {
  id = s.id;
  repo_tags = s.repo_tags;
  repo_digests = s.repo_digests;
  size = to_uint64 s.size;
  uid = none;
  username = [];
}

abbrev pub list_images : Result Str (List ImageSummary) → Result Str (List Image)
list_images (fail e) = fail e
list_images (ok ss) = ok (map listed_image ss)

-- ImageFsInfo: the bytes in use, a 64-bit sum.
unfoldable pub total_size : ℕ → List Image → ℕ
total_size n [] = n
total_size n (i ∷ images) = total_size ((n + i.size) % 18446744073709551616) images

abbrev pub used_bytes : Result Str (List Image) → Result Str ℕ
used_bytes (fail e) = fail e
used_bytes (ok images) = ok (total_size 0 images)

-- The root directory of the runtime and the bytes in use.
unfoldable pub image_fs_info :
    Result Str Str → Result Str (List ImageSummary) → Result Str (Str × ℕ)
unfolding total_size
image_fs_info (fail e) images = fail e
image_fs_info (ok root) images = elim (used_bytes (list_images images)) [
  | fail e ↦ fail e
  | ok n ↦ ok (root, n)
]
