-- ===== src/Request.antt =====
-- src/request.h and src/request.c: a request, its parsing and the fields that the calls read.
-- json-c is not part of the repository: what the code calls of it is the record `JsonC`.
pub mod Laws
pub mod Fields
use inotispy.Prelude.{
  ℕ, zero, suc, ◌-◌, Bool, true, false, ◌&&◌, not, Option, none, some, List, [], ◌∷◌, ◌==◌, ℤ,
  int_eq, is_neg, take, length, get_elem?, if◌then◌else◌,
}
use inotispy.Text.{Text, codes, slash, text_eq}

-- enum json_type
pub data JsonType : Type 0 where
  json_null json_boolean json_double json_int json_object json_array json_string : JsonType

pub record JsonC : Type 1 where
  pub Obj : Type 0
  pub tokener_parse : Text → Option Obj
  pub object_get : Obj → Text → Option Obj
  pub get_type : Obj → JsonType
  pub get_string : Obj → Text
  pub get_int : Obj → ℤ

is_string : JsonType → Bool
is_string json_string = true
is_string _ = false

is_int : JsonType → Bool
is_int json_int = true
is_int _ = false

-- struct request
pub record Request (J : JsonC) : Type 0 where
  pub call : Text
  pub json : Text
  pub parser : J.Obj

-- The loop that writes '\0' over trailing slashes: `i + 1` characters are left, and with none left
-- it reads the byte before the text, `none`.
unfoldable pub trim_slashes : ℕ → Text → Option Text
trim_slashes zero path = none
trim_slashes (suc i) path = elim (get_elem? path i) [
  | none ↦ none
  | some c ↦ if c == slash then trim_slashes i (take i path) else some path
]

-- request_get_path, of a path that is there.
unfoldable pub clean_path : Text → Option Text
unfolding trim_slashes
clean_path [] = some []
clean_path (c ∷ cs) =
    let trimmed = trim_slashes (length (c ∷ cs)) (c ∷ cs) in
    if text_eq (c ∷ cs) (codes "/") then some (c ∷ cs) else trimmed

unfoldable pub minus_one : ℤ
minus_one = ℤ.negsuc 0

module _ {J : JsonC} where
  make_request : Text → J.Obj → J.Obj → Option (Request J)
  unfolding is_string
  make_request json jobj val =
      if is_string (J.get_type val)
      then some (record { call = J.get_string val; json = json; parser = jobj })
      else none

  -- request_parse; `none` is NULL.
  unfoldable pub request_parse : Text → Option (Request J)
  unfolding make_request
  request_parse json = elim (J.tokener_parse json) [
    | none ↦ none
    | some jobj ↦ elim (J.object_get jobj (codes "call")) [
      | none ↦ none
      | some val ↦ make_request json jobj val
    ]
  ]

  unfoldable pub get_key_str : Request J → Text → Option Text
  unfolding is_string
  get_key_str req key = elim (J.object_get req.parser key) [
    | none ↦ none
    | some val ↦ if is_string (J.get_type val) then some (J.get_string val) else none
  ]

  -- -1 stands for a key that is missing or no integer.
  unfoldable pub get_key_int : Request J → Text → ℤ
  unfolding is_int minus_one
  get_key_int req key = elim (J.object_get req.parser key) [
    | none ↦ minus_one
    | some val ↦ if is_int (J.get_type val) then J.get_int val else minus_one
  ]

  unfoldable pub get_call : Request J → Option Text
  unfolding get_key_str
  get_call req = get_key_str req (codes "call")

  unfoldable pub is_verbose : Request J → Bool
  unfolding get_key_int
  is_verbose req =
      let v = get_key_int req (codes "verbose") in not (is_neg v) && not (int_eq v (ℤ.pos 0))

  -- request_get_path: the outer `none` is a read outside the text, the inner one NULL.
  unfoldable pub get_path : Request J → Option (Option Text)
  unfolding get_key_str clean_path
  get_path req = elim (get_key_str req (codes "path")) [
    | none ↦ some none
    | some path ↦ elim (clean_path path) [ none ↦ none | some p ↦ some (some p) ]
  ]

  unfoldable pub get_max_events : Request J → ℤ
  unfolding get_key_int minus_one
  get_max_events req =
      let max_events = get_key_int req (codes "max_events") in
      if int_eq max_events minus_one then ℤ.pos 0 else max_events

  unfoldable pub get_rewatch : Request J → Bool
  unfolding get_key_int minus_one
  get_rewatch req = not (int_eq (get_key_int req (codes "rewatch")) minus_one)

  unfoldable pub get_mask : Request J → ℤ
  unfolding get_key_int minus_one
  get_mask req =
      let mask = get_key_int req (codes "mask") in if int_eq mask minus_one then ℤ.pos 0 else mask

  -- request_get_count: -1 is refused by the caller.
  unfoldable pub get_count : Request J → ℤ
  unfolding get_key_int minus_one
  get_count req =
      let count = get_key_int req (codes "count") in
      if int_eq count minus_one then ℤ.pos 1 else if is_neg count then minus_one else count
