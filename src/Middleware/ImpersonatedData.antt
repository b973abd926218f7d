-- ===== src/Middleware/ImpersonatedData.antt =====
-- The data of an impersonation, as packages/backend/internal/middleware/auth.go parses it from the
-- headers. The names that the code takes from
-- the packages of Kubernetes, and the functions that it calls there, are the fields of `Kubernetes`.
use kkite.Prelude.{
  String, ◌==◌, Bool, true, false, ◌||◌, not, Option, none, some, List, [], ◌∷◌, ◌++◌, ◌<>◌, map,
  contains, if◌then◌else◌,
}
use kkite.Store.{Result, ok, err}
use kkite.Middleware.Context.{UserInfo, Headers, values, header, ResourceAttributes}
use text.Mathlib.Text.{starts_with}
use Prim.Native.String.{slice, len}

pub record Kubernetes : Type 0 where
  pub impersonate_user_header : String
  pub impersonate_group_header : String
  pub impersonate_uid_header : String
  pub impersonate_user_extra_header_prefix : String
  pub authentication_group : String
  pub anonymous : String
  pub all_authenticated : String
  pub all_unauthenticated : String
  -- The namespace and the name of a service account.
  pub split_username : String → Result (String × String)
  pub make_group_names : String → List String

pub record ImpersonatedData : Type 0 where
  pub resource_attributes : List ResourceAttributes
  pub user_info : UserInfo

-- What `newImpersonatedData` returns: an error that names the header, `ErrNoImpersonationData`, or data.
pub data Impersonated : Type 0 where
  header_required : String → Impersonated
  no_impersonation_data : Impersonated
  impersonated : ImpersonatedData → Impersonated

abbrev pub impersonate : String → String → String → ResourceAttributes
impersonate group resource name = record {
  group = group;
  name = name;
  namespace = "";
  resource = resource;
  subresource = "";
  verb = "impersonate";
}

abbrev pub is_empty {ℓ} : {A : Type ℓ} → List A → Bool
is_empty [] = true
is_empty (a ∷ rest) = false

-- `extras[key] = append(extras[key], value)` for each of the values.
abbrev pub append_extra :
    String → List String → List (String × List String) → List (String × List String)
append_extra key added [] = (key, added) ∷ []
append_extra key added ((k, vs) ∷ rest) =
    let after = append_extra key added rest in
    if k == key then (k, vs ++ added) ∷ rest else (k, vs) ∷ after

abbrev pub append_extras :
    String → List String → List (String × List String) → List (String × List String)
append_extras key [] extras = extras
append_extras key (v ∷ vs) extras = append_extra key (v ∷ vs) extras

abbrev pub listed : Option ResourceAttributes → List ResourceAttributes
listed none = []
listed (some attributes) = attributes ∷ []

module _ (k : Kubernetes) (path_unescape : String → Result String) where
  abbrev pub user_attributes :
      String → Result (String × String) → ResourceAttributes × String × String
  user_attributes user (ok (namespace, name)) =
      (record (impersonate "" "serviceaccounts" user) { namespace = namespace }, user, namespace)
  user_attributes user (err e) = (impersonate "" "users" user, user, "")

  -- `none` where the pointer is nil.
  abbrev pub parse_user : Headers → Option ResourceAttributes × String × String
  parse_user headers =
      let user = header headers k.impersonate_user_header in
      if user == ""
      then (none, "", "")
      else let (attributes, name, namespace) = user_attributes user (k.split_username user) in
        (some attributes, name, namespace)

  abbrev pub parse_groups : Headers → List ResourceAttributes × List String
  parse_groups headers =
      let groups = values headers k.impersonate_group_header in
      (map (impersonate "" "groups") groups, groups)

  abbrev pub parse_uid : Headers → Option ResourceAttributes × String
  parse_uid headers =
      let uid = header headers k.impersonate_uid_header in
      if uid == "" then (none, "") else (some (impersonate k.authentication_group "uids" uid), uid)

  abbrev pub or_encoded : String → Result String → String
  or_encoded encoded_key (ok key) = key
  or_encoded encoded_key (err e) = encoded_key

  abbrev pub trim_prefix : String → String → String
  trim_prefix s prefix = if starts_with s prefix then slice s (len prefix) (len s) else s

  abbrev pub extra_key : String → String
  extra_key header_key =
      let encoded_key = trim_prefix header_key k.impersonate_user_extra_header_prefix in
      or_encoded encoded_key (path_unescape encoded_key)

  abbrev pub extra_attributes : String → String → ResourceAttributes
  extra_attributes key value = record (impersonate k.authentication_group "userextras" value) {
    subresource = key;
  }

  abbrev pub add_header :
      String
      → List String
      → List ResourceAttributes × List (String × List String)
      → List ResourceAttributes × List (String × List String)
  add_header header_key header_values (attributes, extras) =
      if starts_with header_key k.impersonate_user_extra_header_prefix
      then (
        attributes ++ map (extra_attributes (extra_key header_key)) header_values,
        append_extras (extra_key header_key) header_values extras,
      )
      else (attributes, extras)

  abbrev pub add_headers :
      Headers
      → List ResourceAttributes × List (String × List String)
      → List ResourceAttributes × List (String × List String)
  add_headers [] found = found
  add_headers ((header_key, header_values) ∷ rest) found =
      add_headers rest (add_header header_key header_values found)

  abbrev pub parse_extras : Headers → List ResourceAttributes × List (String × List String)
  parse_extras headers = add_headers headers ([], [])

  -- The groups of the user before the last one is added.
  abbrev groups_of : List String → String → List String
  groups_of [] namespace = if namespace == "" then [] else k.make_group_names namespace
  groups_of (g ∷ gs) namespace = g ∷ gs

  abbrev with_group : List String → List String → String → List String
  with_group given groups group = if contains given group then groups else groups ++ (group ∷ [])

  abbrev all_groups : String → List String → String → List String
  all_groups name groups namespace =
      with_group groups (groups_of groups namespace)
        (if name == k.anonymous then k.all_unauthenticated else k.all_authenticated)

  -- The attributes that are to be reviewed, for the user, the groups, the UID and the extras.
  abbrev pub attributes_of : Headers → List ResourceAttributes
  attributes_of headers =
      listed (parse_user headers).0
      ++ (parse_groups headers).0
      ++ listed (parse_uid headers).0
      ++ (parse_extras headers).0

  abbrev pub user_info_of : Headers → UserInfo
  user_info_of headers = record {
    name = (parse_user headers).1;
    uid = (parse_uid headers).1;
    groups = all_groups (parse_user headers).1 (parse_groups headers).1 (parse_user headers).2;
    extra = (parse_extras headers).1;
  }

  abbrev pub has_more : Headers → Bool
  has_more headers =
      not (is_empty (parse_groups headers).1)
      || not ((parse_uid headers).1 == "")
      || not (is_empty (parse_extras headers).1)

  unfoldable pub new_impersonated_data : Headers → Impersonated
  new_impersonated_data headers =
      if (parse_user headers).1 == ""
      then (if has_more headers
          then header_required
              ("header " <> k.impersonate_user_header <> " required for impersonation")
          else no_impersonation_data)
      else impersonated
          (record { resource_attributes = attributes_of headers; user_info = user_info_of headers })
