-- ===== src/Middleware/Covered.antt =====
-- Which attributes packages/backend/internal/middleware/auth.go puts up for review for the headers of an
-- impersonation.
use kkite.Prelude.{
  String, ◌<>◌, ◌≡◌, ◌≢◌, refl, sym, ap, ◌∙◌, subst, ◌⊎◌, inl, inr, some, List, [], ◌++◌, eq_false,
  if◌then◌else◌,
}
use kkite.Store.{Result, ok, err}
use kkite.Middleware.Context.{UserInfo, Headers, ResourceAttributes, values, header}
use kkite.Middleware.ImpersonatedData.{
  Kubernetes, impersonate, user_attributes, parse_user, parse_groups, parse_uid, listed, extra_key,
  trim_prefix, or_encoded, attributes_of, user_info_of,
}
use kkite.Middleware.Attributes.{
  IsListed, IsListed-left, IsListed-right, IsListed-map, HasExtra, add_headers-ExtrasCovered,
  add_headers_new,
}
use text.Mathlib.TextPositions.{starts_with-append, slice-append_right, len-append}
use Prim.Native.String.{slice, len}

module _ (k : Kubernetes) (path_unescape : String → Result String) where
  -- The right to impersonate.
  abbrev right_to : String → String → String → String → String → ResourceAttributes
  right_to group resource subresource namespace name = record {
    group = group;
    name = name;
    namespace = namespace;
    resource = resource;
    subresource = subresource;
    verb = "impersonate";
  }

  -- The key that a header for an extra has behind the prefix, decoded where that is possible.
  abbrev pub IsDecoded : String → String → Type 0
  IsDecoded encoded key =
      (path_unescape encoded ≡ ok key)
      ⊎ ((e : String) × (path_unescape encoded ≡ err e) × (key ≡ encoded))

  -- Each part of the identity in the headers has its attributes in the list, and each extra of the identity that
  -- is taken has.
  pub record IsCovered (headers : Headers) (attributes : List ResourceAttributes) (info : UserInfo)
      : Type 0 where
    pub service_account :
        (namespace name : String)
        → header headers k.impersonate_user_header ≢ ""
        → k.split_username (header headers k.impersonate_user_header) ≡ ok (namespace, name)
        → IsListed
            (right_to "" "serviceaccounts" "" namespace (header headers k.impersonate_user_header))
            attributes
    pub user :
        (e : String)
        → header headers k.impersonate_user_header ≢ ""
        → k.split_username (header headers k.impersonate_user_header) ≡ err e
        → IsListed (right_to "" "users" "" "" (header headers k.impersonate_user_header)) attributes
    pub group :
        (group : String)
        → IsListed group (values headers k.impersonate_group_header)
        → IsListed (right_to "" "groups" "" "" group) attributes
    pub uid :
        header headers k.impersonate_uid_header ≢ ""
        → IsListed
            (right_to k.authentication_group "uids" "" "" (header headers k.impersonate_uid_header))
            attributes
    pub extra :
        (encoded key value : String)
        → HasExtra (k.impersonate_user_extra_header_prefix <> encoded) value headers
        → IsDecoded encoded key
        → IsListed (right_to k.authentication_group "userextras" key "" value) attributes
    pub taken_extra :
        (key value : String)
        → HasExtra key value info.extra
        → IsListed (right_to k.authentication_group "userextras" key "" value) attributes

  user_listed :
      (headers : Headers)
      → let user = header headers k.impersonate_user_header in
        user ≢ ""
        → IsListed
            (user_attributes k path_unescape user (k.split_username user)).0
            (listed (parse_user k path_unescape headers).0)
  user_listed headers given = subst (IsListed _) (sym (ap listed parsed)) (inl refl)
    where
      parsed :
          (parse_user k path_unescape headers).0
          ≡ some
              (user_attributes k path_unescape
                (header headers k.impersonate_user_header)
                (k.split_username (header headers k.impersonate_user_header))).0
      parsed = rw (eq_false (header headers k.impersonate_user_header) "" given)

  uid_listed :
      (headers : Headers)
      → let uid = header headers k.impersonate_uid_header in
        uid ≢ ""
        → IsListed
            (right_to k.authentication_group "uids" "" "" uid)
            (listed (parse_uid k path_unescape headers).0)
  uid_listed headers given = subst (IsListed _) (sym (ap listed parsed)) (inl refl)
    where
      parsed :
          (parse_uid k path_unescape headers).0
          ≡ some (
              right_to k.authentication_group "uids" "" ""
                (header headers k.impersonate_uid_header))
      parsed = rw (eq_false (header headers k.impersonate_uid_header) "" given)

  trimmed :
      (encoded : String)
      → trim_prefix k path_unescape
          (k.impersonate_user_extra_header_prefix <> encoded)
          k.impersonate_user_extra_header_prefix
        ≡ encoded
  trimmed encoded =
      ap
        (λ b.
          if b
          then slice (k.impersonate_user_extra_header_prefix <> encoded)
              (len k.impersonate_user_extra_header_prefix)
              (len (k.impersonate_user_extra_header_prefix <> encoded))
          else k.impersonate_user_extra_header_prefix <> encoded)
        (starts_with-append k.impersonate_user_extra_header_prefix encoded)
      ∙ ap
          (slice (k.impersonate_user_extra_header_prefix <> encoded)
            (len k.impersonate_user_extra_header_prefix))
          (len-append k.impersonate_user_extra_header_prefix encoded)
      ∙ slice-append_right k.impersonate_user_extra_header_prefix encoded

  extra_key-decoded :
      (encoded key : String)
      → IsDecoded encoded key
      → extra_key k path_unescape (k.impersonate_user_extra_header_prefix <> encoded) ≡ key
  extra_key-decoded encoded key (inl decoded) =
      ap (λ t. or_encoded k path_unescape t (path_unescape t)) (trimmed encoded)
      ∙ ap (or_encoded k path_unescape encoded) decoded
  extra_key-decoded encoded key (inr (e, failed, same)) =
      ap (λ t. or_encoded k path_unescape t (path_unescape t)) (trimmed encoded)
      ∙ ap (or_encoded k path_unescape encoded) failed
      ∙ sym same

  module _ (headers : Headers) where
    abbrev users : List ResourceAttributes
    users = listed (parse_user k path_unescape headers).0

    abbrev groups : List ResourceAttributes
    groups = (parse_groups k path_unescape headers).0

    abbrev uids : List ResourceAttributes
    uids = listed (parse_uid k path_unescape headers).0

    abbrev all : List ResourceAttributes
    all = attributes_of k path_unescape headers

    user_in_all :
        (a : Result (String × String))
        → header headers k.impersonate_user_header ≢ ""
        → k.split_username (header headers k.impersonate_user_header) ≡ a
        → IsListed
            (user_attributes k path_unescape (header headers k.impersonate_user_header) a).0
            all
    user_in_all a given is =
        subst
          (λ b.
            IsListed
              (user_attributes k path_unescape (header headers k.impersonate_user_header) b).0 all)
          is
          (IsListed-left _ _ _
            (IsListed-left _ _ _ (IsListed-left _ _ _ (user_listed headers given))))

    extra_in_all :
        (encoded key value : String)
        → HasExtra (k.impersonate_user_extra_header_prefix <> encoded) value headers
        → IsDecoded encoded key
        → IsListed (right_to k.authentication_group "userextras" key "" value) all
    extra_in_all encoded key value given decoded =
        subst (λ j. IsListed (right_to k.authentication_group "userextras" j "" value) all)
          (extra_key-decoded encoded key decoded)
          (IsListed-right _ (users ++ groups ++ uids) _ (
            add_headers_new k path_unescape (k.impersonate_user_extra_header_prefix <> encoded)
              value headers ([], [])
              (starts_with-append k.impersonate_user_extra_header_prefix encoded) given))

    -- Put up for review are: the user that the headers name, as the service account in its namespace or else as a
    -- user; every group and the UID that they name; and every value of every header for an extra, under its decoded
    -- key. So is every value of every extra of the identity that is taken.
    pub attributes_of-IsCovered :
        IsCovered headers
          (attributes_of k path_unescape headers)
          (user_info_of k path_unescape headers)
    attributes_of-IsCovered = record {
      service_account = λ namespace name given is. user_in_all (ok (namespace, name)) given is;
      user = λ e given is. user_in_all (err e) given is;
      group = λ group given. IsListed-left _ _ _ (
          IsListed-left _ _ _
            (IsListed-right _ users _ (IsListed-map (impersonate "" "groups") group _ given)));
      uid = λ given.
          IsListed-left _ _ _ (IsListed-right _ (users ++ groups) _ (uid_listed headers given));
      extra = extra_in_all;
      taken_extra = λ key value given. IsListed-right _ (users ++ groups ++ uids) _ (
          add_headers-ExtrasCovered k path_unescape headers ([], []) (λ j v none_of. absurd none_of)
            key value given);
    }
