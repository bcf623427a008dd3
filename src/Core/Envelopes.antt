-- ===== src/Core/Envelopes.antt =====
-- src/cfproxy/core/envelopes.py: the bodies of the management API and of the Cloudflare API.
use cloudflare_manual_dns.Common.{
  ℕ, true, false, Option, none, some, pos, Str, codes, Json, Items, Fields, null, bool, int, str,
  arr, obj, nil, cons, end, field,
}

pub record Reply : Type 0 where
  pub status_code : ℕ
  pub content : Json

abbrev pub one_field : Str → Json → Fields
one_field k v = field k v end

unfoldable pub make_response : ℕ → Str → Json → Reply
make_response status message payload = record {
  status_code = status;
  content = obj (
      field (codes "status") (int (pos status))
        (field (codes "message") (str message) (one_field (codes "data") payload)));
}

abbrev pub info_field : Option Fields → Fields
info_field none = end
info_field (some info) = one_field (codes "result_info") (obj info)

unfoldable pub make_cf_response : Json → ℕ → Items → Option Fields → Reply
make_cf_response result status messages result_info = record {
  status_code = status;
  content = obj (
      field (codes "success") (bool true) (
        field (codes "errors") (arr nil) (
          field (codes "messages") (arr messages)
            (field (codes "result") result (info_field result_info)))));
}

unfoldable pub make_cf_error : ℕ → ℕ → Str → Reply
make_cf_error status code message = record {
  status_code = status;
  content = obj (
      field (codes "success") (bool false) (
        field (codes "errors")
          (arr (
            cons
              (obj
                (field (codes "code") (int (pos code)) (one_field (codes "message") (str message))))
              nil))
          (field (codes "messages") (arr nil) (one_field (codes "result") null))));
}
