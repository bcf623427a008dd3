-- ===== src/Core/CfErrors.antt =====
-- src/cfproxy/core/cf_errors.py
use cloudflare_manual_dns.Common.{ℕ}

abbrev pub token_valid : ℕ
token_valid = 10000

abbrev pub token_invalid : ℕ
token_invalid = 1000

abbrev pub not_found_code : ℕ
not_found_code = 81044

abbrev pub forbidden : ℕ
forbidden = 9109

abbrev pub route_not_found : ℕ
route_not_found = 7003

abbrev pub internal : ℕ
internal = 1000
