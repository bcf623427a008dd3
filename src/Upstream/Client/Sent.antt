-- ===== src/Upstream/Client/Sent.antt =====
-- `forward_request` of src/cfproxy/upstream/client.py as the requests it sends.
use cloudflare_manual_dns.Upstream.Client.{
  answered, Headers, update, forward_request, strip_headers,
}
use cloudflare_manual_dns.Runtime.{HttpRequest, HttpResponse, Env, World, sent}
use cloudflare_manual_dns.Common.{
  ◌≡◌, refl, Option, none, some, [], ◌∷◌, Str, Result, http_error, ok, raised,
}

abbrev pub or_http_error : Option HttpResponse → Result HttpResponse
or_http_error none = raised http_error
or_http_error (some r) = ok r

pub answered_lem :
    (env : Env) (o : Option HttpResponse) (w : World) → answered env o w ≡ (or_http_error o, w)
answered_lem env none w = refl
answered_lem env (some r) w = refl

-- The request that goes out, with no header but the credential's.
abbrev pub request_of : Str → Str → Option Str → Headers → HttpRequest
request_of method path content auth_headers = record {
  method = method;
  path = path;
  headers = update [] auth_headers;
  params = [];
  content = content;
}

abbrev pub send : HttpRequest → World → World
send r w = record w { trace = sent r ∷ w.trace }

pub forward_request_lem :
    (env : Env) (method path : Str) (content : Option Str) (auth_headers : Headers) (w : World)
    → forward_request env method path [] [] content auth_headers w ≡ (
      or_http_error (env.respond w.trace (request_of method path content auth_headers)),
      send (request_of method path content auth_headers) w,
    )
unfolding forward_request strip_headers
forward_request_lem env method path content auth_headers w =
    answered_lem env (env.respond w.trace (request_of method path content auth_headers))
      (send (request_of method path content auth_headers) w)
