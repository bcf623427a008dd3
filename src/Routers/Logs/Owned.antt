-- ===== src/Routers/Logs/Owned.antt =====
-- What the route of src/cfproxy/routers/audit.py shows, and to whom.
use mathlib.Core.Path.{subst}
use cloudflare_manual_dns.Core.Envelopes.{Reply}
use cloudflare_manual_dns.Core.Security.{get_current_user}
use cloudflare_manual_dns.Core.Security.Current.{IsCurrent, get_current_user-IsCurrent}
use cloudflare_manual_dns.Db.{User}
use cloudflare_manual_dns.Services.AuditLogs.{AuditQuery, AuditPage, list_audit_logs}
use cloudflare_manual_dns.Services.AuditLogs.Listed.{IsPage, list_audit_logs-IsPage}
use cloudflare_manual_dns.Routers.Logs.{in_bounds, page_reply, show_page, get_audit_logs}
use cloudflare_manual_dns.Runtime.{Env, World, pure}
use cloudflare_manual_dns.Runtime.Bind.{>>=-returns, pair_injective}
use cloudflare_manual_dns.Common.{
  ℕ, ◌≤◌, ◌≡◌, sym, ◌∙◌, true, Option, List, arith, length, take, length-take, Str, ok_injective,
  ok,
}

-- The reply is a page of the log of the user whom the bearer token stands for, with at most 200
-- entries.
pub record IsOwned (env : Env) (bearer : Option Str) (q : AuditQuery) (page per_page : ℕ)
    (w : World) (reply : Reply) : Type 0 where
  pub user : User
  pub current : IsCurrent env bearer w user
  pub shown : AuditPage
  pub is_page : IsPage user.id q w.db.audit_logs page per_page shown
  pub small : length shown.entries ≤ 200
  pub answer : reply ≡ page_reply env shown

take-small : {A : Type 0} (n : ℕ) (xs : List A) → n ≤ 200 → length (take n xs) ≤ 200
take-small n xs h = omega (arith, length-take n xs)

in_bounds-le : (page per_page : ℕ) → in_bounds page per_page ≡ true → per_page ≤ 200
in_bounds-le page per_page h = ground arith

-- The route of the audit log, for a page and a size in bounds, answers only the holder of a valid
-- session of an active user, and with a page of that user's own rows, 200 at most. Nothing is
-- changed.
pub get_audit_logs-IsOwned :
    (env : Env) (bearer : Option Str) (q : AuditQuery) (page per_page : ℕ) (w w' : World)
    (reply : Reply)
    → in_bounds page per_page ≡ true
    → get_audit_logs env bearer q page per_page w ≡ (ok reply, w')
    → IsOwned env bearer q page per_page w reply × (w ≡ w')
unfolding get_audit_logs
get_audit_logs-IsOwned env bearer q page per_page w w' reply bounds h =
    let (u, v, signed_in, h₁) =
      >>=-returns (get_current_user env bearer) (show_page env q page per_page) w h in
    let (current, same) = get_current_user-IsCurrent env bearer w v u signed_in in
    let (p, v', listed, h₂) =
      >>=-returns (list_audit_logs u.id q page per_page) (λ p. pure (page_reply env p)) v h₁ in
    let (p', runs, is_page) = list_audit_logs-IsPage u.id q page per_page v in
    let (same_page, same₁) = pair_injective (sym runs ∙ listed) in
    let page_of_p =
      subst (λ (x : AuditPage). IsPage u.id q v.db.audit_logs page per_page x)
        (ok_injective same_page) is_page in
    (
      record {
        user = u;
        current = current;
        shown = p;
        is_page =
            subst (λ (x : World). IsPage u.id q x.db.audit_logs page per_page p) (sym same)
              page_of_p;
        small = rw page_of_p.entries (take-small per_page _ (in_bounds-le page per_page bounds));
        answer = sym (ok_injective (pair_injective h₂).0);
      },
      same ∙ same₁ ∙ (pair_injective h₂).1,
    )
