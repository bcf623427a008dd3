-- ===== src/Proxy/Audit/Once.antt =====
-- `_record_audit` of src/cfproxy/routers/proxy_dns.py within an action: how often it writes.
use cloudflare_manual_dns.Core.Envelopes.{Reply}
use cloudflare_manual_dns.Db.{AuditLog}
use cloudflare_manual_dns.Proxy.Audit.{
  ProxyAuthContext, AuditNote, audit_row, write_audit, record_audit,
}
use cloudflare_manual_dns.Runtime.{Event, audited, Env, World, M, pure, lift, ◌>>=◌, ◌>>◌}
use cloudflare_manual_dns.Common.{Bool, true, false, List, ◌∷◌, if◌then◌else◌, Result, ok, raised}

-- At most one row was written to the audit log.
pub data Audited (t : List Event) : List Event → Type 0 where
  unaudited : Audited t t
  audited_once : (row : AuditLog) → Audited t (audited row ∷ t)

-- The action writes at most one row, and does nothing else that is seen.
abbrev pub Audits : {A : Type 0} → M A → Type 0
Audits m = (w : World) → Audited w.trace (m w).1.trace

pub Audits-lift :
    {A B : Type 0} (r : Result A) (f : A → M B) → ((a : A) → Audits (f a)) → Audits (lift r >>= f)
Audits-lift (ok a) f h w = h a w
Audits-lift (raised e) f h w = unaudited

pub Audits-if :
    {A : Type 0} (b : Bool) (m n : M A) → Audits m → Audits n → Audits (if b then m else n)
Audits-if true m n h k = h
Audits-if false m n h k = k

write-Audited :
    (row : AuditLog) (b : Bool) (w : World)
    → Audited w.trace (if b then write_audit row w else w).trace
unfolding write_audit
write-Audited row true w = audited_once row
write-Audited row false w = unaudited

pub Audits-record :
    (env : Env) (context : ProxyAuthContext) (n : AuditNote) (reply : Reply)
    → Audits (record_audit env context n >> pure reply)
unfolding record_audit
Audits-record env context n reply w =
    write-Audited (audit_row env w.trace context n) (env.audit_stored w.trace) w
