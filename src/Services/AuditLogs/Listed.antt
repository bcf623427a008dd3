-- ===== src/Services/AuditLogs/Listed.antt =====
-- The pages of the audit log in src/cfproxy/services/audit_service.py.
use mathlib.Core.List.{Perm}
use mathlib.Core.List.Perm
use cloudflare_manual_dns.Services.AuditLogs.{
  insert_recent, order_recent, is_selected, same_value, AuditQuery, equal_if_given, since_if_given,
  AuditPage, list_audit_logs, audit_page, World,
}
use cloudflare_manual_dns.Db.{AuditLog, Datetime}
use cloudflare_manual_dns.Common.{
  ℕ, zero, suc, ◌-◌, ◌*◌, ◌≤◌, ◌≡◌, refl, sym, ap, ◌∙◌, ◌⊎◌, inl, inr, Bool, true, false, Option,
  none, some, List, [], ◌∷◌, arith, leb, if◌then◌else◌, both_true, length, take, drop, All, In,
  select, select-In, Str, eq_iff, ok,
}

-- No row is more recent than one before it.
abbrev pub IsRecent : AuditLog → AuditLog → Type 0
IsRecent x y = y.ts.seconds ≤ x.ts.seconds

abbrev pub Descending : List AuditLog → Type 0
Descending [] = Unit
Descending (x ∷ xs) = All (IsRecent x) xs × Descending xs

insert-All :
    (P : AuditLog → Type 0) (x : AuditLog) (xs : List AuditLog)
    → P x
    → All P xs
    → All P (insert_recent x xs)
unfolding insert_recent
insert-All P x [] h k = (h, tt)
insert-All P x (y ∷ ys) h k = go (leb y.ts.seconds x.ts.seconds) (insert-All P x ys h k.1)
  where
    go :
        (b : Bool)
        → All P (insert_recent x ys)
        → All P (if b then x ∷ y ∷ ys else y ∷ insert_recent x ys)
    go true ih = (h, k)
    go false ih = (k.0, ih)

All-weaken :
    {P Q : AuditLog → Type 0} (xs : List AuditLog)
    → ((x : AuditLog) → P x → Q x)
    → All P xs
    → All Q xs
All-weaken [] f h = tt
All-weaken (x ∷ xs) f h = (f x h.0, All-weaken xs f h.1)

insert-Descending :
    (x : AuditLog) (xs : List AuditLog) → Descending xs → Descending (insert_recent x xs)
unfolding insert_recent
insert-Descending x [] h = (tt, tt)
insert-Descending x (y ∷ ys) h =
    go (leb y.ts.seconds x.ts.seconds) refl (insert-Descending x ys h.1)
  where
    go :
        (b : Bool)
        → leb y.ts.seconds x.ts.seconds ≡ b
        → Descending (insert_recent x ys)
        → Descending (if b then x ∷ y ∷ ys else y ∷ insert_recent x ys)
    go true e ih =
        let older : y.ts.seconds ≤ x.ts.seconds = ground arith in
        ((older, All-weaken ys (λ z k. omega arith) h.0), h)
    go false e ih = (insert-All (IsRecent y) x ys (ground arith) h.0, ih)

order-Descending : (xs : List AuditLog) → Descending (order_recent xs)
unfolding order_recent
order-Descending [] = tt
order-Descending (x ∷ xs) = insert-Descending x (order_recent xs) (order-Descending xs)

insert-perm : (x : AuditLog) (xs : List AuditLog) → Perm (insert_recent x xs) (x ∷ xs)
unfolding insert_recent
insert-perm x [] = Perm.rfl
insert-perm x (y ∷ ys) = go (leb y.ts.seconds x.ts.seconds) (insert-perm x ys)
  where
    go :
        (b : Bool)
        → Perm (insert_recent x ys) (x ∷ ys)
        → Perm (if b then x ∷ y ∷ ys else y ∷ insert_recent x ys) (x ∷ y ∷ ys)
    go true ih = Perm.rfl
    go false ih = Perm.trans (Perm.cons y ih) (Perm.swap x y ys)

order-perm : (xs : List AuditLog) → Perm (order_recent xs) xs
unfolding order_recent
order-perm [] = Perm.rfl
order-perm (x ∷ xs) = Perm.trans (insert-perm x (order_recent xs)) (Perm.cons x (order-perm xs))

length-insert : (x : AuditLog) (xs : List AuditLog) → length (insert_recent x xs) ≡ suc (length xs)
unfolding insert_recent
length-insert x [] = refl
length-insert x (y ∷ ys) = go (leb y.ts.seconds x.ts.seconds) (length-insert x ys)
  where
    go :
        (b : Bool)
        → length (insert_recent x ys) ≡ suc (length ys)
        → length (if b then x ∷ y ∷ ys else y ∷ insert_recent x ys) ≡ suc (suc (length ys))
    go true ih = refl
    go false ih = ap suc ih

length-order : (xs : List AuditLog) → length (order_recent xs) ≡ length xs
unfolding order_recent
length-order [] = refl
length-order (x ∷ xs) = length-insert x (order_recent xs) ∙ ap suc (length-order xs)

order-All : (P : AuditLog → Type 0) (xs : List AuditLog) → All P xs → All P (order_recent xs)
unfolding order_recent
order-All P [] h = tt
order-All P (x ∷ xs) h = insert-All P x (order_recent xs) h.0 (order-All P xs h.1)

take-All : (P : AuditLog → Type 0) (n : ℕ) (xs : List AuditLog) → All P xs → All P (take n xs)
take-All P zero xs h = tt
take-All P (suc n) [] h = tt
take-All P (suc n) (x ∷ xs) h = (h.0, take-All P n xs h.1)

drop-All : (P : AuditLog → Type 0) (n : ℕ) (xs : List AuditLog) → All P xs → All P (drop n xs)
drop-All P zero xs h = h
drop-All P (suc n) [] h = tt
drop-All P (suc n) (x ∷ xs) h = drop-All P n xs h.1

All-In : (P : AuditLog → Type 0) (xs : List AuditLog) → ((x : AuditLog) → In x xs → P x) → All P xs
All-In P [] f = tt
All-In P (x ∷ xs) f = (f x (inl refl), All-In P xs (λ y i. f y (inr i)))

-- What the query lets through: the user's own rows, each as the filters say that are given.
pub record IsShown (user_id : Str) (q : AuditQuery) (logs : List AuditLog) (row : AuditLog)
    : Type 0 where
  pub stored : In row logs
  pub owner : row.user_id ≡ some user_id
  pub token : (q.token_id ≡ none) ⊎ (row.scoped_token_id ≡ q.token_id)
  pub zone : (q.zone_id ≡ none) ⊎ (row.zone_id ≡ q.zone_id)
  pub since : (s : Datetime) → q.since ≡ some s → s.seconds ≤ row.ts.seconds

same_value-eq : (o : Option Str) (s : Str) → same_value o (some s) ≡ true → o ≡ some s
same_value-eq none s h = cc h
same_value-eq (some t) s h = ap some ((eq_iff t s).0 h)

equal_if_given-eq :
    (o column : Option Str) → equal_if_given o column ≡ true → (o ≡ none) ⊎ (column ≡ o)
equal_if_given-eq none column h = inl refl
equal_if_given-eq (some s) column h = inr (same_value-eq column s h)

since-le :
    (o : Option Datetime) (ts s : Datetime)
    → since_if_given o ts ≡ true
    → o ≡ some s
    → s.seconds ≤ ts.seconds
since-le none ts s h e = cc e
since-le (some t) ts s h e = ground arith

select-IsShown :
    (user_id : Str) (q : AuditQuery) (logs : List AuditLog) (row : AuditLog)
    → In row (select (is_selected user_id q) logs)
    → IsShown user_id q logs row
unfolding is_selected
select-IsShown user_id q logs row i =
    let (stored, h) = select-In (is_selected user_id q) logs row i in
    let (h₁, since) = both_true _ (since_if_given q.since row.ts) h in
    let (h₂, zone) = both_true _ (equal_if_given q.zone_id row.zone_id) h₁ in
    let (owner, token) = both_true _ (equal_if_given q.token_id row.scoped_token_id) h₂ in
    record {
      stored = stored;
      owner = same_value-eq row.user_id user_id owner;
      token = equal_if_given-eq q.token_id row.scoped_token_id token;
      zone = equal_if_given-eq q.zone_id row.zone_id zone;
      since = λ s e. since-le q.since row.ts s since e;
    }

-- A page of the log.
pub record IsPage (user_id : Str) (q : AuditQuery) (logs : List AuditLog) (page per_page : ℕ)
    (p : AuditPage) : Type 0 where
  pub rows : List AuditLog
  pub complete : Perm rows (select (is_selected user_id q) logs)
  pub recent_first : Descending rows
  pub entries : p.entries ≡ take per_page (drop ((page - 1) * per_page) rows)
  pub shown : All (IsShown user_id q logs) p.entries
  pub count : p.count ≡ length p.entries
  pub total : p.total_count ≡ length rows

-- A page of the log holds rows of the user alone, as the filters say that are given. The pages are
-- cut from one order of all the rows that the query selects, the most recent first. The counts are
-- the lengths of the page and of all the rows, and nothing is changed.
pub list_audit_logs-IsPage :
    (user_id : Str) (q : AuditQuery) (page per_page : ℕ) (w : World)
    → (p : AuditPage) × (list_audit_logs user_id q page per_page w ≡ (ok p, w))
      × IsPage user_id q w.db.audit_logs page per_page p
unfolding list_audit_logs audit_page
list_audit_logs-IsPage user_id q page per_page w =
    let logs = w.db.audit_logs in
    let found = select (is_selected user_id q) logs in
    let rows = order_recent found in
    (
      audit_page user_id q page per_page logs,
      refl,
      record {
        rows = rows;
        complete = order-perm found;
        recent_first = order-Descending found;
        entries = refl;
        shown = take-All (IsShown user_id q logs) per_page (drop ((page - 1) * per_page) rows) (
            drop-All (IsShown user_id q logs) ((page - 1) * per_page) rows (
              order-All (IsShown user_id q logs) found
                (All-In (IsShown user_id q logs) found (select-IsShown user_id q logs))));
        count = refl;
        total = sym (length-order found);
      },
    )
