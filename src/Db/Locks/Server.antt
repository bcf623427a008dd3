-- ===== src/Db/Locks/Server.antt =====
-- The server that grants the lock of src/cfproxy/db/locks.py: MySQL's `GET_LOCK` and Postgres's
-- advisory locks. It gives a name to one session at a time, whatever the order of the requests.
use mathlib.Core.Path.{subst}
use cloudflare_manual_dns.Db.Locks.Phases.{
  Phase, waiting, working, astray, advance, phase, touches, leave, work, leave-working, work-astray,
  advance-working, advance-waiting, advance-astray,
}
use cloudflare_manual_dns.Runtime.{HttpRequest, Event, sent, locked, released}
use cloudflare_manual_dns.Common.{
  ℕ, ◌≡◌, refl, sym, ap, ◌∙◌, ◌≢◌, inl, inr, Bool, true, false, Option, none, some, List, [], ◌∷◌,
  ◌++◌, nat_eq, if◌then◌else◌, nat_eq_iff, All, Str, ◌==◌, eq_refl,
}

-- What happened in the sessions, the last event first, each with the number of its session.
abbrev pub Schedule : Type 0
Schedule = List (ℕ × Event)

-- What one session sees of it.
abbrev pub events_of : ℕ → Schedule → List Event
events_of i [] = []
events_of i ((j, e) ∷ s) = if nat_eq j i then e ∷ events_of i s else events_of i s

-- The steps of the server for the lock of one name, and who holds it after them.
pub data Serves (k : Str) : Schedule → Option ℕ → Type 0 where
  idle : Serves k [] none
  grant : (i : ℕ) (s : Schedule) → Serves k s none → Serves k ((i, locked k) ∷ s) (some i)
  give_back : (i : ℕ) (s : Schedule) → Serves k s (some i) → Serves k ((i, released k) ∷ s) none
  pass :
      (i : ℕ) (e : Event) (s : Schedule) (h : Option ℕ)
      → touches k e ≡ false
      → Serves k s h
      → Serves k ((i, e) ∷ s) h

tail_eq : {x y : ℕ × Event} {s t : Schedule} → (x ∷ s) ≡ (y ∷ t) → s ≡ t
tail_eq h = cc h

some_eq : {A : Type 0} {x y : A} → some x ≡ some y → x ≡ y
some_eq h = cc h

Serves-tail :
    (k : Str) (x : ℕ × Event) (s t : Schedule) (h : Option ℕ)
    → Serves k s h
    → s ≡ (x ∷ t)
    → (g : Option ℕ) × Serves k t g
Serves-tail k x _ t _ idle e = cc e
Serves-tail k x _ t _ (grant i s v) e = (none, subst (λ u. Serves k u none) (tail_eq e) v)
Serves-tail k x _ t _ (give_back i s v) e = (some i, subst (λ u. Serves k u (some i)) (tail_eq e) v)
Serves-tail k x _ t _ (pass i a s h q v) e = (h, subst (λ u. Serves k u h) (tail_eq e) v)

-- Nothing is sent.
abbrev pub IsQuiet : Event → Type 0
IsQuiet e = (r : HttpRequest) → e ≢ sent r

module _ (k : Str) where
  abbrev pub phase_of : ℕ → Schedule → Phase
  phase_of i s = phase k (events_of i s)

  -- An event of this session, or of another one.
  abbrev here : ℕ → Bool → Event → List Event → List Event
  here i b e t = if b then e ∷ t else t

  -- Who works under the lock holds it.
  holds : (i : ℕ) (s : Schedule) (h : Option ℕ) → Serves k s h → phase_of i s ≡ working → h ≡ some i
  holds i _ _ idle p = cc p
  holds i _ _ (grant j s v) p = go (nat_eq j i) refl p (holds i s none v)
    where
      go :
          (b : Bool)
          → nat_eq j i ≡ b
          → phase k (here i b (locked k) (events_of i s)) ≡ working
          → (phase_of i s ≡ working → none ≡ some i)
          → some j ≡ some i
      go true e p ih = ap some ((nat_eq_iff j i).0 e)
      go false e p ih = cc (ih p)
  holds i _ _ (give_back j s v) p = go (nat_eq j i) refl p (holds i s (some j) v)
    where
      given :
          (b : Bool) → (k == k) ≡ b → (if b then leave (phase_of i s) else phase_of i s) ≢ working
      given true e p = leave-working (phase_of i s) p
      given false e p = cc (sym (eq_refl k) ∙ e)

      go :
          (b : Bool)
          → nat_eq j i ≡ b
          → phase k (here i b (released k) (events_of i s)) ≡ working
          → (phase_of i s ≡ working → some j ≡ some i)
          → none ≡ some i
      go true e p ih = absurd (given (k == k) refl p)
      go false e p ih = cc (sym ((nat_eq_iff j i).1 (some_eq (ih p))) ∙ e)
  holds i _ _ (pass j a s h q v) p = go (nat_eq j i) p (holds i s h v)
    where
      go :
          (b : Bool)
          → phase k (here i b a (events_of i s)) ≡ working
          → (phase_of i s ≡ working → h ≡ some i)
          → h ≡ some i
      go true p ih = elim (advance-working k a (phase_of i s) p) [
        | inl w ↦ ih w
        | inr (w, e) ↦ cc (sym (eq_refl k) ∙ ap (touches k) (sym e) ∙ q)
      ]
      go false p ih = ih p

  -- What is not yet under the lock was not before.
  was_waiting : (i : ℕ) (b a : Schedule) → phase_of i (b ++ a) ≡ waiting → phase_of i a ≡ waiting
  was_waiting i [] a p = p
  was_waiting i ((j, e) ∷ b) a p = was_waiting i b a (go (nat_eq j i) p)
    where
      go :
          (c : Bool)
          → phase k (here i c e (events_of i (b ++ a))) ≡ waiting
          → phase_of i (b ++ a) ≡ waiting
      go true p = advance-waiting k e _ p
      go false p = p

  -- Within the lock a session was under it throughout.
  was_working :
      (i j : ℕ) (e : Event) (b a : Schedule)
      → phase_of i ((j, e) ∷ b ++ a) ≡ working
      → phase_of i a ≡ working
      → phase_of i (b ++ a) ≡ working
  was_working i j e b a p q = go (nat_eq j i) p
    where
      go :
          (c : Bool)
          → phase k (here i c e (events_of i (b ++ a))) ≡ working
          → phase_of i (b ++ a) ≡ working
      go true p = elim (advance-working k e _ p) [
        | inl w ↦ w
        | inr (w, _) ↦ cc (sym (was_waiting i b a w) ∙ q)
      ]
      go false p = p

  was_sound :
      (j x : ℕ) (e : Event) (s : Schedule)
      → phase_of j ((x, e) ∷ s) ≢ astray
      → phase_of j s ≢ astray
  was_sound j x e s h p = go (nat_eq x j) h
    where
      go : (c : Bool) → phase k (here j c e (events_of j s)) ≢ astray → ⊥
      go true h = h (ap (advance k e) p ∙ advance-astray k e)
      go false h = h p

  -- Who sends works under the lock.
  was_sending :
      (j : ℕ) (e : Event) (r : HttpRequest) (t : List Event)
      → phase k (e ∷ t) ≢ astray
      → e ≡ sent r
      → phase k t ≡ working
  was_sending j e r t n f = work-astray (phase k t) λ p. n (ap (λ e. advance k e (phase k t)) f ∙ p)

  -- While one session is under the lock, no other one sends.
  quiet_lem :
      (i j : ℕ) (b a : Schedule) (h : Option ℕ)
      → i ≢ j
      → Serves k (b ++ a) h
      → phase_of i (b ++ a) ≡ working
      → phase_of i a ≡ working
      → phase_of j (b ++ a) ≢ astray
      → All IsQuiet (events_of j b)
  quiet_lem i j [] a h d v p q n = tt
  quiet_lem i j ((x, e) ∷ b) a h d v p q n =
      let (g, u) = Serves-tail k (x, e) _ (b ++ a) h v refl in
      let p' = was_working i x e b a p q in
      go (nat_eq x j) n (holds i (b ++ a) g u p') (holds j (b ++ a) g u)
        (quiet_lem i j b a g d u p' q (was_sound j x e (b ++ a) n))
    where
      go :
          (c : Bool)
          → {g : Option ℕ} → phase k (here j c e (events_of j (b ++ a))) ≢ astray
          → g ≡ some i
          → (phase_of j (b ++ a) ≡ working → g ≡ some j)
          → All IsQuiet (events_of j b)
          → All IsQuiet (here j c e (events_of j b))
      go true n one other rest = (
        λ r f. d (some_eq (sym one ∙ other (was_sending j e r (events_of j (b ++ a)) n f))),
        rest,
      )
      go false n one other rest = rest

  sound_suffix :
      (j : ℕ) (later s : Schedule) → phase_of j (later ++ s) ≢ astray → phase_of j s ≢ astray
  sound_suffix j [] s h = h
  sound_suffix j ((x, e) ∷ later) s h = sound_suffix j later s (was_sound j x e (later ++ s) h)

  Serves-suffix :
      (later s : Schedule) (h : Option ℕ) → Serves k (later ++ s) h → (g : Option ℕ) × Serves k s g
  Serves-suffix [] s h v = (h, v)
  Serves-suffix (x ∷ later) s h v =
      let (g, u) = Serves-tail k x _ (later ++ s) h v refl in Serves-suffix later s g u

  own_event : (i : ℕ) (e : Event) (s : Schedule) → events_of i ((i, e) ∷ s) ≡ e ∷ events_of i s
  own_event i e s = rw ((nat_eq_iff i i).1 refl) refl

  -- A session that does not go astray sends under the lock alone.
  sent_lem :
      (i : ℕ) (r : HttpRequest) (s : Schedule)
      → phase_of i ((i, sent r) ∷ s) ≢ astray
      → (phase_of i s ≡ working) × (phase_of i ((i, sent r) ∷ s) ≡ working)
  sent_lem i r s h =
      let own = ap (phase k) (own_event i (sent r) s) in
      let p = work-astray (phase_of i s) (λ q. h (own ∙ q)) in (p, own ∙ ap work p)

  -- Sessions that send under the lock alone do not send between two requests of one another.
  pub serial_lem :
      (i j : ℕ) (later between earlier : Schedule) (r r' : HttpRequest) (h : Option ℕ)
      → i ≢ j
      → Serves k (later ++ (i, sent r) ∷ (between ++ (i, sent r') ∷ earlier)) h
      → phase_of i (later ++ (i, sent r) ∷ (between ++ (i, sent r') ∷ earlier)) ≢ astray
      → phase_of j (later ++ (i, sent r) ∷ (between ++ (i, sent r') ∷ earlier)) ≢ astray
      → All IsQuiet (events_of j between)
  serial_lem i j later between earlier r r' h d v p q =
      let rest : Schedule = between ++ (i, sent r') ∷ earlier in
      let (_, v') = Serves-suffix later ((i, sent r) ∷ rest) h v in
      let (g, u) = Serves-tail k (i, sent r) _ rest _ v' refl in
      let p' = sound_suffix i later ((i, sent r) ∷ rest) p in
      let q' = sound_suffix j later ((i, sent r) ∷ rest) q in
      let first =
        sound_suffix i between ((i, sent r') ∷ earlier) (was_sound i i (sent r) rest p') in
      quiet_lem i j between ((i, sent r') ∷ earlier) g d u (sent_lem i r rest p').0
        (sent_lem i r' earlier first).1 (was_sound j i (sent r) rest q')
