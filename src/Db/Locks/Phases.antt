-- ===== src/Db/Locks/Phases.antt =====
-- The lock of src/cfproxy/db/locks.py as one request sees it: before, under and after the lock of
-- one name. To send a request outside of the lock leads astray.
use cloudflare_manual_dns.Runtime.{Event, sent, locked, released}
use cloudflare_manual_dns.Common.{
  ◌≡◌, refl, ap, ◌≢◌, ◌⊎◌, inl, inr, Bool, true, false, List, [], ◌∷◌, if◌then◌else◌, Str, ◌==◌,
  eq_iff,
}

pub data Phase : Type 0 where
  waiting : Phase
  working : Phase
  finished : Phase
  astray : Phase

abbrev pub enter : Phase → Phase
enter waiting = working
enter p = astray

abbrev pub work : Phase → Phase
work working = working
work p = astray

abbrev pub leave : Phase → Phase
leave working = finished
leave p = astray

abbrev pub advance : Str → Event → Phase → Phase
advance k (locked name) p = if name == k then enter p else p
advance k (released name) p = if name == k then leave p else p
advance k (sent r) p = work p
advance k e p = p

-- The phase after these events, the last one first.
abbrev pub phase : Str → List Event → Phase
phase k [] = waiting
phase k (e ∷ t) = advance k e (phase k t)

abbrev pub touches : Str → Event → Bool
touches k (locked name) = name == k
touches k (released name) = name == k
touches k e = false

enter-working : (p : Phase) → enter p ≡ working → p ≡ waiting
enter-working waiting h = refl
enter-working working h = cc h
enter-working finished h = cc h
enter-working astray h = cc h

pub leave-working : (p : Phase) → leave p ≢ working
leave-working waiting h = cc h
leave-working working h = cc h
leave-working finished h = cc h
leave-working astray h = cc h

enter-waiting : (p : Phase) → enter p ≢ waiting
enter-waiting waiting h = cc h
enter-waiting working h = cc h
enter-waiting finished h = cc h
enter-waiting astray h = cc h

leave-waiting : (p : Phase) → leave p ≢ waiting
leave-waiting waiting h = cc h
leave-waiting working h = cc h
leave-waiting finished h = cc h
leave-waiting astray h = cc h

work-waiting : (p : Phase) → work p ≢ waiting
work-waiting waiting h = cc h
work-waiting working h = cc h
work-waiting finished h = cc h
work-waiting astray h = cc h

pub work-astray : (p : Phase) → work p ≢ astray → p ≡ working
work-astray working h = refl
work-astray waiting h = absurd (h refl)
work-astray finished h = absurd (h refl)
work-astray astray h = absurd (h refl)

work_back : (p : Phase) → work p ≡ working → p ≡ working
work_back working h = refl
work_back waiting h = cc h
work_back finished h = cc h
work_back astray h = cc h

-- An event under the lock comes after one under the lock, or is the lock itself.
pub advance-working :
    (k : Str) (e : Event) (p : Phase)
    → advance k e p ≡ working
    → (p ≡ working) ⊎ ((p ≡ waiting) × (e ≡ locked k))
advance-working k (locked name) p h = go (name == k) refl h
  where
    go :
        (b : Bool)
        → (name == k) ≡ b
        → (if b then enter p else p) ≡ working
        → (p ≡ working) ⊎ ((p ≡ waiting) × (locked name ≡ locked k))
    go true e h = inr (enter-working p h, ap locked ((eq_iff name k).0 e))
    go false e h = inl h
advance-working k (released name) p h = go (name == k) h
  where
    go :
        (b : Bool)
        → (if b then leave p else p) ≡ working
        → (p ≡ working) ⊎ ((p ≡ waiting) × (released name ≡ locked k))
    go true h = absurd (leave-working p h)
    go false h = inl h
advance-working k (sent r) p h = inl (work_back p h)
advance-working k e p h = inl h

pub advance-waiting : (k : Str) (e : Event) (p : Phase) → advance k e p ≡ waiting → p ≡ waiting
advance-waiting k (locked name) p h = go (name == k) h
  where
    go : (b : Bool) → (if b then enter p else p) ≡ waiting → p ≡ waiting
    go true h = absurd (enter-waiting p h)
    go false h = h
advance-waiting k (released name) p h = go (name == k) h
  where
    go : (b : Bool) → (if b then leave p else p) ≡ waiting → p ≡ waiting
    go true h = absurd (leave-waiting p h)
    go false h = h
advance-waiting k (sent r) p h = absurd (work-waiting p h)
advance-waiting k e p h = h

pub advance-astray : (k : Str) (e : Event) → advance k e astray ≡ astray
advance-astray k (locked name) = go (name == k)
  where
    go : (b : Bool) → (if b then astray else astray) ≡ astray
    go true = refl
    go false = refl
advance-astray k (released name) = go (name == k)
  where
    go : (b : Bool) → (if b then astray else astray) ≡ astray
    go true = refl
    go false = refl
advance-astray k (sent r) = refl
advance-astray k e = refl
