-- ===== src/Filtering/Readable.antt =====
-- What `filter_records` keeps.
use cloudflare_manual_dns.Authz.Scope.{Rule, read}
use cloudflare_manual_dns.Authz.Scope.Grants.{Decided, match_rules_decides}
use cloudflare_manual_dns.Filtering.{is_readable, keep_if, filter_records}
use mathlib.Core.Path.{subst}
use cloudflare_manual_dns.Common.{
  ◌≡◌, refl, ◌⊎◌, inl, inr, Bool, true, false, List, [], ◌∷◌, All, In, Str, codes, Codec, Json,
  Fields, get, obj, >>=-eq-ok, ok_injective, dict_fields, dict_fields-ok, ok,
}

-- `out` is got from `records` by leaving some out.
pub data Picks : List Json → List Json → Type 0 where
  done : Picks [] []
  kept : {out records : List Json} (r : Json) → Picks out records → Picks (r ∷ out) (r ∷ records)
  left_out : {out records : List Json} (r : Json) → Picks out records → Picks out (r ∷ records)

module _ (c : Codec) (rules : List Rule) (zone_id : Str) where
  -- Whether a rule grants to read the record, by the description of what a rule grants: on the
  -- record's name, type and id.
  abbrev pub Reads : Bool → Json → Type 0
  Reads granted r =
      (fs : Fields) × (r ≡ obj fs)
      × Decided c rules zone_id (get (codes "name") fs) (get (codes "type") fs)
          (get (codes "id") fs) read granted

  pub record IsFiltered (records out : List Json) : Type 0 where
    pub order : Picks out records
    pub sound : All (Reads true) out
    pub complete : All (λ r. In r out ⊎ Reads false r) records

  is_readable-Reads :
      (r : Json) (granted : Bool) → is_readable c rules zone_id r ≡ ok granted → Reads granted r
  unfolding is_readable
  is_readable-Reads r granted h =
      let (fs, e, k) = >>=-eq-ok (dict_fields r) _ h in
      (
        fs,
        dict_fields-ok r fs e,
        match_rules_decides c rules zone_id (get (codes "name") fs) (get (codes "type") fs)
            (get (codes "id") fs) read granted k,
      )

  In-cons :
      (r : Json) (out records : List Json)
      → All (λ x. In x out ⊎ Reads false x) records
      → All (λ x. In x (r ∷ out) ⊎ Reads false x) records
  In-cons r out [] h = tt
  In-cons r out (x ∷ records) (inl i, h) = (inl (inr i), In-cons r out records h)
  In-cons r out (x ∷ records) (inr i, h) = (inr i, In-cons r out records h)

  filter_step :
      (r : Json) (records out : List Json) (hit : Bool)
      → Reads hit r
      → IsFiltered records out
      → IsFiltered (r ∷ records) (keep_if hit r out)
  filter_step r records out true e f = record {
    order = kept r f.order;
    sound = (e, f.sound);
    complete = (inl (inl refl), In-cons r out records f.complete);
  }
  filter_step r records out false e f = record {
    order = left_out r f.order;
    sound = f.sound;
    complete = (inr e, f.complete);
  }

  -- A filtered list that is returned keeps the order of the records, holds only dictionaries on whose
  -- name, type and id some rule grants to read, and misses only those on which no rule does.
  pub filter_records-IsFiltered :
      (records out : List Json)
      → filter_records c records rules zone_id ≡ ok out
      → IsFiltered records out
  unfolding filter_records
  filter_records-IsFiltered [] out h =
      let same : [] ≡ out = ok_injective h in
      subst (λ o. IsFiltered [] o) same (record { order = done; sound = tt; complete = tt })
  filter_records-IsFiltered (r ∷ records) out h =
      let (hit, e, h') = >>=-eq-ok (is_readable c rules zone_id r) _ h in
      let (rest, f, k) = >>=-eq-ok (filter_records c records rules zone_id) _ h' in
      subst (IsFiltered (r ∷ records)) (ok_injective k) (
        filter_step r records rest hit (is_readable-Reads r hit e)
          (filter_records-IsFiltered records rest f))
