-- ===== src/Sources/ZakupDetail/Keys.antt =====
-- The identities that infrastructure/sources/zakup_sk/parser.py makes, and their keys.
use Prim.Native.String
use Prim.Native.Char.{Char, code}
use package.text.Mathlib.TextLemmas.{cons-append, head-eq_of_cons-eq, append_cancel_left}
use govpars.Prelude.{
  String, ◌≡◌, refl, sym, ap, ◌∙◌, ◌≢◌, inl, inr, Bool, true, false, ◌&&◌, Option, none, some, [],
  ◌∷◌, arith, str_eq, eq_iff, Bool-cases, Option-cases,
}
use govpars.Domain.Errors.{Result, ok, raised, ◌>>=◌}
use govpars.Domain.Models.{
  zakup_sk, EntityType, lot, notice, plan_item, organization, EntityIdentity, source_eq,
  entity_type_eq, stable_key, entity_type_value, Organization,
}
use govpars.Sources.Json.{
  Json, null, boolean, integer, float, text, array, object, Fields, Python, pick, payload_of,
}
use govpars.Sources.ZakupParser.{identity, identity_under, required_id, or_text, source_id}
use govpars.Sources.ZakupDocuments.{
  FoundOrganization, organization_identity, organization_values, organization_in, organization_of,
}

-- An identity of the site and of this type.
abbrev pub is_zakup : EntityType → EntityIdentity → Bool
is_zakup t i = source_eq i.source zakup_sk && entity_type_eq i.entity_type t

pub identity-zakup :
    (py : Python) (fs : Fields) (t : EntityType) (fallback : Option String) (i : EntityIdentity)
    → identity py fs t fallback ≡ ok i
    → (i.source ≡ zakup_sk)
      × (i.entity_type ≡ t)
      × (or_text (source_id py fs t) fallback ≡ some i.source_entity_id)
unfolding identity identity_under required_id
identity-zakup py fs t fallback i h = elim (Option-cases (or_text (source_id py fs t) fallback)) [
  | inl n ↦ absurd (ground (arith, h, n))
  | inr (id, q) ↦ (ground (arith, h, q), ground (arith, h, q), ground (arith, h, q))
]

abbrev pub is_own : Option FoundOrganization → Bool
is_own none = true
is_own (some o) = is_zakup organization o.identity

made-own :
    (py : Python) (fs : Fields) (id : Json) (m : Result Organization) (o : Option FoundOrganization)
    → (m >>= λ values. ok (
        some (record {
          identity = organization_identity py fs id;
          fields = values;
          source_payload = payload_of py.dumps fs;
        })))
      ≡ ok o
    → is_own o ≡ true
unfolding organization_identity
made-own py fs id (ok values) none h = refl
made-own py fs id (ok values) (some o) h = ground (arith, h)
made-own py fs id (raised e) o h = absurd (ground (arith, h))

organization_in-own :
    (py : Python) (fs : Fields) (id : Json) (o : Option FoundOrganization)
    → organization_in py fs id ≡ ok o
    → is_own o ≡ true
unfolding organization_in
organization_in-own py fs null none h = refl
organization_in-own py fs null (some o) h = absurd (ground (arith, h))
organization_in-own py fs (boolean b) o h =
    made-own py fs (boolean b) (organization_values py fs) o h
organization_in-own py fs (integer n) o h =
    made-own py fs (integer n) (organization_values py fs) o h
organization_in-own py fs (float x) o h = made-own py fs (float x) (organization_values py fs) o h
organization_in-own py fs (text t) o h = made-own py fs (text t) (organization_values py fs) o h
organization_in-own py fs (array xs) o h = made-own py fs (array xs) (organization_values py fs) o h
organization_in-own py fs (object gs) o h =
    made-own py fs (object gs) (organization_values py fs) o h

pub organization_of-own :
    (py : Python) (v : Json) (o : Option FoundOrganization)
    → organization_of py v ≡ ok o
    → is_own o ≡ true
unfolding organization_of
organization_of-own py (object fs) o h =
    organization_in-own py fs (pick fs ("id" ∷ "companyId" ∷ "bin" ∷ "identifier" ∷ [])) o h
organization_of-own py v none h = refl
organization_of-own py null (some o) h = absurd (ground (arith, h))
organization_of-own py (boolean b) (some o) h = absurd (ground (arith, h))
organization_of-own py (integer n) (some o) h = absurd (ground (arith, h))
organization_of-own py (float x) (some o) h = absurd (ground (arith, h))
organization_of-own py (text t) (some o) h = absurd (ground (arith, h))
organization_of-own py (array xs) (some o) h = absurd (ground (arith, h))

-- Texts that differ in their first character differ with anything after them.
heads-differ :
    (c d : Char) (r s a b : String)
    → code c ≢ code d
    → String.◌++◌ (String.◌∷◌ c r) a ≢ String.◌++◌ (String.◌∷◌ d s) b
heads-differ c d r s a b n p =
    n (ap code (head-eq_of_cons-eq (sym (cons-append c r a) ∙ (p ∙ cons-append d s b))))

-- The keys of a procurement entity and of an organization of the site differ.
key_text-differs :
    (t : EntityType) (a b : String)
    → entity_type_eq t organization ≡ false
    → String.◌++◌ "organization" b ≢ String.◌++◌ (entity_type_value t) a
key_text-differs lot a b h =
    heads-differ "o" "l" "rganization" "ot" b a (λ e. absurd (omega (arith, e)))
key_text-differs notice a b h =
    heads-differ "o" "n" "rganization" "otice" b a (λ e. absurd (omega (arith, e)))
key_text-differs plan_item a b h =
    heads-differ "o" "p" "rganization" "lan_item" b a (λ e. absurd (omega (arith, e)))
key_text-differs organization a b h = absurd (ground (arith, h))

abbrev key_text : EntityType → String → String
key_text t id =
    String.◌++◌ "zakup-sk"
      (String.◌++◌ ":" (String.◌++◌ (entity_type_value t) (String.◌++◌ ":" id)))

pub key-organization :
    (i j : EntityIdentity) (t : EntityType)
    → i.source ≡ zakup_sk
    → i.entity_type ≡ t
    → entity_type_eq t organization ≡ false
    → is_zakup organization j ≡ true
    → str_eq (stable_key j) (stable_key i) ≡ false
unfolding stable_key
key-organization i j t si ti n own =
    let sj : j.source ≡ zakup_sk = ground (arith, own) in
    let tj : j.entity_type ≡ organization = ground (arith, own) in
    rw (si, ti, sj, tj)
      (elim (Bool-cases
        (str_eq (key_text organization j.source_entity_id) (key_text t i.source_entity_id))) [
          | inr differ ↦ differ
          | inl same ↦ absurd (
              key_text-differs t _ _ n (
                append_cancel_left ":" _ _ (
                  append_cancel_left "zakup-sk" _ _ (
                    (eq_iff (key_text organization j.source_entity_id)
                        (key_text t i.source_entity_id)).0
                      same))))
        ])
