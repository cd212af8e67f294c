-- ===== src/Export/Sample.antt =====
-- An encoding of rows in one line that loses nothing, and the parameters with it. Each character is
-- moved past the line break, and each text ends with a mark.
use backupos.Base.{
  ℕ, ◌+◌, ◌≡◌, refl, ap, false, Option, none, some, [], ◌∷◌, ◌++◌, Bytes, bytes_beq, bytes_eq,
  nat_eq, contains, arith,
}
use backupos.Export.{AuditEvent, ExportEnv}

abbrev pub from_nat : ℕ → Bytes
from_nat n = (n + 11) ∷ []

abbrev pub from_text : Bytes → Bytes
from_text [] = 11 ∷ []
from_text (c ∷ text) = (c + 12) ∷ from_text text

abbrev pub from_option : Option Bytes → Bytes
from_option none = 11 ∷ []
from_option (some text) = 12 ∷ from_text text

abbrev pub from_detail : AuditEvent → Bytes
from_detail e = from_option e.detail ++ from_nat e.created_at

abbrev pub from_actor : AuditEvent → Bytes
from_actor e = from_option e.actor ++ from_detail e

abbrev pub from_resource : AuditEvent → Bytes
from_resource e = from_option e.resource_id ++ from_actor e

abbrev pub from_kind : AuditEvent → Bytes
from_kind e = from_option e.resource_type ++ from_resource e

abbrev pub from_type : AuditEvent → Bytes
from_type e = from_text e.event_type ++ from_kind e

abbrev pub from_event : AuditEvent → Bytes
from_event e = from_nat e.id ++ from_nat e.tenant_id ++ from_type e

abbrev first : Bytes → ℕ
first [] = 0
first (c ∷ text) = c

from_nat-prefix : (n m : ℕ) (a b : Bytes) → from_nat n ++ a ≡ from_nat m ++ b → (n ≡ m) × (a ≡ b)
from_nat-prefix n m a b e = (omega (arith, ap (λ t. first t) e), cc)

from_text-prefix : (x y a b : Bytes) → from_text x ++ a ≡ from_text y ++ b → (x ≡ y) × (a ≡ b)
from_text-prefix [] [] a b e = (refl, cc)
from_text-prefix [] (d ∷ y) a b e = absurd (omega (arith, ap (λ t. first t) e))
from_text-prefix (c ∷ x) [] a b e = absurd (omega (arith, ap (λ t. first t) e))
from_text-prefix (c ∷ x) (d ∷ y) a b e =
    let (rest, after) = from_text-prefix x y a b cc in
    let heads : c ≡ d = omega (arith, ap (λ t. first t) e) in (cc, after)

from_option-prefix :
    (x y : Option Bytes) (a b : Bytes) → from_option x ++ a ≡ from_option y ++ b → (x ≡ y) × (a ≡ b)
from_option-prefix none none a b e = (refl, cc)
from_option-prefix none (some y) a b e = absurd (omega (arith, ap (λ t. first t) e))
from_option-prefix (some x) none a b e = absurd (omega (arith, ap (λ t. first t) e))
from_option-prefix (some x) (some y) a b e =
    let (same, after) = from_text-prefix x y a b cc in (ap some same, after)

from_text_one_line :
    (x rest : Bytes) → contains rest 10 ≡ false → contains (from_text x ++ rest) 10 ≡ false
from_text_one_line [] rest h = ground (arith, h)
from_text_one_line (c ∷ x) rest h = ground (arith, from_text_one_line x rest h)

from_option_one_line :
    (x : Option Bytes) (rest : Bytes)
    → contains rest 10 ≡ false
    → contains (from_option x ++ rest) 10 ≡ false
from_option_one_line none rest h = ground (arith, h)
from_option_one_line (some x) rest h = ground (arith, from_text_one_line x rest h)

pub from_event_one_line : (e : AuditEvent) → contains (from_event e) 10 ≡ false
from_event_one_line e =
    let last : contains (from_nat e.created_at) 10 ≡ false = ground arith in
    let detail = from_option_one_line e.detail (from_nat e.created_at) last in
    let actor = from_option_one_line e.actor (from_detail e) detail in
    let resource_id = from_option_one_line e.resource_id (from_actor e) actor in
    let resource_type = from_option_one_line e.resource_type (from_resource e) resource_id in
    let event_type = from_text_one_line e.event_type (from_kind e) resource_type in
    ground (arith, event_type)

pub from_event_injective : (e f : AuditEvent) → from_event e ≡ from_event f → e ≡ f
from_event_injective e f same =
    let (ids, a) =
      from_nat-prefix e.id f.id (from_nat e.tenant_id ++ from_type e)
        (from_nat f.tenant_id ++ from_type f) same in
    let (tenants, b) = from_nat-prefix e.tenant_id f.tenant_id (from_type e) (from_type f) a in
    let (types, c) = from_text-prefix e.event_type f.event_type (from_kind e) (from_kind f) b in
    let (kinds, d) =
      from_option-prefix e.resource_type f.resource_type (from_resource e) (from_resource f) c in
    let (resources, g) =
      from_option-prefix e.resource_id f.resource_id (from_actor e) (from_actor f) d in
    let (actors, h) = from_option-prefix e.actor f.actor (from_detail e) (from_detail f) g in
    let (details, i) =
      from_option-prefix e.detail f.detail (from_nat e.created_at) (from_nat f.created_at) h in
    let times : e.created_at ≡ f.created_at = omega (arith, ap (λ t. first t) i) in cc

abbrev pub plain : ExportEnv
plain = record {
  like = λ pattern text. bytes_beq pattern text;
  canonical = from_event;
  canonical_one_line = from_event_one_line;
  canonical_nonempty = λ e h. cc h;
  canonical_injective = from_event_injective;
  hmac = λ key body. key;
  hmac_hex = λ key body. body;
}
