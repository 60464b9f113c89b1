-- ===== src/Security/Capabilities/Tests.antt =====
-- security/capabilities.py: the theorems at concrete inputs.
use data_py_os.Base.{suc, ◌≤◌, ◌≡◌, ◌↔◌, refl, ap, true, false, none, some, [], ◌∷◌, arith}
use data_py_os.Base.Eq.{text_eq, text_beq, text_beq_iff, Text, chars}
use data_py_os.Base.Order.{text_ltb}
use data_py_os.Base.Dict.{Dict, lookup}
use data_py_os.Base.Lists.{elem}
use data_py_os.Store.Sos.Types
use data_py_os.Store.Sos.Types.{Host}
use data_py_os.Security.Capabilities.Types.{
  Capability, Json, Caps, make, can_delegate, has_right, is_valid, known_rights, covers,
}
use data_py_os.Store.Paths.{starts_with}
use data_py_os.Security.Capabilities.Methods
use data_py_os.Security.Capabilities.Methods.{
  grant, delegate, delegate_found, delegation, revoke, check, check_found, use_right,
}
use data_py_os.Security.Capabilities.Cascade.{Closed, active, parent_in}
use data_py_os.Security.Capabilities.Revoking.{
  NoExcept, Descends, itself, child, revoke_descendants,
}
use data_py_os.Security.Capabilities.Rights.{Attenuates}
use data_py_os.Security.Capabilities.Delegating.{
  Sound, Fresh, delegate-Attenuates, delegated_rights,
}
use data_py_os.Security.Capabilities.Checking.{Permits, check_iff}

-- A host whose digest is the content itself and whose texts are their bytes.
instance abbrev plain : Host
plain = record { hexdigest = λ b. b; encode = λ t. t; decode = λ b. b }

instance abbrev json : Json
json = record { dumps = λ cap. cap.token; loads = λ t. none }

abbrev a : Text
a = 97 ∷ []

abbrev b : Text
b = 98 ∷ []

abbrev top : Capability
top =
    make
      (record {
        target_path = chars "/x";
        rights = chars "read" ∷ chars "grant" ∷ [];
        owner = chars "root";
        ttl = none;
        delegate_depth = 2;
        parent_token = none;
        now = 1;
        token = a;
      })
      (chars "0")

abbrev caps : Caps
caps = record { sos = Types.init; cache = (a, top) ∷ [] }

top_live : (d : Dict Text Capability) → d ≡ (a, top) ∷ [] → Sound d
top_live d e = rw e (record {
  filed = record { own = λ k cap is. ground (arith, text_beq_iff k a) };
  closed = record { follows = λ k p is dead. ground (arith, text_beq_iff k a) };
  attenuated = record { less = λ k p cap parent e is e'. ground (arith, text_beq_iff k a) };
})

b_unnamed : Fresh b caps.cache
unfolding text_beq
b_unnamed = record { absent = refl; unnamed = λ k e. ground (arith, text_beq_iff k a) }

abbrev lesser : Capability
lesser =
    (grant (delegation a (chars "read" ∷ chars "write" ∷ []) (chars "ann") none 3 b top) caps).0

allowed :
    (delegate a (chars "read" ∷ chars "write" ∷ []) (chars "ann") none 3 b caps).0 ≡ some lesser
unfolding delegate delegate_found can_delegate has_right is_valid text_beq known_rights text_ltb
allowed = refl

abbrev shared : Caps
shared = (delegate a (chars "read" ∷ chars "write" ∷ []) (chars "ann") none 3 b caps).1

delegate-Attenuates_example :
    (parent : Capability) × (lookup a caps.cache ≡ some parent)
    × (can_delegate 3 parent ≡ true)
    × Sound shared.cache
    × (lookup b shared.cache ≡ some lesser)
    × (lesser.parent_token ≡ some a)
    × (lesser.revoked ≡ false)
    × Attenuates lesser parent
delegate-Attenuates_example =
    delegate-Attenuates a (chars "read" ∷ chars "write" ∷ []) (chars "ann") none 3 b caps lesser
      (top_live caps.cache refl) b_unnamed allowed

shared-Sound : Sound shared.cache
shared-Sound =
    (delegate-Attenuates a (chars "read" ∷ chars "write" ∷ []) (chars "ann") none 3 b caps lesser
      (top_live caps.cache refl) b_unnamed allowed).3

b_found : lookup b shared.cache ≡ some lesser
b_found =
    (delegate-Attenuates a (chars "read" ∷ chars "write" ∷ []) (chars "ann") none 3 b caps lesser
      (top_live caps.cache refl) b_unnamed allowed).4

a_found : lookup a shared.cache ≡ some top
unfolding delegate delegate_found can_delegate has_right is_valid text_beq grant Methods.save
    known_rights text_ltb
a_found = refl

b-Descends : Descends shared.cache a b
unfolding grant
b-Descends = child b a (ap parent_in b_found) itself

read_kept : elem (chars "read") lesser.rights ≡ true
unfolding grant text_beq known_rights text_ltb
read_kept = refl

delegated_rights_example :
    (elem (chars "read") top.rights ≡ true)
    × (lesser.delegate_depth ≤ top.delegate_depth)
    × (lesser.target_path ≡ top.target_path)
delegated_rights_example =
    delegated_rights a (chars "read" ∷ chars "write" ∷ []) (chars "ann") none 3 b caps lesser a top
      (chars "read") (top_live caps.cache refl) b_unnamed allowed b-Descends a_found read_kept

revoke_descendants_example :
    (m' : Caps) × (revoke (suc (active shared.cache)) 5 a shared ≡ some (true, m'))
    × Closed NoExcept m'.cache
    × (check 6 b (chars "read") (chars "/x/y") m' ≡ (false, m'))
revoke_descendants_example =
    revoke_descendants 5 6 a top shared b (chars "read") (chars "/x/y") shared-Sound.filed
      shared-Sound.closed a_found b-Descends

granted : (check 2 a (chars "read") (chars "/x/y") caps).0 ≡ true
unfolding check check_found use_right has_right is_valid text_beq covers starts_with known_rights
    text_ltb
granted = refl

check_iff_example : ((check 2 a (chars "read") (chars "/x/y") caps).0 ≡ true) ↔ (
    (cap : Capability) × (lookup a caps.cache ≡ some cap)
    × Permits 2 (chars "read") (chars "/x/y") cap)
check_iff_example = check_iff 2 a (chars "read") (chars "/x/y") caps
