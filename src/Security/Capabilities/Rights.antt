-- ===== src/Security/Capabilities/Rights.antt =====
-- security/capabilities.py: what `grant` and `delegate` make of the rights that they are given.
use data_py_os.Base.{
  ℕ, ◌<◌, ◌≡◌, refl, sym, ap, ◌∙◌, inl, inr, true, ◌||◌, Option, List, [], ◌∷◌, ◌++◌, arith,
  if◌then◌else◌, Bool-cases,
}
use data_py_os.Base.Eq.{◌==◌, text_eq, text_beq_iff, Text}
use data_py_os.Base.Order.{sort_texts, insert_text}
use data_py_os.Base.Lists.{elem, keep, elem-keep}
use data_py_os.Security.Capabilities.Types.{
  Capability, make, known_rights, all_rights, right_admin, can_delegate,
}
use data_py_os.Security.Capabilities.Methods.{delegation}

elem-insert_text : (r a : Text) (xs : List Text) → elem r (insert_text a xs) ≡ (r == a || elem r xs)
elem-insert_text r a [] = refl
elem-insert_text r a (x ∷ xs) = ground (arith, elem-insert_text r a xs)

elem-sort_texts : (r : Text) (xs : List Text) → elem r (sort_texts xs) ≡ elem r xs
elem-sort_texts r [] = refl
elem-sort_texts r (x ∷ xs) =
    elem-insert_text r x (sort_texts xs) ∙ ap (λ b. r == x || b) (elem-sort_texts r xs)

elem-append : (r : Text) (xs ys : List Text) → elem r (xs ++ ys) ≡ (elem r xs || elem r ys)
elem-append r [] ys = refl
elem-append r (x ∷ xs) ys = ground (arith, elem-append r xs ys)

elem-admin :
    (r : Text) (rights : List Text)
    → elem r (if elem right_admin rights then right_admin ∷ [] else []) ≡ true
    → elem r rights ≡ true
elem-admin r rights h = elim (Bool-cases (elem right_admin rights)) [
  | inr out ↦ absurd (cc (rw out at h))
  | inl here ↦
      let same : r ≡ right_admin =
        (text_beq_iff r right_admin).0 (ground (arith, (rw here at h))) in
      rw same here
]

-- A granted right was asked for.
elem-known_rights :
    (r : Text) (rights : List Text) → elem r (known_rights rights) ≡ true → elem r rights ≡ true
unfolding known_rights
elem-known_rights r rights h =
    let asked = keep (λ q. elem q rights) all_rights in
    let admin = if elem right_admin rights then right_admin ∷ [] else [] in
    let parts = sym (elem-append r asked admin) ∙ sym (elem-sort_texts r (asked ++ admin)) ∙ h in
    elim (Bool-cases (elem r asked)) [
      | inl e ↦ ground (arith, elem-keep r (λ q. elem q rights) all_rights, e)
      | inr e ↦ elem-admin r rights (rw e at parts)
    ]

-- No more rights, less depth and the same target.
pub record Attenuates (cap parent : Capability) : Type 0 where
  pub rights : (r : Text) → elem r cap.rights ≡ true → elem r parent.rights ≡ true
  pub depth : cap.delegate_depth < parent.delegate_depth
  pub target : cap.target_path ≡ parent.target_path

pub make-Attenuates :
    (parent_token : Text) (rights : List Text) (owner : Text) (ttl : Option ℕ) (now : ℕ)
    (token oid : Text) (parent : Capability)
    → can_delegate now parent ≡ true
    → Attenuates (make (delegation parent_token rights owner ttl now token parent) oid) parent
unfolding can_delegate
make-Attenuates parent_token rights owner ttl now token oid parent ok = record {
  rights = λ r h. ground (
    arith,
    elem-keep r (λ q. elem q parent.rights) rights,
    elem-known_rights r (keep (λ q. elem q parent.rights) rights) h,
  );
  depth = ground (arith, ok);
  target = refl;
}
